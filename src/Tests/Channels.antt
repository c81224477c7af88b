-- ===== src/Tests/Channels.antt =====
-- The channels of MacHyperVSupport/VMBus at concrete inputs.
use mac_hyper_vsupport.Common.{
  ℕ, zero, suc, ◌*◌, ◌<◌, ◌≡◌, refl, arith, [], true, none, some, ltb, if◌then◌else◌, Option, false,
}
use mac_hyper_vsupport.Transfer.{success}
use mac_hyper_vsupport.Vmbus.Post.{
  HypercallStatus, done, insufficient_memory, insufficient_buffers, post_loop, IsBusy, post_message,
  post_message_decided,
}
use mac_hyper_vsupport.Vmbus.Gpadl.{DmaBuffer, GpadlResult, posted, init_gpadl}
use mac_hyper_vsupport.Vmbus.Gpadl.Pages.{Covers, init_gpadl-Covers}
use mac_hyper_vsupport.Vmbus.Channels.{
  Vmbus, Channel, closed, Offer, OpenHost, open_channel, add_device,
}
use mac_hyper_vsupport.Vmbus.Channels.Layout.{CanOpen, Opened, open_channel-Opened}
use mac_hyper_vsupport.Vmbus.Channels.Ready.{IsReady, closed≢opened}
use mac_hyper_vsupport.Vmbus.Channels.Lifecycle.{start, then_step, opens, adds, Reach-IsReady}
use mac_hyper_vsupport.Vmbus.Connect.{
  ConnectResponse, Connection, Connected, connect_vmbus, connect_vmbus-Connected, vmbus_versions,
  connect_loop, negotiate_vmbus,
}

-- Two busy answers, then success.
abbrev two_busy : ℕ → HypercallStatus
two_busy zero = insufficient_memory
two_busy (suc zero) = insufficient_buffers
two_busy _ = done

posts_third : post_message two_busy ≡ (success, 3)
unfolding post_message post_loop
posts_third = refl

two_busy_first : (k : ℕ) → k < 2 → IsBusy (two_busy k)
two_busy_first zero h = tt
two_busy_first (suc zero) h = tt
two_busy_first (suc (suc k)) h = absurd (omega arith)

post_message_decided_example : post_message two_busy ≡ (success, 3)
post_message_decided_example = post_message_decided two_busy 2 (omega arith) two_busy_first (λ b. b)

-- 30 pages: one header message and one body.
abbrev thirty_pages : DmaBuffer
thirty_pages = record { phys_addr = 40960; size = 122880 }

init_gpadl-Covers_example :
    (r : GpadlResult) × (init_gpadl (λ k. posted) 0 77 3 (some thirty_pages) ≡ some r)
    × (r.status ≡ success)
    × (r.gpadl_handle ≡ some 77)
    × Covers 10 30 r.messages
init_gpadl-Covers_example =
    init_gpadl-Covers (λ k. posted) 77 3 30 thirty_pages (λ k. refl) (omega arith) (omega arith)
      refl (omega arith) (omega arith)

abbrev most_pages : DmaBuffer
most_pages = record { phys_addr = 40960; size = 33554432 }

abbrev offer : Offer
offer = record {
  type_guid = 0;
  instance_guid = 0;
  mmio_size_megabytes = 0;
  channel_id = 3;
  dedicated_interrupt = 1;
  connection_id = 9;
}

abbrev channel : Channel
channel = record {
  status = closed;
  offer = offer;
  use_dedicated_interrupt = true;
  connection_signal_id = 9;
  data_gpadl_handle = 0;
  data_buffer = none;
  event_buffer = none;
  rx_page_index = 0;
  tx_buffer = none;
  rx_buffer = none;
  has_device_nub = true;
}

abbrev table : Vmbus
table = record {
  channels = λ k. channel;
  next_gpadl_handle = 77;
  version = 65536;
  posted_messages = [];
}

abbrev answering : OpenHost
answering = record {
  data_allocated = true;
  event_allocated = true;
  data_addr = 40960;
  event_addr = 4096;
  delivery = λ k. posted;
  created = 0;
  open_posted = true;
  open_status = 0;
}

table-CanOpen : CanOpen table 3 16 8 answering
table-CanOpen = record {
  id_pos = omega arith;
  id_small = omega arith;
  tx_pos = omega arith;
  rx_pos = omega arith;
  total = omega arith;
  allocated = refl;
  is_closed = refl;
  addr = omega arith;
  delivery = λ k. refl;
  created = refl;
  open_posted = refl;
  open_status = refl;
}

open_channel-Opened_example :
    Opened table 3 8 (open_channel table 3 (16 * 4096) true (8 * 4096) true answering)
open_channel-Opened_example = open_channel-Opened table 3 16 8 answering table-CanOpen

opening : Opened table 3 8 (open_channel table 3 65536 true 32768 true answering)
opening = open_channel-Opened table 3 16 8 answering table-CanOpen

-- The channel is opened, and the offer that comes again changes nothing.
Reach-IsReady_example : IsReady (add_device true offer opening.after).1
Reach-IsReady_example =
    Reach-IsReady
      (then_step (then_step start (opens 3 65536 32768 true true answering _ opening.result))
        (adds true offer))
      (λ k. closed≢opened)

-- A host that knows versions up to Windows 8.
abbrev answers_old : ℕ → Option ConnectResponse
answers_old v =
    if ltb 0x20004 v
    then some (record { supported = 0; connection_id = 0 })
    else some (record { supported = 1; connection_id = 0 })

abbrev unconnected : Connection
unconnected = record {
  version = 0;
  message_connection_id = 0;
  use_legacy_event_flags = false;
  interrupts_enabled = false;
}

connects_to : (connect_vmbus answers_old unconnected).1.version ≡ 0x20004
unfolding connect_vmbus connect_loop negotiate_vmbus
connects_to = refl

connect_vmbus-Connected_example :
    Connected answers_old vmbus_versions (connect_vmbus answers_old unconnected)
connect_vmbus-Connected_example = connect_vmbus-Connected answers_old unconnected
