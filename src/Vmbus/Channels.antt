-- ===== src/Vmbus/Channels.antt =====
-- The channel table of MacHyperVSupport/VMBus: `VMBusChannel`, its opening and closing
-- (HyperVVMBusChannel.cpp), and the offers that fill it (HyperVVMBus.cpp). What the host answers,
-- and whether I/O Kit takes a nub, are arguments.
pub mod Layout
pub mod Ready
pub mod Lifecycle
use mac_hyper_vsupport.Common.{
  ℕ, ◌*◌, ◌/◌, ◌%◌, List, ◌∷◌, Bool, true, false, ◌||◌, not, ltb, leb, ◌==◌, if◌then◌else◌, Option,
  none, some, add32, sub32, to_u16,
}
use mac_hyper_vsupport.Transfer.{
  IoReturn, success, bad_argument, not_aligned, not_attached, still_open, io_error,
}
use mac_hyper_vsupport.Vmbus.{
  page_size, max_channels, status_success, MessageType, channel_open, channel_close, channel_free,
  gpadl_teardown,
}
use mac_hyper_vsupport.Vmbus.Gpadl.{DmaBuffer, Delivery, GpadlResult, init_gpadl}

-- `VMBusChannelStatus`.
pub data ChannelStatus : Type 0 where
  not_present : ChannelStatus
  closed : ChannelStatus
  opened : ChannelStatus

-- `VMBusChannelMessageChannelOffer`, the fields that the driver reads.
pub record Offer : Type 0 where
  pub type_guid : ℕ
  pub instance_guid : ℕ
  pub mmio_size_megabytes : ℕ
  pub channel_id : ℕ
  pub dedicated_interrupt : ℕ
  pub connection_id : ℕ

-- `VMBusChannel`. The ring pointers are offsets from the start of
-- `data_buffer`, or from 0 without one; `none` is null.
pub record Channel : Type 0 where
  pub status : ChannelStatus
  pub offer : Offer
  pub use_dedicated_interrupt : Bool
  pub connection_signal_id : ℕ
  pub data_gpadl_handle : ℕ
  pub data_buffer : Option DmaBuffer
  pub event_buffer : Option DmaBuffer
  pub rx_page_index : ℕ
  pub tx_buffer : Option ℕ
  pub rx_buffer : Option ℕ
  pub has_device_nub : Bool

-- `HyperVVMBus`, as far as its channels go, with the messages posted, the last one first.
pub record Vmbus : Type 0 where
  pub channels : ℕ → Channel
  pub next_gpadl_handle : ℕ
  pub version : ℕ
  pub posted_messages : List (MessageType × ℕ)

unfoldable pub set_channel : ℕ → Channel → Vmbus → Vmbus
set_channel id c vb = record vb { channels = λ k. if k == id then c else vb.channels k }

-- A message without more than its channel, if it can be posted.
abbrev pub post : Bool → MessageType → ℕ → Vmbus → Vmbus
post posts m id vb =
    if posts then record vb { posted_messages = (m, id) ∷ vb.posted_messages } else vb

abbrev pub bad_channel_id : ℕ → Bool
bad_channel_id id = id == 0 || leb max_channels id

-- `getVMBusChannelStatus`.
unfoldable pub get_channel_status : Vmbus → ℕ → ChannelStatus
get_channel_status vb id = if bad_channel_id id then not_present else (vb.channels id).status

-- What is outside while a channel is opened: whether the buffers can be allocated and where they
-- lie, what becomes of the GPADL messages and of the open message, and the status of both
-- responses.
pub record OpenHost : Type 0 where
  pub data_allocated : Bool
  pub event_allocated : Bool
  pub data_addr : ℕ
  pub event_addr : ℕ
  pub delivery : ℕ → Delivery
  pub created : ℕ
  pub open_posted : Bool
  pub open_status : ℕ

-- The status, the ring pointers handed out, the first of which may be null, and the controller
-- behind an opening.
abbrev pub Opening : Type 0
Opening = IoReturn × Option (Option ℕ × ℕ) × Vmbus

-- The sizes with the page for each ring's state header, and the page where `rxBuffer` is put.
abbrev pub ring_size : ℕ → ℕ
ring_size buffer_size = add32 buffer_size page_size

abbrev pub rx_page_index_of : ℕ → ℕ → ℕ
rx_page_index_of tx_size rx_size = to_u16 (
    sub32 (add32 (ring_size tx_size) (ring_size rx_size) / page_size)
      (ring_size tx_size / page_size))

-- `allocateDmaBuffer`, whose result is not looked at: on failure the buffer is as it was.
abbrev pub allocated_buffer : Bool → DmaBuffer → Option DmaBuffer → Option DmaBuffer
allocated_buffer true new old = some new
allocated_buffer false new old = old

-- The fields of a buffer, zero for one that is not allocated.
abbrev pub dma_fields : Option DmaBuffer → DmaBuffer
dma_fields none = record { phys_addr = 0; size = 0 }
dma_fields (some b) = b

-- `dataBuffer.buffer`, as the start of the transmit ring.
abbrev pub start_of : Option DmaBuffer → Option ℕ
start_of none = none
start_of (some b) = some 0

-- `freeDmaBuffer` on both buffers.
abbrev pub free_buffers : Channel → Channel
free_buffers c = record c { data_buffer = none; event_buffer = none }

abbrev pub handle_or : ℕ → Option ℕ → ℕ
handle_or d none = d
handle_or d (some h) = h

-- Behind the GPADL: the pointers, and the open message with its response.
unfoldable pub finish_open : Vmbus → ℕ → Channel → ℕ → ℕ → OpenHost → Opening
finish_open vb id c tx_size rx_size host =
    let index = rx_page_index_of tx_size rx_size in
    let c₁ = record c {
      tx_buffer = start_of c.data_buffer;
      rx_buffer = some (page_size * index);
      rx_page_index = index;
    } in
    let vb₁ = post host.open_posted channel_open id vb in
    if not host.open_posted
    then (io_error, none, set_channel id (free_buffers c₁) vb₁)
    else (if not (host.open_status == status_success)
        then (io_error, none, set_channel id c₁ vb₁)
        else (
          success,
          some (start_of c.data_buffer, page_size * index),
          set_channel id (record c₁ { status = opened }) vb₁,
        ))

-- Behind the allocations: the GPADL, and what follows it.
unfoldable pub open_with_buffers : Vmbus → ℕ → Channel → ℕ → ℕ → OpenHost → GpadlResult → Opening
open_with_buffers vb id c tx_size rx_size host g =
    let vb₁ = record vb { next_gpadl_handle = g.next_gpadl_handle } in
    let c₁ = record c { data_gpadl_handle = handle_or c.data_gpadl_handle g.gpadl_handle } in
    elim g.status [
      | success ↦ finish_open vb₁ id c₁ tx_size rx_size host
      | e ↦ (e, none, set_channel id (free_buffers c₁) vb₁)
    ]

-- `openVMBusChannel`; the Booleans tell whether the caller's pointers are there, and `none` is the
-- end of the GPADL loop's fuel.
unfoldable pub open_channel : Vmbus → ℕ → ℕ → Bool → ℕ → Bool → OpenHost → Option Opening
open_channel vb id tx_size has_tx rx_size has_rx host =
    let c = vb.channels id in
    let data_new : DmaBuffer = record {
      phys_addr = host.data_addr;
      size = add32 (ring_size tx_size) (ring_size rx_size);
    } in
    let event_new : DmaBuffer = record { phys_addr = host.event_addr; size = page_size } in
    let ring_memory = allocated_buffer host.data_allocated data_new c.data_buffer in
    let event_memory = allocated_buffer host.event_allocated event_new c.event_buffer in
    let c₁ = record c { data_buffer = ring_memory; event_buffer = event_memory } in
    if bad_channel_id id || tx_size == 0 || not has_tx || rx_size == 0 || not has_rx
    then some (bad_argument, none, vb)
    else (if not (tx_size % page_size == 0) || not (rx_size % page_size == 0)
        then some (not_aligned, none, vb)
        else elim c.status [
          | opened ↦ some (still_open, none, vb)
          | not_present ↦ some (not_attached, none, vb)
          | closed ↦
              elim (init_gpadl host.delivery host.created vb.next_gpadl_handle id
                (some (dma_fields ring_memory))) [
                  | none ↦ none
                  | some g ↦ some (open_with_buffers vb id c₁ tx_size rx_size host g)
                ]
        ])

-- `freeVMBusChannelGPADL`: the host's answer changes nothing.
unfoldable pub free_gpadl : Bool → ℕ → ℕ → Vmbus → IoReturn × Vmbus
free_gpadl posts id handle vb =
    if bad_channel_id id then (bad_argument, vb) else (success, post posts gpadl_teardown id vb)

-- `closeVMBusChannel`; the Booleans tell whether its two messages can be posted.
unfoldable pub close_channel : Bool → Bool → ℕ → Vmbus → IoReturn × Vmbus
close_channel close_posts teardown_posts id vb =
    let c = vb.channels id in
    let vb₁ = post close_posts channel_close id vb in
    let vb₂ = (free_gpadl teardown_posts id c.data_gpadl_handle vb₁).1 in
    if bad_channel_id id then (bad_argument, vb) else elim c.status [
      | closed ↦ (success, vb)
      | not_present ↦ (not_attached, vb)
      | opened ↦ (
        success,
        set_channel id
            (free_buffers
              (record c { status = closed; rx_page_index = 0; tx_buffer = none; rx_buffer = none }))
            vb₂,
      )
    ]

-- `freeVMBusChannel`.
unfoldable pub free_channel : Bool → ℕ → Vmbus → Vmbus
free_channel posts id vb =
    set_channel id (record (vb.channels id) { status = not_present })
      (post posts channel_free id vb)

-- `kVMBusVersionWS2008`, `kVMBusConnIdEvent`.
abbrev pub version_ws2008 : ℕ
version_ws2008 = 13

abbrev pub conn_id_event : ℕ
conn_id_event = 2

-- How the host is signalled: from Windows 7 on as the offer says.
abbrev pub with_signalling : ℕ → Channel → Channel
with_signalling version c =
    if ltb version_ws2008 version
    then record c {
      use_dedicated_interrupt = not (c.offer.dedicated_interrupt == 0);
      connection_signal_id = c.offer.connection_id;
    }
    else record c { use_dedicated_interrupt = false; connection_signal_id = conn_id_event }

-- `addVMBusDevice`, with `registerVMBusDevice`'s outcome and `cleanupVMBusDevice`.
unfoldable pub add_device : Bool → Offer → Vmbus → Bool × Vmbus
add_device registers offer vb =
    let c = vb.channels offer.channel_id in
    let c₁ = record c { offer = offer; status = closed } in
    if leb max_channels offer.channel_id then (false, vb) else elim c.status [
      | closed ↦ (false, vb)
      | opened ↦ (false, vb)
      | not_present ↦
          if registers
          then (
            true,
            set_channel offer.channel_id
                (with_signalling vb.version (record c₁ { has_device_nub = true })) vb,
          )
          else (false, set_channel offer.channel_id (record c₁ { status = not_present }) vb)
    ]

-- `removeVMBusDevice`: the nub is asked to terminate; it closes and frees the channel as it goes.
unfoldable pub remove_device : ℕ → Vmbus → Vmbus
remove_device id vb =
    let c = vb.channels id in
    if leb max_channels id then vb else elim c.status [
      | not_present ↦ vb
      | _ ↦ if c.has_device_nub then set_channel id (record c { has_device_nub = false }) vb else vb
    ]
