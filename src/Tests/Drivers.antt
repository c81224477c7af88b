-- ===== src/Tests/Drivers.antt =====
-- The theorems on the buffers, filter, link and RNDIS of the network driver, on the storage driver
-- and on the messages of the VMBus at concrete inputs.
use mac_hyper_vsupport.Transfer.{success}
use mac_hyper_vsupport.Network.Buffers.{Buffers, Answers}
use mac_hyper_vsupport.Network.Filter.{
  Filter, Modes, call_enable, call_multicast, call_promiscuous, call_disable, FilterCall,
  run_filter, run_modes, Represents, run_filter-Represents,
}
use mac_hyper_vsupport.Network.Link.{
  Link, status_media_disconnect, status_network_change, status_media_connect, link_state_connected,
  update_link_state, run_link, media_state, IsReported, run_link-IsReported,
}
use mac_hyper_vsupport.Network.Rndis.{Rndis, complete_rndis, send_rndis_request}
use mac_hyper_vsupport.Network.Rndis.Requests.{complete-send}
use mac_hyper_vsupport.Network.Rndis.Frames.{rndis_frame}
use mac_hyper_vsupport.Network.Receive.{
  Network, TransferRange, packet_type_transfer_pages, message_type_send_rndis_packet,
  receive_buffer_id, handle_packet, push_all, HoldsFrames, handle_packet-frames,
}
use mac_hyper_vsupport.Network.Sections.{init_sections}
use mac_hyper_vsupport.Common.{
  ℕ, ◌≡◌, refl, sym, arith, List, [], ◌∷◌, take, true, false, ◌==◌, none, some, add32, append-nil,
}

-- A host that takes both buffers, in sections of 6144 bytes.
abbrev good_answers : Answers
good_answers = record {
  receive_memory = true;
  receive_gpadl = (success, some 0xE1E10);
  send_memory = true;
  send_gpadl = (success, some 0xE1E11);
  receive_write = success;
  receive_status = 1;
  receive_sections = 1;
  receive_offset = 0;
  send_write = success;
  send_status = 1;
  section_size = 6144;
  map_memory = true;
  teardown_posts = λ h. true;
}

abbrev no_buffers : Buffers
no_buffers = record {
  net_version = 2;
  receive_buffer = none;
  receive_gpadl_handle = 0;
  send_buffer = none;
  send_gpadl_handle = 0;
  sections = none;
  open_gpadls = [];
}

abbrev all_off : Modes
all_off = record { enabled = false; multicast = false; promiscuous = false }

abbrev no_filter : Filter
no_filter = record { packet_filter_additional = 0; is_network_enabled = false; host_filter = 0 }

abbrev filter_calls : List FilterCall
filter_calls = call_enable ∷ call_multicast true ∷ call_promiscuous true ∷ call_disable ∷ []

no_filter-Represents : Represents all_off no_filter
unfolding Represents
no_filter-Represents = (refl, refl, refl)

run_filter-Represents_example :
    Represents (run_modes filter_calls all_off) (run_filter filter_calls no_filter)
run_filter-Represents_example =
    run_filter-Represents filter_calls all_off no_filter no_filter-Represents

abbrev no_link : Link
no_link = record { is_link_up = false; reported = [] }

abbrev link_events : List ℕ
link_events = status_network_change ∷ status_media_disconnect ∷ status_media_connect ∷ []

run_link-IsReported_example :
    IsReported
      (media_state link_events (0 == link_state_connected))
      (run_link link_events (update_link_state true none (some 0) no_link))
run_link-IsReported_example = run_link-IsReported 0 link_events no_link refl

-- One request waits already.
abbrev one_request : Rndis
one_request = record {
  rndis_trans_id = 6;
  rndis_requests = record { request_id = 5; message = [] } ∷ [];
  rndis_woken = [];
  is_network_enabled = true;
  link = no_link;
  input_packets = [];
}

complete-send_example :
    complete_rndis 6 (9 ∷ []) (send_rndis_request [] one_request) ≡ record one_request {
      rndis_trans_id = add32 6 1;
      rndis_requests = take 1 one_request.rndis_requests;
      rndis_woken = record { request_id = 6; message = 9 ∷ [] } ∷ [];
    }
complete-send_example = complete-send [] (9 ∷ []) one_request (λ e. absurd (omega arith))

abbrev some_frame : List ℕ
some_frame = 1 ∷ 2 ∷ 3 ∷ []

abbrev some_network : Network
some_network = record { rndis = one_request; sections = init_sections 6144; completions = [] }

abbrev one_range : List TransferRange
one_range = record { count = 47; offset = 0 } ∷ []

one_range-HoldsFrames : HoldsFrames (rndis_frame some_frame) one_range (some_frame ∷ [])
unfolding HoldsFrames
one_range-HoldsFrames = (omega arith, (([], sym (append-nil (rndis_frame some_frame))), tt))

handle_packet-frames_example :
    handle_packet
      (rndis_frame some_frame)
      success
      (record {
        packet_type = packet_type_transfer_pages;
        transaction_id = 77;
        message_type = message_type_send_rndis_packet;
        transfer_pageset_id = receive_buffer_id;
        ranges = one_range;
      })
      some_network
    ≡ record some_network {
      rndis = record one_request { input_packets = push_all (some_frame ∷ []) [] };
      completions = 77 ∷ [];
    }
handle_packet-frames_example =
    handle_packet-frames (rndis_frame some_frame) one_range (some_frame ∷ []) 77 some_network
      success one_range-HoldsFrames refl
