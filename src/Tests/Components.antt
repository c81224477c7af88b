-- ===== src/Tests/Components.antt =====
-- The integration components of MacHyperVSupport/IntegrationComponents at concrete inputs.
use mac_hyper_vsupport.Ic.FileCopy.{
  Daemon, FileCopyClient, write_to_file, call_daemon, write_file_fragment,
}
use mac_hyper_vsupport.Ic.FileCopy.Offered.{OffersAny, write_file_fragment-OffersAny}
use mac_hyper_vsupport.Network.Buffers.{is_success}
use mac_hyper_vsupport.Transfer.{success}
use mac_hyper_vsupport.Common.{
  ◌-◌, ◌+◌, ◌^◌, ◌≡◌, ℕ, List, [], ◌∷◌, refl, ◌*◌, arith, inr, true, false, some, ◌==◌,
  if◌then◌else◌,
}
use mac_hyper_vsupport.Ic.{IcHeader, Negotiation, version, process_negotiation_response}
use mac_hyper_vsupport.Ic.Versions.{Settled, process_negotiation_response-Settled}
use mac_hyper_vsupport.Ic.Heartbeat.{heartbeat_versions, heartbeat_cycles, heartbeat_cycles_lem}
use mac_hyper_vsupport.Ic.TimeSync.{
  Clocks, Adjusted, Elapsed, host_time_ns, handle_time_adjust, handle_time_adjust-Adjusted,
}
use mac_hyper_vsupport.Ic.Shutdown.{
  shutdown, handle_shutdown_packet, Answered, handle_shutdown_packet-Answered,
}

abbrev header : IcHeader
header = record { data_size = 20; status = 0; flags = 2 }

-- Framework versions 1.0 and 3.0, message version 3.0.
abbrev offers : Negotiation
offers = record {
  framework_version_count = 2;
  message_version_count = 1;
  versions = λ k. if k == 0 then version 1 0 else version 3 0;
}

process_negotiation_response-Settled_example :
    Settled heartbeat_versions offers
      (process_negotiation_response header heartbeat_versions offers)
process_negotiation_response-Settled_example =
    process_negotiation_response-Settled header heartbeat_versions offers (omega arith)
      (omega arith) (omega arith)

heartbeat_cycles_lem_example : heartbeat_cycles 3 header true (2 ^ 64 - 1) ≡ (true, 5)
heartbeat_cycles_lem_example = heartbeat_cycles_lem 3 header (2 ^ 64 - 1) (omega arith)

abbrev clocks : Clocks
clocks = record {
  time_ref_counter = some 70;
  vm_time_ns = 0;
  has_user_client = true;
  seconds_bits = 32;
}

reference_passed : Elapsed 50 clocks.time_ref_counter (70 - 50)
unfolding Elapsed
reference_passed = inr (omega arith, omega arith, omega arith, refl)

-- A sample, one second and 600 ticks after 1970 began.
handle_time_adjust-Adjusted_example :
    Adjusted
      ((116444736010000600 - 116444736000000000 + (70 - 50)) * 100)
      2
      clocks
      (handle_time_adjust 116444736010000600 50 2 clocks)
handle_time_adjust-Adjusted_example =
    handle_time_adjust-Adjusted 116444736010000600 50 2 (70 - 50) clocks reference_passed
      (omega arith) (omega arith) (omega arith) (omega arith)

adjusts_to : handle_time_adjust 116444736010000600 50 2 clocks ≡ some (1, 62)
unfolding handle_time_adjust host_time_ns
adjusts_to = refl

handle_shutdown_packet-Answered_example :
    Answered (some true) header 2 (handle_shutdown_packet (some true) (shutdown header 2))
handle_shutdown_packet-Answered_example = handle_shutdown_packet-Answered (some true) header 2

-- A daemon that takes every message, and completes it with success.
abbrev willing : Daemon
willing = record {
  has_port = true;
  delivers = λ n. success;
  completes = λ n. some success;
  convert_unicode_path = λ path. (true, path);
}

abbrev idle_client : FileCopyClient
idle_client = record {
  current_file_name = [];
  current_file_path = [];
  current_file_data = [];
  is_sleeping = false;
  sleep_status = success;
}

abbrev six_bytes : List ℕ
six_bytes = 1 ∷ 2 ∷ 3 ∷ 4 ∷ 5 ∷ 6 ∷ []

-- Six bytes go out in two portions of at most four.
two_portions :
    (write_file_fragment willing 4 100 six_bytes 6 idle_client).2
    ≡ write_to_file 100 6 six_bytes ∷ write_to_file 104 2 (5 ∷ 6 ∷ []) ∷ []
unfolding write_file_fragment call_daemon
two_portions = refl

-- One byte is announced as four.
one_portion :
    (write_file_fragment willing 4 100 (7 ∷ []) 1 idle_client).2 ≡ write_to_file 100 4 (7 ∷ []) ∷ []
unfolding write_file_fragment call_daemon
one_portion = refl

fragment_is_written :
    is_success (write_file_fragment willing 4 100 six_bytes 6 idle_client).0 ≡ true
unfolding write_file_fragment call_daemon
fragment_is_written = refl

write_file_fragment-OffersAny_example :
    OffersAny 4 (100 + 5) six_bytes 5 (write_file_fragment willing 4 100 six_bytes 6 idle_client).2
write_file_fragment-OffersAny_example =
    write_file_fragment-OffersAny willing 4 100 six_bytes 6 5 idle_client fragment_is_written
      (omega arith) (omega arith) (omega arith) (omega arith)
