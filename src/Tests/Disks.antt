-- ===== src/Tests/Disks.antt =====
-- The theorems on the storage driver and on the messages of the VMBus at concrete inputs.
use mac_hyper_vsupport.Transfer.{IoReturn, success}
use mac_hyper_vsupport.Vmbus.{request_channels_done, channel_offer}
use mac_hyper_vsupport.Vmbus.Incoming.{
  Inbox, ChannelMessage, channel_message, wait_for_response, process_incoming_message,
}
use mac_hyper_vsupport.Vmbus.Incoming.Waiting.{
  fresh_inbox, InboxReach, WaitsForOne, AreAnswers, InboxReach-answers, send, receive, start_here,
  then_step,
}
use mac_hyper_vsupport.Storage.{
  Storage, StorageReply, StorageProtocol, storage_protocols, send_storage_command,
}
use mac_hyper_vsupport.Storage.Connect.{
  StorageHost, connect_storage, negotiate_storage, with_properties, identified, IsNewest,
  connect_storage-IsNewest,
}
use mac_hyper_vsupport.Storage.Scan.{Targets, IsPresent, scan_scsi_disks, scan_scsi_disks-targets}
use mac_hyper_vsupport.Storage.Tasks.{
  ScsiTask, DmaAnswers, from_target_to_initiator, process_parallel_task,
  report_hba_specific_task_data_size,
}
use mac_hyper_vsupport.Storage.Tasks.Submitted.{Submission, process_parallel_task-Submission}
use mac_hyper_vsupport.Network.Buffers.{is_success}
use mac_hyper_vsupport.Common.{
  ◌+◌, ◌*◌, ℕ, ◌≤◌, ◌<◌, ◌↔◌, ◌⊎◌, ◌≡◌, refl, arith, [], ◌∷◌, true, false, ◌==◌, leb, if◌then◌else◌,
  none, some,
}

abbrev reply : ℕ → StorageReply
reply code = record {
  operation = 1;
  status = code;
  channel_flags = 0;
  max_channel_count = 1;
  channel_max_transfer_bytes = 0x40000;
  srb_status = 1;
  scsi_status = 0;
  data_in = 1;
  data_transfer_length = 0;
  sense_data = [];
}

-- A host that knows Windows 8 and older.
abbrev windows8 : StorageHost
windows8 = record {
  begin_initialization = (success, reply 0);
  query_protocol = λ v. (success, reply (if leb v 0x501 then 0 else 1));
  query_properties = (success, reply 0);
  end_initialization = (success, reply 0);
}

abbrev controller : Storage
controller = record {
  protocol = record { protocol_version = 0; sense_buffer_size = 0; packet_size_delta = 16 };
  is_ide = false;
  max_luns = 64;
  target_id = 0;
  sub_channels_supported = false;
  max_sub_channels = 0;
  max_transfer_bytes = 0;
  max_page_segments = 64;
}

windows8_connects : is_success (connect_storage none windows8 controller).0 ≡ true
unfolding connect_storage negotiate_storage send_storage_command
windows8_connects = refl

connect_storage-IsNewest_example :
    (p : StorageProtocol) × (IsNewest windows8.query_protocol storage_protocols p
      × (connect_storage none windows8 controller ≡ (
        success,
        with_properties (reply 0) (record (identified none controller) { protocol = p }),
      )))
connect_storage-IsNewest_example =
    connect_storage-IsNewest none windows8 controller windows8_connects

-- Disk 0 is there, disk 1 is not; macOS knows disk 1.
abbrev disk_answers : ℕ → IoReturn × StorageReply
disk_answers lun = (success, record (reply 0) { srb_status = if lun == 0 then 1 else 0x20 })

abbrev old_targets : Targets
old_targets = record { has_target = λ j. j == 1; target_calls = [] }

scan_scsi_disks-targets_example :
    let after = scan_scsi_disks (λ id. true) 2 disk_answers old_targets in
    ((after.has_target 1 ≡ true) ↔ (
      ((1 < 2) × IsPresent (disk_answers 1) × ((old_targets.has_target 1 ≡ true) ⊎ (true ≡ true)))
      ⊎ ((2 ≤ 1) × (old_targets.has_target 1 ≡ true))))
    × ((scan_scsi_disks (λ id. true) 2 disk_answers after).has_target 1 ≡ after.has_target 1)
scan_scsi_disks-targets_example = scan_scsi_disks-targets (λ id. true) 2 disk_answers old_targets 1

-- A read of two pages.
abbrev read_task : ScsiTask
read_task = record {
  logical_unit_number = 0;
  target_identifier = 3;
  direction = from_target_to_initiator;
  command_descriptor_block = 0x28 ∷ [];
  requested_data_transfer_count = 8192;
  has_hba_data = true;
}

abbrev two_pages : DmaAnswers
two_pages = record {
  prepare_status = success;
  segments_status = success;
  segments =
      record { iovm_address = 0x5000; segment_length = 4096 }
      ∷ record { iovm_address = 0x9000; segment_length = 4096 }
      ∷ [];
}

process_parallel_task-Submission_example :
    Submission controller read_task two_pages success 1 0x48
      (process_parallel_task controller (some read_task) two_pages success)
    × (32 + 8 * 2 ≤ report_hba_specific_task_data_size controller)
process_parallel_task-Submission_example =
    process_parallel_task-Submission controller read_task two_pages success 1 0x48 refl (refl, refl)
      (omega arith)

-- A thread waits for the end of the scan; an offer comes, then the answer.
abbrev offer : ChannelMessage
offer = record { message_type = channel_offer; message_data = [] }

abbrev scan_done : ChannelMessage
scan_done = record { message_type = request_channels_done; message_data = [] }

abbrev waiting_inbox : Inbox
waiting_inbox = wait_for_response success request_channels_done fresh_inbox

abbrev scanned_inbox : Inbox
scanned_inbox =
    process_incoming_message (channel_message scan_done)
      (process_incoming_message (channel_message offer) waiting_inbox)

scanned_inbox-InboxReach : InboxReach fresh_inbox scanned_inbox
scanned_inbox-InboxReach =
    then_step
      (then_step (then_step start_here (send fresh_inbox success request_channels_done refl))
        (receive waiting_inbox (channel_message offer)))
      (receive (process_incoming_message (channel_message offer) waiting_inbox)
        (channel_message scan_done))

InboxReach-answers_example : WaitsForOne scanned_inbox × AreAnswers scanned_inbox.answered
InboxReach-answers_example = InboxReach-answers scanned_inbox scanned_inbox-InboxReach
