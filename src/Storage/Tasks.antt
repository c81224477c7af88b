-- ===== src/Storage/Tasks.antt =====
-- SCSI tasks and their completion: `ProcessParallelTask`, `ReportHBASpecificTaskDataSize` of
-- MacHyperVSupport/Storage/HyperVStorage.cpp, and `prepareDataTransfer`, `completeDataTransfer`,
-- `handleIOCompletion`, `handlePacket`, `wakePacketHandler` of
-- MacHyperVSupport/Storage/HyperVStoragePrivate.cpp.
pub mod Submitted
use mac_hyper_vsupport.Transfer.{IoReturn, io_error, unsupported}
use mac_hyper_vsupport.Network.Buffers.{is_success}
use mac_hyper_vsupport.Storage.{
  Storage, StorageReply, operation_complete_io, operation_remove_device, operation_enumerate_bus,
}
use mac_hyper_vsupport.Common.{
  ℕ, suc, ◌+◌, ◌-◌, ◌*◌, ◌/◌, List, [], ◌∷◌, length, Bool, true, false, ◌&&◌, ◌||◌, not, ◌==◌, ltb,
  if◌then◌else◌, Option, none, some, to_u8,
}

-- `GetDataTransferDirection`: the three directions of SCSI, and any other value.
pub data Direction : Type 0 where
  no_data_transfer : Direction
  from_initiator_to_target : Direction
  from_target_to_initiator : Direction
  bad_direction : Direction

-- What I/O Kit says of a parallel task.
pub record ScsiTask : Type 0 where
  pub logical_unit_number : ℕ
  pub target_identifier : ℕ
  pub direction : Direction
  pub command_descriptor_block : List ℕ
  pub requested_data_transfer_count : ℕ
  pub has_hba_data : Bool

-- `IODMACommand::Segment64`.
pub record Segment : Type 0 where
  pub iovm_address : ℕ
  pub segment_length : ℕ

-- What `prepare` and `gen64IOVMSegments` of the task's `IODMACommand` return.
pub record DmaAnswers : Type 0 where
  pub prepare_status : IoReturn
  pub segments_status : IoReturn
  pub segments : List Segment

-- The range of a `VMBusPacketMultiPageBuffer`, and `pagePacketLength`.
pub record PageTransfer : Type 0 where
  pub range_length : ℕ
  pub range_offset : ℕ
  pub pfns : List ℕ
  pub page_packet_length : ℕ

pub data PrepareResult : Type 0 where
  not_prepared : IoReturn → PrepareResult
  panicked : PrepareResult
  prepared : PageTransfer → PrepareResult

-- The loop of `prepareDataTransfer` from segment `i` of `count`, with `none` for its panic.
unfoldable pub segment_pfns : ℕ → ℕ → List Segment → Option (List ℕ)
segment_pfns i count [] = some []
segment_pfns i count (seg ∷ segs) =
    let rest = segment_pfns (suc i) count segs in
    if not (i == 0)
      && not (suc i == count)
      && not (seg.segment_length == 4096)
      && not (seg.segment_length == 0)
    then none
    else elim rest [ none ↦ none | some pfns ↦ some (seg.iovm_address / 4096 ∷ pfns) ]

-- `sizeof (VMBusPacketMultiPageBuffer)` and, with the page numbers, its length.
abbrev pub multi_page_length : ℕ → ℕ
multi_page_length count = (16 + 4 + 4 + 8) + 8 * count

-- `prepareDataTransfer`, with whether the `IODMACommand` is prepared behind it: it is from `prepare`
-- on, until `complete`.
unfoldable pub prepare_data_transfer : ScsiTask → DmaAnswers → PrepareResult × Bool
prepare_data_transfer task dma =
    if ltb 0xFFFFFFFF task.requested_data_transfer_count
    then (not_prepared unsupported, false)
    else if not task.has_hba_data
    then (not_prepared io_error, false)
    else if not (is_success dma.prepare_status)
    then (not_prepared dma.prepare_status, false)
    else if not (is_success dma.segments_status)
    then (not_prepared dma.segments_status, false)
    else elim (segment_pfns 0 (length dma.segments) dma.segments) [
      | none ↦ (panicked, true)
      | some pages ↦ (
        prepared (record {
          range_length = task.requested_data_transfer_count;
          range_offset = 0;
          pfns = pages;
          page_packet_length = multi_page_length (length dma.segments);
        }),
        true,
      )
    ]

-- The fields of the `HyperVStoragePacket` that `ProcessParallelTask` fills in.
pub record StorageRequest : Type 0 where
  pub request_target_id : ℕ
  pub request_lun : ℕ
  pub request_srb_flags : ℕ
  pub request_length : ℕ
  pub request_sense_info_length : ℕ
  pub request_data_in : ℕ
  pub request_cdb : List ℕ
  pub request_data_transfer_length : ℕ

-- The result: the service response, whether the `IODMACommand` is left prepared, and what was sent.
pub data TaskResult : Type 0 where
  function_rejected : TaskResult
  delivery_failure : Bool → TaskResult
  in_process : StorageRequest → Option PageTransfer → TaskResult
  task_panicked : TaskResult

-- `dataIn` and the flags for a direction, with `none` for one that is rejected.
unfoldable pub direction_flags : Direction → Option (ℕ × ℕ)
direction_flags no_data_transfer = some (2, 0x08)
direction_flags from_initiator_to_target = some (0, 0x88)
direction_flags from_target_to_initiator = some (1, 0x48)
direction_flags bad_direction = none

-- `sizeof (HyperVStorageSCSIRequest)`.
abbrev pub scsi_request_size : ℕ
scsi_request_size = 52

abbrev pub storage_request : Storage → ScsiTask → ℕ × ℕ → ℕ → StorageRequest
storage_request s task (type, flags) count = record {
  request_target_id = s.target_id;
  request_lun = to_u8 task.target_identifier;
  request_srb_flags = flags;
  request_length = scsi_request_size - s.protocol.packet_size_delta;
  request_sense_info_length = to_u8 s.protocol.sense_buffer_size;
  request_data_in = type;
  request_cdb = task.command_descriptor_block;
  request_data_transfer_length = count;
}

-- Behind the preparation the packet is written, with the status of the write.
abbrev pub submit_prepared :
    Storage → ScsiTask → ℕ × ℕ → PrepareResult × Bool → IoReturn → TaskResult
submit_prepared s task flags (not_prepared status, is_prepared) write = delivery_failure is_prepared
submit_prepared s task flags (panicked, is_prepared) write = task_panicked
submit_prepared s task flags (prepared pages, is_prepared) write =
    if is_success write
    then in_process (storage_request s task flags task.requested_data_transfer_count) (some pages)
    else delivery_failure is_prepared

abbrev pub submit : Storage → ScsiTask → ℕ × ℕ → DmaAnswers → IoReturn → TaskResult
submit s task (type, flags) dma write =
    if type == 2
    then (if is_success write
        then in_process (storage_request s task (type, flags) 0) none
        else delivery_failure false)
    else submit_prepared s task (type, flags) (prepare_data_transfer task dma) write

-- `ProcessParallelTask`, with `none` for a null task.
unfoldable pub process_parallel_task :
    Storage → Option ScsiTask → DmaAnswers → IoReturn → TaskResult
unfolding direction_flags prepare_data_transfer
process_parallel_task s none dma write = function_rejected
process_parallel_task s (some task) dma write =
    if not (task.logical_unit_number == 0)
    then function_rejected
    else elim (direction_flags task.direction) [
      | none ↦ function_rejected
      | some flags ↦ submit s task flags dma write
    ]

-- `ReportHBASpecificTaskDataSize`: the room for the page packet of one task.
unfoldable pub report_hba_specific_task_data_size : Storage → ℕ
report_hba_specific_task_data_size s = multi_page_length s.max_page_segments

-- What `handleIOCompletion` reports of a task: the sense data, the realized count, the status.
pub record TaskCompletion : Type 0 where
  pub auto_sense_data : Option (List ℕ)
  pub realized_data_transfer_count : Option ℕ
  pub task_status : ℕ

-- `completeDataTransfer`: the count that it sets.
unfoldable pub complete_data_transfer : StorageReply → ℕ
complete_data_transfer reply = if reply.status == 0 then reply.data_transfer_length else 0

-- `handleIOCompletion`; the value of `kSCSITaskStatus_CHECK_CONDITION` is given.
unfoldable pub handle_io_completion : ℕ → StorageReply → TaskCompletion
unfolding complete_data_transfer
handle_io_completion check_condition reply = record {
  auto_sense_data = if reply.scsi_status == check_condition then some reply.sense_data else none;
  realized_data_transfer_count =
      if reply.data_in == 2 then none else some (complete_data_transfer reply);
  task_status = reply.scsi_status;
}

-- `wakePacketHandler`.
unfoldable pub wake_storage_handler : StorageReply → Bool
wake_storage_handler reply = reply.operation == operation_complete_io

-- What `handlePacket` does: it completes the task, starts the enumeration, or only logs.
pub data StorageAction : Type 0 where
  complete_task : ℕ → TaskCompletion → StorageAction
  start_disk_enumeration : StorageAction
  no_action : StorageAction

unfoldable pub handle_storage_packet : ℕ → ℕ → StorageReply → StorageAction
unfolding handle_io_completion
handle_storage_packet check_condition transaction_id reply =
    if reply.operation == operation_complete_io
    then complete_task transaction_id (handle_io_completion check_condition reply)
    else if reply.operation == operation_enumerate_bus || reply.operation == operation_remove_device
    then start_disk_enumeration
    else no_action
