-- ===== src/Storage.antt =====
-- The storage driver: `HyperVStorage` of MacHyperVSupport/Storage.
pub mod Connect
pub mod Scan
pub mod Tasks
use mac_hyper_vsupport.Transfer.{IoReturn, success, io_error}
use mac_hyper_vsupport.Network.Buffers.{is_success}
use mac_hyper_vsupport.Common.{ℕ, List, [], ◌∷◌, Bool, ◌&&◌, ◌||◌, not, ◌==◌, if◌then◌else◌}

-- `HyperVStorageProtocol`.
pub record StorageProtocol : Type 0 where
  pub protocol_version : ℕ
  pub sense_buffer_size : ℕ
  pub packet_size_delta : ℕ

-- `sizeof (HyperVStorageSCSIRequestWin8Extension)`.
abbrev pub win8_extension_size : ℕ
win8_extension_size = 16

-- `storageProtocols`, for Windows 10, 8.1, 8, 7 and Server 2008.
abbrev pub storage_protocols : List StorageProtocol
storage_protocols =
    record { protocol_version = 0x602; sense_buffer_size = 0x14; packet_size_delta = 0 }
    ∷ record { protocol_version = 0x600; sense_buffer_size = 0x14; packet_size_delta = 0 }
    ∷ record { protocol_version = 0x501; sense_buffer_size = 0x14; packet_size_delta = 0 }
    ∷ record {
      protocol_version = 0x402;
      sense_buffer_size = 0x12;
      packet_size_delta = win8_extension_size;
    }
    ∷ record {
      protocol_version = 0x200;
      sense_buffer_size = 0x12;
      packet_size_delta = win8_extension_size;
    }
    ∷ []

-- The fields of `HyperVStorage` that describe the controller.
pub record Storage : Type 0 where
  pub protocol : StorageProtocol
  pub is_ide : Bool
  pub max_luns : ℕ
  pub target_id : ℕ
  pub sub_channels_supported : Bool
  pub max_sub_channels : ℕ
  pub max_transfer_bytes : ℕ
  pub max_page_segments : ℕ

-- The fields of a `HyperVStoragePacket` from the host that the driver reads.
pub record StorageReply : Type 0 where
  pub operation : ℕ
  pub status : ℕ
  pub channel_flags : ℕ
  pub max_channel_count : ℕ
  pub channel_max_transfer_bytes : ℕ
  pub srb_status : ℕ
  pub scsi_status : ℕ
  pub data_in : ℕ
  pub data_transfer_length : ℕ
  pub sense_data : List ℕ

-- `kHyperVStoragePacketOperationCompleteIO`, `RemoveDevice`, `EnumerateBus`.
abbrev pub operation_complete_io : ℕ
operation_complete_io = 1

abbrev pub operation_remove_device : ℕ
operation_remove_device = 2

abbrev pub operation_enumerate_bus : ℕ
operation_enumerate_bus = 11

-- `sendStorageCommand`, from the status of the write and the host's reply.
unfoldable pub send_storage_command : Bool → IoReturn × StorageReply → IoReturn
send_storage_command check_completion (write, reply) =
    if not (is_success write)
    then write
    else if check_completion
        && (not (reply.operation == operation_complete_io) || not (reply.status == 0))
    then io_error
    else success
