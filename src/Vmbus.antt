-- ===== src/Vmbus.antt =====
-- The VMBus controller: `HyperVVMBus` of MacHyperVSupport/VMBus. The messages that it sends and
-- receives, and the constants they share.
pub mod Post
pub mod Connect
pub mod Incoming
pub mod Gpadl
pub mod Channels
use mac_hyper_vsupport.Common.{ℕ, ◌/◌, ◌%◌, ◌^◌}

-- `PAGE_SIZE`; `kVMBusMaxChannels`; `kHyperVMessageDataSize`; `kHyperVMaxGpadlPages`.
abbrev pub page_size : ℕ
page_size = 4096

abbrev pub max_channels : ℕ
max_channels = 256

abbrev pub message_data_size : ℕ
message_data_size = 240

abbrev pub max_gpadl_pages : ℕ
max_gpadl_pages = 8192

-- `HyperVStatus`.
abbrev pub status_success : ℕ
status_success = 0

abbrev pub status_failure : ℕ
status_failure = 0x80004005

-- `VMBusChannelMessageType`, the values that the driver sends or waits for.
pub data MessageType : Type 0 where
  invalid : MessageType
  channel_offer : MessageType
  rescind_channel_offer : MessageType
  request_channels : MessageType
  request_channels_done : MessageType
  channel_open : MessageType
  channel_open_response : MessageType
  channel_close : MessageType
  gpadl_header : MessageType
  gpadl_body : MessageType
  gpadl_created : MessageType
  gpadl_teardown : MessageType
  gpadl_teardown_response : MessageType
  channel_free : MessageType
  connect : MessageType
  connect_response : MessageType
  disconnect : MessageType
  unknown : ℕ → MessageType
