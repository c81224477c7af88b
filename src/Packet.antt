-- ===== src/Packet.antt =====
-- VMBus packets: `VMBusPacketHeader` and the size macros of MacHyperVSupport/VMBus/VMBus.hpp, and
-- the header's bytes in a ring.
pub mod Bytes
use mac_hyper_vsupport.Common.{
  ℕ, ◌+◌, ◌*◌, ◌/◌, ◌%◌, ◌^◌, List, ◌++◌, take, drop, add32, to_u16, to_u32, le_bytes, of_le_bytes,
}

-- `VMBusPacketHeader`: the lengths count units of 8 bytes.
pub record PacketHeader : Type 0 where
  pub packet_type : ℕ
  pub header_length : ℕ
  pub total_length : ℕ
  pub flags : ℕ
  pub transaction_id : ℕ

-- `VMBusPacketType`, the values that the driver sends and tests for.
abbrev pub packet_type_data_inband : ℕ
packet_type_data_inband = 6

abbrev pub packet_type_data_using_gpa_direct : ℕ
packet_type_data_using_gpa_direct = 9

abbrev pub packet_type_completion : ℕ
packet_type_completion = 11

-- `sizeof (VMBusPacketHeader)`, `kVMBusPacketResponseRequired`.
abbrev pub packet_header_size : ℕ
packet_header_size = 16

abbrev pub packet_response_required : ℕ
packet_response_required = 1

-- `HV_GET_VMBUS_PACKETSIZE` and `HV_SET_VMBUS_PACKETSIZE`.
abbrev pub get_packet_size : ℕ → ℕ
get_packet_size p = p * 8

abbrev pub set_packet_size : ℕ → ℕ
set_packet_size p = p / 8

-- `HV_PACKETALIGN`, assigned to a `UInt32`.
abbrev pub packet_align : ℕ → ℕ
packet_align a = to_u32 ((a + 7) / 8 * 8)

-- The packed structure in memory, both ways.
unfoldable pub encode_header : PacketHeader → List ℕ
encode_header h =
    le_bytes 2 h.packet_type
    ++ (le_bytes 2 h.header_length
        ++ (le_bytes 2 h.total_length ++ (le_bytes 2 h.flags ++ le_bytes 8 h.transaction_id)))

unfoldable pub decode_header : List ℕ → PacketHeader
decode_header bs = record {
  packet_type = of_le_bytes (take 2 bs);
  header_length = of_le_bytes (take 2 (drop 2 bs));
  total_length = of_le_bytes (take 2 (drop 4 bs));
  flags = of_le_bytes (take 2 (drop 6 bs));
  transaction_id = of_le_bytes (take 8 (drop 8 bs));
}
