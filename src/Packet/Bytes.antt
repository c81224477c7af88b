-- ===== src/Packet/Bytes.antt =====
-- The header of MacHyperVSupport/VMBus/VMBus.hpp survives its way through memory.
use mac_hyper_vsupport.Common.{
  ℕ, ◌^◌, ◌<◌, ◌≡◌, refl, List, ◌++◌, length, le_bytes, of_le_bytes, of_le_bytes-le_bytes,
}
use mac_hyper_vsupport.Packet.{PacketHeader, encode_header, decode_header}

-- Every field fits its width in the structure.
pub record IsHeader (h : PacketHeader) : Type 0 where
  pub packet_type_fits : h.packet_type < 2 ^ 16
  pub header_length_fits : h.header_length < 2 ^ 16
  pub total_length_fits : h.total_length < 2 ^ 16
  pub flags_fits : h.flags < 2 ^ 16
  pub transaction_id_fits : h.transaction_id < 2 ^ 64

pub length-encode_header : (h : PacketHeader) → length (encode_header h) ≡ 16
unfolding encode_header le_bytes
length-encode_header h = refl

-- A header whose fields fit their widths is read back from its bytes, whatever bytes follow them.
pub decode-encode_header :
    (h : PacketHeader) (rest : List ℕ) → IsHeader h → decode_header (encode_header h ++ rest) ≡ h
unfolding encode_header decode_header le_bytes of_le_bytes
decode-encode_header h rest v i = record {
  packet_type = of_le_bytes-le_bytes 2 h.packet_type v.packet_type_fits i;
  header_length = of_le_bytes-le_bytes 2 h.header_length v.header_length_fits i;
  total_length = of_le_bytes-le_bytes 2 h.total_length v.total_length_fits i;
  flags = of_le_bytes-le_bytes 2 h.flags v.flags_fits i;
  transaction_id = of_le_bytes-le_bytes 8 h.transaction_id v.transaction_id_fits i;
}
