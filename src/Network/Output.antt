-- ===== src/Network/Output.antt =====
-- Sending a packet and its completion: `outputPacket` of
-- MacHyperVSupport/Network/HyperVNetwork.cpp and `handleCompletion` of
-- MacHyperVSupport/Network/HyperVNetworkPrivate.cpp.
pub mod Flight
pub mod Accounts
pub mod Delivery
use mac_hyper_vsupport.Transfer.{IoReturn, success}
use mac_hyper_vsupport.Network.Sections.{
  SendSections, send_section_index_invalid, get_next_send_index, release_send_index,
}
use mac_hyper_vsupport.Common.{
  ℕ, ◌+◌, ◌%◌, ◌^◌, ◌||◌, ◌==◌, ltb, if◌then◌else◌, Option, none, some, add32, mul32, to_u32,
}

-- What `outputPacket` returns.
pub data OutputStatus : Type 0 where
  output_success : OutputStatus
  output_stall : OutputStatus
  output_dropped : OutputStatus

-- The message that `outputPacket` sends: the section with its place in the send buffer, the length
-- of the RNDIS message in it, and the transaction id.
pub record SentPacket : Type 0 where
  pub send_buffer_section_index : ℕ
  pub send_buffer_section_offset : ℕ
  pub send_buffer_section_size : ℕ
  pub transaction_id : ℕ

-- `sendIndex | kHyperVNetworkSendTransIdBits`: the constant's bits lie above the 32 of an index.
unfoldable pub send_transaction_id : ℕ → ℕ
send_transaction_id index = index + 0xFA00000000000000

-- `(UInt32) (transactionId & ~kHyperVNetworkSendTransIdBits)`: the cast drops all bits that the
-- mask clears.
unfoldable pub send_index_of : ℕ → ℕ
send_index_of transaction_id = transaction_id % 2 ^ 32

-- `rndisMsg->header.length`: the RNDIS header, the header of a data packet, and the packet.
unfoldable pub rndis_packet_length : ℕ → ℕ
rndis_packet_length packet_length = add32 (8 + 36) (to_u32 packet_length)

abbrev pub sent_packet : ℕ → ℕ → ℕ → SentPacket
sent_packet size index packet_length = record {
  send_buffer_section_index = index;
  send_buffer_section_offset = mul32 size index;
  send_buffer_section_size = rndis_packet_length packet_length;
  transaction_id = send_transaction_id index;
}

-- The part of `outputPacket` behind `getNextSendIndex`. A send that fails keeps the section.
abbrev pub output_in_section :
    ℕ → IoReturn → ℕ × SendSections → OutputStatus × SendSections × Option SentPacket
output_in_section packet_length status (index, s) =
    if index == send_section_index_invalid
    then (output_stall, s, none)
    else if packet_length == 0 || ltb s.send_section_size (rndis_packet_length packet_length)
    then (output_dropped, s, none)
    else elim status [
      | success ↦ (output_success, s, some (sent_packet s.send_section_size index packet_length))
      | _ ↦ (output_stall, s, none)
    ]

-- `outputPacket` for a packet of the given length, with the status that
-- `writeInbandPacketWithTransactionId` returns.
unfoldable pub output_packet :
    ℕ → IoReturn → SendSections → OutputStatus × SendSections × Option SentPacket
output_packet packet_length status s =
    output_in_section packet_length status (get_next_send_index s)

-- `kHyperVNetworkMessageTypeV1SendRNDISPacketComplete`.
abbrev pub send_rndis_packet_complete : ℕ
send_rndis_packet_complete = 108

-- `handleCompletion`, for the type of the message and the transaction id of the packet. The status
-- in the message is only logged.
unfoldable pub handle_completion : ℕ → ℕ → SendSections → SendSections
handle_completion message_type transaction_id s =
    if message_type == send_rndis_packet_complete
    then release_send_index (send_index_of transaction_id) s
    else s
