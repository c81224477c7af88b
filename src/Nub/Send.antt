-- ===== src/Nub/Send.antt =====
-- Sending packets: `writePacketInternal` and the write functions of
-- MacHyperVSupport/VMBusDevice over `writeRawPacketGated`.
use mac_hyper_vsupport.Common.{
  ℕ, ◌+◌, ◌-◌, ◌*◌, List, [], ◌∷◌, ◌++◌, length, Bool, Option, none, some, ltb, ◌==◌, if◌then◌else◌,
  add32, to_u16, le_bytes,
}
use mac_hyper_vsupport.Ring.{Ring}
use mac_hyper_vsupport.Packet.{
  PacketHeader, packet_header_size, set_packet_size, packet_align, packet_response_required,
  packet_type_data_inband, packet_type_data_using_gpa_direct, packet_type_completion, encode_header,
}
use mac_hyper_vsupport.Transfer.{
  IoReturn, success, bad_argument, no_resources, HostView, write_raw_packet,
}
use mac_hyper_vsupport.Nub.{Nub}
use mac_hyper_vsupport.Nub.Requests.{add_packet_request, wake_transaction}
use mac_hyper_vsupport.Nub.Transactions.{get_next_trans_id}

-- A send ends with a status; one that succeeded and wants an answer first sleeps until its request
-- is woken.
pub data Outcome : Type 0 where
  returns : IoReturn → Outcome
  sleeps : ℕ → Outcome

-- The nub behind a raw write.
abbrev pub after_write : Nub → IoReturn × Ring × Bool → IoReturn × Nub
after_write n (status, tx, signalled) = (
  status,
  record n { tx_buffer = some tx; signals = if signalled then n.signals + 1 else n.signals },
)

-- `writeRawPacket`, and the gated call of the others; `none` is a null pointer followed.
unfoldable pub send_raw_packet : Nub → HostView → Option (List ℕ) → List ℕ → Option (IoReturn × Nub)
send_raw_packet n later header buffer = elim n.tx_buffer [
  | none ↦ none
  | some tx ↦ some (after_write n (write_raw_packet n.tx_buffer_size tx later header buffer))
]

-- The request for an answer of `response_buffer_length` bytes, if there is a response buffer.
abbrev pub expect_response : ℕ → Option ℕ → Nub → Nub
expect_response id none n = n
expect_response id (some response_buffer_length) n =
    add_packet_request
      (record {
        transaction_id = id;
        response_data = [];
        response_data_length = response_buffer_length;
      })
      n

-- What follows the gated call: sleep on success, take the request back on failure.
abbrev pub await_response : ℕ → Option ℕ → IoReturn × Nub → Outcome × Nub
await_response id none (status, n) = (returns status, n)
await_response id (some _) (success, n) = (sleeps id, n)
await_response id (some _) (status, n) = (returns status, wake_transaction id n)

unfoldable pub transact : Nub → HostView → List ℕ → List ℕ → ℕ → Option ℕ → Option (Outcome × Nub)
transact n later header buffer id response =
    elim (send_raw_packet (expect_response id response n) later (some header) buffer) [
      | none ↦ none
      | some r ↦ some (await_response id response r)
    ]

abbrev pub response_flags : Bool → ℕ
response_flags required = if required then packet_response_required else 0

-- The header that `writePacketInternal` fills in.
unfoldable pub internal_header : ℕ → ℕ → Bool → List ℕ → PacketHeader
internal_header packet_type id response_required buffer = record {
  packet_type = packet_type;
  header_length = to_u16 (set_packet_size packet_header_size);
  total_length = to_u16 (set_packet_size (packet_align (add32 packet_header_size (length buffer))));
  flags = response_flags response_required;
  transaction_id = id;
}

-- `writePacketInternal`.
unfoldable pub write_packet_internal :
    Nub → HostView → ℕ → ℕ → Bool → List ℕ → Option ℕ → Option (Outcome × Nub)
write_packet_internal n later packet_type id response_required buffer response =
    if id == 0
    then some (returns bad_argument, n)
    else transact n later (encode_header (internal_header packet_type id response_required buffer))
        buffer id response

-- `writeInbandPacketWithTransactionId`, `writeInbandPacket`, `writeCompletionPacketWithTransactionId`.
unfoldable pub write_inband_packet_with_transaction_id :
    Nub → HostView → ℕ → Bool → List ℕ → Option ℕ → Option (Outcome × Nub)
write_inband_packet_with_transaction_id n later id response_required buffer response =
    write_packet_internal n later packet_type_data_inband id response_required buffer response

unfoldable pub write_inband_packet :
    Nub → HostView → Bool → List ℕ → Option ℕ → Option (Outcome × Nub)
write_inband_packet n later response_required buffer response =
    let (id, n') = get_next_trans_id n in
    write_inband_packet_with_transaction_id n' later id response_required buffer response

unfoldable pub write_completion_packet_with_transaction_id :
    Nub → HostView → ℕ → Bool → List ℕ → Option (Outcome × Nub)
write_completion_packet_with_transaction_id n later id response_required buffer =
    write_packet_internal n later packet_type_completion id response_required buffer none

-- `VMBusSinglePageBuffer`, and its bytes.
pub record SinglePageBuffer : Type 0 where
  pub length : ℕ
  pub offset : ℕ
  pub pfn : ℕ

abbrev pub encode_page : SinglePageBuffer → List ℕ
encode_page p = le_bytes 4 p.length ++ (le_bytes 4 p.offset ++ le_bytes 8 p.pfn)

abbrev pub encode_pages : List SinglePageBuffer → List ℕ
encode_pages [] = []
encode_pages (p ∷ ps) = encode_page p ++ encode_pages ps

-- `kVMBusMaxPageBufferCount`; the header, reserved word and range count before the ranges.
abbrev pub max_page_buffer_count : ℕ
max_page_buffer_count = 32

abbrev pub page_packet_length : ℕ → ℕ
page_packet_length count = 24 + max_page_buffer_count * 16 - (max_page_buffer_count - count) * 16

-- The header of a packet with page buffers: its total length is not aligned.
unfoldable pub gpa_direct_header : ℕ → ℕ → Bool → List ℕ → PacketHeader
gpa_direct_header packet_length id response_required buffer = record {
  packet_type = packet_type_data_using_gpa_direct;
  header_length = to_u16 (set_packet_size packet_length);
  total_length = to_u16 (set_packet_size (add32 packet_length (length buffer)));
  flags = response_flags response_required;
  transaction_id = id;
}

-- The fields behind the packet header: `reserved`, `rangeCount` and the ranges.
abbrev pub page_ranges : List SinglePageBuffer → List ℕ
page_ranges pages = le_bytes 4 0 ++ (le_bytes 4 (length pages) ++ encode_pages pages)

-- `writeGPADirectSinglePagePacket`.
unfoldable pub write_gpa_direct_single_page_packet :
    Nub → HostView → Bool → List ℕ → List SinglePageBuffer → Option ℕ → Option (Outcome × Nub)
write_gpa_direct_single_page_packet n later response_required buffer pages response =
    if ltb max_page_buffer_count (length pages)
    then some (returns no_resources, n)
    else let (id, n') = get_next_trans_id n in
      let h = gpa_direct_header (page_packet_length (length pages)) id response_required buffer in
      transact n' later (encode_header h ++ page_ranges pages) buffer id response

-- `writeGPADirectMultiPagePacket`: `range` is the caller's page range, behind the range count.
unfoldable pub write_gpa_direct_multi_page_packet :
    Nub → HostView → Bool → List ℕ → List ℕ → Option ℕ → ℕ → Option (Outcome × Nub)
write_gpa_direct_multi_page_packet n later response_required buffer range response id =
    let (id', n') = if id == 0 then get_next_trans_id n else (id, n) in
    let h = gpa_direct_header (24 + length range) id' response_required buffer in
    transact n' later (encode_header h ++ (le_bytes 4 0 ++ (le_bytes 4 1 ++ range))) buffer id'
      response
