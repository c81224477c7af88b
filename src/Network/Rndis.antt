-- ===== src/Network/Rndis.antt =====
-- RNDIS requests and packets: MacHyperVSupport/Network/HyperVNetworkRNDIS.cpp.
pub mod Requests
pub mod Frames
use mac_hyper_vsupport.Transfer.{
  IoReturn, success, bad_argument, no_resources, io_error, message_too_large,
}
use mac_hyper_vsupport.Network.Link.{Link, update_link_state}
use mac_hyper_vsupport.Common.{
  ℕ, ◌+◌, List, [], ◌∷◌, length, take, drop, Bool, true, ◌||◌, not, ◌==◌, leb, if◌then◌else◌,
  Option, none, some, add32, of_le_bytes,
}

-- `HyperVNetworkRNDISRequest`: the request's number, and its message, which the answer overwrites.
pub record RndisRequest : Type 0 where
  pub request_id : ℕ
  pub message : List ℕ

-- The fields of `HyperVNetwork` for RNDIS: the next number, the linked list from `_rndisRequests`
-- on, the requests whose thread was woken and the frames given to macOS, the last ones first.
pub record Rndis : Type 0 where
  pub rndis_trans_id : ℕ
  pub rndis_requests : List RndisRequest
  pub rndis_woken : List RndisRequest
  pub is_network_enabled : Bool
  pub link : Link
  pub input_packets : List (List ℕ)

-- `getNextRNDISTransId`.
unfoldable pub get_next_rndis_trans_id : Rndis → ℕ × Rndis
get_next_rndis_trans_id s =
    (s.rndis_trans_id, record s { rndis_trans_id = add32 s.rndis_trans_id 1 })

-- The insertion in `sendRNDISRequest`: behind the first request, whose old successor is dropped.
unfoldable pub link_request : RndisRequest → List RndisRequest → List RndisRequest
link_request r [] = r ∷ []
link_request r (first ∷ rest) = first ∷ r ∷ []

-- `sendRNDISRequest` until its thread sleeps, for the bytes of the message.
unfoldable pub send_rndis_request : List ℕ → Rndis → Rndis
unfolding get_next_rndis_trans_id link_request
send_rndis_request message s =
    let (id, s₁) = get_next_rndis_trans_id s in
    record s₁ {
      rndis_requests =
          link_request (record { request_id = id; message = message }) s₁.rndis_requests;
    }

-- The loop of `processRNDISPacket` over the list: the request with the number, if there is one,
-- and the list without it.
unfoldable pub unlink_rndis : ℕ → List RndisRequest → Option (RndisRequest × List RndisRequest)
unlink_rndis id [] = none
unlink_rndis id (r ∷ rs) =
    let rest = unlink_rndis id rs in
    if r.request_id == id
    then some (r, rs)
    else elim rest [ none ↦ none | some (found, others) ↦ some (found, r ∷ others) ]

-- The answer is copied over the request's message, and the thread is woken.
unfoldable pub complete_rndis : ℕ → List ℕ → Rndis → Rndis
complete_rndis id answer s = elim (unlink_rndis id s.rndis_requests) [
  | none ↦ s
  | some (r, others) ↦ record s {
    rndis_requests = others;
    rndis_woken = record r { message = answer } ∷ s.rndis_woken;
  }
]

-- The `UInt32` at an offset of the data.
abbrev pub word_at : ℕ → List ℕ → ℕ
word_at offset bytes = of_le_bytes (take 4 (drop offset bytes))

-- `kHyperVNetworkRNDISMessageTypePacket`, `Indicate`, and the four completions.
abbrev pub message_type_packet : ℕ
message_type_packet = 1

abbrev pub message_type_indicate : ℕ
message_type_indicate = 7

abbrev pub is_completion_type : ℕ → Bool
is_completion_type type =
    type == 0x80000002 || type == 0x80000004 || type == 0x80000005 || type == 0x80000006

-- `processIncoming`: the frame begins `dataOffset` bytes behind the header of 8 bytes.
unfoldable pub process_incoming : List ℕ → Rndis → Rndis
process_incoming bytes s = record s {
  input_packets = take (word_at 12 bytes) (drop (8 + word_at 8 bytes) bytes) ∷ s.input_packets;
}

-- `processRNDISPacket`, for the bytes of the receive buffer from the packet on and the packet's
-- length. A medium dictionary is there.
unfoldable pub process_rndis_packet : List ℕ → ℕ → Rndis → Rndis
unfolding process_incoming complete_rndis
process_rndis_packet bytes data_length s =
    let type = word_at 0 bytes in
    if is_completion_type type
    then complete_rndis (word_at 8 bytes) (take data_length bytes) s
    else if type == message_type_packet
    then (if s.is_network_enabled then process_incoming bytes s else s)
    else if type == message_type_indicate
    then record s { link = update_link_state true (some (word_at 8 bytes)) none s.link }
    else s

-- `getRNDISOID` behind the request: the status, `*valueSize`, and the bytes copied to the value if
-- any. The answer begins with the RNDIS header of 8 bytes, then its number, status, length, offset.
unfoldable pub oid_answer : ℕ → List ℕ → IoReturn × ℕ × Option (List ℕ)
oid_answer value_size answer =
    let length = word_at 16 answer in
    if word_at 12 answer == 0
    then (if leb length value_size
        then (success, length, some (take length (drop (8 + word_at 20 answer) answer)))
        else (message_too_large, length, none))
    else (io_error, value_size, none)

-- `getRNDISOID`, with null arguments as `false` and the request `none` if it was not allocated.
unfoldable pub get_rndis_oid : Bool → ℕ → Option (List ℕ) → IoReturn × ℕ × Option (List ℕ)
unfolding oid_answer
get_rndis_oid has_arguments value_size none =
    if has_arguments then (no_resources, value_size, none) else (bad_argument, value_size, none)
get_rndis_oid has_arguments value_size (some answer) =
    if has_arguments then oid_answer value_size answer else (bad_argument, value_size, none)

-- `setRNDISOID`, for the answer's bytes in the same way.
unfoldable pub set_rndis_oid : Bool → ℕ → Option (List ℕ) → IoReturn
set_rndis_oid has_value value_size answer =
    if not has_value || value_size == 0 then bad_argument else elim answer [
      | none ↦ no_resources
      | some bytes ↦ if word_at 12 bytes == 0 then success else io_error
    ]
