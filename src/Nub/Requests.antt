-- ===== src/Nub/Requests.antt =====
-- The list of sleeping requests of MacHyperVSupport/VMBusDevice: `addPacketRequest`,
-- `getPendingTransaction` and `wakeTransaction`.
use mac_hyper_vsupport.Common.{
  ℕ, suc, ◌≡◌, ◌≢◌, refl, arith, List, [], ◌∷◌, Option, none, some, ◌==◌, if◌then◌else◌, length,
}
use mac_hyper_vsupport.Nub.{Request, Nub}

-- `addPacketRequest`: the new request becomes the head.
unfoldable pub add_packet_request : Request → Nub → Nub
add_packet_request r n = record n { requests = r ∷ n.requests }

-- `getPendingTransaction`: the first request with the transaction's number.
unfoldable pub find_request : ℕ → List Request → Option Request
find_request id [] = none
find_request id (r ∷ rs) = if r.transaction_id == id then some r else find_request id rs

unfoldable pub get_pending_transaction : ℕ → Nub → Option Request
get_pending_transaction id n = find_request id n.requests

-- The list without that request.
unfoldable pub unlink_request : ℕ → List Request → List Request
unlink_request id [] = []
unlink_request id (r ∷ rs) = if r.transaction_id == id then rs else r ∷ unlink_request id rs

-- `wakeTransaction`: the first request with the number is taken off the list and woken.
unfoldable pub wake_transaction : ℕ → Nub → Nub
wake_transaction id n = elim (find_request id n.requests) [
  | none ↦ n
  | some r ↦ record n { requests = unlink_request id n.requests; woken = r ∷ n.woken }
]

-- `memcpy(responseBuffer, data, length)` into that request's buffer.
unfoldable pub fill_response : ℕ → List ℕ → List Request → List Request
fill_response id bytes [] = []
fill_response id bytes (r ∷ rs) =
    if r.transaction_id == id
    then record r { response_data = bytes } ∷ rs
    else r ∷ fill_response id bytes rs

-- `prepareSleepThread`: thread zero sleeps on transaction 0.
abbrev pub thread_zero_request : Request
thread_zero_request = record { transaction_id = 0; response_data = []; response_data_length = 0 }

unfoldable pub prepare_sleep_thread : Nub → Nub
unfolding add_packet_request
prepare_sleep_thread n = add_packet_request thread_zero_request n

-- `wakeThreadZero`.
unfoldable pub wake_thread_zero : Nub → Nub
unfolding wake_transaction
wake_thread_zero n = wake_transaction 0 n

-- Waking one transaction leaves what is pending for every other.
pub find-unlink_ne :
    (i j : ℕ) (rs : List Request) → i ≢ j → find_request j (unlink_request i rs) ≡ find_request j rs
unfolding find_request unlink_request
find-unlink_ne i j [] h = refl
find-unlink_ne i j (r ∷ rs) h = ground (arith, find-unlink_ne i j rs h)

pub find-fill_ne :
    (i j : ℕ) (bytes : List ℕ) (rs : List Request)
    → i ≢ j
    → find_request j (fill_response i bytes rs) ≡ find_request j rs
unfolding find_request fill_response
find-fill_ne i j bytes [] h = refl
find-fill_ne i j bytes (r ∷ rs) h = ground (arith, find-fill_ne i j bytes rs h)

-- The request that is filled is the one that is woken.
pub find-fill_self :
    (i : ℕ) (bytes : List ℕ) (rs : List Request) (r : Request)
    → find_request i rs ≡ some r
    → find_request i (fill_response i bytes rs) ≡ some (record r { response_data = bytes })
unfolding find_request fill_response
find-fill_self i bytes [] r h = ground arith
find-fill_self i bytes (x ∷ rs) r h = ground (arith, find-fill_self i bytes rs r)

pub unlink-fill :
    (i : ℕ) (bytes : List ℕ) (rs : List Request)
    → unlink_request i (fill_response i bytes rs) ≡ unlink_request i rs
unfolding unlink_request fill_response
unlink-fill i bytes [] = refl
unlink-fill i bytes (r ∷ rs) = ground (arith, unlink-fill i bytes rs)

pub length-unlink :
    (i : ℕ) (rs : List Request) (r : Request)
    → find_request i rs ≡ some r
    → length rs ≡ suc (length (unlink_request i rs))
unfolding find_request unlink_request
length-unlink i [] r h = ground arith
length-unlink i (x ∷ rs) r h = ground (arith, length-unlink i rs r)

-- Waking the newest request's transaction undoes its addition.
pub unlink-add : (r : Request) (rs : List Request) → unlink_request r.transaction_id (r ∷ rs) ≡ rs
unfolding unlink_request
unlink-add r rs = ground arith

pub find-add : (r : Request) (rs : List Request) → find_request r.transaction_id (r ∷ rs) ≡ some r
unfolding find_request
find-add r rs = ground arith
