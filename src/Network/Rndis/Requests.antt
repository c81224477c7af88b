-- ===== src/Network/Rndis/Requests.antt =====
-- What becomes of the requests of MacHyperVSupport/Network/HyperVNetworkRNDIS.cpp that wait for an
-- answer.
use mac_hyper_vsupport.Network.Rndis.{
  RndisRequest, Rndis, link_request, send_rndis_request, unlink_rndis, complete_rndis,
  get_next_rndis_trans_id,
}
use mac_hyper_vsupport.Common.{
  ℕ, ◌≡◌, ◌≢◌, refl, List, [], ◌∷◌, take, some, add32, ==_self, ne→==_false,
}

-- The first request does not have the number that the next one gets.
abbrev pub IsFresh : ℕ → List RndisRequest → Type 0
IsFresh id [] = Unit
IsFresh id (r ∷ rs) = r.request_id ≢ id

unlink-link :
    (r : RndisRequest) (rs : List RndisRequest)
    → IsFresh r.request_id rs
    → unlink_rndis r.request_id (link_request r rs) ≡ some (r, take 1 rs)
unfolding unlink_rndis link_request
unlink-link r [] fresh = rw (==_self r.request_id) refl
unlink-link r (first ∷ rest) fresh =
    rw (ne→==_false first.request_id r.request_id fresh) (rw (==_self r.request_id) refl)

-- If the first request that waits, if any, does not have the next number, then sending a request
-- and completing it wakes that request, with the answer in it. Of the requests that waited only
-- the first is left on the list.
pub complete-send :
    (message answer : List ℕ) (s : Rndis)
    → IsFresh s.rndis_trans_id s.rndis_requests
    → complete_rndis s.rndis_trans_id answer (send_rndis_request message s) ≡ record s {
      rndis_trans_id = add32 s.rndis_trans_id 1;
      rndis_requests = take 1 s.rndis_requests;
      rndis_woken = record { request_id = s.rndis_trans_id; message = answer } ∷ s.rndis_woken;
    }
unfolding complete_rndis send_rndis_request get_next_rndis_trans_id unlink_rndis
complete-send message answer s fresh =
    rw
      (unlink-link (record { request_id = s.rndis_trans_id; message = message }) s.rndis_requests
        fresh)
      refl
