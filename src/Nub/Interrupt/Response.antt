-- ===== src/Nub/Interrupt/Response.antt =====
-- The answer that `handleInterrupt` of
-- MacHyperVSupport/VMBusDevice/HyperVVMBusDevicePrivate.cpp hands to a sleeping request.
use mac_hyper_vsupport.Common.{
  ℕ, suc, ◌≡◌, ◌≢◌, refl, sym, ap, ◌∙◌, arith, List, ◌∷◌, length, take, some, ltb, min,
  if◌then◌else◌,
}
use mac_hyper_vsupport.Nub.{Nub, Request}
use mac_hyper_vsupport.Nub.Requests.{
  find_request, unlink_request, fill_response, wake_transaction, find-unlink_ne, find-fill_ne,
  find-fill_self, unlink-fill, length-unlink,
}
use mac_hyper_vsupport.Nub.Interrupt.{respond}

shorter : (a b : ℕ) → (if ltb a b then a else b) ≡ min a b
shorter a b = ground arith

wake_transaction_lem :
    (id : ℕ) (n : Nub) (r : Request)
    → find_request id n.requests ≡ some r
    → wake_transaction id n
      ≡ record n { requests = unlink_request id n.requests; woken = r ∷ n.woken }
unfolding wake_transaction
wake_transaction_lem id n r h = rw (h, wake_transaction)

-- A packet for a request that sleeps on its transaction takes that request off the list and wakes
-- it, with as much of the data as its buffer holds. What every other transaction waits for stays
-- as it was, and so do the rings.
pub respond_lem :
    (id data_length : ℕ) (packet_data : List ℕ) (r : Request) (n : Nub)
    → find_request id n.requests ≡ some r
    → let n' = respond id data_length packet_data r n in
      (n'.woken
        ≡ record r { response_data = take (min data_length r.response_data_length) packet_data }
          ∷ n.woken)
      × (length n.requests ≡ suc (length n'.requests))
      × ((j : ℕ) → id ≢ j → find_request j n'.requests ≡ find_request j n.requests)
      × (n'.tx_buffer ≡ n.tx_buffer)
      × (n'.rx_buffer ≡ n.rx_buffer)
unfolding respond
respond_lem id data_length packet_data r n h =
    let bytes = take (min data_length r.response_data_length) packet_data in
    let n₁ = record n { requests = fill_response id bytes n.requests } in
    rw
      (
        shorter data_length r.response_data_length,
        wake_transaction_lem id n₁ (record r { response_data = bytes })
            (find-fill_self id bytes n.requests r h),
      )
      (
        refl,
        length-unlink id n.requests r h
            ∙ ap (λ k. suc (length k)) (sym (unlink-fill id bytes n.requests)),
        (λ j ne.
            find-unlink_ne id j (fill_response id bytes n.requests) ne
            ∙ find-fill_ne id j bytes n.requests ne),
        refl,
        refl,
      )
