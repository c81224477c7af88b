-- ===== src/Nub/Transactions.antt =====
-- Transaction numbers: `getNextTransId` of MacHyperVSupport/VMBusDevice/HyperVVMBusDevice.cpp.
use native.Mathlib.Nat.{mod-eq_of_lt}
use mac_hyper_vsupport.Common.{
  ℕ, zero, suc, ◌+◌, ◌-◌, ◌%◌, ◌^◌, ◌≤◌, ◌<◌, ◌≡◌, ◌≢◌, refl, sym, ap, ◌∙◌, arith, ltb,
  if◌then◌else◌, inl, inr, Bool-cases, ltb→lt, ltb_false→le,
}
use mac_hyper_vsupport.Ring.Circular.{step_step}
use mac_hyper_vsupport.Ring.Contents.{distance_unique}
use mac_hyper_vsupport.Nub.{Nub}

-- `getNextTransId`: the number in hand, and the nub with the next one.
unfoldable pub get_next_trans_id : Nub → ℕ × Nub
get_next_trans_id n =
    let next = (n.trans_id + 1) % 2 ^ 64 in
    (n.trans_id, record n { trans_id = if ltb n.max_auto_trans_id next then 1 else next })

-- The nub behind `k` numbers handed out.
unfoldable pub hand_out : ℕ → Nub → Nub
hand_out zero n = n
hand_out (suc k) n = hand_out k (get_next_trans_id n).1

-- The `k`th number from here on.
abbrev pub nth_trans_id : ℕ → Nub → ℕ
nth_trans_id k n = (get_next_trans_id (hand_out k n)).0

abbrev pub InRange : Nub → Type 0
InRange n = (0 < n.trans_id) × (n.trans_id ≤ n.max_auto_trans_id)

next-InRange :
    (n : Nub)
    → InRange n
    → n.max_auto_trans_id < 2 ^ 64 - 1
    → let n' = (get_next_trans_id n).1 in
      InRange n'
      × (n'.max_auto_trans_id ≡ n.max_auto_trans_id)
      × (n'.trans_id ≡ 1 + (n.trans_id - 1 + 1) % n.max_auto_trans_id)
unfolding get_next_trans_id
next-InRange n r h = elim (Bool-cases (ltb n.max_auto_trans_id ((n.trans_id + 1) % 2 ^ 64))) [
  | inl e ↦
      let lt = ltb→lt n.max_auto_trans_id ((n.trans_id + 1) % 2 ^ 64) e in
      let same : n.trans_id - 1 + 1 ≡ n.max_auto_trans_id = omega arith in
      rw (e, same) ((omega arith, omega arith), refl, grind arith)
  | inr e ↦
      let le = ltb_false→le n.max_auto_trans_id ((n.trans_id + 1) % 2 ^ 64) e in
      let small : n.trans_id - 1 + 1 < n.max_auto_trans_id = omega arith in
      rw (e, mod-eq_of_lt {n = n.trans_id - 1 + 1} {m = n.max_auto_trans_id} small)
        ((omega arith, omega arith), refl, omega arith)
]

-- With a maximum below 2 ^ 64 - 1 and a number in hand from 1 to the maximum, the `k`th number
-- handed out from there is found by counting on from the first and going round from the maximum
-- to 1.
pub nth_trans_id_lem :
    (k : ℕ) (n : Nub)
    → InRange n
    → n.max_auto_trans_id < 2 ^ 64 - 1
    → nth_trans_id k n ≡ 1 + (n.trans_id - 1 + k) % n.max_auto_trans_id
unfolding hand_out get_next_trans_id
nth_trans_id_lem zero n r h =
    let lt : n.trans_id - 1 + 0 < n.max_auto_trans_id = omega arith in
    rw (mod-eq_of_lt {n = n.trans_id - 1 + 0} {m = n.max_auto_trans_id} lt) (omega arith)
nth_trans_id_lem (suc k) n r h =
    let (r', same, next) = next-InRange n r h in
    let n' = (get_next_trans_id n).1 in
    let below : n'.max_auto_trans_id < 2 ^ 64 - 1 = omega arith in
    nth_trans_id_lem k n' r' below
    ∙ ap (λ j. 1 + (n'.trans_id - 1 + k) % j) same
    ∙ ap (λ j. 1 + (j - 1 + k) % n.max_auto_trans_id) next
    ∙ ap (λ j. 1 + (j + k) % n.max_auto_trans_id) less_one
    ∙ ap (λ j. 1 + j) (step_step n.max_auto_trans_id (n.trans_id - 1) 1 k)
    ∙ ap (λ j. 1 + (n.trans_id - 1 + j) % n.max_auto_trans_id) (omega arith)
  where
    less_one :
        1 + (n.trans_id - 1 + 1) % n.max_auto_trans_id - 1
        ≡ (n.trans_id - 1 + 1) % n.max_auto_trans_id
    less_one = omega arith

-- With a maximum below 2 ^ 64 - 1 and a number in hand from 1 to the maximum, two numbers handed
-- out fewer than the maximum apart are different.
pub nth_trans_id_distinct :
    (i j : ℕ) (n : Nub)
    → InRange n
    → n.max_auto_trans_id < 2 ^ 64 - 1
    → i < j
    → j < i + n.max_auto_trans_id
    → nth_trans_id i n ≢ nth_trans_id j n
nth_trans_id_distinct i j n r h lt near e =
    let m = n.max_auto_trans_id in
    let a = n.trans_id - 1 + i in
    let p : a % m ≡ (n.trans_id - 1 + j) % m =
      omega (arith, nth_trans_id_lem i n r h, nth_trans_id_lem j n r h) in
    let q : (a % m + 0) % m ≡ (a % m + (j - i)) % m =
      step_step m (n.trans_id - 1) i 0
      ∙ ap (λ k. k % m) (omega arith)
      ∙ p
      ∙ ap (λ k. k % m) (omega arith)
      ∙ sym (step_step m (n.trans_id - 1) i (j - i)) in
    let z = distance_unique m (a % m) 0 (j - i) (omega arith) (omega arith) (omega arith) q in
    absurd (omega arith)
