-- ===== src/Network/Sections/Search.antt =====
-- The search for a clear bit in `getNextSendIndex` of
-- MacHyperVSupport/Network/HyperVNetworkPrivate.cpp.
use mac_hyper_vsupport.Network.Sections.{
  test_bit, set_bit, sync_test_and_set_bit, SendSections, send_section_index_invalid, try_indexes,
}
use mac_hyper_vsupport.Network.Sections.Bits.{set_bit-set}
use mac_hyper_vsupport.Common.{
  ℕ, zero, suc, ◌+◌, ◌≤◌, ◌<◌, ◌≡◌, refl, ap, ◌∙◌, arith, List, Bool, true, false, ◌==◌, add32, ◌⊎◌,
  inl, inr, Bool-cases, subst, ==_iff,
}

-- The state after section `k` was taken.
abbrev pub take_section : ℕ → SendSections → SendSections
take_section k s = record s {
  send_index_map = set_bit k s.send_index_map;
  send_indexes_outstanding = add32 s.send_indexes_outstanding 1;
}

-- All bits of `i..k` are set.
abbrev pub AllSet : ℕ → ℕ → List Bool → Type 0
AllSet i k bits = (j : ℕ) → i ≤ j → j < k → test_bit j bits ≡ true

AllSet-extend :
    (i k : ℕ) (bits : List Bool) → test_bit i bits ≡ true → AllSet (suc i) k bits → AllSet i k bits
AllSet-extend i k bits e all j a b = elim (Bool-cases (i == j)) [
  | inl q ↦ subst (λ m. test_bit m bits ≡ true) ((==_iff i j).0 q) e
  | inr q ↦ all j (ground arith) b
]

try_indexes-set :
    (n i : ℕ) (s : SendSections)
    → test_bit i s.send_index_map ≡ true
    → try_indexes (suc n) i s ≡ try_indexes n (suc i) s
unfolding try_indexes sync_test_and_set_bit
try_indexes-set n i s e = rw e (
    ap (λ b. try_indexes n (suc i) (record s { send_index_map = b }))
      (set_bit-set i s.send_index_map e))

try_indexes-clear :
    (n i : ℕ) (s : SendSections)
    → test_bit i s.send_index_map ≡ false
    → try_indexes (suc n) i s ≡ (i, take_section i s)
unfolding try_indexes sync_test_and_set_bit
try_indexes-clear n i s e = rw e refl

try_indexes-zero : (i : ℕ) (s : SendSections) → try_indexes 0 i s ≡ (send_section_index_invalid, s)
unfolding try_indexes
try_indexes-zero i s = refl

-- What a search from `i` on does: it finds all bits set, or takes the first clear one.
abbrev pub SearchFinds : ℕ → ℕ → SendSections → ℕ → Type 0
SearchFinds i n s k =
    (i ≤ k)
    × (k < i + n)
    × (test_bit k s.send_index_map ≡ false)
    × AllSet i k s.send_index_map
    × (try_indexes n i s ≡ (k, take_section k s))

pub try_indexes-cases :
    (n i : ℕ) (s : SendSections)
    → ((try_indexes n i s ≡ (send_section_index_invalid, s)) × AllSet i (i + n) s.send_index_map)
      ⊎ ((k : ℕ) × SearchFinds i n s k)
try_indexes-cases zero i s = inl (try_indexes-zero i s, λ j a b. absurd (omega arith))
try_indexes-cases (suc n) i s = elim (Bool-cases (test_bit i s.send_index_map)) [
  | inr e ↦
      inr (
        i,
        (omega arith, omega arith, e, (λ j a b. absurd (omega arith)), try_indexes-clear n i s e),
      )
  | inl e ↦ elim (try_indexes-cases n (suc i) s) [
    | inl (r, all) ↦ inl (
      try_indexes-set n i s e ∙ r,
      AllSet-extend i (i + suc n) s.send_index_map e (λ j a b. all j a (omega arith)),
    )
    | inr (k, (p, q, c, all, r)) ↦ inr (
      k,
      (
        omega arith,
        omega arith,
        c,
        AllSet-extend i k s.send_index_map e all,
        try_indexes-set n i s e ∙ r,
      ),
    )
  ]
]
