-- ===== src/Ring/Space.antt =====
-- What `getAvailableRingSpace` of MacHyperVSupport/VMBusDevice/HyperVVMBusDevice.hpp computes, and
-- the well-formed rings.
use native.Mathlib.Nat.{mod-eq_of_lt, mod-eq-sub-mod}
use native.Mathlib.Decide.{dec_lt}
use mac_hyper_vsupport.Common.{
  ℕ, ◌+◌, ◌-◌, ◌%◌, ◌^◌, ◌≤◌, ◌<◌, ◌≡◌, ap, ◌∙◌, inl, inr, arith, leb, Bool-cases, leb→le,
  if◌then◌else◌,
}
use mac_hyper_vsupport.Ring.{Ring, available_space}

-- Both indices lie in a ring of at most 2 ^ 31 bytes.
pub record IsValid (size : ℕ) (r : Ring) : Type 0 where
  pub small : size ≤ 2 ^ 31
  pub write_in : r.write_index < size
  pub read_in : r.read_index < size

-- The bytes from the read index to the write index.
unfoldable pub used : Ring → ℕ → ℕ
used r size =
    if leb r.read_index r.write_index
    then r.write_index - r.read_index
    else size - (r.read_index - r.write_index)

pub used-lt : {size : ℕ} {r : Ring} → IsValid size r → used r size < size
unfolding used
used-lt v = ground arith

-- The write index is the read index, moved on by the bytes in use.
pub write_index-used :
    {size : ℕ} {r : Ring} → IsValid size r → (r.read_index + used r size) % size ≡ r.write_index
unfolding used
write_index-used {size} {r} v = elim (Bool-cases (leb r.read_index r.write_index)) [
  | inl e ↦
      let le : r.read_index ≤ r.write_index = leb→le r.read_index r.write_index e in
      rw e
        (ap (λ k. k % size) (omega arith) ∙ mod-eq_of_lt {n = r.write_index} {m = size} v.write_in)
  | inr e ↦
      let n = r.read_index + (size - (r.read_index - r.write_index)) in
      let lt : r.write_index < r.read_index = ground arith in
      let d : n ≡ r.write_index + size = omega arith in
      rw (e, d)
        (mod-eq-sub-mod {n = r.write_index + size} {m = size} (omega arith)
          ∙ ap (λ k. k % size) (omega arith)
          ∙ mod-eq_of_lt {n = r.write_index} {m = size} v.write_in)
]

-- Moving on by `n` bytes uses `n`, for fewer bytes than the ring has.
pub used_of_moved :
    {size : ℕ} (r : Ring) (n : ℕ)
    → r.read_index < size
    → n < size
    → r.write_index ≡ (r.read_index + n) % size
    → used r size ≡ n
unfolding used
used_of_moved {size} r n hr hn e = elim (dec_lt (r.read_index + n) size) [
  | yes p ↦
      let w : r.write_index ≡ r.read_index + n =
        e ∙ mod-eq_of_lt {n = r.read_index + n} {m = size} p in
      ground arith
  | no p ↦
      let w : r.write_index ≡ r.read_index + n - size =
        e
        ∙ mod-eq-sub-mod {n = r.read_index + n} {m = size} (omega arith)
        ∙ mod-eq_of_lt {n = r.read_index + n - size} {m = size} (omega arith) in
      ground arith
]

-- On a valid ring the available space is the bytes in use and the rest of the ring.
pub available_space_lem :
    {size : ℕ} {r : Ring}
    → IsValid size r
    → available_space r size ≡ (used r size, size - used r size)
unfolding available_space used
available_space_lem v = ground arith
