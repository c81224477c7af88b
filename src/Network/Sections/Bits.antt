-- ===== src/Network/Sections/Bits.antt =====
-- What setting and turning over one bit of a bitmap do to its bits and to their number.
use mathlib.Core.Bool.{false≢true}
use mac_hyper_vsupport.Network.Sections.{test_bit, set_bit, sync_change_bit, bit_value, used}
use mac_hyper_vsupport.Common.{
  ℕ, zero, suc, ◌≤◌, ◌<◌, ◌≡◌, ◌≢◌, refl, sym, ap, arith, List, [], ◌∷◌, length, Bool, true, false,
  not,
}

pub used_le_length : (bs : List Bool) → used bs ≤ length bs
unfolding used
used_le_length [] = omega arith
used_le_length (true ∷ bs) = omega (arith, used_le_length bs)
used_le_length (false ∷ bs) = omega (arith, used_le_length bs)

pub set_bit-set : (i : ℕ) (bs : List Bool) → test_bit i bs ≡ true → set_bit i bs ≡ bs
set_bit-set i [] h = refl
set_bit-set zero (b ∷ bs) h = ap (λ c. c ∷ bs) (sym h)
set_bit-set (suc i) (b ∷ bs) h = ap (◌∷◌ b) (set_bit-set i bs h)

pub length-set_bit : (i : ℕ) (bs : List Bool) → length (set_bit i bs) ≡ length bs
length-set_bit i [] = refl
length-set_bit zero (b ∷ bs) = refl
length-set_bit (suc i) (b ∷ bs) = ap suc (length-set_bit i bs)

pub length-sync_change_bit : (i : ℕ) (bs : List Bool) → length (sync_change_bit i bs) ≡ length bs
unfolding sync_change_bit
length-sync_change_bit i [] = refl
length-sync_change_bit zero (b ∷ bs) = refl
length-sync_change_bit (suc i) (b ∷ bs) = ap suc (length-sync_change_bit i bs)

pub test_bit-set_bit : (i : ℕ) (bs : List Bool) → i < length bs → test_bit i (set_bit i bs) ≡ true
test_bit-set_bit i [] h = absurd (omega arith)
test_bit-set_bit zero (b ∷ bs) h = refl
test_bit-set_bit (suc i) (b ∷ bs) h = test_bit-set_bit i bs (omega arith)

pub test_bit-set_bit_other :
    (i j : ℕ) (bs : List Bool) → i ≢ j → test_bit j (set_bit i bs) ≡ test_bit j bs
test_bit-set_bit_other i j [] h = refl
test_bit-set_bit_other zero zero (b ∷ bs) h = absurd (h refl)
test_bit-set_bit_other zero (suc j) (b ∷ bs) h = refl
test_bit-set_bit_other (suc i) zero (b ∷ bs) h = refl
test_bit-set_bit_other (suc i) (suc j) (b ∷ bs) h =
    test_bit-set_bit_other i j bs (λ e. h (ap suc e))

pub test_bit-sync_change_bit :
    (i : ℕ) (bs : List Bool) → test_bit i bs ≡ true → test_bit i (sync_change_bit i bs) ≡ false
unfolding sync_change_bit
test_bit-sync_change_bit i [] h = refl
test_bit-sync_change_bit zero (b ∷ bs) h = ap not h
test_bit-sync_change_bit (suc i) (b ∷ bs) h = test_bit-sync_change_bit i bs h

pub test_bit-sync_change_bit_other :
    (i j : ℕ) (bs : List Bool) → i ≢ j → test_bit j (sync_change_bit i bs) ≡ test_bit j bs
unfolding sync_change_bit
test_bit-sync_change_bit_other i j [] h = refl
test_bit-sync_change_bit_other zero zero (b ∷ bs) h = absurd (h refl)
test_bit-sync_change_bit_other zero (suc j) (b ∷ bs) h = refl
test_bit-sync_change_bit_other (suc i) zero (b ∷ bs) h = refl
test_bit-sync_change_bit_other (suc i) (suc j) (b ∷ bs) h =
    test_bit-sync_change_bit_other i j bs (λ e. h (ap suc e))

pub used-set_bit :
    (i : ℕ) (bs : List Bool)
    → i < length bs
    → test_bit i bs ≡ false
    → used (set_bit i bs) ≡ suc (used bs)
unfolding used
used-set_bit i [] h e = absurd (omega arith)
used-set_bit zero (b ∷ bs) h e = omega (arith, ap bit_value e)
used-set_bit (suc i) (b ∷ bs) h e = omega (arith, used-set_bit i bs (omega arith) e)

pub used-sync_change_bit :
    (i : ℕ) (bs : List Bool) → test_bit i bs ≡ true → suc (used (sync_change_bit i bs)) ≡ used bs
unfolding used sync_change_bit
used-sync_change_bit i [] e = absurd (false≢true e)
used-sync_change_bit zero (true ∷ bs) e = omega arith
used-sync_change_bit zero (false ∷ bs) e = absurd (false≢true e)
used-sync_change_bit (suc i) (b ∷ bs) e = omega (arith, used-sync_change_bit i bs e)
