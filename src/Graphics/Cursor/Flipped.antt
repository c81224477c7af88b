-- ===== src/Graphics/Cursor/Flipped.antt =====
-- The rows of a cursor (`setCursorShapeGated` of
-- MacHyperVSupport/Graphics/HyperVGraphicsPrivate.cpp) are sent in the opposite order.
use mac_hyper_vsupport.Graphics.Cursor.{flip_rows}
use mac_hyper_vsupport.Common.{
  ℕ, zero, suc, ◌*◌, ◌≡◌, refl, sym, ap₂, arith, List, [], ◌++◌, length, drop, length-append,
  append_assoc, take-append, drop-append,
}

-- `n` rows one behind the other, the first one first and the last one first.
abbrev pub rows_down : (ℕ → List ℕ) → ℕ → List ℕ
rows_down row zero = []
rows_down row (suc n) = rows_down row n ++ row n

abbrev pub rows_up : (ℕ → List ℕ) → ℕ → List ℕ
rows_up row zero = []
rows_up row (suc n) = row n ++ rows_up row n

length-rows_down :
    (row : ℕ → List ℕ) (stride n : ℕ)
    → ((k : ℕ) → length (row k) ≡ stride)
    → length (rows_down row n) ≡ n * stride
length-rows_down row stride zero h = omega arith
length-rows_down row stride (suc n) h =
    omega (arith, length-append (rows_down row n) (row n), length-rows_down row stride n h, h n)

pub flip_rows-rows_down :
    (row : ℕ → List ℕ) (stride n : ℕ) (rest : List ℕ)
    → ((k : ℕ) → length (row k) ≡ stride)
    → flip_rows n stride (rows_down row n ++ rest) ≡ rows_up row n
unfolding flip_rows
flip_rows-rows_down row stride zero rest h = refl
flip_rows-rows_down row stride (suc n) rest h =
    let split : rows_down row (suc n) ++ rest ≡ rows_down row n ++ (row n ++ rest) =
      append_assoc (rows_down row n) (row n) rest in
    let skipped : drop (n * stride) (rows_down row n ++ (row n ++ rest)) ≡ row n ++ rest =
      drop-append (rows_down row n) (row n ++ rest) (n * stride)
        (sym (length-rows_down row stride n h)) in
    rw split (
      rw skipped (
        ap₂ (λ a b. a ++ b) (take-append (row n) rest stride (sym (h n)))
          (flip_rows-rows_down row stride n (row n ++ rest) h)))
