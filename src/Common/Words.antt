-- ===== src/Common/Words.antt =====
-- Machine words as native numbers, and their little-endian bytes.
use Prim.Native.Nat.{ℕ, zero, suc, ◌+◌, ◌-◌, ◌*◌, ◌/◌, ◌%◌, ◌^◌, ◌<◌}
use native.Mathlib.Nat.{pow-suc}
use native.Mathlib.Omega.{arith}
use mathlib.Core.Path.{◌≡◌, refl, ap}
use mathlib.Core.List.{List, [], ◌∷◌}
use mac_hyper_vsupport.Common.Lists.{length}

-- `UInt32` addition, subtraction and multiplication.
abbrev pub add32 : ℕ → ℕ → ℕ
add32 a b = (a + b) % 2 ^ 32

abbrev pub sub32 : ℕ → ℕ → ℕ
sub32 a b = (a + 2 ^ 32 - b) % 2 ^ 32

abbrev pub mul32 : ℕ → ℕ → ℕ
mul32 a b = a * b % 2 ^ 32

-- Narrowing assignments.
abbrev pub to_u8 : ℕ → ℕ
to_u8 a = a % 2 ^ 8

abbrev pub to_u16 : ℕ → ℕ
to_u16 a = a % 2 ^ 16

abbrev pub to_u32 : ℕ → ℕ
to_u32 a = a % 2 ^ 32

-- The `k` bytes of a word in memory, lowest first, as on x86.
unfoldable pub le_bytes : ℕ → ℕ → List ℕ
le_bytes zero n = []
le_bytes (suc k) n = n % 256 ∷ le_bytes k (n / 256)

-- The word that bytes in memory stand for.
unfoldable pub of_le_bytes : List ℕ → ℕ
of_le_bytes [] = 0
of_le_bytes (b ∷ bs) = b + 256 * of_le_bytes bs

pub length-le_bytes : (k n : ℕ) → length (le_bytes k n) ≡ k
unfolding le_bytes
length-le_bytes zero n = refl
length-le_bytes (suc k) n = ap suc (length-le_bytes k (n / 256))

-- A word read back from its bytes is the word, if it fits in them.
pub of_le_bytes-le_bytes : (k n : ℕ) → n < 256 ^ k → of_le_bytes (le_bytes k n) ≡ n
unfolding le_bytes of_le_bytes
of_le_bytes-le_bytes zero n h = omega arith
of_le_bytes-le_bytes (suc k) n h =
    let p : n < 256 ^ k * 256 = rw pow-suc at h in
    omega (arith, of_le_bytes-le_bytes k (n / 256) (omega arith))
