-- ===== src/Ring/Circular.antt =====
-- Reading and writing a ring byte by byte, one step round at a time: what the copies of
-- MacHyperVSupport/VMBusDevice/HyperVVMBusDevicePrivate.cpp are measured by.
use native.Mathlib.Nat.{mod-add-mod, mod-eq_of_lt, mod-eq-sub-mod, add-zero}
use native.Mathlib.Decide.{dec_lt}
use mac_hyper_vsupport.Common.{
  ℕ, zero, suc, ◌+◌, ◌-◌, ◌%◌, ◌≤◌, ◌<◌, List, [], ◌∷◌, ◌++◌, length, ◌≡◌, ◌≢◌, refl, sym, ap, ap₂,
  ◌∙◌, arith, append_assoc, append-nil,
}
use mac_hyper_vsupport.Ring.{Memory, poke}

pub poke_self : (m : Memory) (i v : ℕ) → poke m i v i ≡ v
unfolding poke
poke_self m i v = ground arith

pub poke_ne : (m : Memory) (i v k : ℕ) → k ≢ i → poke m i v k ≡ m k
unfolding poke
poke_ne m i v k h = ground arith

module _ (size : ℕ) where
  -- `n` bytes from index `h` on, going round at `size`.
  unfoldable pub ring_load : Memory → ℕ → ℕ → List ℕ
  ring_load m h zero = []
  ring_load m h (suc n) = m h ∷ ring_load m ((h + 1) % size) n

  -- The bytes of a list from index `h` on, going round at `size`.
  unfoldable pub ring_store : Memory → ℕ → List ℕ → Memory
  ring_store m h [] = m
  ring_store m h (x ∷ xs) = ring_store (poke m h x) ((h + 1) % size) xs

pub length-ring_load : (size : ℕ) (m : Memory) (h n : ℕ) → length (ring_load size m h n) ≡ n
unfolding ring_load
length-ring_load size m h zero = refl
length-ring_load size m h (suc n) = ap suc (length-ring_load size m ((h + 1) % size) n)

-- Two steps round the ring are one.
pub step_step : (size h a b : ℕ) → ((h + a) % size + b) % size ≡ (h + (a + b)) % size
step_step size h a b = rw mod-add-mod (ap (λ k. k % size) (omega arith))

pub ring_load-add :
    (size : ℕ) (m : Memory) (h a b : ℕ)
    → h < size
    → ring_load size m h (a + b) ≡ ring_load size m h a ++ ring_load size m ((h + a) % size) b
unfolding ring_load
ring_load-add size m h zero b hh =
    let e : 0 + b ≡ b = omega arith in
    let f : (h + 0) % size ≡ h = rw (add-zero, mod-eq_of_lt hh) in rw (e, f)
ring_load-add size m h (suc a) b hh =
    let e : suc a + b ≡ suc (a + b) = omega arith in
    let f : ((h + 1) % size + a) % size ≡ (h + suc a) % size =
      step_step size h 1 a ∙ ap (λ k. (h + k) % size) (omega arith) in
    rw e (
      ap (◌∷◌ (m h)) (
        ring_load-add size m ((h + 1) % size) a b (omega arith)
        ∙ ap (λ k. ring_load size m ((h + 1) % size) a ++ ring_load size m k b) f))

pub ring_store-append :
    (size : ℕ) (m : Memory) (h : ℕ) (xs ys : List ℕ)
    → h < size
    → ring_store size m h (xs ++ ys)
      ≡ ring_store size (ring_store size m h xs) ((h + length xs) % size) ys
unfolding ring_store
ring_store-append size m h [] ys hh =
    let f : (h + 0) % size ≡ h = rw (add-zero, mod-eq_of_lt hh) in rw f
ring_store-append size m h (x ∷ xs) ys hh =
    ring_store-append size (poke m h x) ((h + 1) % size) xs ys (omega arith)
    ∙ ap (λ k. ring_store size (ring_store size (poke m h x) ((h + 1) % size) xs) k ys)
        (step_step size h 1 (length xs) ∙ ap (λ k. (h + k) % size) (omega arith))

-- Fewer than `size` steps round the ring do not come back to the start.
step_ne : (size h k : ℕ) → h < size → suc k < size → (h + suc k) % size ≢ h
step_ne size h k hh hk = elim (dec_lt (h + suc k) size) [
  | yes p ↦ omega (arith, mod-eq_of_lt p)
  | no p ↦ omega (
    arith,
    mod-eq-sub-mod {n = h + suc k} {m = size} (omega arith),
    mod-eq_of_lt {n = h + suc k - size} {m = size} (omega arith),
  )
]

-- A byte put just behind `n` bytes extends them by that byte.
pub ring_load-poke :
    (size : ℕ) (m : Memory) (h n v : ℕ)
    → h < size
    → n < size
    → ring_load size (poke m ((h + n) % size) v) h (suc n) ≡ ring_load size m h n ++ (v ∷ [])
unfolding ring_load
ring_load-poke size m h zero v hh hn =
    let f : (h + 0) % size ≡ h = rw (add-zero, mod-eq_of_lt hh) in rw (f, poke_self m h v)
ring_load-poke size m h (suc n) v hh hn =
    ap₂ ◌∷◌ (poke_ne m ((h + suc n) % size) v h (λ e. step_ne size h n hh hn (sym e))) (
      ap (λ k. ring_load size (poke m k v) ((h + 1) % size) (suc n)) shift
      ∙ ring_load-poke size m ((h + 1) % size) n v (omega arith) (omega arith))
  where
    shift : (h + suc n) % size ≡ ((h + 1) % size + n) % size
    shift = ap (λ k. (h + k) % size) (omega arith) ∙ sym (step_step size h 1 n)

-- Bytes stored behind `n` bytes extend them by those bytes, and overwrite none of them.
pub ring_load-store :
    (size : ℕ) (m : Memory) (h n : ℕ) (xs : List ℕ)
    → h < size
    → n + length xs ≤ size
    → ring_load size (ring_store size m ((h + n) % size) xs) h (n + length xs)
      ≡ ring_load size m h n ++ xs
unfolding ring_store
ring_load-store size m h n [] hh hn = rw (add-zero, append-nil)
ring_load-store size m h n (x ∷ xs) hh hn =
    let m' = poke m ((h + n) % size) x in
    let e : n + suc (length xs) ≡ suc n + length xs = omega arith in
    let f : ((h + n) % size + 1) % size ≡ (h + suc n) % size =
      step_step size h n 1 ∙ ap (λ k. (h + k) % size) (omega arith) in
    rw (e, f)
      (ring_load-store size m' h (suc n) xs hh (omega arith)
        ∙ ap (λ l. l ++ xs) (ring_load-poke size m h n x hh (omega arith))
        ∙ append_assoc (ring_load size m h n) (x ∷ []) xs)

-- Nothing at or past `size` is touched.
pub ring_store_outside :
    (size : ℕ) (m : Memory) (h : ℕ) (xs : List ℕ) (k : ℕ)
    → h < size
    → size ≤ k
    → ring_store size m h xs k ≡ m k
unfolding ring_store
ring_store_outside size m h [] k hh hk = refl
ring_store_outside size m h (x ∷ xs) k hh hk =
    ring_store_outside size (poke m h x) ((h + 1) % size) xs k (omega arith) hk
    ∙ poke_ne m h x k (omega arith)
