-- ===== src/Ring/Copy.antt =====
-- The copies in and out of the ring, which split at the end of the buffer, against the byte by
-- byte reading of MacHyperVSupport/VMBusDevice/HyperVVMBusDevicePrivate.cpp's ring.
use native.Mathlib.Nat.{mod-eq_of_lt}
use mac_hyper_vsupport.Common.{
  ℕ, zero, suc, ◌+◌, ◌-◌, ◌%◌, ◌^◌, ◌≤◌, ◌<◌, List, [], ◌∷◌, ◌++◌, length, take, drop, replicate,
  ltb, ◌≡◌, refl, sym, ap, ap₂, ◌∙◌, inl, inr, arith, add32, sub32, Bool-cases, ltb→lt,
  ltb_false→le, take-append-drop, length-take, length-replicate, replicate-add,
}
use mac_hyper_vsupport.Ring.{
  Memory, poke, store, load, clear, copy_from_ring, copy_to_ring, zero_to_ring,
}
use mac_hyper_vsupport.Ring.Circular.{ring_load, ring_store, ring_load-add, ring_store-append}

-- Up to the end of the buffer the plain copy goes round the ring as far as it has to.
load-ring_load :
    (size : ℕ) (m : Memory) (h n : ℕ) → h + n ≤ size → load m h n ≡ ring_load size m h n
unfolding load ring_load
load-ring_load size m h zero hn = refl
load-ring_load size m h (suc zero) hn = refl
load-ring_load size m h (suc (suc n)) hn = ap (◌∷◌ (m h)) (
    rw (mod-eq_of_lt {n = h + 1} {m = size} (omega arith))
      (load-ring_load size m (h + 1) (suc n) (omega arith)))

store-ring_store :
    (size : ℕ) (m : Memory) (h : ℕ) (xs : List ℕ)
    → h + length xs ≤ size
    → store m h xs ≡ ring_store size m h xs
unfolding store ring_store
store-ring_store size m h [] hn = refl
store-ring_store size m h (x ∷ []) hn = refl
store-ring_store size m h (x ∷ y ∷ xs) hn =
    rw (mod-eq_of_lt {n = h + 1} {m = size} (omega arith))
      (store-ring_store size (poke m h x) (h + 1) (y ∷ xs) (omega arith))

clear-store : (m : Memory) (h n : ℕ) → clear m h n ≡ store m h (replicate n 0)
unfolding clear store
clear-store m h zero = refl
clear-store m h (suc n) = clear-store (poke m h 0) (h + 1) n

module _ (size : ℕ) (small : size ≤ 2 ^ 31) where
  -- In a ring of at most 2 ^ 31 bytes, a copy of up to the ring's size from an index in it gives
  -- the bytes that the circular reading gives, and the index after them, whether or not it wraps.
  pub copy_from_ring_lem :
      (m : Memory) (h n : ℕ)
      → h < size
      → n ≤ size
      → copy_from_ring m size h n n ≡ (ring_load size m h n, (h + n) % size)
  unfolding copy_from_ring
  copy_from_ring_lem m h n hh hn =
      let r : sub32 size h ≡ size - h = omega arith in
      let i : add32 h n ≡ h + n = omega arith in
      elim (Bool-cases (ltb (size - h) n)) [
        | inl e ↦
            let lt : size - h < n = ltb→lt (size - h) n e in
            let s : n ≡ (size - h) + (n - (size - h)) = omega arith in
            let z : (h + (size - h)) % size ≡ 0 = grind arith in
            let d : sub32 n (size - h) ≡ n - (size - h) = omega arith in
            let split : ring_load size m h n
                ≡ ring_load size m h (size - h) ++ ring_load size m 0 (n - (size - h)) =
              ap (ring_load size m h) s
              ∙ ring_load-add size m h (size - h) (n - (size - h)) hh
              ∙ ap (λ k. ring_load size m h (size - h) ++ ring_load size m k (n - (size - h))) z in
            rw (r, i, e, d, split)
              (ap₂ (λ a b. (a ++ b, (h + n) % size))
                (load-ring_load size m h (size - h) (omega arith))
                (load-ring_load size m 0 (n - (size - h)) (omega arith)))
        | inr e ↦
            let le : n ≤ size - h = ltb_false→le (size - h) n e in
            rw (r, i, e) (ap (λ a. (a, (h + n) % size)) (load-ring_load size m h n (omega arith)))
      ]

  -- In a ring of at most 2 ^ 31 bytes, a copy of up to the ring's size to an index in it leaves
  -- the memory that the circular writing leaves, and the index after the bytes, whether or not it
  -- wraps.
  pub copy_to_ring_lem :
      (m : Memory) (w : ℕ) (xs : List ℕ)
      → w < size
      → length xs ≤ size
      → copy_to_ring m size w xs ≡ (ring_store size m w xs, (w + length xs) % size)
  unfolding copy_to_ring
  copy_to_ring_lem m w xs hw hn =
      let r : sub32 size w ≡ size - w = omega arith in
      let i : add32 w (length xs) ≡ w + length xs = omega arith in
      elim (Bool-cases (ltb (size - w) (length xs))) [
        | inl e ↦
            let lt : size - w < length xs = ltb→lt (size - w) (length xs) e in
            let a = take (size - w) xs in
            let b = drop (size - w) xs in
            let la : length a ≡ size - w = omega (arith, length-take (size - w) xs) in
            let lb : length b ≤ size = omega (arith, length_drop_le xs (size - w)) in
            let z : (w + length a) % size ≡ 0 = grind arith in
            let split : ring_store size m w xs ≡ ring_store size (ring_store size m w a) 0 b =
              ap (ring_store size m w) (sym (take-append-drop (size - w) xs))
              ∙ ring_store-append size m w a b hw
              ∙ ap (λ k. ring_store size (ring_store size m w a) k b) z in
            rw (r, i, e, split)
              (ap (λ k. (k, (w + length xs) % size))
                (ap (λ k. store k 0 b) (store-ring_store size m w a (omega arith))
                  ∙ store-ring_store size (ring_store size m w a) 0 b (omega arith)))
        | inr e ↦
            let le : length xs ≤ size - w = ltb_false→le (size - w) (length xs) e in
            rw (r, i, e)
              (ap (λ a. (a, (w + length xs) % size)) (store-ring_store size m w xs (omega arith)))
      ]
    where
      length_drop_le : (ys : List ℕ) (k : ℕ) → length (drop k ys) ≤ length ys
      length_drop_le ys zero = omega arith
      length_drop_le [] (suc k) = omega arith
      length_drop_le (y ∷ ys) (suc k) = omega (arith, length_drop_le ys k)

  clear-ring_store :
      (m : Memory) (w n : ℕ) → w + n ≤ size → clear m w n ≡ ring_store size m w (replicate n 0)
  clear-ring_store m w n h =
      clear-store m w n
      ∙ store-ring_store size m w (replicate n 0) (omega (arith, length-replicate {A = ℕ} n 0))

  two_clears :
      (m : Memory) (w a b : ℕ)
      → w + a ≡ size
      → b ≤ size
      → w < size
      → clear (clear m w a) 0 b ≡ ring_store size m w (replicate (a + b) 0)
  two_clears m w a b h hb hw =
      let l : length {A = ℕ} (replicate a 0) ≡ a = length-replicate a 0 in
      let z : (w + length {A = ℕ} (replicate a 0)) % size ≡ 0 = grind arith in
      clear-ring_store (clear m w a) 0 b (omega arith)
      ∙ ap (λ k. ring_store size k 0 (replicate b 0)) (clear-ring_store m w a (omega arith))
      ∙ ap (λ k. ring_store size (ring_store size m w (replicate a 0)) k (replicate b 0)) (sym z)
      ∙ sym (ring_store-append size m w (replicate a 0) (replicate b 0) hw)
      ∙ ap (ring_store size m w) (sym (replicate-add a b 0))

  -- In a ring of at most 2 ^ 31 bytes, clearing up to the ring's size from an index in it leaves
  -- the memory that the circular writing of as many zeros leaves, and the index after them,
  -- whether or not it wraps.
  pub zero_to_ring_lem :
      (m : Memory) (w n : ℕ)
      → w < size
      → n ≤ size
      → zero_to_ring m size w n ≡ (ring_store size m w (replicate n 0), (w + n) % size)
  unfolding zero_to_ring
  zero_to_ring_lem m w n hw hn =
      let r : sub32 size w ≡ size - w = omega arith in
      let i : add32 w n ≡ w + n = omega arith in
      elim (Bool-cases (ltb (size - w) n)) [
        | inl e ↦
            let lt : size - w < n = ltb→lt (size - w) n e in
            let d : sub32 n (size - w) ≡ n - (size - w) = omega arith in
            let s : n ≡ (size - w) + (n - (size - w)) = omega arith in
            rw (r, i, e, d)
              (ap (λ k. (k, (w + n) % size))
                (two_clears m w (size - w) (n - (size - w)) (omega arith) (omega arith) hw
                  ∙ ap (λ k. ring_store size m w (replicate k 0)) (sym s)))
        | inr e ↦
            let le : n ≤ size - w = ltb_false→le (size - w) n e in
            rw (r, i, e) (ap (λ k. (k, (w + n) % size)) (clear-ring_store m w n (omega arith)))
      ]
