-- ===== src/Ring/Contents.antt =====
-- The ring buffer of MacHyperVSupport/VMBus/VMBus.hpp as a queue of bytes: what stands between
-- the read index and the write index.
use native.Mathlib.Nat.{mod-eq_of_lt}
use mac_hyper_vsupport.Common.{
  ℕ, ◌+◌, ◌-◌, ◌%◌, ◌≤◌, ◌<◌, ◌≡◌, refl, sym, ap, ◌∙◌, arith, List, [], ◌++◌, length, take, drop,
  take-append, drop-append, length-append,
}
use mac_hyper_vsupport.Ring.{Ring}
use mac_hyper_vsupport.Ring.Circular.{
  ring_load, ring_store, ring_load-add, ring_load-store, length-ring_load, step_step,
}
use mac_hyper_vsupport.Ring.Space.{IsValid, used, used-lt, used_of_moved, write_index-used}

unfoldable pub contents : Ring → ℕ → List ℕ
contents r size = ring_load size r.buffer r.read_index (used r size)

pub length-contents : (r : Ring) (size : ℕ) → length (contents r size) ≡ used r size
unfolding contents
length-contents r size = length-ring_load size r.buffer r.read_index (used r size)

-- Bytes put in at the write index join the queue at its end.
abbrev pub append_bytes : Ring → ℕ → List ℕ → Ring
append_bytes r size xs = record r {
  write_index = (r.write_index + length xs) % size;
  buffer = ring_store size r.buffer r.write_index xs;
}

-- Bytes taken off at the read index leave it.
abbrev pub drop_bytes : Ring → ℕ → ℕ → Ring
drop_bytes r size n = record r { read_index = (r.read_index + n) % size }

module _ {size : ℕ} (r : Ring) (v : IsValid size r) where
  pub append_bytes-IsValid : (xs : List ℕ) → IsValid size (append_bytes r size xs)
  append_bytes-IsValid xs =
      let p = v.write_in in record { small = v.small; write_in = omega arith; read_in = v.read_in }

  pub used-append_bytes :
      (xs : List ℕ)
      → used r size + length xs < size
      → used (append_bytes r size xs) size ≡ used r size + length xs
  used-append_bytes xs h =
      used_of_moved (append_bytes r size xs) (used r size + length xs) v.read_in h (
        ap (λ k. (k + length xs) % size) (sym (write_index-used v))
        ∙ step_step size r.read_index (used r size) (length xs))

  pub contents-append_bytes :
      (xs : List ℕ)
      → used r size + length xs < size
      → contents (append_bytes r size xs) size ≡ contents r size ++ xs
  unfolding contents
  contents-append_bytes xs h =
      ap (ring_load size (ring_store size r.buffer r.write_index xs) r.read_index)
        (used-append_bytes xs h)
      ∙ ap
          (λ k.
            ring_load size (ring_store size r.buffer k xs) r.read_index (used r size + length xs))
          (sym (write_index-used v))
      ∙ ring_load-store size r.buffer r.read_index (used r size) xs v.read_in (omega arith)

  pub drop_bytes-IsValid : (n : ℕ) → IsValid size (drop_bytes r size n)
  drop_bytes-IsValid n =
      let p = v.read_in in record { small = v.small; write_in = v.write_in; read_in = omega arith }

  pub used-drop_bytes :
      (n : ℕ) → n ≤ used r size → used (drop_bytes r size n) size ≡ used r size - n
  used-drop_bytes n h =
      let u = used-lt v in
      let p = v.read_in in
      used_of_moved (drop_bytes r size n) (used r size - n) (omega arith) (omega arith) (
        sym (write_index-used v)
        ∙ ap (λ k. (r.read_index + k) % size) (omega arith)
        ∙ sym (step_step size r.read_index n (used r size - n)))

  contents_split :
      (n : ℕ)
      → n ≤ used r size
      → contents r size
        ≡ ring_load size r.buffer r.read_index n ++ contents (drop_bytes r size n) size
  unfolding contents
  contents_split n h =
      ap (ring_load size r.buffer r.read_index) (omega arith)
      ∙ ring_load-add size r.buffer r.read_index n (used r size - n) v.read_in
      ∙ ap
          (λ k.
            ring_load size r.buffer r.read_index n
            ++ ring_load size r.buffer ((r.read_index + n) % size) k)
          (sym (used-drop_bytes n h))

  -- Reading and passing over as many bytes as stand first in the queue gives those bytes, and
  -- leaves the others.
  pub contents-drop_bytes :
      (xs ys : List ℕ)
      → contents r size ≡ xs ++ ys
      → (ring_load size r.buffer r.read_index (length xs) ≡ xs)
        × (contents (drop_bytes r size (length xs)) size ≡ ys)
  contents-drop_bytes xs ys e =
      let l : length (contents r size) ≡ length xs + length ys =
        ap length e ∙ length-append xs ys in
      let n : length xs ≤ used r size = omega (arith, length-contents r size) in
      let s = contents_split (length xs) n in
      let k = length-ring_load size r.buffer r.read_index (length xs) in
      let t = sym e ∙ s in
      let a = ring_load size r.buffer r.read_index (length xs) in
      let b = contents (drop_bytes r size (length xs)) size in
      (
        sym (take-append a b (length xs) (sym k))
            ∙ ap (take (length xs)) (sym t)
            ∙ take-append xs ys (length xs) (omega arith),
        sym (drop-append a b (length xs) (sym k))
            ∙ ap (drop (length xs)) (sym t)
            ∙ drop-append xs ys (length xs) (omega arith),
      )

-- The queue of a ring is a matter of its buffer and its indices.
pub contents_eq :
    (r s : Ring) (size : ℕ)
    → r.buffer ≡ s.buffer
    → r.write_index ≡ s.write_index
    → r.read_index ≡ s.read_index
    → contents r size ≡ contents s size
unfolding contents used
contents_eq r s size p q t i =
    contents (record r { buffer = p i; write_index = q i; read_index = t i }) size

-- Passing over bytes at the read index drops them from the queue.
pub contents-drop :
    {size : ℕ} (r : Ring)
    → IsValid size r
    → (n : ℕ) → n ≤ used r size
    → contents (drop_bytes r size n) size ≡ drop n (contents r size)
contents-drop {size} r v n h =
    let a = ring_load size r.buffer r.read_index n in
    sym (
      drop-append a (contents (drop_bytes r size n) size) n
        (sym (length-ring_load size r.buffer r.read_index n)))
    ∙ ap (drop n) (sym (contents_split r v n h))

-- Two distances below `size` that lead to one place are equal.
pub distance_unique :
    (size r a b : ℕ) → r < size → a < size → b < size → (r + a) % size ≡ (r + b) % size → a ≡ b
distance_unique size r a b hr ha hb e =
    sym (used_of_moved at a hr ha refl) ∙ used_of_moved at b hr hb e
  where
    at : Ring
    at = record {
      write_index = (r + a) % size;
      read_index = r;
      interrupt_mask = 0;
      guest_to_host_interrupt_count = 0;
      buffer = λ _. 0;
    }

-- Equal indices leave nothing in the queue.
pub contents_empty :
    {size : ℕ} (r : Ring)
    → r.read_index < size
    → r.write_index ≡ r.read_index
    → (used r size ≡ 0) × (contents r size ≡ [])
unfolding contents ring_load
contents_empty {size} r h e =
    let u : used r size ≡ 0 =
      used_of_moved r 0 h (omega arith) (
        e
        ∙ sym (mod-eq_of_lt {n = r.read_index} {m = size} h)
        ∙ ap (λ k. k % size) (omega arith)) in
    (u, ap (ring_load size r.buffer r.read_index) u)

-- Nothing is in the queue only where the indices are equal.
pub contents_nil :
    {size : ℕ} (r : Ring) → IsValid size r → contents r size ≡ [] → r.read_index ≡ r.write_index
contents_nil {size} r v e =
    let u : used r size ≡ 0 = omega (arith, length-contents r size, ap length e) in
    sym (mod-eq_of_lt {n = r.read_index} {m = size} v.read_in)
    ∙ ap (λ k. k % size) (omega arith)
    ∙ write_index-used v
