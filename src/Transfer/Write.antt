-- ===== src/Transfer/Write.antt =====
-- `writeRawPacketGated` of MacHyperVSupport/VMBusDevice/HyperVVMBusDevicePrivate.cpp: what a
-- packet leaves in the transmit ring.
use native.Mathlib.Nat.{mod-eq_of_lt, add-zero}
use mac_hyper_vsupport.Common.{
  ℕ, ◌+◌, ◌-◌, ◌*◌, ◌/◌, ◌%◌, ◌^◌, ◌≤◌, ◌<◌, ◌≡◌, refl, sym, ap, ap₂, ◌∙◌, arith, List, ◌++◌,
  length, replicate, Option, none, some, true, ◌&&◌, ◌==◌, inl, inr, Bool-cases, lt→leb_false,
  le→leb, add32, sub32, le_bytes, length-append, length-replicate, length-le_bytes, append_assoc,
}
use mac_hyper_vsupport.Ring.{Ring, Memory, copy_to_ring, zero_to_ring}
use mac_hyper_vsupport.Ring.Circular.{ring_store, ring_store-append, step_step}
use mac_hyper_vsupport.Ring.Copy.{copy_to_ring_lem, zero_to_ring_lem}
use mac_hyper_vsupport.Ring.Space.{IsValid, used, available_space_lem}
use mac_hyper_vsupport.Packet.{packet_align}
use mac_hyper_vsupport.Transfer.{
  success, no_resources, HostView, bytes_of, copy_header_to_ring, put_packet, count_interrupt,
  publish, write_raw_packet,
}

-- The bytes of a packet in the ring: header, data, padding and the index that they start at.
abbrev pub frame : Option (List ℕ) → List ℕ → ℕ → List ℕ → List ℕ
frame header buffer padding shifted =
    bytes_of header ++ (buffer ++ (replicate padding 0 ++ shifted))

pub length-frame :
    (header : Option (List ℕ)) (buffer : List ℕ) (padding : ℕ) (shifted : List ℕ)
    → length (frame header buffer padding shifted)
      ≡ length (bytes_of header) + length buffer + padding + length shifted
length-frame header buffer padding shifted = omega (
  arith,
  length-append (bytes_of header) (buffer ++ (replicate padding 0 ++ shifted)),
  length-append buffer (replicate padding 0 ++ shifted),
  length-append (replicate padding 0) shifted,
  length-replicate {A = ℕ} padding 0,
)

module _ (size : ℕ) (small : size ≤ 2 ^ 31) (m : Memory) (w : ℕ) (w_in : w < size) where
  -- What a copy behind bytes already stored leaves.
  abbrev Stored : List ℕ → Memory × ℕ
  Stored xs = (ring_store size m w xs, (w + length xs) % size)

  Stored-append :
      (xs ys : List ℕ)
      → (ring_store size (Stored xs).0 (Stored xs).1 ys, ((Stored xs).1 + length ys) % size)
        ≡ Stored (xs ++ ys)
  Stored-append xs ys =
      ap₂ (λ a b. (a, b)) (sym (ring_store-append size m w xs ys w_in))
        (step_step size w (length xs) (length ys)
          ∙ ap (λ k. (w + k) % size) (sym (length-append xs ys)))

  copy-Stored :
      (xs ys : List ℕ)
      → length ys ≤ size
      → copy_to_ring (Stored xs).0 size (Stored xs).1 ys ≡ Stored (xs ++ ys)
  copy-Stored xs ys h =
      copy_to_ring_lem size small (Stored xs).0 (Stored xs).1 ys (omega arith) h
      ∙ Stored-append xs ys

  zero-Stored :
      (xs : List ℕ) (n : ℕ)
      → n ≤ size
      → zero_to_ring (Stored xs).0 size (Stored xs).1 n ≡ Stored (xs ++ replicate n 0)
  zero-Stored xs n h =
      zero_to_ring_lem size small (Stored xs).0 (Stored xs).1 n (omega arith) h
      ∙ ap
          (λ k. (
            ring_store size (Stored xs).0 (Stored xs).1 (replicate n 0),
            ((Stored xs).1 + k) % size,
          ))
          (sym (length-replicate n 0))
      ∙ Stored-append xs (replicate n 0)

  header-Stored :
      (header : Option (List ℕ))
      → length (bytes_of header) ≤ size
      → copy_header_to_ring m size w header ≡ Stored (bytes_of header)
  unfolding ring_store
  header-Stored none h = rw (add-zero, mod-eq_of_lt w_in)
  header-Stored (some bs) h = copy_to_ring_lem size small m w bs w_in h

  -- The four copies leave the frame in the ring, one byte behind the other.
  pub put_packet_lem :
      (header : Option (List ℕ)) (buffer : List ℕ) (padding : ℕ) (shifted : List ℕ)
      → length (frame header buffer padding shifted) ≤ size
      → put_packet m size w header buffer padding shifted ≡ (
        ring_store size m w (frame header buffer padding shifted),
        (w + length (frame header buffer padding shifted)) % size,
      )
  unfolding put_packet
  put_packet_lem header buffer padding shifted h =
      let l = length-frame header buffer padding shifted in
      let hb = bytes_of header in
      rw (header-Stored header (omega arith)) (
        rw (copy-Stored hb buffer (omega arith)) (
          rw (zero-Stored (hb ++ buffer) padding (omega arith)) (
            copy-Stored ((hb ++ buffer) ++ replicate padding 0) shifted (omega arith)
            ∙ ap Stored (
                append_assoc (hb ++ buffer) (replicate padding 0) shifted
                ∙ append_assoc hb buffer (replicate padding 0 ++ shifted)))))

-- The lengths that `writeRawPacketGated` computes, where no addition wraps.
abbrev pub total_of : Option (List ℕ) → List ℕ → ℕ
total_of header buffer = length (bytes_of header) + length buffer

abbrev pub aligned_of : Option (List ℕ) → List ℕ → ℕ
aligned_of header buffer = (total_of header buffer + 7) / 8 * 8

-- The frame that a packet becomes at the write index.
abbrev pub frame_of : Ring → Option (List ℕ) → List ℕ → List ℕ
frame_of tx header buffer =
    frame header buffer (aligned_of header buffer - total_of header buffer)
      (le_bytes 8 (tx.write_index * 2 ^ 32))

pub length-frame_of :
    (tx : Ring) (header : Option (List ℕ)) (buffer : List ℕ)
    → length (frame_of tx header buffer) ≡ aligned_of header buffer + 8
length-frame_of tx header buffer = omega (
  arith,
  length-frame header buffer (aligned_of header buffer - total_of header buffer)
      (le_bytes 8 (tx.write_index * 2 ^ 32)),
  length-le_bytes 8 (tx.write_index * 2 ^ 32),
)

module _ {size : ℕ} {tx : Ring} (v : IsValid size tx) (later : HostView) (header : Option (List ℕ))
    (buffer : List ℕ) (fits : total_of header buffer + 7 < 2 ^ 32) where
  -- On a valid ring, a packet shorter than 2 ^ 32 - 7 bytes whose aligned size is at least the
  -- free space is refused for lack of resources: the ring stays as it is but for one more signal
  -- counted, and the host is signalled.
  pub write_raw_packet_full :
      size - used tx size ≤ aligned_of header buffer
      → write_raw_packet size tx later header buffer ≡ (no_resources, count_interrupt tx, true)
  unfolding write_raw_packet
  write_raw_packet_full h =
      let t : add32 (length (bytes_of header)) (length buffer) ≡ total_of header buffer =
        omega arith in
      let a : packet_align (total_of header buffer) ≡ aligned_of header buffer = omega arith in
      rw (t, a, available_space_lem v, le→leb _ _ h)

  -- With room for the packet and its index the frame is stored, and the end is published.
  pub write_raw_packet_room :
      aligned_of header buffer + 8 ≤ size - used tx size
      → write_raw_packet size tx later header buffer
        ≡ publish tx later tx.write_index (
          ring_store size tx.buffer tx.write_index (frame_of tx header buffer),
          (tx.write_index + length (frame_of tx header buffer)) % size,
        )
  unfolding write_raw_packet
  write_raw_packet_room h =
      let t : add32 (length (bytes_of header)) (length buffer) ≡ total_of header buffer =
        omega arith in
      let a : packet_align (total_of header buffer) ≡ aligned_of header buffer = omega arith in
      let p : sub32 (aligned_of header buffer) (total_of header buffer)
          ≡ aligned_of header buffer - total_of header buffer =
        omega arith in
      let n = length-frame_of tx header buffer in
      let g = lt→leb_false (size - used tx size) (aligned_of header buffer) (omega arith) in
      rw (t, a, available_space_lem v, g, p)
        (ap (publish tx later tx.write_index) (
          put_packet_lem size v.small tx.buffer tx.write_index v.write_in header buffer
            (aligned_of header buffer - total_of header buffer)
            (le_bytes 8 (tx.write_index * 2 ^ 32)) (omega arith)))

-- `publish` moves the indices and nothing else of the queue, and signals on both conditions.
pub publish_lem :
    (tx : Ring) (later : HostView) (old : ℕ) (m : Memory) (w : ℕ)
    → let (status, tx', signals) = publish tx later old (m, w) in
      (status ≡ success)
      × (tx'.buffer ≡ m)
      × (tx'.write_index ≡ w)
      × (tx'.read_index ≡ later.read_index)
      × (signals ≡ (later.interrupt_mask == 0 && old == later.read_index))
unfolding publish
publish_lem tx later old m w =
    elim (Bool-cases (later.interrupt_mask == 0 && old == later.read_index)) [
      | inl e ↦ rw e (refl, refl, refl, refl, refl)
      | inr e ↦ rw e (refl, refl, refl, refl, refl)
    ]
