-- ===== src/Transfer/Fifo.antt =====
-- The transmit ring of MacHyperVSupport/VMBusDevice/HyperVVMBusDevicePrivate.cpp as a queue: what
-- `writeRawPacketGated` does to the bytes between the indices.
use native.Mathlib.Nat.{mod-eq_of_lt, mod-eq-sub-mod}
use mac_hyper_vsupport.Common.{
  ℕ, ◌+◌, ◌-◌, ◌%◌, ◌^◌, ◌≤◌, ◌<◌, ◌≡◌, sym, ap, ap₂, ◌∙◌, arith, List, [], ◌++◌, length, drop,
  Option, false, ◌&&◌, ◌==◌, inl, inr, Bool-cases, ==_iff, ne→==_false,
}
use mac_hyper_vsupport.Ring.{Ring, available_space}
use mac_hyper_vsupport.Ring.Circular.{ring_store, step_step}
use mac_hyper_vsupport.Ring.Space.{IsValid, used, used-lt, write_index-used, available_space_lem}
use mac_hyper_vsupport.Ring.Contents.{
  contents, append_bytes, append_bytes-IsValid, used-append_bytes, contents-append_bytes,
  drop_bytes, contents_eq, contents_empty, contents-drop, distance_unique,
}
use mac_hyper_vsupport.Transfer.{success, HostView, publish, write_raw_packet}
use mac_hyper_vsupport.Transfer.Write.{
  total_of, aligned_of, frame_of, length-frame_of, write_raw_packet_room, publish_lem,
}

==_of_iff : (a b c d : ℕ) → (a ≡ b → c ≡ d) → (c ≡ d → a ≡ b) → (a == b) ≡ (c == d)
==_of_iff a b c d f g = elim (Bool-cases (c == d)) [
  | inl e ↦ ((==_iff a b).1 (g ((==_iff c d).0 e))) ∙ sym e
  | inr e ↦ ne→==_false a b (λ h. false_true c d e (f h)) ∙ sym e
]
  where
    false_true : (c d : ℕ) → (c == d) ≡ false → ¬ (c ≡ d)
    false_true c d e h = ground arith

mod-add_self : (a n : ℕ) → (a + n) % n ≡ a % n
mod-add_self a n = mod-eq-sub-mod {n = a + n} {m = n} (omega arith) ∙ ap (λ k. k % n) (omega arith)

module _ {size : ℕ} {tx : Ring} (v : IsValid size tx) (later : HostView) (header : Option (List ℕ))
    (buffer : List ℕ) (fits : total_of header buffer + 7 < 2 ^ 32) where
  -- On a valid ring, a packet shorter than 2 ^ 32 - 7 bytes that leaves room behind its index
  -- joins the queue at its end as one frame, less the `k` bytes of the whole queue that the host
  -- has read by the time that it is looked at. The status is success, the ring is valid, and the
  -- host is signalled exactly if it does not mask interrupts and had read just the bytes that
  -- were there before.
  pub write_raw_packet_appends :
      (k : ℕ)
      → aligned_of header buffer + 8 < size - used tx size
      → k ≤ used tx size + (aligned_of header buffer + 8)
      → later.read_index ≡ (tx.read_index + k) % size
      → let (status, tx', signals) = write_raw_packet size tx later header buffer in
        (status ≡ success)
        × IsValid size tx'
        × (contents tx' size ≡ drop k (contents tx size ++ frame_of tx header buffer))
        × (signals ≡ (later.interrupt_mask == 0 && k == used tx size))
  write_raw_packet_appends k room behind host =
      let xs = frame_of tx header buffer in
      let n = length-frame_of tx header buffer in
      let grown = append_bytes tx size xs in
      let valid = append_bytes-IsValid tx v xs in
      let u = used-append_bytes tx v xs (omega arith) in
      let w = write_raw_packet_room v later header buffer fits (omega arith) in
      let (st, mem, wi, ri, sg) =
        publish_lem tx later tx.write_index (ring_store size tx.buffer tx.write_index xs)
          ((tx.write_index + length xs) % size) in
      let read = v.read_in in
      let b : (tx.write_index == later.read_index) ≡ (k == used tx size) =
        ==_of_iff tx.write_index later.read_index k (used tx size)
          (λ e.
            distance_unique size tx.read_index k (used tx size) read (omega arith) (used-lt v)
              (sym host ∙ sym e ∙ sym (write_index-used v)))
          (λ e.
            sym (write_index-used v) ∙ ap (λ j. (tx.read_index + j) % size) (sym e) ∙ sym host) in
      rw w (
        st,
        record {
          small = v.small;
          write_in = rw wi valid.write_in;
          read_in = rw (ri, host) (omega arith);
        },
        contents_eq _ (drop_bytes grown size k) size mem wi (ri ∙ host)
            ∙ contents-drop grown valid k (omega arith)
            ∙ ap (drop k) (contents-append_bytes tx v xs (omega arith)),
        sg ∙ ap (λ c. later.interrupt_mask == 0 && c) b,
      )

  -- On a valid ring whose free space is exactly the packet and its index, the packet, shorter
  -- than 2 ^ 32 - 7 bytes, is accepted too while the host does not read. The ring it leaves
  -- counts as empty: nothing of what was waiting, nor the packet, can be read, and all of the
  -- ring can be written.
  pub write_raw_packet_fills :
      aligned_of header buffer + 8 ≡ size - used tx size
      → later.read_index ≡ tx.read_index
      → let (status, tx', signals) = write_raw_packet size tx later header buffer in
        (status ≡ success) × (contents tx' size ≡ []) × (available_space tx' size ≡ (0, size))
  write_raw_packet_fills room host =
      let xs = frame_of tx header buffer in
      let n = length-frame_of tx header buffer in
      let w = write_raw_packet_room v later header buffer fits (omega arith) in
      let (st, mem, wi, ri, sg) =
        publish_lem tx later tx.write_index (ring_store size tx.buffer tx.write_index xs)
          ((tx.write_index + length xs) % size) in
      let read = v.read_in in
      let u = used-lt v in
      let round : (tx.write_index + length xs) % size ≡ tx.read_index =
        ap (λ k. (k + length xs) % size) (sym (write_index-used v))
        ∙ step_step size tx.read_index (used tx size) (length xs)
        ∙ ap (λ k. (tx.read_index + k) % size) (omega arith)
        ∙ mod-add_self tx.read_index size
        ∙ mod-eq_of_lt {n = tx.read_index} {m = size} read in
      rw w (
        let tx' =
          (publish tx later tx.write_index
            (ring_store size tx.buffer tx.write_index xs, (tx.write_index + length xs) % size)).1 in
        let valid : IsValid size tx' = record {
          small = v.small;
          write_in = rw (wi, round) read;
          read_in = rw (ri, host) read;
        } in
        let (used_zero, empty) =
          contents_empty tx' valid.read_in (wi ∙ round ∙ sym host ∙ sym ri) in
        (st, empty, available_space_lem valid ∙ ap₂ (λ a b. (a, b)) used_zero (omega arith)))
