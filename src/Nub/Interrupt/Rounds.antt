-- ===== src/Nub/Interrupt/Rounds.antt =====
-- The outer loop of `handleInterrupt` of
-- MacHyperVSupport/VMBusDevice/HyperVVMBusDevicePrivate.cpp: no packet that arrives while
-- interrupts are masked is left in the ring.
use mac_hyper_vsupport.Common.{
  ℕ, zero, suc, ◌+◌, ◌^◌, ◌≤◌, ◌<◌, ◌≡◌, ◌≢◌, refl, sym, ap, ◌∙◌, arith, List, [], ◌∷◌, ◌++◌,
  length, Bool, true, false, Option, some, ◌==◌, length-append, append-nil, subst, ne→==_false,
}
use mac_hyper_vsupport.Ring.{Ring, available_space}
use mac_hyper_vsupport.Ring.Space.{IsValid, used, used-lt, available_space_lem}
use mac_hyper_vsupport.Ring.Contents.{
  contents, contents_eq, length-contents, append_bytes, append_bytes-IsValid, contents-append_bytes,
}
use mac_hyper_vsupport.Packet.{PacketHeader}
use mac_hyper_vsupport.Transfer.Read.{RingPacket, ArePackets, packet_bytes, stream}
use mac_hyper_vsupport.Nub.{Nub}
use mac_hyper_vsupport.Nub.Interrupt.{
  Drain, dispatch, dispatch_all, drain, mask_interrupts, host_appends, handle_interrupt,
}
use mac_hyper_vsupport.Nub.Interrupt.Drained.{Drained, drain-Drained}

-- The batches of the host's: each has packets, and they fit in an empty ring.
abbrev pub AreBatches : ℕ → List (List RingPacket) → Type 0
AreBatches size [] = Unit {0}
AreBatches size (b ∷ bs) = (b ≢ []) × (length (stream b) < size) × ArePackets b × AreBatches size bs

abbrev pub all_packets : List (List RingPacket) → List RingPacket
all_packets [] = []
all_packets (b ∷ bs) = b ++ all_packets bs

-- A packet takes at least a byte.
length-stream-le : (ps : List RingPacket) → ArePackets ps → length ps ≤ length (stream ps)
length-stream-le [] w = omega arith
length-stream-le (p ∷ ps) w = omega (
  arith,
  length-append (packet_bytes p) (p.index ++ stream ps),
  length-append p.index (stream ps),
  w.0.index_length,
  length-stream-le ps w.1,
)

stream_pos : (ps : List RingPacket) → ps ≢ [] → ArePackets ps → 0 < length (stream ps)
stream_pos [] ne w = absurd (ne refl)
stream_pos (p ∷ ps) ne w = omega (arith, length-stream-le (p ∷ ps) w)

nothing_to_read :
    {size : ℕ} (rx : Ring)
    → IsValid size rx
    → contents rx size ≡ []
    → (available_space rx size).0 ≡ 0
nothing_to_read {size} rx v e =
    ap (λ k. k.0) (available_space_lem v) ∙ omega (arith, length-contents rx size, ap length e)

something_to_read :
    {size : ℕ} (rx : Ring)
    → IsValid size rx
    → 0 < length (contents rx size)
    → ((available_space rx size).0 == 0) ≡ false
something_to_read {size} rx v h =
    ne→==_false (available_space rx size).0 0 (λ z.
      absurd (omega (arith, length-contents rx size, ap (λ k. k.0) (available_space_lem v), z)))

-- What the interrupt handler has to reach: an empty, unmasked ring, and everything dispatched.
pub record Emptied {S : Type 0} (size : ℕ) (reached : Nub × S) (r : Option (Drain S)) : Type 0 where
  pub left : Drain S
  pub result : r ≡ some left
  pub valid : IsValid size left.rx
  pub empty : contents left.rx size ≡ []
  pub unmasked : left.rx.interrupt_mask ≡ 0
  pub all : left.reached ≡ reached

module _ {S : Type 0} (wake : Option (PacketHeader → List ℕ → Bool))
    (ready : PacketHeader → List ℕ → S → S) where
  dispatch_all-append :
      (ps qs : List RingPacket) (r : Nub × S)
      → dispatch_all wake ready (ps ++ qs) r
        ≡ dispatch_all wake ready qs (dispatch_all wake ready ps r)
  unfolding dispatch_all
  dispatch_all-append [] qs r = refl
  dispatch_all-append (p ∷ ps) qs r =
      dispatch_all-append ps qs (dispatch wake ready (packet_bytes p) r)

  drained :
      (fuel size : ℕ) (d : Drain S) (ps : List RingPacket)
      → IsValid size d.rx
      → contents d.rx size ≡ stream ps
      → ArePackets ps
      → 0 < d.packet_buffer_length
      → size + 2 ^ 19 ≤ fuel
      → Drained wake ready size
          (dispatch_all wake ready ps d.reached)
          (drain wake ready fuel size (mask_interrupts true 1 d))
  drained fuel size d ps v e w pos enough =
      let d₁ = mask_interrupts true 1 d in
      let u = used-lt v in
      let n = length-stream-le ps w in
      drain-Drained wake ready size fuel d₁ ps
        (record { small = v.small; write_in = v.write_in; read_in = v.read_in })
        (contents_eq d₁.rx d.rx size refl refl refl ∙ e) w pos
        (omega (arith, length-contents d.rx size, ap length e))

  -- On a valid ring that holds whole packets, with a packet buffer that has a size, and with
  -- whole packets coming in while interrupts are masked, each time some and no more than an empty
  -- ring takes, the interrupt handler ends. It has then dispatched the packets that were in the
  -- ring and those that came in, each once and in order, and the ring is empty and unmasked.
  -- Rounds for one batch more than there are, and fuel for the ring's size and 2 ^ 19 more, are
  -- enough.
  pub handle_interrupt-Emptied :
      (rounds fuel size : ℕ) (bs : List (List RingPacket)) (d : Drain S) (ps : List RingPacket)
      → IsValid size d.rx
      → contents d.rx size ≡ stream ps
      → ArePackets ps
      → AreBatches size bs
      → 0 < d.packet_buffer_length
      → length bs < rounds
      → size + 2 ^ 19 ≤ fuel
      → Emptied size
          (dispatch_all wake ready (ps ++ all_packets bs) d.reached)
          (handle_interrupt wake ready rounds fuel size true bs d)
  unfolding handle_interrupt
  handle_interrupt-Emptied zero fuel size bs d ps v e w ws pos more enough = absurd (omega arith)
  handle_interrupt-Emptied (suc rounds) fuel size [] d ps v e w ws pos more enough =
      let d₁ = mask_interrupts true 1 d in
      let l = drained fuel size d ps v e w pos enough in
      let d₂ = mask_interrupts true 0 l.left in
      let v₂ : IsValid size d₂.rx = record {
        small = v.small;
        write_in = l.valid.write_in;
        read_in = l.valid.read_in;
      } in
      let c₂ : contents d₂.rx size ≡ [] =
        contents_eq d₂.rx l.left.rx size refl refl refl ∙ l.empty in
      let a = nothing_to_read d₂.rx v₂ c₂ in
      rw (l.result, handle_interrupt)
        (rw a (record {
          left = d₂;
          result = refl;
          valid = v₂;
          empty = c₂;
          unmasked = refl;
          all = l.all ∙ ap (λ k. dispatch_all wake ready k d.reached) (sym (append-nil ps));
        }))
  handle_interrupt-Emptied (suc rounds) fuel size (b ∷ bs) d ps v e w ws pos more enough =
      let d₁ = mask_interrupts true 1 d in
      let l = drained fuel size d ps v e w pos enough in
      let grown = append_bytes l.left.rx size (stream b) in
      let room : used l.left.rx size + length (stream b) < size =
        omega (arith, length-contents l.left.rx size, ap length l.empty, ws.1) in
      let v₁ = append_bytes-IsValid l.left.rx l.valid (stream b) in
      let d₂ = mask_interrupts true 0 (host_appends size (b ∷ bs) l.left) in
      let v₂ : IsValid size d₂.rx = record {
        small = v.small;
        write_in = v₁.write_in;
        read_in = v₁.read_in;
      } in
      let c₂ : contents d₂.rx size ≡ stream b =
        contents_eq d₂.rx grown size refl refl refl
        ∙ contents-append_bytes l.left.rx l.valid (stream b) room
        ∙ ap (λ k. k ++ stream b) l.empty in
      let pos_b : 0 < length (contents d₂.rx size) = rw c₂ (stream_pos b ws.0 ws.2) in
      let rest =
        handle_interrupt-Emptied rounds fuel size bs d₂ b v₂ c₂ ws.2 ws.3 l.grown (omega arith)
          enough in
      rw (l.result, handle_interrupt)
        (rw (something_to_read d₂.rx v₂ pos_b) (
          subst (λ k. Emptied size k (handle_interrupt wake ready rounds fuel size true bs d₂))
            (ap (dispatch_all wake ready (b ++ all_packets bs)) l.all
              ∙ sym (dispatch_all-append ps (b ++ all_packets bs) d.reached))
            rest))
