-- ===== src/Nub/Interrupt/Drained.antt =====
-- The loops of `handleInterrupt` of MacHyperVSupport/VMBusDevice/HyperVVMBusDevicePrivate.cpp end,
-- and every packet of the ring is dispatched once and in order.
use mac_hyper_vsupport.Common.{
  ℕ, zero, suc, ◌+◌, ◌-◌, ◌^◌, ◌≤◌, ◌<◌, ◌≡◌, refl, arith, List, [], ◌∷◌, ◌++◌, length, Bool,
  Option, none, some, ltb, inl, inr, Bool-cases, ltb→lt, ltb_false→le, mul32, length-append,
}
use mac_hyper_vsupport.Ring.Space.{IsValid}
use mac_hyper_vsupport.Ring.Contents.{contents}
use mac_hyper_vsupport.Packet.{PacketHeader}
use mac_hyper_vsupport.Transfer.Read.{
  RingPacket, IsPacket, ArePackets, stream, packet_bytes, read_leaves, read_leaves_rest,
  read_raw_packet_lem, read_raw_packet_no_space, read_raw_packet_empty,
}
use mac_hyper_vsupport.Nub.{Nub}
use mac_hyper_vsupport.Nub.Interrupt.{Drain, dispatch, dispatch_all, drain_step, drain}

module _ {S : Type 0} (wake : Option (PacketHeader → List ℕ → Bool))
    (ready : PacketHeader → List ℕ → S → S) (size : ℕ) where
  step_empty :
      (d : Drain S)
      → IsValid size d.rx
      → contents d.rx size ≡ []
      → drain_step wake ready size d ≡ none
  unfolding drain_step
  step_empty d v e = rw (read_raw_packet_empty d.rx v none d.packet_buffer_length e)

  -- The packet buffer doubles for a packet that it is too small for.
  step_grows :
      (d : Drain S) (p : RingPacket) (rest : List ℕ)
      → IsValid size d.rx
      → IsPacket p
      → contents d.rx size ≡ packet_bytes p ++ (p.index ++ rest)
      → d.packet_buffer_length < length (packet_bytes p)
      → drain_step wake ready size d
        ≡ some (record d { packet_buffer_length = mul32 d.packet_buffer_length 2 })
  unfolding drain_step
  step_grows d p rest v w e h = rw (
      read_raw_packet_no_space d.rx v none p rest w e (omega arith) d.packet_buffer_length
        (omega arith))

  step_takes :
      (d : Drain S) (p : RingPacket) (rest : List ℕ)
      → IsValid size d.rx
      → IsPacket p
      → contents d.rx size ≡ packet_bytes p ++ (p.index ++ rest)
      → length (packet_bytes p) ≤ d.packet_buffer_length
      → drain_step wake ready size d
        ≡ some (record d {
          rx = (read_leaves size d.rx none p).rx;
          reached = dispatch wake ready (packet_bytes p) d.reached;
        })
  unfolding drain_step
  step_takes d p rest v w e h = rw (
      read_raw_packet_lem d.rx v none p rest w e (omega arith) d.packet_buffer_length (omega arith))

  packet_small : (p : RingPacket) → IsPacket p → length (packet_bytes p) < 2 ^ 19
  packet_small p w =
      let t = w.total_length in
      let u = w.total_small in omega (arith, length-append p.head p.body, w.head_length)

  -- The loop has emptied the ring into the nub and the client.
  pub record Drained (reached : Nub × S) (r : Option (Drain S)) : Type 0 where
    pub left : Drain S
    pub result : r ≡ some left
    pub valid : IsValid size left.rx
    pub empty : contents left.rx size ≡ []
    pub all : left.reached ≡ reached
    pub grown : 0 < left.packet_buffer_length

  pub drain-Drained :
      (fuel : ℕ) (d : Drain S) (ps : List RingPacket)
      → IsValid size d.rx
      → contents d.rx size ≡ stream ps
      → ArePackets ps
      → 0 < d.packet_buffer_length
      → length ps + (2 ^ 19 - d.packet_buffer_length) < fuel
      → Drained (dispatch_all wake ready ps d.reached) (drain wake ready fuel size d)
  unfolding drain dispatch_all
  drain-Drained zero d ps v e w pos h = absurd (omega arith)
  drain-Drained (suc fuel) d [] v e w pos h =
      rw (step_empty d v e, drain)
        (record { left = d; result = refl; valid = v; empty = e; all = refl; grown = pos })
  drain-Drained (suc fuel) d (p ∷ ps) v e w pos h =
      let small = packet_small p w.0 in
      elim (Bool-cases (ltb d.packet_buffer_length (length (packet_bytes p)))) [
        | inl t ↦
            let lt = ltb→lt d.packet_buffer_length (length (packet_bytes p)) t in
            rw (step_grows d p (stream ps) v w.0 e lt, drain)
              (drain-Drained fuel
                (record d { packet_buffer_length = mul32 d.packet_buffer_length 2 }) (p ∷ ps) v e w
                (omega arith) (omega arith))
        | inr t ↦
            let le = ltb_false→le d.packet_buffer_length (length (packet_bytes p)) t in
            let (valid, rest) = read_leaves_rest d.rx v none p (stream ps) w.0 e in
            rw (step_takes d p (stream ps) v w.0 e le, drain)
              (drain-Drained fuel
                (record d {
                  rx = (read_leaves size d.rx none p).rx;
                  reached = dispatch wake ready (packet_bytes p) d.reached;
                })
                ps valid rest w.1 pos (omega arith))
      ]
