-- ===== src/Nub/Interrupt.antt =====
-- `handleInterrupt` of MacHyperVSupport/VMBusDevice/HyperVVMBusDevicePrivate.cpp: emptying the
-- receive ring packet by packet. The handlers of the client driver are arguments: `wake` is its
-- `WakePacketAction`, and `ready` its `PacketReadyAction`, over a state of the client's own.
pub mod Drained
pub mod Rounds
pub mod Response
use mac_hyper_vsupport.Common.{
  ℕ, zero, suc, ◌+◌, ◌-◌, ◌*◌, ◌%◌, ◌^◌, List, [], ◌∷◌, ◌++◌, length, take, drop, ◌&&◌, not, Bool,
  true, false, Option, none, some, ◌==◌, ltb, if◌then◌else◌, sub32, mul32, min,
}
use mac_hyper_vsupport.Ring.{Ring, available_space}
use mac_hyper_vsupport.Ring.Contents.{append_bytes}
use mac_hyper_vsupport.Packet.{PacketHeader, get_packet_size, decode_header}
use mac_hyper_vsupport.Transfer.{
  IoReturn, success, not_ready, no_space, ReadResult, read_raw_packet,
}
use mac_hyper_vsupport.Transfer.Read.{RingPacket, stream}
use mac_hyper_vsupport.Nub.{Nub, Request}
use mac_hyper_vsupport.Nub.Requests.{get_pending_transaction, wake_transaction, fill_response}

-- The answer goes to the sleeping request, cut to its buffer, and wakes it.
unfoldable pub respond : ℕ → ℕ → List ℕ → Request → Nub → Nub
respond id data_length packet_data r n =
    let response_length =
      if ltb data_length r.response_data_length then data_length else r.response_data_length in
    wake_transaction id
      (record n { requests = fill_response id (take response_length packet_data) n.requests })

-- What the loop works on: the receive ring, the size of the packet buffer, and the nub and the
-- client that the packets have reached.
pub record Drain (S : Type 0) : Type 0 where
  pub rx : Ring
  pub packet_buffer_length : ℕ
  pub reached : Nub × S

abbrev pub mask_interrupts : {S : Type 0} → Bool → ℕ → Drain S → Drain S
mask_interrupts flush mask d =
    if flush then record d { rx = record d.rx { interrupt_mask = mask } } else d

-- What the host puts in the ring while it is being emptied and interrupts are masked.
abbrev pub host_appends : {S : Type 0} → ℕ → List (List RingPacket) → Drain S → Drain S
host_appends size [] d = d
host_appends size (b ∷ bs) d = record d { rx = append_bytes d.rx size (stream b) }

module _ {S : Type 0} (wake : Option (PacketHeader → List ℕ → Bool))
    (ready : PacketHeader → List ℕ → S → S) where
  abbrev wants_wake : PacketHeader → List ℕ → Bool
  wants_wake h packet_data = elim wake [ none ↦ false | some w ↦ w h packet_data ]

  -- One packet, read whole into the packet buffer: to the request that waits for it, or to the
  -- client.
  unfoldable pub dispatch : List ℕ → Nub × S → Nub × S
  dispatch packet (n, s) =
      let h = decode_header packet in
      let header_length = get_packet_size h.header_length in
      let data_length = sub32 (get_packet_size h.total_length) header_length in
      let packet_data = take data_length (drop header_length packet) in
      let pending =
        if wants_wake h packet_data then get_pending_transaction h.transaction_id n else none in
      elim pending [
        | none ↦ (n, ready h packet_data s)
        | some r ↦ (respond h.transaction_id data_length packet_data r n, s)
      ]

  -- One round: `none` if the ring is empty.
  abbrev drain_status : IoReturn → ReadResult → Drain S → Option (Drain S)
  drain_status not_ready r d = none
  drain_status no_space r d =
      some (record d { packet_buffer_length = mul32 d.packet_buffer_length 2 })
  drain_status _ r d = some (record d { rx = r.rx; reached = dispatch r.buffer d.reached })

  unfoldable pub drain_step : ℕ → Drain S → Option (Drain S)
  drain_step size d =
      let r = read_raw_packet size d.rx none d.packet_buffer_length in drain_status r.status r d

  -- The inner loop, on fuel.
  unfoldable pub drain : ℕ → ℕ → Drain S → Option (Drain S)
  drain zero size d = none
  drain (suc fuel) size d = elim (drain_step size d) [
    | none ↦ some d
    | some d' ↦ drain fuel size d'
  ]

  -- The outer loop, on fuel of its own: behind each round the host may have put in one batch more.
  unfoldable pub handle_interrupt :
      ℕ → ℕ → ℕ → Bool → List (List RingPacket) → Drain S → Option (Drain S)
  handle_interrupt zero fuel size flush bs d = none
  handle_interrupt (suc rounds) fuel size flush bs d =
      elim (drain fuel size (mask_interrupts flush 1 d)) [
        | none ↦ none
        | some d' ↦
            let d₂ = mask_interrupts flush 0 (host_appends size bs d') in
            let again = handle_interrupt rounds fuel size flush (drop 1 bs) d₂ in
            if flush && not ((available_space d₂.rx size).0 == 0) then again else some d₂
      ]

  -- Every packet in turn.
  unfoldable pub dispatch_all : List RingPacket → Nub × S → Nub × S
  dispatch_all [] r = r
  dispatch_all (p ∷ ps) r = dispatch_all ps (dispatch (p.head ++ p.body) r)
