-- ===== src/Ic/Heartbeat.antt =====
-- `handlePacket` of MacHyperVSupport/IntegrationComponents/Heartbeat/HyperVHeartbeat.cpp.
use mac_hyper_vsupport.Common.{
  ℕ, ◌+◌, ◌%◌, ◌^◌, ◌<◌, ◌≡◌, refl, List, [], ◌∷◌, Bool, true, false, ltb, ltb, if◌then◌else◌,
  le→ltb_false, arith, zero, suc, ◌*◌, ap, ◌∙◌,
}
use mac_hyper_vsupport.Ic.{
  Version, IcHeader, Negotiation, version, ic_packet_size, ic_header_size,
  process_negotiation_response, answered, failed,
}

-- `VMBusICMessageHeartbeat`, by the type in its header.
pub data HeartbeatMessage : Type 0 where
  negotiate : IcHeader → Negotiation → HeartbeatMessage
  heartbeat : (header : IcHeader) (sequence : ℕ) → HeartbeatMessage
  unknown : (header : IcHeader) (message_type : ℕ) → HeartbeatMessage

-- `heartbeatVersions`.
abbrev pub heartbeat_versions : List Version
heartbeat_versions = version 3 0 ∷ version 1 0 ∷ []

abbrev pub failed_unless : Bool → IcHeader → IcHeader
failed_unless ok h = if ok then h else failed h

-- The handler: `firstHeartbeatReceived`, and the message that goes back with `writeInbandPacket`.
unfoldable pub handle_heartbeat_packet : Bool → HeartbeatMessage → Bool × HeartbeatMessage
handle_heartbeat_packet first (negotiate h m) =
    let (ok, m', used) = process_negotiation_response h heartbeat_versions m in
    (false, negotiate (answered (failed_unless ok h)) m')
handle_heartbeat_packet first (heartbeat h sequence) =
    if ltb (ic_packet_size h) ic_header_size
    then (first, heartbeat (answered (failed h)) sequence)
    else (true, heartbeat (answered h) ((sequence + 1) % 2 ^ 64))
handle_heartbeat_packet first (unknown h message_type) =
    (first, unknown (answered (failed h)) message_type)

-- `n` cycles, in each of which the host sends the sequence number on, one higher than it came back.
unfoldable pub heartbeat_cycles : ℕ → IcHeader → Bool → ℕ → Bool × ℕ
unfolding handle_heartbeat_packet
heartbeat_cycles zero h first sequence = (first, sequence)
heartbeat_cycles (suc n) h first sequence =
    let (first', reply) = handle_heartbeat_packet first (heartbeat h sequence) in
    elim reply [
      | heartbeat h' sequence' ↦ heartbeat_cycles n h' first' ((sequence' + 1) % 2 ^ 64)
      | _ ↦ (first', sequence)
    ]

heartbeat_answered :
    (h : IcHeader) (first : Bool) (sequence : ℕ)
    → handle_heartbeat_packet first (heartbeat h sequence)
      ≡ (true, heartbeat (answered h) ((sequence + 1) % 2 ^ 64))
unfolding handle_heartbeat_packet
heartbeat_answered h first sequence =
    rw (le→ltb_false (ic_packet_size h) ic_header_size (omega arith)) refl

-- Behind `n` heartbeats, each sent with the sequence number one higher than it came back, the
-- number is higher by twice as much, in 64 bits, whatever size the messages name.
pub heartbeat_cycles_lem :
    (n : ℕ) (h : IcHeader) (sequence : ℕ)
    → sequence < 2 ^ 64
    → heartbeat_cycles n h true sequence ≡ (true, (sequence + 2 * n) % 2 ^ 64)
unfolding heartbeat_cycles
heartbeat_cycles_lem zero h sequence small = ap (λ k. (true, k)) (omega arith)
heartbeat_cycles_lem (suc n) h sequence small =
    rw
      (
        heartbeat_answered h true sequence,
        heartbeat_cycles,
        ap (λ p. p.0) (heartbeat_answered h true sequence),
      )
      (heartbeat_cycles_lem n (answered h) (((sequence + 1) % 2 ^ 64 + 1) % 2 ^ 64) (omega arith)
        ∙ ap (λ k. (true, k)) (omega arith))
