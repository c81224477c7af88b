-- ===== src/Ic/Shutdown.antt =====
-- `handlePacket`, `handleShutdown`, `checkShutdown` and `performShutdown` of
-- MacHyperVSupport/IntegrationComponents/Shutdown/HyperVShutdown.cpp.
use mac_hyper_vsupport.Common.{
  ℕ, ◌≤◌, ◌<◌, ◌≡◌, ◌≢◌, refl, List, [], ◌∷◌, Bool, true, false, ltb, leb, if◌then◌else◌, Option,
  none, some, arith, Bool-cases, inl, inr, ◌⊎◌, le→ltb_false, leb→le, le→leb,
}
use mac_hyper_vsupport.Vmbus.{status_success, status_failure}
use mac_hyper_vsupport.Ic.{
  Version, IcHeader, Negotiation, version, ic_packet_size, ic_header_size,
  process_negotiation_response, answered, failed,
}

-- `VMBusICMessageShutdown`, by the type in its header; of a shutdown request the flags are read.
pub data ShutdownMessage : Type 0 where
  negotiate : IcHeader → Negotiation → ShutdownMessage
  shutdown : (header : IcHeader) (flags : ℕ) → ShutdownMessage
  unknown : (header : IcHeader) (message_type : ℕ) → ShutdownMessage

-- `shutdownVersions`.
abbrev pub shutdown_versions : List Version
shutdown_versions = version 3 2 ∷ version 3 1 ∷ version 3 0 ∷ version 1 0 ∷ []

-- `checkShutdown`: the daemon's answer to `canShutdown`, if there is a daemon.
unfoldable pub check_shutdown : ℕ → Option Bool → Bool
check_shutdown flags none = false
check_shutdown flags (some can_shutdown) = if leb flags 3 then can_shutdown else false

-- `handleShutdown`.
unfoldable pub handle_shutdown : IcHeader → ℕ → Option Bool → Bool × IcHeader
handle_shutdown h flags client =
    let result = check_shutdown flags client in
    if ltb (ic_packet_size h) ic_header_size
    then (false, h)
    else (result, record h { status = if result then status_success else status_failure })

-- `performShutdown`: whether the daemon is to restart the machine.
unfoldable pub perform_shutdown : ℕ → Option Bool
perform_shutdown flags =
    if leb flags 1 then some false else (if leb flags 3 then some true else none)

-- The handler: the message that goes back, and what is performed after it.
unfoldable pub handle_shutdown_packet :
    Option Bool → ShutdownMessage → ShutdownMessage × Option Bool
handle_shutdown_packet client (negotiate h m) =
    let (ok, m', used) = process_negotiation_response h shutdown_versions m in
    (negotiate (answered (if ok then h else failed h)) m', none)
handle_shutdown_packet client (shutdown h flags) =
    let (result, h') = handle_shutdown h flags client in
    (shutdown (answered h') flags, if result then perform_shutdown flags else none)
handle_shutdown_packet client (unknown h message_type) =
    (unknown (answered (failed h)) message_type, none)

-- What becomes of a request: performed and answered with success, or refused and answered with
-- failure.
pub data Answered (client : Option Bool) (h : IcHeader) (flags : ℕ)
    : ShutdownMessage × Option Bool → Type 0 where
  performs :
      (restarts : Bool)
      → client ≡ some true
      → flags ≤ 3
      → ((restarts ≡ true) × (2 ≤ flags)) ⊎ ((restarts ≡ false) × (flags < 2))
      → Answered client h flags
          (shutdown (answered (record h { status = status_success })) flags, some restarts)
  refuses :
      (client ≢ some true) ⊎ (3 < flags)
      → Answered client h flags (shutdown (answered (failed h)) flags, none)

check_shutdown_lem :
    (flags : ℕ) (client : Option Bool)
    → ((check_shutdown flags client ≡ true) × (client ≡ some true) × (flags ≤ 3))
      ⊎ ((check_shutdown flags client ≡ false) × ((client ≢ some true) ⊎ (3 < flags)))
unfolding check_shutdown
check_shutdown_lem flags none = inr (refl, inl (λ e. ground arith))
check_shutdown_lem flags (some true) = elim (Bool-cases (leb flags 3)) [
  | inl e ↦ inl (ground arith, refl, leb→le flags 3 e)
  | inr e ↦ inr (ground arith, inr (ground arith))
]
check_shutdown_lem flags (some false) = inr (ground arith, inl (λ e. ground arith))

-- A shutdown request, whatever size it names, is answered with success and performed if the
-- daemon agrees and the flags are at most 3, as a restart exactly from 2 on; otherwise it is
-- answered with failure and nothing is performed.
pub handle_shutdown_packet-Answered :
    (client : Option Bool) (h : IcHeader) (flags : ℕ)
    → Answered client h flags (handle_shutdown_packet client (shutdown h flags))
unfolding handle_shutdown_packet handle_shutdown perform_shutdown
handle_shutdown_packet-Answered client h flags =
    let long = le→ltb_false (ic_packet_size h) ic_header_size (omega arith) in
    elim (check_shutdown_lem flags client) [
      | inr (e, why) ↦ rw (long, e) (refuses why)
      | inl (e, can, few) ↦ elim (Bool-cases (leb flags 1)) [
        | inl s ↦ rw (long, e, s) (performs false can few (inr (refl, ground arith)))
        | inr s ↦
            rw (long, e, s, le→leb flags 3 few) (performs true can few (inl (refl, ground arith)))
      ]
    ]
