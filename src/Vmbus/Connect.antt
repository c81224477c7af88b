-- ===== src/Vmbus/Connect.antt =====
-- Agreeing with the host on a version: `connectVMBus` and `negotiateVMBus` of
-- MacHyperVSupport/VMBus/HyperVVMBus.cpp. The host's answer to each version is an argument.
use mac_hyper_vsupport.Common.{
  ℕ, ◌<◌, ◌≡◌, ◌≢◌, refl, ap, ◌∙◌, arith, List, [], ◌∷◌, Bool, true, false, ◌&&◌, ◌||◌, not, leb,
  ◌==◌, if◌then◌else◌, Option, none, some, inl, inr, Bool-cases, ◌⊎◌, sym, ==_iff,
}
use mac_hyper_vsupport.Vmbus.Channels.{version_ws2008}

-- `VMBusVersions`, the newest first: Windows 10, 8.1, 8, 7 and Server 2008.
abbrev pub vmbus_versions : List ℕ
vmbus_versions = 0x40000 ∷ 0x30000 ∷ 0x20004 ∷ 0x10001 ∷ 13 ∷ []

-- `kVMBusVersionWIN10_V5`, `kVMBusVersionWIN7`.
abbrev pub version_win10_v5 : ℕ
version_win10_v5 = 0x50000

abbrev pub version_win7 : ℕ
version_win7 = 0x10001

-- The fields of `HyperVVMBus` for its connection, and whether the controller's interrupts are on.
pub record Connection : Type 0 where
  pub version : ℕ
  pub message_connection_id : ℕ
  pub use_legacy_event_flags : Bool
  pub interrupts_enabled : Bool

-- `VMBusChannelMessageConnectResponse`.
pub record ConnectResponse : Type 0 where
  pub supported : ℕ
  pub connection_id : ℕ

-- `negotiateVMBus`, with `none` for a message that could not be sent.
unfoldable pub negotiate_vmbus : Option ConnectResponse → Connection → Bool × Connection
negotiate_vmbus response c =
    let newer = leb version_win10_v5 c.version in
    let c₁ = record c {
      message_connection_id = if newer then 4 else 1;
      use_legacy_event_flags = c.version == version_ws2008 || c.version == version_win7;
      interrupts_enabled = true;
    } in
    elim response [
      | none ↦ (false, record c₁ { interrupts_enabled = false })
      | some r ↦ (
        not (r.supported == 0),
        (if not (r.supported == 0) && newer
            then record c₁ { message_connection_id = r.connection_id }
            else c₁),
      )
    ]

-- The loop of `connectVMBus`.
unfoldable pub connect_loop : List ℕ → (ℕ → Option ConnectResponse) → Connection → Bool × Connection
connect_loop [] answers c = (false, record c { version = 0 })
connect_loop (v ∷ vs) answers c =
    let (ok, c₁) = negotiate_vmbus (answers v) (record c { version = v }) in
    let rest = connect_loop vs answers c₁ in if ok then (true, c₁) else rest

unfoldable pub connect_vmbus : (ℕ → Option ConnectResponse) → Connection → Bool × Connection
connect_vmbus answers c = connect_loop vmbus_versions answers c

-- The host answers that it supports a version.
abbrev pub Supports : (ℕ → Option ConnectResponse) → ℕ → Type 0
Supports answers v = (r : ConnectResponse) × (answers v ≡ some r) × (r.supported ≢ 0)

-- How a connection ends, over the versions that are tried.
pub data Connected (answers : ℕ → Option ConnectResponse)
    : List ℕ → Bool × Connection → Type 0 where
  connects :
      (v : ℕ) (vs : List ℕ) (c : Connection)
      → Supports answers v
      → c.version ≡ v
      → c.interrupts_enabled ≡ true
      → (v < version_win10_v5 → c.message_connection_id ≡ 1)
      → Connected answers (v ∷ vs) (true, c)
  passes :
      (v : ℕ) (vs : List ℕ) (r : Bool × Connection)
      → ¬ Supports answers v
      → Connected answers vs r
      → Connected answers (v ∷ vs) r
  fails : (c : Connection) → c.version ≡ 0 → Connected answers [] (false, c)

-- What one version comes to, by the answer to it.
abbrev Negotiated : (ℕ → Option ConnectResponse) → ℕ → Bool × Connection → Type 0
Negotiated answers v (ok, c) =
    ((ok ≡ true)
      × Supports answers v
      × (c.version ≡ v)
      × (c.interrupts_enabled ≡ true)
      × (v < version_win10_v5 → c.message_connection_id ≡ 1))
    ⊎ ((ok ≡ false) × ¬ Supports answers v)

unanswered : (r : ConnectResponse) → none ≢ some r
unanswered r h = ground arith

supported_of : Option ConnectResponse → ℕ
supported_of none = 0
supported_of (some r) = r.supported

same_answer : (q r : ConnectResponse) → some q ≡ some r → q.supported ≡ r.supported
unfolding supported_of
same_answer q r h = ap supported_of h

negotiate_vmbus-Negotiated :
    (v : ℕ) (answers : ℕ → Option ConnectResponse) (c : Connection) (a : Option ConnectResponse)
    → answers v ≡ a
    → Negotiated answers v (negotiate_vmbus a (record c { version = v }))
unfolding negotiate_vmbus
negotiate_vmbus-Negotiated v answers c none e = inr (refl, λ s. unanswered s.0 (sym e ∙ s.1))
negotiate_vmbus-Negotiated v answers c (some r) e = elim (Bool-cases (r.supported == 0)) [
  | inl z ↦
      rw z (inr (refl, λ s. s.2 (same_answer s.0 r (sym s.1 ∙ e) ∙ (==_iff r.supported 0).0 z)))
  | inr z ↦
      let supports : Supports answers v = (r, e, λ q. ground arith) in
      elim (Bool-cases (leb version_win10_v5 v)) [
        | inl n ↦ rw (z, n) (inl (refl, supports, refl, refl, λ old. absurd (ground arith)))
        | inr n ↦ rw (z, n) (inl (refl, supports, refl, refl, λ old. refl))
      ]
]

connect_loop-Connected :
    (vs : List ℕ) (answers : ℕ → Option ConnectResponse) (c : Connection)
    → Connected answers vs (connect_loop vs answers c)
unfolding connect_loop
connect_loop-Connected [] answers c = fails _ refl
connect_loop-Connected (v ∷ vs) answers c =
    let c₁ = (negotiate_vmbus (answers v) (record c { version = v })).1 in
    elim (negotiate_vmbus-Negotiated v answers c (answers v) refl) [
      | inl (ok, supports, is, on, id) ↦ rw ok (connects v vs c₁ supports is on id)
      | inr (ok, refused) ↦ rw ok (passes v vs _ refused (connect_loop-Connected vs answers c₁))
    ]

-- The driver connects with the first of its versions that the host answers to support: interrupts
-- are then on, and messages go to connection 1. If the host supports none of them the driver
-- fails, with version 0.
pub connect_vmbus-Connected :
    (answers : ℕ → Option ConnectResponse) (c : Connection)
    → Connected answers vmbus_versions (connect_vmbus answers c)
unfolding connect_vmbus
connect_vmbus-Connected answers c = connect_loop-Connected vmbus_versions answers c
