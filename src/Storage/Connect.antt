-- ===== src/Storage/Connect.antt =====
-- Connecting to the controller: `connectStorage` of
-- MacHyperVSupport/Storage/HyperVStoragePrivate.cpp.
use mac_hyper_vsupport.Transfer.{IoReturn, success, io_error}
use mac_hyper_vsupport.Network.Buffers.{is_success}
use mac_hyper_vsupport.Storage.{
  StorageProtocol, storage_protocols, Storage, StorageReply, send_storage_command,
}
use mac_hyper_vsupport.Common.{
  ℕ, ◌/◌, ◌%◌, ◌≡◌, ◌≢◌, refl, sym, ap, ◌∙◌, List, [], ◌∷◌, ◌++◌, Bool, true, false, not, ◌==◌,
  if◌then◌else◌, Option, none, some, to_u8, inl, inr, Bool-cases, ==_iff,
}
use mathlib.Core.Bool.{false≢true}

-- What the host answers to the four kinds of command, the second by protocol version.
pub record StorageHost : Type 0 where
  pub begin_initialization : IoReturn × StorageReply
  pub query_protocol : ℕ → IoReturn × StorageReply
  pub query_properties : IoReturn × StorageReply
  pub end_initialization : IoReturn × StorageReply

-- The loop of `connectStorage` over the protocols and the test of the last status behind it. The
-- list is not empty.
unfoldable pub negotiate_storage :
    List StorageProtocol → (ℕ → IoReturn × StorageReply) → Storage → IoReturn × Storage
negotiate_storage [] query s = (io_error, s)
negotiate_storage (p ∷ ps) query s =
    let rest = negotiate_storage ps query s in
    let status = send_storage_command false (query p.protocol_version) in
    if not (is_success status)
    then (status, s)
    else if (query p.protocol_version).1.status == 0
    then (success, record s { protocol = p })
    else rest

-- `_targetId`, one byte of the two that are put together.
abbrev pub identify_ide : ℕ → Storage → Storage
identify_ide instance_bytes s = record s {
  is_ide = true;
  max_luns = 1;
  target_id = to_u8 instance_bytes;
}

abbrev pub identified : Option ℕ → Storage → Storage
identified none s = record s { is_ide = false }
identified (some b) s = identify_ide b s

abbrev pub with_properties : StorageReply → Storage → Storage
with_properties reply s = record s {
  sub_channels_supported = reply.channel_flags % 2 == 1;
  max_sub_channels = reply.max_channel_count;
  max_transfer_bytes = reply.channel_max_transfer_bytes;
  max_page_segments = reply.channel_max_transfer_bytes / 4096;
}

-- A command that fails ends `connectStorage` with its status.
abbrev pub or_return : IoReturn → Storage → IoReturn × Storage → IoReturn × Storage
or_return status s rest = if is_success status then rest else (status, s)

-- `connectStorage`: `ide` is `none` for a SCSI controller, else the instance's bytes 4 and 5.
unfoldable pub connect_storage : Option ℕ → StorageHost → Storage → IoReturn × Storage
connect_storage ide host s =
    let s₁ = identified ide s in
    let (negotiated, s₂) = negotiate_storage storage_protocols host.query_protocol s₁ in
    let s₃ = with_properties host.query_properties.1 s₂ in
    or_return (send_storage_command true host.begin_initialization) s₁ (
      or_return negotiated s₂ (
        or_return (send_storage_command true host.query_properties) s₂
          (or_return (send_storage_command true host.end_initialization) s₃ (success, s₃))))

-- The host answers to a version, and accepts it.
unfoldable pub IsRefused : (ℕ → IoReturn × StorageReply) → StorageProtocol → Type 0
IsRefused query p =
    (is_success (query p.protocol_version).0 ≡ true) × ((query p.protocol_version).1.status ≢ 0)

unfoldable pub IsAccepted : (ℕ → IoReturn × StorageReply) → StorageProtocol → Type 0
IsAccepted query p =
    (is_success (query p.protocol_version).0 ≡ true) × ((query p.protocol_version).1.status ≡ 0)

abbrev pub All {ℓ} : {A : Type ℓ} → (A → Type 0) → List A → Type 0
All P [] = Unit
All P (x ∷ xs) = P x × All P xs

-- The protocol is the first in the list that the host accepts.
unfoldable pub IsNewest :
    (ℕ → IoReturn × StorageReply) → List StorageProtocol → StorageProtocol → Type 0
IsNewest query ps p =
    (before : List StorageProtocol) × ((after : List StorageProtocol) × ((ps
          ≡ before ++ (p ∷ after))
        × All (IsRefused query) before
        × IsAccepted query p))

-- A query succeeds if it could be sent, whatever the reply.
send_storage_command-sent :
    (b : Bool) (status : IoReturn) (reply : StorageReply)
    → is_success status ≡ b
    → is_success (send_storage_command false (status, reply)) ≡ b
unfolding send_storage_command
send_storage_command-sent true status reply e = rw e refl
send_storage_command-sent false status reply e = rw e e

query_sent :
    (query : ℕ → IoReturn × StorageReply) (v : ℕ)
    → is_success (send_storage_command false (query v)) ≡ is_success (query v).0
query_sent query v = send_storage_command-sent (is_success (query v).0) (query v).0 (query v).1 refl

negotiate_storage-sent :
    (p : StorageProtocol) (ps : List StorageProtocol) (query : ℕ → IoReturn × StorageReply)
    (s : Storage)
    → is_success (negotiate_storage (p ∷ ps) query s).0 ≡ true
    → is_success (query p.protocol_version).0 ≡ true
unfolding negotiate_storage
negotiate_storage-sent p ps query s ok =
    elim (Bool-cases (is_success (send_storage_command false (query p.protocol_version)))) [
      | inl e ↦ sym (query_sent query p.protocol_version) ∙ e
      | inr e ↦
          let stopped : negotiate_storage (p ∷ ps) query s
              ≡ (send_storage_command false (query p.protocol_version), s) =
            rw e refl in
          absurd (false≢true (sym e ∙ sym (ap (λ r. is_success r.0) stopped) ∙ ok))
    ]

IsNewest-cons :
    (query : ℕ → IoReturn × StorageReply) (p q : StorageProtocol) (ps : List StorageProtocol)
    → IsRefused query p
    → IsNewest query ps q
    → IsNewest query (p ∷ ps) q
unfolding IsNewest
IsNewest-cons query p q ps refused (before, (after, (e, all, good))) =
    (p ∷ before, (after, (ap (◌∷◌ p) e, (refused, all), good)))

negotiate_storage-IsNewest :
    (ps : List StorageProtocol) (query : ℕ → IoReturn × StorageReply) (s : Storage)
    → is_success (negotiate_storage ps query s).0 ≡ true
    → (p : StorageProtocol) × (IsNewest query ps p
        × (negotiate_storage ps query s ≡ (success, record s { protocol = p })))
unfolding negotiate_storage IsNewest IsRefused IsAccepted
negotiate_storage-IsNewest [] query s ok = absurd (false≢true ok)
negotiate_storage-IsNewest (p ∷ ps) query s ok =
    let sent = negotiate_storage-sent p ps query s ok in
    let send_ok = query_sent query p.protocol_version ∙ sent in
    elim (Bool-cases ((query p.protocol_version).1.status == 0)) [
      | inl z ↦ (p, (([], (ps, (refl, tt, (sent, (==_iff _ 0).0 z)))), rw send_ok (rw z refl)))
      | inr z ↦
          let later : negotiate_storage (p ∷ ps) query s ≡ negotiate_storage ps query s =
            rw send_ok (rw z refl) in
          let (q, (newest, run)) =
            negotiate_storage-IsNewest ps query s (sym (ap (λ r. is_success r.0) later) ∙ ok) in
          (
            q,
            (
              IsNewest-cons query p q ps (sent, (λ e. false≢true (sym z ∙ (==_iff _ 0).1 e)))
                  newest,
              later ∙ run,
            ),
          )
    ]

-- `connectStorage` succeeds only with the newest accepted protocol and the host's properties.
or_return-success :
    (status : IoReturn) (s : Storage) (rest : IoReturn × Storage)
    → is_success (or_return status s rest).0 ≡ true
    → (is_success status ≡ true) × (or_return status s rest ≡ rest)
or_return-success status s rest ok = elim (Bool-cases (is_success status)) [
  | inl e ↦ (e, rw e refl)
  | inr e ↦
      let stopped : or_return status s rest ≡ (status, s) = rw e refl in
      absurd (false≢true (sym e ∙ sym (ap (λ r. is_success r.0) stopped) ∙ ok))
]

-- If connecting succeeds, the protocol is the first of the driver's list that the host accepts:
-- the ones before it were answered and refused. The other fields are the controller's kind and
-- the properties that the host gave.
pub connect_storage-IsNewest :
    (ide : Option ℕ) (host : StorageHost) (s : Storage)
    → is_success (connect_storage ide host s).0 ≡ true
    → (p : StorageProtocol) × (IsNewest host.query_protocol storage_protocols p
        × (connect_storage ide host s ≡ (
          success,
          with_properties host.query_properties.1 (record (identified ide s) { protocol = p }),
        )))
unfolding connect_storage
connect_storage-IsNewest ide host s ok =
    let s₁ = identified ide s in
    let tried = negotiate_storage storage_protocols host.query_protocol s₁ in
    let s₃ = with_properties host.query_properties.1 tried.1 in
    let ended : IoReturn × Storage =
      or_return (send_storage_command true host.end_initialization) s₃ (success, s₃) in
    let queried = or_return (send_storage_command true host.query_properties) tried.1 ended in
    let agreed = or_return tried.0 tried.1 queried in
    let (e₀, r₀) =
      or_return-success (send_storage_command true host.begin_initialization) s₁ agreed ok in
    let ok₁ = sym (ap (λ r. is_success r.0) r₀) ∙ ok in
    let (e₁, r₁) = or_return-success tried.0 tried.1 queried ok₁ in
    let ok₂ = sym (ap (λ r. is_success r.0) r₁) ∙ ok₁ in
    let (e₂, r₂) =
      or_return-success (send_storage_command true host.query_properties) tried.1 ended ok₂ in
    let ok₃ = sym (ap (λ r. is_success r.0) r₂) ∙ ok₂ in
    let (e₃, r₃) =
      or_return-success (send_storage_command true host.end_initialization) s₃ (success, s₃) ok₃ in
    let (p, (newest, run)) =
      negotiate_storage-IsNewest storage_protocols host.query_protocol s₁ e₁ in
    (
      p,
      (
        newest,
        r₀ ∙ r₁ ∙ r₂ ∙ r₃ ∙ ap (λ r. (success, with_properties host.query_properties.1 r.1)) run,
      ),
    )
