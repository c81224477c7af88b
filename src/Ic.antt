-- ===== src/Ic.antt =====
-- The integration components of MacHyperVSupport/IntegrationComponents: the messages of
-- HyperVIC.hpp, the version negotiation of HyperVICService.cpp and the packet handlers over it.
pub mod Versions
pub mod Heartbeat
pub mod TimeSync
pub mod Shutdown
pub mod FileCopy
use mac_hyper_vsupport.Common.{
  ℕ, zero, suc, ◌+◌, ◌*◌, List, [], ◌∷◌, Bool, true, false, ◌&&◌, ◌||◌, ltb, ◌==◌, if◌then◌else◌,
  Option, none, some,
}
use mac_hyper_vsupport.Vmbus.{status_failure}

-- `VMBusVersion`.
pub record Version : Type 0 where
  pub major : ℕ
  pub minor : ℕ

-- `VMBusICMessageHeader`, the fields that the handlers read or write.
pub record IcHeader : Type 0 where
  pub data_size : ℕ
  pub status : ℕ
  pub flags : ℕ

-- `VMBusICMessageNegotiate` behind its header. Any index of `versions[]` can be read.
pub record Negotiation : Type 0 where
  pub framework_version_count : ℕ
  pub message_version_count : ℕ
  pub versions : ℕ → Version

-- `sizeof (VMBusICMessageHeader)`, `__offsetof (VMBusICMessageNegotiate, versions[0])`.
abbrev pub ic_header_size : ℕ
ic_header_size = 28

abbrev pub versions_offset : ℕ
versions_offset = 36

-- `kVMBusICFlagTransaction | kVMBusICFlagResponse`.
abbrev pub ic_response_flags : ℕ
ic_response_flags = 5

abbrev pub ic_packet_size : IcHeader → ℕ
ic_packet_size h = h.data_size + ic_header_size

-- The header of an answer, and a header with the status of a failure.
abbrev pub answered : IcHeader → IcHeader
answered h = record h { flags = ic_response_flags }

abbrev pub failed : IcHeader → IcHeader
failed h = record h { status = status_failure }

abbrev pub version : ℕ → ℕ → Version
version major minor = record { major = major; minor = minor }

-- `frameworkVersions`, the one tried first in front.
abbrev pub framework_versions : List Version
framework_versions = version 3 0 ∷ version 1 0 ∷ []

abbrev pub same_version : Version → Version → Bool
same_version a b = a.major == b.major && a.minor == b.minor

-- The inner loops: `n` versions of the message from index `j` on.
unfoldable pub find_version : Version → (ℕ → Version) → ℕ → ℕ → Option Version
find_version v versions j zero = none
find_version v versions j (suc n) =
    if same_version v (versions j) then some (versions j) else find_version v versions (j + 1) n

-- The outer loops: the first of the driver's versions that is found.
unfoldable pub best_version : List Version → (ℕ → Version) → ℕ → ℕ → Option Version
best_version [] versions j n = none
best_version (v ∷ vs) versions j n = elim (find_version v versions j n) [
  | some w ↦ some w
  | none ↦ best_version vs versions j n
]

-- `versions[0]` and `versions[1]` written.
abbrev pub put_versions : Version → Version → (ℕ → Version) → ℕ → Version
put_versions a b versions k = if k == 0 then a else (if k == 1 then b else versions k)

abbrev pub agree :
    Option Version → Option Version → Negotiation → Bool × Negotiation × Option Version
agree (some fw) (some msg) m = (
  true,
  record {
    framework_version_count = 1;
    message_version_count = 1;
    versions = put_versions fw msg m.versions;
  },
  some msg,
)
agree none _ m = (false, record m { framework_version_count = 0; message_version_count = 0 }, none)
agree _ none m = (false, record m { framework_version_count = 0; message_version_count = 0 }, none)

-- `processNegotiationResponse`: its result, the message, and what is written to `msgVersionUsed`.
unfoldable pub process_negotiation_response :
    IcHeader → List Version → Negotiation → Bool × Negotiation × Option Version
process_negotiation_response h msg_versions m =
    let fw = m.framework_version_count in
    let msg = m.message_version_count in
    if fw == 0 || msg == 0
    then (false, m, none)
    else (if ltb (ic_packet_size h) (versions_offset + (fw + msg) * 4)
        then (false, m, none)
        else agree (best_version framework_versions m.versions 0 fw)
            (best_version msg_versions m.versions fw msg) m)
