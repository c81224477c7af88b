-- ===== src/Network/Filter.antt =====
-- The packet filter: `enable`, `disable`, `setMulticastMode` and `setPromiscuousMode` of
-- MacHyperVSupport/Network/HyperVNetwork.cpp, and `setPacketFilter` of
-- MacHyperVSupport/Network/HyperVNetworkPrivate.cpp.
use Prim.Native.Nat.{bit_and, bit_or}
use mac_hyper_vsupport.Transfer.{IoReturn, success}
use mac_hyper_vsupport.Network.Buffers.{is_success}
use mac_hyper_vsupport.Common.{
  ℕ, ◌+◌, ◌-◌, ◌≡◌, refl, sym, ap, ◌∙◌, List, [], ◌∷◌, Bool, true, false, if◌then◌else◌, inl, inr,
  Bool-cases,
}

-- `kHyperVNetworkPacketFilterDirected`, `AllMulticast`, `Broadcast` and `Promiscuous`.
abbrev pub packet_filter_directed : ℕ
packet_filter_directed = 1

abbrev pub packet_filter_all_multicast : ℕ
packet_filter_all_multicast = 4

abbrev pub packet_filter_broadcast : ℕ
packet_filter_broadcast = 8

abbrev pub packet_filter_promiscuous : ℕ
packet_filter_promiscuous = 32

-- The fields of `HyperVNetwork` for the filter, and the filter that the host has.
pub record Filter : Type 0 where
  pub packet_filter_additional : ℕ
  pub is_network_enabled : Bool
  pub host_filter : ℕ

-- `setPacketFilter`, with the status of `setRNDISOID`: the host takes the filter with success.
unfoldable pub set_packet_filter : ℕ → IoReturn → Filter → IoReturn × Filter
set_packet_filter filter success f = (success, record f { host_filter = filter })
set_packet_filter filter status f = (status, f)

-- `_packetFilterAdditional | Directed | Broadcast`.
abbrev pub enabled_filter : ℕ → ℕ
enabled_filter additional =
    bit_or (bit_or additional packet_filter_directed) packet_filter_broadcast

unfoldable pub enable : IoReturn → Filter → IoReturn × Filter
unfolding set_packet_filter
enable oid f =
    let (status, f₁) = set_packet_filter (enabled_filter f.packet_filter_additional) oid f in
    if is_success status then (success, record f₁ { is_network_enabled = true }) else (status, f₁)

unfoldable pub disable : IoReturn → Filter → IoReturn × Filter
unfolding set_packet_filter
disable oid f = set_packet_filter 0 oid (record f { is_network_enabled = false })

-- The flag is set, or cleared as a `UInt32`.
abbrev pub with_flag : Bool → ℕ → ℕ → ℕ
with_flag true flag additional = bit_or additional flag
with_flag false flag additional = bit_and additional (0xFFFFFFFF - flag)

-- The common body of `setMulticastMode` and `setPromiscuousMode`, which differ in their flag.
unfoldable pub set_mode : ℕ → Bool → IoReturn → Filter → IoReturn × Filter
unfolding set_packet_filter
set_mode flag active oid f =
    let f₁ : Filter = record f {
      packet_filter_additional = with_flag active flag f.packet_filter_additional;
    } in
    if f₁.is_network_enabled
    then set_packet_filter (enabled_filter f₁.packet_filter_additional) oid f₁
    else (success, f₁)

unfoldable pub set_multicast_mode : Bool → IoReturn → Filter → IoReturn × Filter
unfolding set_mode
set_multicast_mode active oid f = set_mode packet_filter_all_multicast active oid f

unfoldable pub set_promiscuous_mode : Bool → IoReturn → Filter → IoReturn × Filter
unfolding set_mode
set_promiscuous_mode active oid f = set_mode packet_filter_promiscuous active oid f

-- A call on the interface.
pub data FilterCall : Type 0 where
  call_enable : FilterCall
  call_disable : FilterCall
  call_multicast : Bool → FilterCall
  call_promiscuous : Bool → FilterCall

unfoldable pub call_filter : FilterCall → IoReturn → Filter → IoReturn × Filter
unfolding enable disable set_multicast_mode set_promiscuous_mode
call_filter call_enable oid f = enable oid f
call_filter call_disable oid f = disable oid f
call_filter (call_multicast active) oid f = set_multicast_mode active oid f
call_filter (call_promiscuous active) oid f = set_promiscuous_mode active oid f

-- Calls in a row that the host all accepts.
unfoldable pub run_filter : List FilterCall → Filter → Filter
unfolding call_filter
run_filter [] f = f
run_filter (c ∷ cs) f = run_filter cs (call_filter c success f).1

-- The specification: which of the three modes are on.
pub record Modes : Type 0 where
  pub enabled : Bool
  pub multicast : Bool
  pub promiscuous : Bool

abbrev pub change_modes : FilterCall → Modes → Modes
change_modes call_enable m = record m { enabled = true }
change_modes call_disable m = record m { enabled = false }
change_modes (call_multicast active) m = record m { multicast = active }
change_modes (call_promiscuous active) m = record m { promiscuous = active }

abbrev pub run_modes : List FilterCall → Modes → Modes
run_modes [] m = m
run_modes (c ∷ cs) m = run_modes cs (change_modes c m)

abbrev pub when : Bool → ℕ → ℕ
when true n = n
when false n = 0

-- The flags that the modes ask for, and the filter that the host has to have.
abbrev pub mode_flags : Modes → ℕ
mode_flags m =
    when m.multicast packet_filter_all_multicast + when m.promiscuous packet_filter_promiscuous

abbrev pub mode_filter : Modes → ℕ
mode_filter m = when m.enabled (packet_filter_directed + packet_filter_broadcast + mode_flags m)

unfoldable pub Represents : Modes → Filter → Type 0
Represents m f =
    (f.packet_filter_additional ≡ mode_flags m)
    × (f.is_network_enabled ≡ m.enabled)
    × (f.host_filter ≡ mode_filter m)

-- The bit operations on the finitely many values that occur.
flags : Bool → Bool → ℕ
flags multicast promiscuous =
    when multicast packet_filter_all_multicast + when promiscuous packet_filter_promiscuous

enabled_filter-flags :
    (m p : Bool)
    → enabled_filter (flags m p) ≡ packet_filter_directed + packet_filter_broadcast + flags m p
unfolding flags
enabled_filter-flags true true = refl
enabled_filter-flags true false = refl
enabled_filter-flags false true = refl
enabled_filter-flags false false = refl

with_flag-multicast :
    (b m p : Bool) → with_flag b packet_filter_all_multicast (flags m p) ≡ flags b p
unfolding flags
with_flag-multicast true true true = refl
with_flag-multicast true true false = refl
with_flag-multicast true false true = refl
with_flag-multicast true false false = refl
with_flag-multicast false true true = refl
with_flag-multicast false true false = refl
with_flag-multicast false false true = refl
with_flag-multicast false false false = refl

with_flag-promiscuous :
    (b m p : Bool) → with_flag b packet_filter_promiscuous (flags m p) ≡ flags m b
unfolding flags
with_flag-promiscuous true true true = refl
with_flag-promiscuous true true false = refl
with_flag-promiscuous true false true = refl
with_flag-promiscuous true false false = refl
with_flag-promiscuous false true true = refl
with_flag-promiscuous false true false = refl
with_flag-promiscuous false false true = refl
with_flag-promiscuous false false false = refl

set_mode-Represents :
    (flag : ℕ) (active : Bool) (m m' : Modes) (f : Filter)
    → m'.enabled ≡ m.enabled
    → with_flag active flag (mode_flags m) ≡ mode_flags m'
    → Represents m f
    → Represents m' (set_mode flag active success f).1
unfolding Represents set_mode set_packet_filter flags
set_mode-Represents flag active m m' f same flags_ok (a, e, h) = elim (Bool-cases m.enabled) [
  | inl on ↦ rw (e ∙ on) (
    ap (with_flag active flag) a ∙ flags_ok,
    sym (same ∙ on),
    ap enabled_filter (ap (with_flag active flag) a ∙ flags_ok)
        ∙ enabled_filter-flags m'.multicast m'.promiscuous
        ∙ ap (λ b. when b (packet_filter_directed + packet_filter_broadcast + mode_flags m'))
            (sym (same ∙ on)),
  )
  | inr off ↦ rw (e ∙ off) (
    ap (with_flag active flag) a ∙ flags_ok,
    sym (same ∙ off),
    h
        ∙ ap (λ b. when b (packet_filter_directed + packet_filter_broadcast + mode_flags m)) off
        ∙ ap (λ b. when b (packet_filter_directed + packet_filter_broadcast + mode_flags m'))
            (sym (same ∙ off)),
  )
]

call_filter-Represents :
    (c : FilterCall) (m : Modes) (f : Filter)
    → Represents m f
    → Represents (change_modes c m) (call_filter c success f).1
unfolding Represents call_filter enable disable set_multicast_mode set_promiscuous_mode
    set_packet_filter flags
call_filter-Represents call_enable m f (a, e, h) =
    (a, refl, ap enabled_filter a ∙ enabled_filter-flags m.multicast m.promiscuous)
call_filter-Represents call_disable m f (a, e, h) = (a, refl, refl)
call_filter-Represents (call_multicast b) m f r =
    set_mode-Represents packet_filter_all_multicast b m (record m { multicast = b }) f refl
      (with_flag-multicast b m.multicast m.promiscuous) r
call_filter-Represents (call_promiscuous b) m f r =
    set_mode-Represents packet_filter_promiscuous b m (record m { promiscuous = b }) f refl
      (with_flag-promiscuous b m.multicast m.promiscuous) r

-- If the driver's flags and the host's filter are those of the modes that are on, they are again
-- behind any row of enabling, disabling and mode changes that the host accepts: the host filters
-- by the modes if the network is enabled, and has filter 0 if not.
pub run_filter-Represents :
    (cs : List FilterCall) (m : Modes) (f : Filter)
    → Represents m f
    → Represents (run_modes cs m) (run_filter cs f)
unfolding run_filter
run_filter-Represents [] m f h = h
run_filter-Represents (c ∷ cs) m f h =
    run_filter-Represents cs (change_modes c m) (call_filter c success f).1
      (call_filter-Represents c m f h)
