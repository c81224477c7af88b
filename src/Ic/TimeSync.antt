-- ===== src/Ic/TimeSync.antt =====
-- `handleTimeAdjust` and `handlePacket` of
-- MacHyperVSupport/IntegrationComponents/TimeSync/HyperVTimeSync.cpp.
use mac_hyper_vsupport.Common.{
  ℕ, ◌+◌, ◌-◌, ◌*◌, ◌/◌, ◌%◌, ◌^◌, ◌≤◌, ◌<◌, ◌≡◌, refl, List, [], ◌∷◌, Bool, true, false, ltb, leb,
  not, ◌&&◌, ◌||◌, ◌==◌, if◌then◌else◌, Option, none, some, arith, Bool-cases, inl, inr, ◌⊎◌,
  ne→==_false,
}
use native.Mathlib.Nat.{mod-eq_of_lt}
use mac_hyper_vsupport.Ic.{
  Version, IcHeader, Negotiation, version, ic_packet_size, ic_header_size,
  process_negotiation_response, answered, failed,
}

-- What the handler looks up: the counter, if it is supported, the calendar time in nanoseconds, and
-- whether the daemon is there. `seconds_bits` is the width of `clock_sec_t`, 32 or 64 by the
-- architecture.
pub record Clocks : Type 0 where
  pub time_ref_counter : Option ℕ
  pub vm_time_ns : ℕ
  pub has_user_client : Bool
  pub seconds_bits : ℕ

-- `kVMBusICTimeSyncFlagsSync`, `kVMBusICTimeSyncFlagsSample`, tested as bits of `flags`.
abbrev pub is_sync : ℕ → Bool
is_sync flags = flags % 2 == 1

abbrev pub is_sample : ℕ → Bool
is_sample flags = flags / 2 % 2 == 1

-- `kHyperVTimeSyncTimeBase`, `kHyperVTimeSyncDiffThreshold`.
abbrev pub time_sync_time_base : ℕ
time_sync_time_base = 116444736000000000

abbrev pub time_sync_diff_threshold : ℕ
time_sync_diff_threshold = 500000000

abbrev pub sub64 : ℕ → ℕ → ℕ
sub64 a b = (a + (2 ^ 64 - b)) % 2 ^ 64

abbrev pub ref_time_adjust : ℕ → Option ℕ → ℕ
ref_time_adjust reference_time none = 0
ref_time_adjust reference_time (some now) =
    if reference_time == 0 then 0 else sub64 now reference_time

-- `hvTimeNs`.
unfoldable pub host_time_ns : ℕ → ℕ → Option ℕ → ℕ
host_time_ns host_time reference_time counter =
    (sub64 host_time time_sync_time_base + ref_time_adjust reference_time counter)
    % 2 ^ 64
    * 100
    % 2 ^ 64

abbrev pub distance : ℕ → ℕ → ℕ
distance a b = if ltb b a then a - b else b - a

-- `handleTimeAdjust`: the seconds and microseconds that go to `doTimeSync`, if it is called.
unfoldable pub handle_time_adjust : ℕ → ℕ → ℕ → Clocks → Option (ℕ × ℕ)
handle_time_adjust host_time reference_time flags clocks =
    let ns = host_time_ns host_time reference_time clocks.time_ref_counter in
    let sync = some (ns / 1000000000 % 2 ^ clocks.seconds_bits, ns % 1000000000 / 1000) in
    if not (is_sync flags || is_sample flags)
    then none
    else (if is_sample flags && leb (distance ns clocks.vm_time_ns) time_sync_diff_threshold
        then none
        else (if clocks.has_user_client then sync else none))

-- `VMBusICMessageTimeSync`, by the type in its header. The words behind the header are the same
-- bytes in both layouts: the second is `referenceTime` or `childTime`, and the flags stand at byte
-- 0 or 8 of what follows.
pub data TimeSyncMessage : Type 0 where
  negotiate : IcHeader → Negotiation → TimeSyncMessage
  time_sync : (header : IcHeader) (parent_time second_time : ℕ) (rest : ℕ → ℕ) → TimeSyncMessage
  unknown : (header : IcHeader) (message_type : ℕ) → TimeSyncMessage

-- `timeSyncVersions`.
abbrev pub time_sync_versions : List Version
time_sync_versions = version 4 0 ∷ version 3 0 ∷ version 1 0 ∷ []

abbrev pub version_or : Version → Option Version → Version
version_or v none = v
version_or v (some w) = w

-- The handler: `_timeSyncCurrentVersion`, the message that goes back, and the call of `doTimeSync`.
unfoldable pub handle_time_sync_packet :
    Version → Clocks → TimeSyncMessage → Version × TimeSyncMessage × Option (ℕ × ℕ)
handle_time_sync_packet current clocks (negotiate h m) =
    let (ok, m', used) = process_negotiation_response h time_sync_versions m in
    (version_or current used, negotiate (answered (if ok then h else failed h)) m', none)
handle_time_sync_packet current clocks (time_sync h parent_time second_time rest) =
    let refused : Version × TimeSyncMessage × Option (ℕ × ℕ) =
      (current, time_sync (answered (failed h)) parent_time second_time rest, none) in
    let reply = time_sync (answered h) parent_time second_time rest in
    if leb 4 current.major && leb 0 current.minor
    then (if ltb (ic_packet_size h) ic_header_size
        then refused
        else (current, reply, handle_time_adjust parent_time second_time (rest 0) clocks))
    else (if ltb (ic_packet_size h) ic_header_size
        then refused
        else (current, reply, handle_time_adjust parent_time 0 (rest 8) clocks))
handle_time_sync_packet current clocks (unknown h message_type) =
    (current, unknown (answered (failed h)) message_type, none)

-- The ticks since the reference time: none without a counter or a reference.
unfoldable pub Elapsed : ℕ → Option ℕ → ℕ → Type 0
Elapsed reference_time none e = e ≡ 0
Elapsed reference_time (some now) e =
    ((reference_time ≡ 0) × (e ≡ 0))
    ⊎ ((0 < reference_time) × (reference_time ≤ now) × (now < 2 ^ 64) × (e ≡ now - reference_time))

-- `kVMBusICTimeSyncFlagsSync` is bit 0, `kVMBusICTimeSyncFlagsSample` bit 1.
abbrev pub WantsSync : ℕ → Type 0
WantsSync flags = flags % 2 ≡ 1

abbrev pub WantsSample : ℕ → Type 0
WantsSample flags = flags / 2 % 2 ≡ 1

-- What becomes of a host time of `ns` nanoseconds.
pub data Adjusted (ns flags : ℕ) (clocks : Clocks) : Option (ℕ × ℕ) → Type 0 where
  adjusts :
      (seconds microseconds : ℕ)
      → WantsSync flags ⊎ WantsSample flags
      → (WantsSample flags
          → (clocks.vm_time_ns + 500000000 < ns) ⊎ (ns + 500000000 < clocks.vm_time_ns))
      → clocks.has_user_client ≡ true
      → microseconds < 1000000
      → seconds * 1000000000 + microseconds * 1000 ≤ ns
      → ns < seconds * 1000000000 + microseconds * 1000 + 1000
      → Adjusted ns flags clocks (some (seconds, microseconds))
  ignores :
      ((flags % 2 ≡ 0) × (flags / 2 % 2 ≡ 0))
        ⊎ (WantsSample flags
            × (ns ≤ clocks.vm_time_ns + 500000000)
            × (clocks.vm_time_ns ≤ ns + 500000000))
        ⊎ (clocks.has_user_client ≡ false)
      → Adjusted ns flags clocks none

neither_flag :
    (flags : ℕ) → (is_sync flags || is_sample flags) ≡ false → (flags % 2 ≡ 0) × (flags / 2 % 2 ≡ 0)
neither_flag flags h = ground arith

either_flag :
    (flags : ℕ) → (is_sync flags || is_sample flags) ≡ true → WantsSync flags ⊎ WantsSample flags
either_flag flags h = ground arith

near_sample :
    (flags a b : ℕ)
    → (is_sample flags && leb (distance a b) time_sync_diff_threshold) ≡ true
    → WantsSample flags × (a ≤ b + 500000000) × (b ≤ a + 500000000)
near_sample flags a b h = ground arith

far_sample :
    (flags a b : ℕ)
    → (is_sample flags && leb (distance a b) time_sync_diff_threshold) ≡ false
    → WantsSample flags
    → (b + 500000000 < a) ⊎ (a + 500000000 < b)
far_sample flags a b h e = ground arith

-- The time in nanoseconds does not wrap.
host_time_ns-Elapsed :
    (host_time reference_time e : ℕ) (counter : Option ℕ)
    → Elapsed reference_time counter e
    → time_sync_time_base ≤ host_time
    → host_time < 2 ^ 64
    → (host_time - time_sync_time_base + e) * 100 < 2 ^ 64
    → host_time_ns host_time reference_time counter ≡ (host_time - time_sync_time_base + e) * 100
unfolding host_time_ns Elapsed
host_time_ns-Elapsed host_time reference_time e none h since small fits = omega arith
host_time_ns-Elapsed host_time reference_time e (some now) (inl (z, h)) since small fits =
    rw z (omega arith)
host_time_ns-Elapsed host_time reference_time e (some now) (inr (set, past, now_small, h)) since
      small fits =
    rw (ne→==_false reference_time 0 (λ z. absurd (omega (arith, set, z)))) (omega arith)

-- Its seconds fit the type.
seconds_fit :
    (ns bits : ℕ) → ns / 1000000000 < 2 ^ bits → ns / 1000000000 % 2 ^ bits ≡ ns / 1000000000
seconds_fit ns bits h = mod-eq_of_lt h

adjust-Adjusted :
    (ns host_time reference_time flags : ℕ) (clocks : Clocks)
    → host_time_ns host_time reference_time clocks.time_ref_counter ≡ ns
    → ns / 1000000000 < 2 ^ clocks.seconds_bits
    → Adjusted ns flags clocks (handle_time_adjust host_time reference_time flags clocks)
unfolding handle_time_adjust
adjust-Adjusted ns host_time reference_time flags clocks same fits =
    let late = leb (distance ns clocks.vm_time_ns) time_sync_diff_threshold in
    rw same (elim (Bool-cases (is_sync flags || is_sample flags)) [
      | inr e ↦ rw e (ignores (inl (neither_flag flags e)))
      | inl e ↦ elim (Bool-cases (is_sample flags && late)) [
        | inl l ↦ rw (e, l) (ignores (inr (inl (near_sample flags ns clocks.vm_time_ns l))))
        | inr l ↦ elim (Bool-cases clocks.has_user_client) [
          | inr c ↦ rw (e, l, c) (ignores (inr (inr refl)))
          | inl c ↦
              rw (e, l, c, seconds_fit ns clocks.seconds_bits fits)
                (adjusts _ _ (either_flag flags e) (far_sample flags ns clocks.vm_time_ns l) refl
                  (omega arith) (omega arith) (omega arith))
        ]
      ]
    ])

-- For a host time since 1970 that does not wrap in nanoseconds, with the ticks since a reference
-- time that the counter has reached, if both are there, and seconds that fit their type: the
-- daemon is handed the time exactly if flag bit 0 or 1 is set, with bit 1 the clocks differ by
-- more than half a second, and the daemon is there. The seconds and microseconds that it is
-- handed are that time without the nanoseconds below a microsecond.
pub handle_time_adjust-Adjusted :
    (host_time reference_time flags e : ℕ) (clocks : Clocks)
    → Elapsed reference_time clocks.time_ref_counter e
    → 116444736000000000 ≤ host_time
    → host_time < 2 ^ 64
    → (host_time - 116444736000000000 + e) * 100 < 2 ^ 64
    → (host_time - 116444736000000000 + e) * 100 / 1000000000 < 2 ^ clocks.seconds_bits
    → Adjusted
        ((host_time - 116444736000000000 + e) * 100)
        flags
        clocks
        (handle_time_adjust host_time reference_time flags clocks)
handle_time_adjust-Adjusted host_time reference_time flags e clocks elapsed since small fits bits =
    adjust-Adjusted _ host_time reference_time flags clocks
      (host_time_ns-Elapsed host_time reference_time e clocks.time_ref_counter elapsed since small
        fits)
      bits
