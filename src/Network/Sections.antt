-- ===== src/Network/Sections.antt =====
-- The sections of the send buffer and the bitmap of those in use: `getNextSendIndex`,
-- `getFreeSendIndexCount`, `releaseSendIndex` of
-- MacHyperVSupport/Network/HyperVNetworkPrivate.cpp, and the bit operations of
-- MacHyperVSupport/Controller/HyperV.hpp that they use.
pub mod Bits
pub mod Search
use mathlib.Core.Bool.{false≢true}
use mac_hyper_vsupport.Common.{
  ℕ, zero, suc, ◌+◌, ◌-◌, ◌*◌, ◌/◌, ◌%◌, ◌^◌, ◌≤◌, ◌<◌, ◌≡◌, ◌≢◌, refl, sym, ap, ◌∙◌, arith, List,
  [], ◌∷◌, length, take, drop, Bool, true, false, ◌&&◌, not, ◌==◌, if◌then◌else◌, Option, none,
  some, add32, sub32, ◌⊎◌, inl, inr, Bool-cases, subst, ==_iff, replicate,
}

-- A bitmap in memory is the list of its bits, bit `i` being bit `i % 32` of word `i / 32`. What
-- lies past its end reads as 0 and is not written here.
abbrev pub test_bit : ℕ → List Bool → Bool
test_bit i [] = false
test_bit zero (b ∷ bs) = b
test_bit (suc i) (b ∷ bs) = test_bit i bs

abbrev pub set_bit : ℕ → List Bool → List Bool
set_bit i [] = []
set_bit zero (b ∷ bs) = true ∷ bs
set_bit (suc i) (b ∷ bs) = b ∷ set_bit i bs

-- `sync_change_bit`: the bit is turned over.
unfoldable pub sync_change_bit : ℕ → List Bool → List Bool
sync_change_bit i [] = []
sync_change_bit zero (b ∷ bs) = not b ∷ bs
sync_change_bit (suc i) (b ∷ bs) = b ∷ sync_change_bit i bs

-- `sync_test_and_set_bit`: the old bit, and the bitmap with the bit set.
unfoldable pub sync_test_and_set_bit : ℕ → List Bool → Bool × List Bool
sync_test_and_set_bit i bs = (test_bit i bs, set_bit i bs)

-- The fields of `HyperVNetwork` for the send buffer.
pub record SendSections : Type 0 where
  pub send_section_size : ℕ
  pub send_section_count : ℕ
  pub send_index_map : List Bool
  pub send_indexes_outstanding : ℕ

-- `kHyperVNetworkRNDISSendSectionIndexInvalid`, -1 as a `UInt32`.
abbrev pub send_section_index_invalid : ℕ
send_section_index_invalid = 0xFFFFFFFF

-- The loop of `getNextSendIndex`, with `n` indexes left to try from `i` on.
unfoldable pub try_indexes : ℕ → ℕ → SendSections → ℕ × SendSections
try_indexes zero i s = (send_section_index_invalid, s)
try_indexes (suc n) i s =
    let (old, bits) = sync_test_and_set_bit i s.send_index_map in
    let s₁ : SendSections = record s { send_index_map = bits } in
    let rest = try_indexes n (suc i) s₁ in
    if old
    then rest
    else (i, record s₁ { send_indexes_outstanding = add32 s.send_indexes_outstanding 1 })

unfoldable pub get_next_send_index : SendSections → ℕ × SendSections
get_next_send_index s = try_indexes s.send_section_count 0 s

-- `word & n == 0`, for a word by its bits.
abbrev pub and_is_zero : List Bool → ℕ → Bool
and_is_zero [] n = true
and_is_zero (b ∷ bs) n = not (b && (n % 2 == 1)) && and_is_zero bs (n / 2)

-- The loop of `getFreeSendIndexCount`. The word is masked with `i % 32`, not with bit `i % 32`.
unfoldable pub count_free : ℕ → ℕ → List Bool → ℕ
count_free zero i bits = 0
count_free (suc n) i bits =
    let rest = count_free n (suc i) bits in
    if and_is_zero (take 32 (drop (32 * (i / 32)) bits)) (i % 32) then suc rest else rest

unfoldable pub get_free_send_index_count : SendSections → ℕ
get_free_send_index_count s = count_free s.send_section_count 0 s.send_index_map

unfoldable pub release_send_index : ℕ → SendSections → SendSections
release_send_index i s = record s {
  send_index_map = sync_change_bit i s.send_index_map;
  send_indexes_outstanding = sub32 s.send_indexes_outstanding 1;
}

-- `kHyperVNetworkSendBufferSize`.
abbrev pub send_buffer_size : ℕ
send_buffer_size = 1024 * 1024 * 15

-- What `initSendReceiveBuffers` makes of the section size that the host chose, in bytes
-- `_sendSectionCount * sizeof (UInt32) / 32 + sizeof (UInt32)` of zeros.
unfoldable pub init_sections : ℕ → SendSections
init_sections size = record {
  send_section_size = size;
  send_section_count = send_buffer_size / size;
  send_index_map = replicate (8 * (send_buffer_size / size * 4 / 32 + 4)) false;
  send_indexes_outstanding = 0;
}

-- How many bits are set.
abbrev pub bit_value : Bool → ℕ
bit_value true = 1
bit_value false = 0

unfoldable pub used : List Bool → ℕ
used [] = 0
used (b ∷ bs) = bit_value b + used bs

-- The counter counts the set bits, and the bitmap covers the sections.
unfoldable pub SectionsAreCounted : SendSections → Type 0
SectionsAreCounted s =
    (s.send_section_count ≤ length s.send_index_map)
    × (length s.send_index_map < 0xFFFFFFFF)
    × (s.send_indexes_outstanding ≡ used s.send_index_map)
