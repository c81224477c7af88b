-- ===== src/Network/Output/Accounts.antt =====
-- Every set bit of the send section bitmap belongs to a packet in flight or to a section that a
-- failed send has lost (`outputPacket`, `handleCompletion` of MacHyperVSupport/Network).
use mathlib.Core.Bool.{false≢true}
use native.Mathlib.Nat.{div-le_self}
use mac_hyper_vsupport.Transfer.{IoReturn, success}
use mac_hyper_vsupport.Network.Sections.{
  test_bit, set_bit, SendSections, send_section_index_invalid, get_next_send_index,
  release_send_index, bit_value, used, init_sections, SectionsAreCounted, send_buffer_size,
  sync_change_bit,
}
use mac_hyper_vsupport.Network.Sections.Bits.{
  used_le_length, length-set_bit, length-sync_change_bit, test_bit-set_bit, test_bit-set_bit_other,
  test_bit-sync_change_bit, test_bit-sync_change_bit_other, used-set_bit, used-sync_change_bit,
}
use mac_hyper_vsupport.Network.Sections.Search.{take_section, AllSet, try_indexes-cases}
use mac_hyper_vsupport.Network.Output.{
  OutputStatus, SentPacket, send_transaction_id, send_index_of, output_packet, handle_completion,
  sent_packet, rndis_packet_length, output_success, output_stall, output_dropped, output_in_section,
}
use mac_hyper_vsupport.Network.Output.Flight.{
  hit, occurs, remove_one, Flight, account, after_output, after_completion, Step, Reach, start,
  IsAccounted, output, completion, here, next,
}
use mac_hyper_vsupport.Common.{
  ℕ, zero, suc, ◌+◌, ◌*◌, ◌/◌, ◌^◌, ◌≤◌, ◌<◌, ◌≡◌, ◌≢◌, refl, sym, ap, ◌∙◌, arith, List, [], ◌∷◌,
  length, replicate, Bool, true, false, ◌||◌, ◌==◌, ltb, if◌then◌else◌, Option, none, some, inl,
  inr, Bool-cases, subst, ==_iff, ==_self, ne→==_false, length-replicate,
}

take_section-SectionsAreCounted :
    (k : ℕ) (s : SendSections)
    → k < length s.send_index_map
    → test_bit k s.send_index_map ≡ false
    → SectionsAreCounted s
    → SectionsAreCounted (take_section k s)
unfolding SectionsAreCounted
take_section-SectionsAreCounted k s lt e (covers, small, counted) = (
  rw length-set_bit covers,
  rw length-set_bit small,
  omega (arith, counted, used-set_bit k s.send_index_map lt e, used_le_length s.send_index_map),
)

release-SectionsAreCounted :
    (k : ℕ) (s : SendSections)
    → test_bit k s.send_index_map ≡ true
    → SectionsAreCounted s
    → SectionsAreCounted (release_send_index k s)
unfolding SectionsAreCounted release_send_index
release-SectionsAreCounted k s e (covers, small, counted) = (
  rw length-sync_change_bit covers,
  rw length-sync_change_bit small,
  omega
      (arith, counted, used-sync_change_bit k s.send_index_map e, used_le_length s.send_index_map),
)

hit_self : (i : ℕ) → hit i i ≡ 1
hit_self i = rw (==_self i) refl

hit-false : (i j : ℕ) → (i == j) ≡ false → hit i j ≡ 0
hit-false i j e = rw e refl

ne_of : (i j : ℕ) → (i == j) ≡ false → j ≢ i
ne_of i j e q = ground arith

-- A list that has `i`, but not in its head, has it in its tail.
occurs-tail : (i x : ℕ) (xs : List ℕ) → (i == x) ≡ false → occurs i (x ∷ xs) ≢ 0 → occurs i xs ≢ 0
occurs-tail i x xs e h z = h (omega (arith, z, hit-false i x e))

occurs-remove_one :
    (i j : ℕ) (xs : List ℕ) → occurs i xs ≢ 0 → occurs j (remove_one i xs) + hit j i ≡ occurs j xs
occurs-remove_one i j [] h = absurd (h refl)
occurs-remove_one i j (x ∷ xs) h = elim (Bool-cases (i == x)) [
  | inl e ↦ rw e (omega (arith, ap (hit j) ((==_iff i x).0 e)))
  | inr e ↦ rw e (omega (arith, occurs-remove_one i j xs (occurs-tail i x xs e h)))
]

length-remove_one :
    (i : ℕ) (xs : List ℕ) → occurs i xs ≢ 0 → suc (length (remove_one i xs)) ≡ length xs
length-remove_one i [] h = absurd (h refl)
length-remove_one i (x ∷ xs) h = elim (Bool-cases (i == x)) [
  | inl e ↦ rw e refl
  | inr e ↦ rw e (omega (arith, length-remove_one i xs (occurs-tail i x xs e h)))
]

-- The bit values when section `k` is taken or released.
taken_bits :
    (k : ℕ) (bits : List Bool) (f : ℕ → ℕ)
    → k < length bits
    → test_bit k bits ≡ false
    → ((i : ℕ) → f i ≡ bit_value (test_bit i bits))
    → (i : ℕ) → hit i k + f i ≡ bit_value (test_bit i (set_bit k bits))
taken_bits k bits f lt e same i = elim (Bool-cases (i == k)) [
  | inl q ↦
      rw ((==_iff i k).0 q) (
        omega
          (arith, hit_self k, same k, ap bit_value e, ap bit_value (test_bit-set_bit k bits lt)))
  | inr q ↦
      omega (
        arith,
        hit-false i k q,
        same i,
        ap bit_value (test_bit-set_bit_other k i bits (ne_of i k q)),
      )
]

released_bits :
    (k : ℕ) (bits : List Bool) (f g : ℕ → ℕ)
    → test_bit k bits ≡ true
    → ((i : ℕ) → f i ≡ bit_value (test_bit i bits))
    → ((i : ℕ) → g i + hit i k ≡ f i)
    → (i : ℕ) → g i ≡ bit_value (test_bit i (sync_change_bit k bits))
released_bits k bits f g e same less i = elim (Bool-cases (i == k)) [
  | inl q ↦ rw ((==_iff i k).0 q) (
      omega (
        arith,
        hit_self k,
        same k,
        less k,
        ap bit_value e,
        ap bit_value (test_bit-sync_change_bit k bits e),
      ))
  | inr q ↦ omega (
    arith,
    hit-false i k q,
    same i,
    less i,
    ap bit_value (test_bit-sync_change_bit_other k i bits (ne_of i k q)),
  )
]

-- What a send does to the account: nothing, or a section goes to a packet or is lost.
pub data Outcome (w : Flight) : Flight → Type 0 where
  unchanged : Outcome w w
  flying :
      (k : ℕ)
      → k < length w.sections.send_index_map
      → test_bit k w.sections.send_index_map ≡ false
      → Outcome w (record w { sections = take_section k w.sections; in_flight = k ∷ w.in_flight })
  leaked :
      (k : ℕ)
      → k < length w.sections.send_index_map
      → test_bit k w.sections.send_index_map ≡ false
      → Outcome w (record w { sections = take_section k w.sections; lost = k ∷ w.lost })

Outcome-IsAccounted : {w w' : Flight} → Outcome w w' → IsAccounted w → IsAccounted w'
unfolding IsAccounted
Outcome-IsAccounted unchanged h = h
Outcome-IsAccounted {w} (flying k lt e) (counted, total, same) = (
  take_section-SectionsAreCounted k w.sections lt e counted,
  omega (arith, total, used-set_bit k w.sections.send_index_map lt e),
  λ i. omega (
    arith,
    taken_bits k w.sections.send_index_map (λ j. occurs j w.in_flight + occurs j w.lost) lt e same
        i,
  ),
)
Outcome-IsAccounted {w} (leaked k lt e) (counted, total, same) = (
  take_section-SectionsAreCounted k w.sections lt e counted,
  omega (arith, total, used-set_bit k w.sections.send_index_map lt e),
  λ i. omega (
    arith,
    taken_bits k w.sections.send_index_map (λ j. occurs j w.in_flight + occurs j w.lost) lt e same
        i,
  ),
)

-- The two results of `getNextSendIndex`.
pub data NextIndex (s : SendSections) : ℕ × SendSections → Type 0 where
  exhausted :
      AllSet 0 s.send_section_count s.send_index_map → NextIndex s (send_section_index_invalid, s)
  found :
      (k : ℕ)
      → k < s.send_section_count
      → test_bit k s.send_index_map ≡ false
      → AllSet 0 k s.send_index_map
      → NextIndex s (k, take_section k s)

pub get_next_send_index-NextIndex : (s : SendSections) → NextIndex s (get_next_send_index s)
unfolding get_next_send_index
get_next_send_index-NextIndex s = elim (try_indexes-cases s.send_section_count 0 s) [
  | inl (r, all) ↦ subst (NextIndex s) (sym r) (exhausted (λ j a b. all j a (omega arith)))
  | inr (k, (p, q, c, all, r)) ↦ subst (NextIndex s) (sym r) (found k (omega arith) c all)
]

abbrev sent_or_stalled :
    ℕ → IoReturn → ℕ → SendSections → OutputStatus × SendSections × Option SentPacket
sent_or_stalled n status k s = elim status [
  | success ↦ (output_success, s, some (sent_packet s.send_section_size k n))
  | _ ↦ (output_stall, s, none)
]

account-Outcome :
    (w : Flight) (packet_length : ℕ) (status : IoReturn) (r : ℕ × SendSections)
    → w.sections.send_section_count ≤ length w.sections.send_index_map
    → length w.sections.send_index_map < 0xFFFFFFFF
    → NextIndex w.sections r
    → Outcome w (account w r (output_in_section packet_length status r))
account-Outcome w n status r covers small (exhausted all) = unchanged
account-Outcome w n status r covers small (found k lt e all) =
    let away : (k == send_section_index_invalid) ≡ false =
      ne→==_false k send_section_index_invalid (omega arith) in
    rw away
      elim (n == 0 || ltb w.sections.send_section_size (rndis_packet_length n))
        as (λ b. Outcome w (
          account w (k, take_section k w.sections)
            (if b
              then (output_dropped, take_section k w.sections, none)
              else sent_or_stalled n status k (take_section k w.sections)))) [
                | true ↦ rw away (leaked k (omega arith) e)
                | false ↦
                    elim status
                      as (λ c. Outcome w (
                        account w (k, take_section k w.sections)
                          (sent_or_stalled n c k (take_section k w.sections)))) [
                            | success ↦ flying k (omega arith) e
                            | _ ↦ rw away (leaked k (omega arith) e)
                          ]
              ]

pub output-Outcome :
    (w : Flight) (packet_length : ℕ) (status : IoReturn)
    → IsAccounted w
    → Outcome w (after_output packet_length status w)
unfolding after_output output_packet IsAccounted SectionsAreCounted
output-Outcome w n status ((covers, small, counted), total, same) =
    account-Outcome w n status (get_next_send_index w.sections) covers small
      (get_next_send_index-NextIndex w.sections)

test_bit-lt : (i : ℕ) (bs : List Bool) → test_bit i bs ≡ true → i < length bs
test_bit-lt i [] e = absurd (false≢true e)
test_bit-lt zero (b ∷ bs) e = omega arith
test_bit-lt (suc i) (b ∷ bs) e = omega (arith, test_bit-lt i bs e)

set_of_value : (b : Bool) → bit_value b ≢ 0 → b ≡ true
set_of_value true h = refl
set_of_value false h = absurd (h refl)

-- The index comes back from the transaction id.
send_index_of-send_transaction_id : (i : ℕ) → i < 2 ^ 32 → send_index_of (send_transaction_id i) ≡ i
unfolding send_index_of send_transaction_id
send_index_of-send_transaction_id i h = omega arith

completion-IsAccounted :
    (w : Flight) (i : ℕ)
    → occurs i w.in_flight ≢ 0
    → IsAccounted w
    → IsAccounted (after_completion i w)
unfolding IsAccounted SectionsAreCounted after_completion handle_completion release_send_index
completion-IsAccounted w i h (counted, total, same) =
    let set : test_bit i w.sections.send_index_map ≡ true =
      set_of_value (test_bit i w.sections.send_index_map) (λ z. h (omega (arith, z, same i))) in
    let back : send_index_of (send_transaction_id i) ≡ i =
      send_index_of-send_transaction_id i
        (omega (arith, test_bit-lt i w.sections.send_index_map set, counted.1)) in
    rw back (
      release-SectionsAreCounted i w.sections set counted,
      omega (
        arith,
        total,
        length-remove_one i w.in_flight h,
        used-sync_change_bit i w.sections.send_index_map set,
      ),
      released_bits i w.sections.send_index_map (λ j. occurs j w.in_flight + occurs j w.lost)
          (λ j. occurs j (remove_one i w.in_flight) + occurs j w.lost) set same
          (λ j. omega (arith, occurs-remove_one i j w.in_flight h)),
    )

used-replicate : (n : ℕ) → used (replicate n false) ≡ 0
unfolding used
used-replicate zero = refl
used-replicate (suc n) = omega (arith, used-replicate n)

test_bit-replicate : (n i : ℕ) → test_bit i (replicate n false) ≡ false
test_bit-replicate zero i = refl
test_bit-replicate (suc n) zero = refl
test_bit-replicate (suc n) (suc i) = test_bit-replicate n i

pub start-IsAccounted : (size : ℕ) → size ≢ 0 → IsAccounted (start size)
unfolding IsAccounted SectionsAreCounted start init_sections
start-IsAccounted size h =
    let few : send_buffer_size / size ≤ send_buffer_size = div-le_self send_buffer_size size in
    let long : length (replicate (8 * (send_buffer_size / size * 4 / 32 + 4)) false)
        ≡ 8 * (send_buffer_size / size * 4 / 32 + 4) =
      length-replicate _ false in
    (
      (omega (arith, long), omega (arith, long, few), sym (used-replicate _)),
      used-replicate _,
      λ i. sym (ap bit_value (test_bit-replicate _ i)),
    )

Step-IsAccounted : {w w' : Flight} → Step w w' → IsAccounted w → IsAccounted w'
Step-IsAccounted (output w n status) h = Outcome-IsAccounted (output-Outcome w n status h) h
Step-IsAccounted (completion w i has) h = completion-IsAccounted w i has h

pub Reach-IsAccounted : {w w' : Flight} → Reach w w' → IsAccounted w → IsAccounted w'
Reach-IsAccounted here h = h
Reach-IsAccounted (next r s) h = Step-IsAccounted s (Reach-IsAccounted r h)

-- Sends and completions keep the size and the number of the sections.
abbrev pub SameGeometry : SendSections → SendSections → Type 0
SameGeometry s t =
    (t.send_section_size ≡ s.send_section_size) × (t.send_section_count ≡ s.send_section_count)

Outcome-SameGeometry : {w w' : Flight} → Outcome w w' → SameGeometry w.sections w'.sections
Outcome-SameGeometry unchanged = (refl, refl)
Outcome-SameGeometry (flying k lt e) = (refl, refl)
Outcome-SameGeometry (leaked k lt e) = (refl, refl)

Step-SameGeometry :
    {w w' : Flight} → Step w w' → IsAccounted w → SameGeometry w.sections w'.sections
unfolding after_completion handle_completion release_send_index
Step-SameGeometry (output w n status) h = Outcome-SameGeometry (output-Outcome w n status h)
Step-SameGeometry (completion w i has) h = (refl, refl)

pub Reach-SameGeometry :
    {w w' : Flight} → Reach w w' → IsAccounted w → SameGeometry w.sections w'.sections
Reach-SameGeometry here h = (refl, refl)
Reach-SameGeometry (next r s) h =
    let (a, b) = Reach-SameGeometry r h in
    let (c, d) = Step-SameGeometry s (Reach-IsAccounted r h) in (c ∙ a, d ∙ b)
