-- ===== src/Network/Output/Delivery.antt =====
-- What `outputPacket` and completions (MacHyperVSupport/Network) guarantee in every state that
-- sends and completions lead to.
use native.Mathlib.Nat.{le-div_iff_mul-le}
use mac_hyper_vsupport.Transfer.{success}
use mac_hyper_vsupport.Network.Sections.{
  test_bit, SendSections, send_section_index_invalid, get_next_send_index, bit_value, used,
  init_sections, SectionsAreCounted, send_buffer_size,
}
use mac_hyper_vsupport.Network.Sections.Search.{take_section, AllSet}
use mac_hyper_vsupport.Network.Output.{
  SentPacket, output_packet, sent_packet, rndis_packet_length, send_transaction_id, send_index_of,
  output_success, output_in_section,
}
use mac_hyper_vsupport.Network.Output.Flight.{
  occurs, Flight, after_completion, Reach, start, IsAccounted, output, completion, here, next,
}
use mac_hyper_vsupport.Network.Output.Accounts.{
  Reach-IsAccounted, Reach-SameGeometry, start-IsAccounted, NextIndex,
  get_next_send_index-NextIndex, found, exhausted, Outcome, unchanged, flying, leaked,
  output-Outcome,
}
use mac_hyper_vsupport.Common.{
  ℕ, zero, suc, ◌+◌, ◌*◌, ◌/◌, ◌≤◌, ◌<◌, ◌≡◌, ◌≢◌, refl, ap, ◌∙◌, arith, List, [], ◌∷◌, length,
  Bool, true, false, ◌||◌, ◌==◌, ltb, some, add32, mul32, to_u32, ne→==_false, le→ltb_false,
}

-- With a section size other than 0, in every state that sends of whatever packets and completions
-- of packets in flight lead to from cleared sections, a section's bit is set exactly if one
-- packet in flight, or one send that failed, has the section, and no two have the same. The
-- counter of outstanding sections is the number of both together.
pub Reach-occurs :
    (size : ℕ) (w : Flight)
    → size ≢ 0
    → Reach (start size) w
    → (w.sections.send_indexes_outstanding ≡ length w.in_flight + length w.lost)
      × ((i : ℕ)
          → occurs i w.in_flight + occurs i w.lost
            ≡ bit_value (test_bit i w.sections.send_index_map))
unfolding IsAccounted SectionsAreCounted
Reach-occurs size w h r =
    let ((covers, small, counted), total, same) = Reach-IsAccounted r (start-IsAccounted size h) in
    (counted ∙ total, same)

AllSet-used : (n : ℕ) (bits : List Bool) → n ≤ length bits → AllSet 0 n bits → n ≤ used bits
unfolding used
AllSet-used zero bits h all = omega arith
AllSet-used (suc n) [] h all = absurd (omega arith)
AllSet-used (suc n) (b ∷ bs) h all = omega (
  arith,
  ap bit_value (all 0 (omega arith) (omega arith)),
  AllSet-used n bs (omega arith) (λ j a c. all (suc j) (omega arith) (omega arith)),
)

-- The rndis message of a packet that fits ends in its section, in the send buffer.
section_end-le :
    (size k len : ℕ)
    → size ≢ 0
    → k < send_buffer_size / size
    → len ≤ size
    → mul32 size k + len ≤ send_buffer_size
section_end-le size k len z h l =
    let q : suc k * size ≤ send_buffer_size =
      (le-div_iff_mul-le {k = size} {x = suc k} {y = send_buffer_size} (omega arith)).0
        (omega arith) in
    omega arith

-- Its offset does not wrap.
section_offset : (size k : ℕ) → size ≢ 0 → k < send_buffer_size / size → mul32 size k ≡ size * k
section_offset size k z h =
    let q : suc k * size ≤ send_buffer_size =
      (le-div_iff_mul-le {k = size} {x = suc k} {y = send_buffer_size} (omega arith)).0
        (omega arith) in
    omega arith

packet_fits :
    (n size : ℕ)
    → n ≢ 0
    → 44 + n ≤ size
    → size ≤ send_buffer_size
    → (n == 0 || ltb size (rndis_packet_length n)) ≡ false
unfolding rndis_packet_length
packet_fits n size pos fits small =
    rw (ne→==_false n 0 pos) (le→ltb_false size (add32 (8 + 36) (to_u32 n)) (omega arith))

-- With a section free, the search finds one, and a packet that fits is sent in it.
output_found :
    (size n : ℕ) (w : Flight)
    → size ≢ 0
    → n ≢ 0
    → 44 + n ≤ size
    → w.sections.send_section_size ≡ size
    → w.sections.send_section_count ≡ send_buffer_size / size
    → w.sections.send_section_count ≤ length w.sections.send_index_map
    → length w.sections.send_index_map < 0xFFFFFFFF
    → ((i : ℕ)
        → occurs i w.in_flight + occurs i w.lost ≡ bit_value (test_bit i w.sections.send_index_map))
    → used w.sections.send_index_map < w.sections.send_section_count
    → (r : ℕ × SendSections) → NextIndex w.sections r
    → (k : ℕ) × ((p : SentPacket) × ((occurs k w.in_flight ≡ 0)
          × (output_in_section n success r ≡ (output_success, take_section k w.sections, some p))
          × (p.send_buffer_section_index ≡ k)
          × (p.send_buffer_section_offset ≡ size * k)
          × (p.send_buffer_section_size ≡ 44 + n)
          × (send_index_of p.transaction_id ≡ k)
          × (p.send_buffer_section_offset + p.send_buffer_section_size ≤ send_buffer_size)))
unfolding rndis_packet_length send_transaction_id send_index_of
output_found size n w h pos fits es ec covers small same room r (exhausted all) =
    absurd (
      omega (arith, AllSet-used w.sections.send_section_count w.sections.send_index_map covers all))
output_found size n w h pos fits es ec covers small same room r (found k lt e all) =
    let whole : mul32 size k + size ≤ send_buffer_size =
      section_end-le size k size h (omega (arith, ec)) (omega arith) in
    let away : (k == send_section_index_invalid) ≡ false =
      ne→==_false k send_section_index_invalid (omega arith) in
    let guard : (n == 0 || ltb w.sections.send_section_size (rndis_packet_length n)) ≡ false =
      packet_fits n w.sections.send_section_size pos (omega (arith, es))
        (omega (arith, es, whole)) in
    let place : mul32 size k ≡ size * k = section_offset size k h (omega (arith, ec)) in
    let fitting : add32 (8 + 36) (to_u32 n) ≡ 44 + n = omega (arith, whole) in
    (
      k,
      (
        sent_packet size k n,
        (
          omega (arith, same k, ap bit_value e),
          rw away (
              rw guard (
                ap (λ z. (output_success, take_section k w.sections, some (sent_packet z k n)))
                  es)),
          refl,
          place,
          fitting,
          omega (arith, small, covers, lt),
          omega (arith, fitting, section_end-le size k (44 + n) h (omega (arith, ec)) fits),
        ),
      ),
    )

-- In every such state, if fewer sections are taken than there are, a packet that is not empty and
-- fits a section with its headers is sent if the write succeeds. It takes one section alone,
-- which no packet in flight has, under the index and the transaction id of this section; the
-- message is 44 bytes longer than the packet, starts at the section's place in the send buffer,
-- and ends inside the send buffer.
pub output_packet-sent :
    (size : ℕ) (w : Flight) (packet_length : ℕ)
    → size ≢ 0
    → Reach (start size) w
    → packet_length ≢ 0
    → 44 + packet_length ≤ size
    → length w.in_flight + length w.lost < send_buffer_size / size
    → (k : ℕ) × ((p : SentPacket) × ((occurs k w.in_flight ≡ 0)
          × (output_packet packet_length success w.sections
              ≡ (output_success, take_section k w.sections, some p))
          × (p.send_buffer_section_index ≡ k)
          × (p.send_buffer_section_offset ≡ size * k)
          × (p.send_buffer_section_size ≡ 44 + packet_length)
          × (send_index_of p.transaction_id ≡ k)
          × (p.send_buffer_section_offset + p.send_buffer_section_size ≤ send_buffer_size)))
unfolding output_packet IsAccounted SectionsAreCounted start init_sections
output_packet-sent size w n h r pos fits room =
    let start_ok : IsAccounted (start size) = start-IsAccounted size h in
    let ((covers, small, counted), total, same) = Reach-IsAccounted r start_ok in
    let (same_size, same_count) = Reach-SameGeometry r start_ok in
    output_found size n w h pos fits same_size same_count covers small same (omega (arith, total))
      (get_next_send_index w.sections) (get_next_send_index-NextIndex w.sections)

Outcome-lost : {w w' : Flight} → Outcome w w' → (i : ℕ) → occurs i w.lost ≤ occurs i w'.lost
Outcome-lost unchanged i = omega arith
Outcome-lost (flying k lt e) i = omega arith
Outcome-lost (leaked k lt e) i = omega arith

Reach-lost_le :
    {w w' : Flight} → Reach w w' → IsAccounted w → (i : ℕ) → occurs i w.lost ≤ occurs i w'.lost
unfolding after_completion
Reach-lost_le here h i = omega arith
Reach-lost_le (next r (output w n status)) h i =
    omega (
      arith,
      Reach-lost_le r h i,
      Outcome-lost (output-Outcome w n status (Reach-IsAccounted r h)) i,
    )
Reach-lost_le (next r (completion w k has)) h i = Reach-lost_le r h i

value_one : (b : Bool) (m n : ℕ) → m + n ≡ bit_value b → n ≢ 0 → (m ≡ 0) × (b ≡ true)
value_one true m n e h = (omega arith, refl)
value_one false m n e h = absurd (omega arith)

-- In every such state, and in every state that sends and completions lead to from there, a
-- section that was lost to a send that failed is taken, and no packet in flight has it.
pub Reach-lost :
    (size : ℕ) (w w' : Flight)
    → size ≢ 0
    → Reach (start size) w
    → Reach w w'
    → (i : ℕ) → occurs i w.lost ≢ 0
    → (occurs i w'.in_flight ≡ 0) × (test_bit i w'.sections.send_index_map ≡ true)
unfolding IsAccounted
Reach-lost size w w' h r r' i lost =
    let ok : IsAccounted w = Reach-IsAccounted r (start-IsAccounted size h) in
    let (counted, total, same) = Reach-IsAccounted r' ok in
    value_one (test_bit i w'.sections.send_index_map) (occurs i w'.in_flight) (occurs i w'.lost)
      (same i) (omega (arith, Reach-lost_le r' ok i))
