-- ===== src/Tests/Clients.antt =====
-- The theorems on the network and the storage driver and on the messages of the VMBus at concrete
-- inputs.
use mac_hyper_vsupport.Transfer.{success}
use mac_hyper_vsupport.Network.Sections.{
  send_buffer_size, test_bit, bit_value, get_next_send_index, try_indexes, sync_test_and_set_bit,
  init_sections,
}
use mac_hyper_vsupport.Network.Sections.Search.{take_section}
use mac_hyper_vsupport.Network.Output.{
  output_packet, output_success, SentPacket, send_index_of, rndis_packet_length,
}
use mac_hyper_vsupport.Network.Output.Flight.{
  Flight, occurs, Reach, start, after_output, output, here, next,
}
use mac_hyper_vsupport.Network.Output.Delivery.{Reach-occurs, output_packet-sent, Reach-lost}
use mac_hyper_vsupport.Common.{ℕ, ◌+◌, ◌*◌, ◌/◌, ◌≤◌, ◌<◌, ◌≡◌, ◌≢◌, arith, length, true, some}

-- Three sections of 5 MB.
abbrev section : ℕ
section = 1024 * 1024 * 5

abbrev one_sent : Flight
one_sent = after_output 1500 success (start section)

one_sent-Reach : Reach (start section) one_sent
one_sent-Reach = next here (output (start section) 1500 success)

Reach-occurs_example :
    (one_sent.sections.send_indexes_outstanding ≡ length one_sent.in_flight + length one_sent.lost)
    × ((i : ℕ)
        → occurs i one_sent.in_flight + occurs i one_sent.lost
          ≡ bit_value (test_bit i one_sent.sections.send_index_map))
Reach-occurs_example = Reach-occurs section one_sent (λ e. absurd (omega arith)) one_sent-Reach

start_room :
    length (start section).in_flight + length (start section).lost < send_buffer_size / section
unfolding start
start_room = omega arith

output_packet-sent_example :
    (k : ℕ) × ((p : SentPacket) × ((occurs k (start section).in_flight ≡ 0)
        × (output_packet 1500 success (start section).sections
            ≡ (output_success, take_section k (start section).sections, some p))
        × (p.send_buffer_section_index ≡ k)
        × (p.send_buffer_section_offset ≡ section * k)
        × (p.send_buffer_section_size ≡ 44 + 1500)
        × (send_index_of p.transaction_id ≡ k)
        × (p.send_buffer_section_offset + p.send_buffer_section_size ≤ send_buffer_size)))
output_packet-sent_example =
    output_packet-sent section (start section) 1500 (λ e. absurd (omega arith)) here
      (λ e. absurd (omega arith)) (omega arith) start_room

-- An empty packet is dropped, and its section is lost.
abbrev one_dropped : Flight
one_dropped = after_output 0 success (start section)

one_dropped_lost : occurs 0 one_dropped.lost ≢ 0
unfolding after_output output_packet get_next_send_index try_indexes sync_test_and_set_bit start
    init_sections rndis_packet_length
one_dropped_lost e = absurd (omega (arith, e))

Reach-lost_example :
    (occurs 0 one_dropped.in_flight ≡ 0) × (test_bit 0 one_dropped.sections.send_index_map ≡ true)
Reach-lost_example =
    Reach-lost section one_dropped one_dropped (λ e. absurd (omega arith))
      (next here (output (start section) 0 success)) here 0 one_dropped_lost
