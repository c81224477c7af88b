-- ===== src/Tests/Nubs.antt =====
-- The nub of MacHyperVSupport/VMBusDevice at concrete inputs.
use mac_hyper_vsupport.Common.{
  ℕ, ◌+◌, ◌*◌, ◌/◌, ◌-◌, ◌%◌, ◌^◌, ◌≡◌, ◌≢◌, refl, ap, arith, List, [], ◌∷◌, length, true, some,
  map, replicate, suc, none, false, inr,
}
use mac_hyper_vsupport.Packet.{PacketHeader}
use mac_hyper_vsupport.Transfer.Read.{stream}
use mac_hyper_vsupport.Transfer.Loopback.{packet_of, packet_size}
use mac_hyper_vsupport.Nub.Transactions.{
  nth_trans_id, nth_trans_id_lem, get_next_trans_id, hand_out,
}
use mac_hyper_vsupport.Nub.Send.{
  write_packet_internal, SinglePageBuffer, write_gpa_direct_single_page_packet,
}
use mac_hyper_vsupport.Nub.Delivery.{
  Delivered, write_packet_internal-Delivered, Refused, write_packet_internal-Refused,
}
use mac_hyper_vsupport.Nub.Interrupt.{dispatch_all, handle_interrupt, respond}
use mac_hyper_vsupport.Nub.Interrupt.Rounds.{AreBatches, Emptied, handle_interrupt-Emptied}
use mac_hyper_vsupport.Tests.Data.{
  idle, idle_host, idle-IsValid, nothing_used, idle_empty, ping_data, ping_packet,
  ping_packet-IsPacket, ping_length, holding-IsValid, holding_ping, nub, draining, holding, waiting,
}
use mac_hyper_vsupport.Nub.Pages.{
  AreFitting, HoldsRanges, write_gpa_direct_single_page_packet-Delivered,
}
use mac_hyper_vsupport.Nub.Interrupt.Response.{respond_lem}
use mac_hyper_vsupport.Nub.Requests.{find_request}
use mac_hyper_vsupport.Transfer.{success}
use mac_hyper_vsupport.Nub.Opening.{open_nub, close_nub, provided_rings}
use mac_hyper_vsupport.Nub.{Nub}

-- The numbers of a nub whose largest is 4, from 3 on.
trans_ids : map (λ k. nth_trans_id k nub) (0 ∷ 1 ∷ 2 ∷ 3 ∷ 4 ∷ []) ≡ 3 ∷ 4 ∷ 1 ∷ 2 ∷ 3 ∷ []
unfolding get_next_trans_id hand_out
trans_ids = refl

nth_trans_id_lem_example : nth_trans_id 3 nub ≡ 1 + (3 - 1 + 3) % 4
nth_trans_id_lem_example = nth_trans_id_lem 3 nub (omega arith) (omega arith)

write_packet_internal-Delivered_example :
    Delivered nub []
      (packet_of idle
        (record {
          packet_type = 6;
          header_length = 2;
          total_length = packet_size [] ping_data / 8;
          flags = 1;
          transaction_id = 7;
        })
        []
        ping_data)
      7
      (some 4)
      (write_packet_internal nub idle_host 6 7 true ping_data (some 4))
write_packet_internal-Delivered_example =
    write_packet_internal-Delivered nub refl idle-IsValid idle_host refl 7 (some 4) 6 true ping_data
      [] (omega arith) (omega arith) (omega arith) (omega arith) (omega (arith, nothing_used))
      idle_empty

-- The first packet is taken by every client, and the second one comes while interrupts are masked.
abbrev counts : PacketHeader → List ℕ → ℕ → ℕ
counts h packet_data n = n + 1

ping_batches : AreBatches 64 ((ping_packet ∷ []) ∷ [])
ping_batches = (
  (λ e. absurd (omega (arith, ping_length, ap (λ k. length (stream k)) e))),
  omega (arith, ping_length),
  (ping_packet-IsPacket, tt),
  tt,
)

handle_interrupt-Emptied_example :
    Emptied 64
      (dispatch_all (some (λ h packet_data. true)) counts (ping_packet ∷ ping_packet ∷ []) (nub, 0))
      (handle_interrupt
        (some (λ h packet_data. true))
        counts
        2
        (2 ^ 20)
        64
        true
        ((ping_packet ∷ []) ∷ [])
        draining)
handle_interrupt-Emptied_example =
    handle_interrupt-Emptied (some (λ h packet_data. true)) counts 2 (2 ^ 20) 64
      ((ping_packet ∷ []) ∷ []) draining (ping_packet ∷ []) holding-IsValid holding_ping
      (ping_packet-IsPacket, tt) ping_batches (omega arith) (omega arith) (omega arith)

write_packet_internal-Refused_example :
    Refused nub idle (write_packet_internal nub idle_host 11 7 false (replicate 41 9) (some 4))
write_packet_internal-Refused_example =
    write_packet_internal-Refused nub refl idle-IsValid idle_host refl 7 (some 4) 11 false
      (replicate 41 9) (omega arith) (omega arith) (omega (arith, nothing_used))

respond_lem_example :
    let n' = respond 5 8 ping_data waiting nub in
    (n'.woken ≡ record waiting { response_data = 1 ∷ 2 ∷ 3 ∷ 4 ∷ [] } ∷ [])
    × (1 ≡ suc (length n'.requests))
    × ((j : ℕ) → 5 ≢ j → find_request j n'.requests ≡ find_request j (waiting ∷ []))
    × (n'.tx_buffer ≡ some idle)
    × (n'.rx_buffer ≡ some holding)
unfolding find_request
respond_lem_example = respond_lem 5 8 ping_data waiting nub refl

abbrev one_page : List SinglePageBuffer
one_page = record { length = 512; offset = 0; pfn = 10 } ∷ []

one_page-AreFitting : AreFitting one_page
one_page-AreFitting = (omega arith, omega arith, omega arith, tt)

write_gpa_direct_single_page_packet-Delivered_example :
    (bytes : List ℕ) × (HoldsRanges bytes one_page
      × Delivered
          (get_next_trans_id nub).1
          []
          (packet_of idle
            (record {
              packet_type = 9;
              header_length = 3 + 2 * 1;
              total_length = (24 + 1 * 16 + 8) / 8;
              flags = 1;
              transaction_id = 3;
            })
            bytes
            (replicate 8 1))
          3
          none
          (write_gpa_direct_single_page_packet nub idle_host true (replicate 8 1) one_page none))
write_gpa_direct_single_page_packet-Delivered_example =
    write_gpa_direct_single_page_packet-Delivered nub refl idle-IsValid idle_host refl none true
      (replicate 8 1) one_page [] (omega arith) (omega arith) one_page-AreFitting (omega arith)
      (omega arith) (omega (arith, nothing_used)) idle_empty

-- An opening that was given no transmit ring counts as open, and closing takes the rings away.
abbrev fresh : Nub
fresh = record nub {
  channel_is_open = false;
  tx_buffer = none;
  rx_buffer = none;
  has_packet_actions = false;
}

open_without_tx :
    let (status, n) = open_nub 64 64 9 (inr (none, some holding)) fresh in
    (status ≡ success)
    × (n.channel_is_open ≡ true)
    × (n.tx_buffer ≡ none)
    × ((close_nub success n).1.rx_buffer ≡ none)
unfolding open_nub provided_rings close_nub
open_without_tx = (refl, refl, refl, refl)
