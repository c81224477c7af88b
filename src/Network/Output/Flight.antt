-- ===== src/Network/Output/Flight.antt =====
-- The packets that the host still has, with the sends and completions of `outputPacket` and
-- `handleCompletion` (MacHyperVSupport/Network) as steps in any order.
use mac_hyper_vsupport.Transfer.{IoReturn}
use mac_hyper_vsupport.Network.Sections.{
  test_bit, SendSections, send_section_index_invalid, get_next_send_index, bit_value, used,
  init_sections, SectionsAreCounted,
}
use mac_hyper_vsupport.Network.Output.{
  OutputStatus, SentPacket, send_transaction_id, output_packet, handle_completion,
  send_rndis_packet_complete,
}
use mac_hyper_vsupport.Common.{
  ℕ, ◌+◌, ◌≡◌, ◌≢◌, List, [], ◌∷◌, length, ◌==◌, if◌then◌else◌, Option, none, some,
}

abbrev pub hit : ℕ → ℕ → ℕ
hit i j = if i == j then 1 else 0

abbrev pub occurs : ℕ → List ℕ → ℕ
occurs i [] = 0
occurs i (x ∷ xs) = hit i x + occurs i xs

abbrev pub remove_one : ℕ → List ℕ → List ℕ
remove_one i [] = []
remove_one i (x ∷ xs) = let rest = remove_one i xs in if i == x then xs else x ∷ rest

-- The driver's sections, those with a packet that the host has not completed, and those taken by a
-- send that failed.
pub record Flight : Type 0 where
  pub sections : SendSections
  pub in_flight : List ℕ
  pub lost : List ℕ

abbrev pub account :
    Flight → ℕ × SendSections → OutputStatus × SendSections × Option SentPacket → Flight
account w (index, s) (status, s₁, none) =
    if index == send_section_index_invalid
    then record w { sections = s₁ }
    else record w { sections = s₁; lost = index ∷ w.lost }
account w (index, s) (status, s₁, some p) = record w {
  sections = s₁;
  in_flight = p.send_buffer_section_index ∷ w.in_flight;
}

unfoldable pub after_output : ℕ → IoReturn → Flight → Flight
after_output packet_length status w =
    account w (get_next_send_index w.sections) (output_packet packet_length status w.sections)

unfoldable pub after_completion : ℕ → Flight → Flight
after_completion i w = record w {
  sections = handle_completion send_rndis_packet_complete (send_transaction_id i) w.sections;
  in_flight = remove_one i w.in_flight;
}

-- The driver sends a packet, or the host completes one that it has.
pub data Step : Flight → Flight → Type 0 where
  output :
      (w : Flight) (packet_length : ℕ) (status : IoReturn)
      → Step w (after_output packet_length status w)
  completion : (w : Flight) (i : ℕ) → occurs i w.in_flight ≢ 0 → Step w (after_completion i w)

pub data Reach (s : Flight) : Flight → Type 0 where
  here : Reach s s
  next : {t u : Flight} → Reach s t → Step t u → Reach s u

unfoldable pub start : ℕ → Flight
start size = record { sections = init_sections size; in_flight = []; lost = [] }

-- Each set bit stands for one packet in flight or one lost section, and the counter for all.
unfoldable pub IsAccounted : Flight → Type 0
IsAccounted w =
    SectionsAreCounted w.sections
    × (used w.sections.send_index_map ≡ length w.in_flight + length w.lost)
    × ((i : ℕ)
        → occurs i w.in_flight + occurs i w.lost ≡ bit_value (test_bit i w.sections.send_index_map))
