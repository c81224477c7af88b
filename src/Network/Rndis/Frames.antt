-- ===== src/Network/Rndis/Frames.antt =====
-- A frame that `outputPacket` (MacHyperVSupport/Network/HyperVNetwork.cpp) puts in a section, read
-- as `processRNDISPacket` (MacHyperVSupport/Network/HyperVNetworkRNDIS.cpp) reads a packet.
use mac_hyper_vsupport.Network.Output.{rndis_packet_length}
use mac_hyper_vsupport.Network.Rndis.{
  Rndis, message_type_packet, process_incoming, process_rndis_packet,
}
use mac_hyper_vsupport.Common.{
  ℕ, ◌^◌, ◌<◌, ◌≡◌, refl, ap, ◌∙◌, arith, List, ◌∷◌, ◌++◌, length, replicate, Bool, true, false,
  if◌then◌else◌, to_u32, le_bytes, of_le_bytes, of_le_bytes-le_bytes, take-append,
}
use mathlib.Core.Bool.{false≢true}

-- The RNDIS message that `outputPacket` writes to a section: type and length, the data packet's
-- offset and length with its seven zero fields, and the frame.
unfoldable pub rndis_frame : List ℕ → List ℕ
rndis_frame frame =
    le_bytes 4 message_type_packet
    ++ (le_bytes 4 (rndis_packet_length (length frame))
        ++ (le_bytes 4 36 ++ (le_bytes 4 (to_u32 (length frame)) ++ (replicate 28 0 ++ frame))))

if_true {ℓ} : {A : Type ℓ} (b : Bool) (x y : A) → b ≡ true → (if b then x else y) ≡ x
if_true true x y e = refl
if_true false x y e = absurd (false≢true e)

pub process-rndis_frame :
    (frame rest : List ℕ) (n : ℕ) (s : Rndis)
    → length frame < 2 ^ 32
    → s.is_network_enabled ≡ true
    → process_rndis_packet (rndis_frame frame ++ rest) n s
      ≡ record s { input_packets = frame ∷ s.input_packets }
unfolding process_rndis_packet process_incoming rndis_frame le_bytes of_le_bytes
process-rndis_frame frame rest n s small on =
    let size : of_le_bytes (le_bytes 4 (to_u32 (length frame))) ≡ length frame =
      of_le_bytes-le_bytes 4 (to_u32 (length frame)) (omega arith) ∙ omega arith in
    if_true s.is_network_enabled _ s on
    ∙ ap (λ f. record s { input_packets = f ∷ s.input_packets })
        (take-append frame rest (of_le_bytes (le_bytes 4 (to_u32 (length frame)))) size)
