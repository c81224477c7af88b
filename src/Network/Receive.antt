-- ===== src/Network/Receive.antt =====
-- Packets from the host: `handlePacket`, `wakePacketHandler` and `handleRNDISRanges` of
-- MacHyperVSupport/Network/HyperVNetworkPrivate.cpp.
use mac_hyper_vsupport.Transfer.{IoReturn}
use mac_hyper_vsupport.Network.Buffers.{is_success}
use mac_hyper_vsupport.Packet.{packet_type_completion}
use mac_hyper_vsupport.Network.Sections.{SendSections}
use mac_hyper_vsupport.Network.Output.{handle_completion}
use mac_hyper_vsupport.Network.Rndis.{Rndis, process_rndis_packet}
use mac_hyper_vsupport.Network.Rndis.Frames.{rndis_frame, process-rndis_frame}
use mac_hyper_vsupport.Common.{
  ℕ, ◌^◌, ◌<◌, ◌≡◌, refl, ap, ◌∙◌, List, [], ◌∷◌, ◌++◌, length, drop, Bool, true, ◌||◌, not, ◌==◌,
  if◌then◌else◌,
}

-- `VMBusTransferPageRange`.
pub record TransferRange : Type 0 where
  pub count : ℕ
  pub offset : ℕ

-- The parts of `HyperVNetwork` that packets reach, with the transaction ids of the completion
-- packets written, the last one first. The debug counters are left out.
pub record Network : Type 0 where
  pub rndis : Rndis
  pub sections : SendSections
  pub completions : List ℕ

-- A packet from the host: its type and transaction id, the type of the network message in it, and
-- the page set with its ranges.
pub record NetworkPacket : Type 0 where
  pub packet_type : ℕ
  pub transaction_id : ℕ
  pub message_type : ℕ
  pub transfer_pageset_id : ℕ
  pub ranges : List TransferRange

-- `kVMBusPacketTypeDataUsingTransferPages`, `kHyperVNetworkMessageTypeV1SendRNDISPacket`,
-- `kHyperVNetworkReceiveBufferID`.
abbrev pub packet_type_transfer_pages : ℕ
packet_type_transfer_pages = 7

abbrev pub message_type_send_rndis_packet : ℕ
message_type_send_rndis_packet = 107

abbrev pub receive_buffer_id : ℕ
receive_buffer_id = 0xCAFE

-- `wakePacketHandler`.
unfoldable pub wake_packet_handler : NetworkPacket → Bool
wake_packet_handler p = p.packet_type == packet_type_completion

-- The loop of `handleRNDISRanges` over the receive buffer.
unfoldable pub process_ranges : List ℕ → List TransferRange → Rndis → Rndis
process_ranges buffer [] s = s
process_ranges buffer (r ∷ rs) s =
    process_ranges buffer rs (process_rndis_packet (drop r.offset buffer) r.count s)

-- The completions with the one that was to be written.
abbrev pub written_completions : IoReturn → ℕ → List ℕ → List ℕ
written_completions status id completions =
    if is_success status then id ∷ completions else completions

-- `handleRNDISRanges`, with the status of `writeCompletionPacketWithTransactionId`, which is not
-- looked at: with a failure no completion is written.
unfoldable pub handle_rndis_ranges : List ℕ → IoReturn → NetworkPacket → Network → Network
handle_rndis_ranges buffer completion_status p n =
    if not (p.message_type == message_type_send_rndis_packet)
      || not (p.transfer_pageset_id == receive_buffer_id)
    then n
    else record n {
      rndis = process_ranges buffer p.ranges n.rndis;
      completions = written_completions completion_status p.transaction_id n.completions;
    }

unfoldable pub handle_packet : List ℕ → IoReturn → NetworkPacket → Network → Network
handle_packet buffer completion_status p n =
    if p.packet_type == packet_type_transfer_pages
    then handle_rndis_ranges buffer completion_status p n
    else if p.packet_type == packet_type_completion
    then record n { sections = handle_completion p.message_type p.transaction_id n.sections }
    else n

-- The buffer holds the frames where the ranges say.
unfoldable pub HoldsFrames : List ℕ → List TransferRange → List (List ℕ) → Type 0
HoldsFrames buffer [] [] = Unit
HoldsFrames buffer [] (f ∷ fs) = ⊥
HoldsFrames buffer (r ∷ rs) [] = ⊥
HoldsFrames buffer (r ∷ rs) (f ∷ fs) =
    (length f < 2 ^ 32)
    × (((rest : List ℕ) × (drop r.offset buffer ≡ rndis_frame f ++ rest))
        × HoldsFrames buffer rs fs)

-- One frame after the other is given to macOS.
abbrev pub push_all : List (List ℕ) → List (List ℕ) → List (List ℕ)
push_all [] packets = packets
push_all (f ∷ fs) packets = push_all fs (f ∷ packets)

process_ranges-frames :
    (buffer : List ℕ) (rs : List TransferRange) (fs : List (List ℕ)) (s : Rndis)
    → HoldsFrames buffer rs fs
    → s.is_network_enabled ≡ true
    → process_ranges buffer rs s ≡ record s { input_packets = push_all fs s.input_packets }
unfolding process_ranges HoldsFrames
process_ranges-frames buffer [] [] s h on = refl
process_ranges-frames buffer [] (f ∷ fs) s h on = absurd h
process_ranges-frames buffer (r ∷ rs) [] s h on = absurd h
process_ranges-frames buffer (r ∷ rs) (f ∷ fs) s (small, ((rest, e), h)) on =
    ap (λ bytes. process_ranges buffer rs (process_rndis_packet bytes r.count s)) e
    ∙ ap (process_ranges buffer rs) (process-rndis_frame f rest r.count s small on)
    ∙ process_ranges-frames buffer rs fs (record s { input_packets = f ∷ s.input_packets }) h on

-- With the network enabled, a packet whose ranges hold frames as the driver lays out those it
-- sends, each shorter than 2 ^ 32 bytes, gives macOS these frames in order and changes nothing
-- else of the driver. It is completed once under its transaction id if the completion can be
-- written, and never if not.
pub handle_packet-frames :
    (buffer : List ℕ) (rs : List TransferRange) (fs : List (List ℕ)) (id : ℕ) (n : Network)
    (completion_status : IoReturn)
    → HoldsFrames buffer rs fs
    → n.rndis.is_network_enabled ≡ true
    → handle_packet buffer completion_status
        (record {
          packet_type = packet_type_transfer_pages;
          transaction_id = id;
          message_type = message_type_send_rndis_packet;
          transfer_pageset_id = receive_buffer_id;
          ranges = rs;
        })
        n
      ≡ record n {
        rndis = record n.rndis { input_packets = push_all fs n.rndis.input_packets };
        completions = if is_success completion_status then id ∷ n.completions else n.completions;
      }
unfolding handle_packet handle_rndis_ranges
handle_packet-frames buffer rs fs id n completion_status h on =
    ap
      (λ s. record n {
        rndis = s;
        completions = written_completions completion_status id n.completions;
      })
      (process_ranges-frames buffer rs fs n.rndis h on)
