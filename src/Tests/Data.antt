-- ===== src/Tests/Data.antt =====
-- Rings, packets and nubs to try the model of MacHyperVSupport/VMBusDevice on.
use mac_hyper_vsupport.Common.{
  ℕ, ◌≡◌, refl, ap, ◌∙◌, arith, List, [], ◌∷◌, ◌++◌, length, true, some, le_bytes,
}
use mac_hyper_vsupport.Ring.{Ring}
use mac_hyper_vsupport.Ring.Space.{IsValid, used}
use mac_hyper_vsupport.Ring.Contents.{
  contents, append_bytes, append_bytes-IsValid, contents-append_bytes, contents_empty,
}
use mac_hyper_vsupport.Packet.{PacketHeader, encode_header}
use mac_hyper_vsupport.Packet.Bytes.{IsHeader}
use mac_hyper_vsupport.Transfer.{HostView}
use mac_hyper_vsupport.Transfer.Read.{RingPacket, IsPacket, stream, packet_bytes}
use mac_hyper_vsupport.Transfer.Loopback.{packet_of, packet_of-IsPacket}
use mac_hyper_vsupport.Nub.{Nub, Request}
use mac_hyper_vsupport.Nub.Interrupt.{Drain}

-- An empty ring of 64 bytes whose next packet goes round its end.
abbrev pub idle : Ring
idle = record {
  write_index = 56;
  read_index = 56;
  interrupt_mask = 0;
  guest_to_host_interrupt_count = 0;
  buffer = λ k. 0;
}

abbrev pub idle_host : HostView
idle_host = record { read_index = 56; interrupt_mask = 0 }

pub idle-IsValid : IsValid 64 idle
idle-IsValid = omega arith

pub nothing_used : used idle 64 ≡ 0
unfolding used
nothing_used = refl

pub idle_empty : contents idle 64 ≡ []
idle_empty = (contents_empty idle (omega arith) refl).1

-- A packet of five bytes of data, which are padded.
abbrev pub ping : PacketHeader
ping = record {
  packet_type = 6;
  header_length = 2;
  total_length = 3;
  flags = 1;
  transaction_id = 5;
}

abbrev pub ping_data : List ℕ
ping_data = 1 ∷ 2 ∷ 3 ∷ 4 ∷ 5 ∷ []

pub ping-IsHeader : IsHeader ping
ping-IsHeader = omega arith

abbrev pub ping_packet : RingPacket
ping_packet = packet_of idle ping [] ping_data

pub ping_packet-IsPacket : IsPacket ping_packet
ping_packet-IsPacket = packet_of-IsPacket idle ping [] ping_data ping-IsHeader refl

-- The ring with that packet in it.
abbrev pub holding : Ring
holding = append_bytes idle 64 (stream (ping_packet ∷ []))

pub holding-IsValid : IsValid 64 holding
holding-IsValid = append_bytes-IsValid idle idle-IsValid (stream (ping_packet ∷ []))

pub ping_length : length (stream (ping_packet ∷ [])) ≡ 32
unfolding encode_header le_bytes
ping_length = refl

pub ping_packet_length : length (packet_bytes ping_packet) ≡ 24
unfolding encode_header le_bytes
ping_packet_length = refl

pub ping_body_length : length ping_packet.body ≡ 8
unfolding encode_header le_bytes
ping_body_length = refl

pub holding_ping : contents holding 64 ≡ stream (ping_packet ∷ [])
holding_ping =
    contents-append_bytes idle idle-IsValid (stream (ping_packet ∷ []))
      (omega (arith, nothing_used, ping_length))
    ∙ ap (λ k. k ++ stream (ping_packet ∷ [])) idle_empty

abbrev pub waiting : Request
waiting = record { transaction_id = 5; response_data = []; response_data_length = 4 }

abbrev pub nub : Nub
nub = record {
  channel_is_open = true;
  tx_buffer = some idle;
  tx_buffer_size = 64;
  rx_buffer = some holding;
  rx_buffer_size = 64;
  has_packet_actions = true;
  has_interrupt_source = true;
  should_flush_packets = true;
  rx_packet_buffer = some [];
  rx_packet_buffer_length = 16;
  requests = waiting ∷ [];
  woken = [];
  trans_id = 3;
  max_auto_trans_id = 4;
  signals = 0;
}

-- A client that counts what reaches it.
abbrev pub draining : Drain ℕ
draining = record { rx = holding; packet_buffer_length = 16; reached = (nub, 0) }
