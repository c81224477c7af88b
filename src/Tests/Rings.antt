-- ===== src/Tests/Rings.antt =====
-- The rings and packets of MacHyperVSupport/VMBusDevice at concrete inputs.
use mac_hyper_vsupport.Common.{
  ◌≡◌, refl, arith, [], ◌∷◌, ◌++◌, drop, true, none, some, ◌&&◌, ◌==◌, replicate,
}
use mac_hyper_vsupport.Ring.{copy_from_ring, copy_to_ring, load, available_space}
use mac_hyper_vsupport.Ring.Circular.{ring_load, ring_store}
use mac_hyper_vsupport.Ring.Space.{IsValid, used}
use mac_hyper_vsupport.Ring.Contents.{contents}
use mac_hyper_vsupport.Ring.Copy.{copy_from_ring_lem, copy_to_ring_lem}
use mac_hyper_vsupport.Packet.{encode_header}
use mac_hyper_vsupport.Transfer.{success, write_raw_packet, read_raw_packet}
use mac_hyper_vsupport.Transfer.Write.{frame_of}
use mac_hyper_vsupport.Transfer.Fifo.{write_raw_packet_appends, write_raw_packet_fills}
use mac_hyper_vsupport.Transfer.Read.{
  IsPacket, stream, read_leaves, read_raw_packet_lem, packet_bytes,
}
use mac_hyper_vsupport.Transfer.Loopback.{
  header_of, write_raw_packet_streams, write-read_raw_packet,
}
use mac_hyper_vsupport.Tests.Data.{
  idle, idle_host, idle-IsValid, nothing_used, idle_empty, ping, ping_data, ping-IsHeader,
  ping_packet, ping_packet-IsPacket, holding, holding-IsValid, holding_ping, ping_packet_length,
  ping_body_length,
}

copy_wraps : (copy_from_ring (λ k. k) 8 6 4 4) ≡ (6 ∷ 7 ∷ 0 ∷ 1 ∷ [], 2)
unfolding copy_from_ring load
copy_wraps = refl

copy_from_ring_lem_example : copy_from_ring (λ k. k) 8 6 4 4 ≡ (ring_load 8 (λ k. k) 6 4, 2)
copy_from_ring_lem_example =
    copy_from_ring_lem 8 (omega arith) (λ k. k) 6 4 (omega arith) (omega arith)

copy_to_ring_lem_example :
    copy_to_ring (λ k. 0) 8 6 (1 ∷ 2 ∷ 3 ∷ []) ≡ (ring_store 8 (λ k. 0) 6 (1 ∷ 2 ∷ 3 ∷ []), 1)
copy_to_ring_lem_example =
    copy_to_ring_lem 8 (omega arith) (λ k. 0) 6 (1 ∷ 2 ∷ 3 ∷ []) (omega arith) (omega arith)

write_raw_packet_appends_example :
    let (status, tx', signals) = write_raw_packet 64 idle idle_host none ping_data in
    (status ≡ success)
    × IsValid 64 tx'
    × (contents tx' 64 ≡ drop 0 (contents idle 64 ++ frame_of idle none ping_data))
    × (signals ≡ (true && 0 == used idle 64))
write_raw_packet_appends_example =
    write_raw_packet_appends idle-IsValid idle_host none ping_data (omega arith) 0
      (omega (arith, nothing_used)) (omega arith) refl

-- 56 bytes of data and the index fill the 64 bytes.
write_raw_packet_fills_example :
    let (status, tx', signals) = write_raw_packet 64 idle idle_host none (replicate 56 7) in
    (status ≡ success) × (contents tx' 64 ≡ []) × (available_space tx' 64 ≡ (0, 64))
write_raw_packet_fills_example =
    write_raw_packet_fills idle-IsValid idle_host none (replicate 56 7) (omega arith)
      (omega (arith, nothing_used)) refl

write_raw_packet_streams_example :
    let (status, tx', signals) =
      write_raw_packet 64 idle idle_host (some (header_of ping [])) ping_data in
    (status ≡ success)
    × IsValid 64 tx'
    × (contents tx' 64 ≡ stream (ping_packet ∷ []))
    × IsPacket ping_packet
write_raw_packet_streams_example =
    write_raw_packet_streams idle-IsValid idle_host ping [] ping_data ping-IsHeader refl
      (omega arith) (omega (arith, nothing_used)) refl [] idle_empty

write-read_raw_packet_example :
    let (status, tx', signals) =
      write_raw_packet 64 idle idle_host (some (header_of ping [])) ping_data in
    let r = read_raw_packet 64 tx' (some 16) 8 in
    (r.status ≡ success)
    × (r.header ≡ encode_header ping)
    × (r.buffer ≡ ping_packet.body)
    × (contents r.rx 64 ≡ [])
write-read_raw_packet_example =
    write-read_raw_packet idle-IsValid idle_host ping [] ping_data ping-IsHeader refl (omega arith)
      (omega (arith, nothing_used)) refl 8 idle_empty (omega (arith, ping_body_length))

holding_front : contents holding 64 ≡ packet_bytes ping_packet ++ (ping_packet.index ++ [])
holding_front = holding_ping

read_raw_packet_lem_example :
    read_raw_packet 64 holding (some 16) 8 ≡ read_leaves 64 holding (some 16) ping_packet
read_raw_packet_lem_example =
    read_raw_packet_lem holding holding-IsValid (some 16) ping_packet [] ping_packet-IsPacket
      holding_front (omega (arith, ping_packet_length)) 8 (omega (arith, ping_packet_length))
