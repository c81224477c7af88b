-- ===== src/Transfer/Loopback.antt =====
-- What `writeRawPacketGated` puts in a ring is what `readRawPacketGated` of
-- MacHyperVSupport/VMBusDevice/HyperVVMBusDevicePrivate.cpp takes out of one.
use native.Mathlib.Nat.{mod-eq_of_lt, add-zero}
use mac_hyper_vsupport.Common.{
  ℕ, ◌+◌, ◌-◌, ◌*◌, ◌/◌, ◌^◌, ◌≤◌, ◌<◌, ◌≡◌, refl, sym, ap, ◌∙◌, arith, List, [], ◌∷◌, ◌++◌, length,
  replicate, le_bytes, length-le_bytes, some, append_assoc, append-nil, take-append, drop-append,
  length-append, length-replicate,
}
use mac_hyper_vsupport.Ring.{Ring}
use mac_hyper_vsupport.Ring.Space.{IsValid, used}
use mac_hyper_vsupport.Ring.Contents.{contents}
use mac_hyper_vsupport.Packet.{PacketHeader, get_packet_size, encode_header, decode_header}
use mac_hyper_vsupport.Packet.Bytes.{IsHeader, decode-encode_header, length-encode_header}
use mac_hyper_vsupport.Transfer.{success, HostView, write_raw_packet, read_raw_packet}
use mac_hyper_vsupport.Transfer.Write.{total_of, aligned_of, frame_of}
use mac_hyper_vsupport.Transfer.Fifo.{write_raw_packet_appends}
use mac_hyper_vsupport.Transfer.Read.{
  RingPacket, IsPacket, packet_bytes, stream, read_raw_packet_lem, read_leaves_rest,
}

pub stream-append : (ps qs : List RingPacket) → stream (ps ++ qs) ≡ stream ps ++ stream qs
stream-append [] qs = refl
stream-append (p ∷ ps) qs =
    ap (λ k. packet_bytes p ++ (p.index ++ k)) (stream-append ps qs)
    ∙ ap (λ k. packet_bytes p ++ k) (sym (append_assoc p.index (stream ps) (stream qs)))
    ∙ sym (append_assoc (packet_bytes p) (p.index ++ stream ps) (stream qs))

-- The bytes that go ahead of the data: the packet header, and what a packet type adds to it.
abbrev pub header_of : PacketHeader → List ℕ → List ℕ
header_of h extra = encode_header h ++ extra

abbrev pub padding_of : PacketHeader → List ℕ → List ℕ → ℕ
padding_of h extra buffer =
    aligned_of (some (header_of h extra)) buffer - total_of (some (header_of h extra)) buffer

-- The packet that a header and its data become in the ring.
abbrev pub packet_of : Ring → PacketHeader → List ℕ → List ℕ → RingPacket
packet_of tx h extra buffer = record {
  head = encode_header h;
  body = extra ++ (buffer ++ replicate (padding_of h extra buffer) 0);
  index = le_bytes 8 (tx.write_index * 2 ^ 32);
}

-- The size of header, data and padding.
abbrev pub packet_size : List ℕ → List ℕ → ℕ
packet_size extra buffer = (16 + length extra + length buffer + 7) / 8 * 8

length-header_of :
    (h : PacketHeader) (extra : List ℕ) → length (header_of h extra) ≡ 16 + length extra
length-header_of h extra =
    omega (arith, length-append (encode_header h) extra, length-encode_header h)

pub packet_of-IsPacket :
    (tx : Ring) (h : PacketHeader) (extra buffer : List ℕ)
    → IsHeader h
    → get_packet_size h.total_length ≡ packet_size extra buffer
    → IsPacket (packet_of tx h extra buffer)
packet_of-IsPacket tx h extra buffer fits names =
    let d : decode_header (encode_header h) ≡ h =
      ap decode_header (sym (append-nil (encode_header h))) ∙ decode-encode_header h [] fits in
    let pad = padding_of h extra buffer in
    record {
      head_length = length-encode_header h;
      total_length = rw d (
          names
          ∙ omega (
            arith,
            length-header_of h extra,
            length-append extra (buffer ++ replicate pad 0),
            length-append buffer (replicate pad 0),
            length-replicate {A = ℕ} pad 0,
          ));
      index_length = length-le_bytes 8 (tx.write_index * 2 ^ 32);
      total_small = rw d fits.total_length_fits;
    }

stream-packet_of :
    (tx : Ring) (h : PacketHeader) (extra buffer : List ℕ)
    → stream (packet_of tx h extra buffer ∷ []) ≡ frame_of tx (some (header_of h extra)) buffer
stream-packet_of tx h extra buffer =
    let padding = replicate (padding_of h extra buffer) 0 in
    let index = le_bytes 8 (tx.write_index * 2 ^ 32) in
    rw append-nil (
      append_assoc (encode_header h) (extra ++ (buffer ++ padding)) index
      ∙ ap (◌++◌ (encode_header h)) (
          append_assoc extra (buffer ++ padding) index
          ∙ ap (◌++◌ extra) (append_assoc buffer padding index))
      ∙ sym (append_assoc (encode_header h) extra (buffer ++ (padding ++ index))))

module _ {size : ℕ} {tx : Ring} (v : IsValid size tx) (later : HostView) (h : PacketHeader)
    (extra buffer : List ℕ) (fits : IsHeader h)
    (names : get_packet_size h.total_length ≡ packet_size extra buffer)
    (no_wrap : length extra + length buffer + 23 < 2 ^ 32)
    (room : packet_size extra buffer + 8 < size - used tx size)
    (host : later.read_index ≡ tx.read_index) where
  -- On a valid ring with room for it and its index, a packet whose header fits its fields and
  -- names the packet's aligned size, written while the host does not read, succeeds: it stands
  -- behind the packets that were in the ring, and is a proper packet itself.
  pub write_raw_packet_streams :
      (ps : List RingPacket)
      → contents tx size ≡ stream ps
      → let (status, tx', signals) =
          write_raw_packet size tx later (some (header_of h extra)) buffer in
        (status ≡ success)
        × IsValid size tx'
        × (contents tx' size ≡ stream (ps ++ packet_of tx h extra buffer ∷ []))
        × IsPacket (packet_of tx h extra buffer)
  write_raw_packet_streams ps e =
      let l = length-header_of h extra in
      let read = v.read_in in
      let (st, valid, cs, sg) =
        write_raw_packet_appends v later (some (header_of h extra)) buffer (omega arith) 0
          (omega arith) (omega arith)
          (host ∙ sym (rw add-zero (mod-eq_of_lt {n = tx.read_index} {m = size} read))) in
      (
        st,
        valid,
        cs
            ∙ ap (λ k. k ++ frame_of tx (some (header_of h extra)) buffer) e
            ∙ ap (◌++◌ (stream ps)) (sym (stream-packet_of tx h extra buffer))
            ∙ sym (stream-append ps (packet_of tx h extra buffer ∷ [])),
        packet_of-IsPacket tx h extra buffer fits names,
      )

  -- Written into an empty ring that has room for it and its index, while the host does not read,
  -- and read back with its header apart into a buffer that is large enough, a packet whose header
  -- fits its fields and names its aligned size comes out as the header and the data that went in,
  -- the data padded with zeros. The ring is left empty.
  pub write-read_raw_packet :
      (buffer_length : ℕ)
      → contents tx size ≡ []
      → length (packet_of tx h extra buffer).body ≤ buffer_length
      → let (status, tx', signals) =
          write_raw_packet size tx later (some (header_of h extra)) buffer in
        let r = read_raw_packet size tx' (some 16) buffer_length in
        (r.status ≡ success)
        × (r.header ≡ encode_header h)
        × (r.buffer ≡ (packet_of tx h extra buffer).body)
        × (contents r.rx size ≡ [])
  write-read_raw_packet buffer_length e b =
      let p = packet_of tx h extra buffer in
      let (st, valid, cs, proper) = write_raw_packet_streams [] e in
      let tx' = (write_raw_packet size tx later (some (header_of h extra)) buffer).1 in
      let l = length-encode_header h in
      let whole = length-append (encode_header h) p.body in
      rw
        (read_raw_packet_lem tx' valid (some 16) p [] proper cs (omega arith) buffer_length
          (omega arith))
        (
          refl,
          take-append (encode_header h) p.body 16 (sym l),
          drop-append (encode_header h) p.body 16 (sym l),
          (read_leaves_rest tx' valid (some 16) p [] proper cs).1,
        )
