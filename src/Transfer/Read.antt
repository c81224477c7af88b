-- ===== src/Transfer/Read.antt =====
-- `readRawPacketGated` of MacHyperVSupport/VMBusDevice/HyperVVMBusDevicePrivate.cpp over a receive
-- ring that holds whole packets.
use native.Mathlib.Nat.{mod-eq_of_lt, add-zero}
use mac_hyper_vsupport.Common.{
  ℕ, ◌+◌, ◌-◌, ◌%◌, ◌^◌, ◌≤◌, ◌<◌, ◌≡◌, ◌≢◌, sym, ap, ◌∙◌, arith, List, [], ◌∷◌, ◌++◌, length, take,
  drop, Option, none, some, ne→==_false, ==_self, le→ltb_false, lt→ltb, length-append, append_assoc,
  take-append-drop, length-take, length-drop,
}
use mac_hyper_vsupport.Ring.{Ring, copy_from_ring}
use mac_hyper_vsupport.Ring.Circular.{step_step}
use mac_hyper_vsupport.Ring.Copy.{copy_from_ring_lem}
use mac_hyper_vsupport.Ring.Space.{IsValid, used, used-lt}
use mac_hyper_vsupport.Ring.Contents.{
  contents, length-contents, drop_bytes, drop_bytes-IsValid, contents-drop_bytes, contents_empty,
  contents_nil,
}
use mac_hyper_vsupport.Packet.{packet_header_size, get_packet_size, decode_header}
use mac_hyper_vsupport.Transfer.{
  success, not_ready, no_space, ReadResult, read_fails, data_length_of, copy_header_from_ring,
  peek_header, take_packet, read_raw_packet,
}

-- A packet as it stands in a ring: its header's bytes, the rest of it, and the index behind it.
pub record RingPacket : Type 0 where
  pub head : List ℕ
  pub body : List ℕ
  pub index : List ℕ

abbrev pub packet_bytes : RingPacket → List ℕ
packet_bytes p = p.head ++ p.body

-- The header has its size, and names the size of the whole, in sixteen bits.
pub record IsPacket (p : RingPacket) : Type 0 where
  pub head_length : length p.head ≡ packet_header_size
  pub total_length :
      get_packet_size (decode_header p.head).total_length ≡ packet_header_size + length p.body
  pub index_length : length p.index ≡ 8
  pub total_small : (decode_header p.head).total_length < 2 ^ 16

-- The packets that stand in a ring, the oldest first.
abbrev pub stream : List RingPacket → List ℕ
stream [] = []
stream (p ∷ ps) = packet_bytes p ++ (p.index ++ stream ps)

abbrev pub ArePackets : List RingPacket → Type 0
ArePackets [] = Unit {0}
ArePackets (p ∷ ps) = IsPacket p × ArePackets ps

module _ {size : ℕ} (rx : Ring) (v : IsValid size rx) where
  -- A copy of as many bytes as stand first in the queue gives those.
  copy_from_ring_front :
      (xs ys : List ℕ)
      → contents rx size ≡ xs ++ ys
      → copy_from_ring rx.buffer size rx.read_index (length xs) (length xs)
        ≡ (xs, (rx.read_index + length xs) % size)
  copy_from_ring_front xs ys e =
      let l : length (contents rx size) ≡ length xs + length ys =
        ap length e ∙ length-append xs ys in
      let u = used-lt v in
      let n : length xs ≤ size = omega (arith, length-contents rx size) in
      copy_from_ring_lem size v.small rx.buffer rx.read_index (length xs) v.read_in n
      ∙ ap (λ k. (k, (rx.read_index + length xs) % size)) (contents-drop_bytes rx v xs ys e).0

  -- The header at the read index is that of the first packet.
  pub peek_header_lem :
      (p : RingPacket) (rest : List ℕ)
      → IsPacket p
      → contents rx size ≡ packet_bytes p ++ rest
      → peek_header size rx ≡ decode_header p.head
  unfolding peek_header
  peek_header_lem p rest w e = rw (← w.head_length) (
      ap (λ k. decode_header k.0)
        (copy_from_ring_front p.head (p.body ++ rest) (e ∙ append_assoc p.head p.body rest)))

-- The bytes that go to `header`.
abbrev pub header_bytes : Option ℕ → ℕ
header_bytes none = 0
header_bytes (some n) = n

copy_header_lem :
    {size : ℕ} (rx : Ring)
    → IsValid size rx
    → (header_length : Option ℕ) (xs ys : List ℕ) → length xs ≡ header_bytes header_length
    → contents rx size ≡ xs ++ ys
    → copy_header_from_ring rx.buffer size rx.read_index header_length
      ≡ (xs, (rx.read_index + length xs) % size)
copy_header_lem {size} rx v none [] ys l e =
    ap (λ k. ([], k)) (sym (rw add-zero (mod-eq_of_lt {n = rx.read_index} {m = size} v.read_in)))
copy_header_lem rx v none (x ∷ xs) ys l e = absurd (omega arith)
copy_header_lem rx v (some n) xs ys l e = rw (← l) (copy_from_ring_front rx v xs ys e)

-- What a read of `n` header bytes out of the first packet leaves.
abbrev pub read_leaves : ℕ → Ring → Option ℕ → RingPacket → ReadResult
read_leaves size rx header_length p = record {
  status = success;
  header = take (header_bytes header_length) (packet_bytes p);
  buffer = drop (header_bytes header_length) (packet_bytes p);
  rx = drop_bytes rx size (length (packet_bytes p) + 8);
}

module _ {size : ℕ} (rx : Ring) (v : IsValid size rx) (header_length : Option ℕ) (p : RingPacket)
    (rest : List ℕ) (w : IsPacket p) (e : contents rx size ≡ packet_bytes p ++ (p.index ++ rest))
    (n_le : header_bytes header_length ≤ length (packet_bytes p)) where
  take_packet_lem :
      take_packet size rx header_length
        (length (drop (header_bytes header_length) (packet_bytes p)))
      ≡ read_leaves size rx header_length p
  unfolding take_packet
  take_packet_lem =
      let n = header_bytes header_length in
      let xs = take n (packet_bytes p) in
      let ys = drop n (packet_bytes p) in
      let tail = p.index ++ rest in
      let split : contents rx size ≡ xs ++ (ys ++ tail) =
        e
        ∙ ap (λ k. k ++ tail) (sym (take-append-drop n (packet_bytes p)))
        ∙ append_assoc xs ys tail in
      let lx : length xs ≡ n = omega (arith, length-take n (packet_bytes p)) in
      let rx₁ = drop_bytes rx size (length xs) in
      let v₁ = drop_bytes-IsValid rx v (length xs) in
      let c₁ = (contents-drop_bytes rx v xs (ys ++ tail) split).1 in
      let rx₂ = drop_bytes rx₁ size (length ys) in
      let v₂ = drop_bytes-IsValid rx₁ v₁ (length ys) in
      let c₂ = (contents-drop_bytes rx₁ v₁ ys tail c₁).1 in
      let end : ((((rx.read_index + length xs) % size + length ys) % size + length p.index) % size)
          ≡ (rx.read_index + (length (packet_bytes p) + length p.index)) % size =
        ap (λ k. (k + length p.index) % size) (step_step size rx.read_index (length xs) (length ys))
        ∙ step_step size rx.read_index (length xs + length ys) (length p.index)
        ∙ ap (λ k. (rx.read_index + k) % size)
            (omega (arith, length-take n (packet_bytes p), length-drop n (packet_bytes p))) in
      rw (copy_header_lem rx v header_length xs (ys ++ tail) lx split) (
        rw (copy_from_ring_front rx₁ v₁ ys tail c₁) (
          rw (← w.index_length) (
            rw (copy_from_ring_front rx₂ v₂ p.index rest c₂) (
              ap
                (λ k. record {
                  status = success;
                  header = xs;
                  buffer = ys;
                  rx = record rx { read_index = k };
                })
                end))))

  total_small : length (packet_bytes p) + 8 ≤ used rx size
  total_small = omega (
    arith,
    length-contents rx size,
    ap length e,
    length-append (packet_bytes p) (p.index ++ rest),
    length-append p.index rest,
    w.index_length,
  )

  occupied : rx.read_index ≢ rx.write_index
  occupied same =
      let t = total_small in
      let z = (contents_empty rx v.read_in (sym same)).0 in absurd (omega arith)

  data_length_lem :
      (o : Option ℕ)
      → header_bytes o ≤ length (packet_bytes p)
      → data_length_of (get_packet_size (decode_header p.head).total_length) o
        ≡ length (drop (header_bytes o) (packet_bytes p))
  data_length_lem none h =
      rw w.total_length (omega (arith, length-append p.head p.body, w.head_length))
  data_length_lem (some n) h =
      let t = total_small in
      let s = v.small in
      let u = used-lt v in
      rw w.total_length
        (omega (arith, length-append p.head p.body, w.head_length, length-drop n (packet_bytes p)))

  -- A read from a valid ring that starts with a whole packet, of no more header bytes than the
  -- packet has, into a buffer that the rest does not fit in fails for lack of space, and leaves
  -- the ring as it was.
  pub read_raw_packet_no_space :
      (buffer_length : ℕ)
      → buffer_length < length (packet_bytes p) - header_bytes header_length
      → read_raw_packet size rx header_length buffer_length ≡ read_fails no_space rx
  unfolding read_raw_packet
  read_raw_packet_no_space buffer_length h =
      let t = total_small in
      let d = data_length_lem header_length n_le in
      rw (
        ne→==_false _ _ occupied,
        peek_header_lem rx v p (p.index ++ rest) w e,
        d,
        lt→ltb buffer_length (length (drop (header_bytes header_length) (packet_bytes p)))
            (omega (arith, length-drop (header_bytes header_length) (packet_bytes p))),
      )

  -- A read from a valid ring that starts with a whole packet, of no more header bytes than the
  -- packet has and into a buffer that the rest fits in, gives the packet's first bytes as the
  -- header and the rest as the data, and moves the read index behind the packet and its index.
  pub read_raw_packet_lem :
      (buffer_length : ℕ)
      → length (packet_bytes p) - header_bytes header_length ≤ buffer_length
      → read_raw_packet size rx header_length buffer_length ≡ read_leaves size rx header_length p
  unfolding read_raw_packet
  read_raw_packet_lem buffer_length h =
      let t = total_small in
      let d = data_length_lem header_length n_le in
      rw
        (
          ne→==_false _ _ occupied,
          peek_header_lem rx v p (p.index ++ rest) w e,
          d,
          le→ltb_false buffer_length (length (drop (header_bytes header_length) (packet_bytes p)))
              (omega (arith, length-drop (header_bytes header_length) (packet_bytes p))),
        )
        take_packet_lem

-- Behind the first packet stands the rest of the queue.
pub read_leaves_rest :
    {size : ℕ} (rx : Ring)
    → IsValid size rx
    → (header_length : Option ℕ) (p : RingPacket) (rest : List ℕ) → IsPacket p
    → contents rx size ≡ packet_bytes p ++ (p.index ++ rest)
    → IsValid size (read_leaves size rx header_length p).rx
      × (contents (read_leaves size rx header_length p).rx size ≡ rest)
read_leaves_rest {size} rx v header_length p rest w e =
    let l : length (packet_bytes p ++ p.index) ≡ length (packet_bytes p) + 8 =
      omega (arith, length-append (packet_bytes p) p.index, w.index_length) in
    (
      drop_bytes-IsValid rx v (length (packet_bytes p) + 8),
      ap (λ k. contents (drop_bytes rx size k) size) (sym l)
          ∙ (contents-drop_bytes rx v (packet_bytes p ++ p.index) rest
              (e ∙ sym (append_assoc (packet_bytes p) p.index rest))).1,
    )

-- A read from a valid ring without contents answers that nothing is ready, and leaves the ring as
-- it was.
pub read_raw_packet_empty :
    {size : ℕ} (rx : Ring)
    → IsValid size rx
    → (header_length : Option ℕ) (buffer_length : ℕ) → contents rx size ≡ []
    → read_raw_packet size rx header_length buffer_length ≡ read_fails not_ready rx
unfolding read_raw_packet
read_raw_packet_empty rx v header_length buffer_length e =
    rw (contents_nil rx v e, ==_self rx.write_index)
