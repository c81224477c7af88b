-- ===== src/Nub/Pages.antt =====
-- The packets with page buffers: `writeGPADirectSinglePagePacket` of
-- MacHyperVSupport/VMBusDevice/HyperVVMBusDevice.cpp.
use mac_hyper_vsupport.Common.{
  zero, suc, refl, ap₂, take, drop, of_le_bytes, of_le_bytes-le_bytes, subst, if◌then◌else◌, ◌/◌,
  to_u16, add32, [], ℕ, ◌+◌, ◌-◌, ◌*◌, ◌%◌, ◌^◌, ◌≤◌, ◌<◌, ◌≡◌, ◌↔◌, arith, List, ◌∷◌, ◌++◌, length,
  Bool, true, false, Option, some, le_bytes, le→ltb_false,
}
use mac_hyper_vsupport.Ring.{Ring}
use mac_hyper_vsupport.Ring.Space.{IsValid, used}
use mac_hyper_vsupport.Ring.Contents.{contents}
use mac_hyper_vsupport.Packet.{get_packet_size, set_packet_size, packet_align, encode_header}
use mac_hyper_vsupport.Packet.Bytes.{IsHeader}
use mac_hyper_vsupport.Transfer.{HostView}
use mac_hyper_vsupport.Transfer.Read.{RingPacket, stream}
use mac_hyper_vsupport.Transfer.Loopback.{packet_of, packet_size}
use mac_hyper_vsupport.Nub.{Nub}
use mac_hyper_vsupport.Nub.Transactions.{get_next_trans_id}
use mac_hyper_vsupport.Nub.Send.{
  SinglePageBuffer, encode_pages, page_packet_length, page_ranges, gpa_direct_header,
  write_gpa_direct_single_page_packet,
}
use mac_hyper_vsupport.Nub.Delivery.{Delivered, transact_streams}

length-encode_pages : (ps : List SinglePageBuffer) → length (encode_pages ps) ≡ length ps * 16
unfolding le_bytes
length-encode_pages [] = refl
length-encode_pages (p ∷ ps) = omega (arith, length-encode_pages ps)

length-page_ranges : (ps : List SinglePageBuffer) → length (page_ranges ps) ≡ 8 + length ps * 16
unfolding le_bytes
length-page_ranges ps = omega (arith, length-encode_pages ps)

-- With up to 32 page buffers and less than 2 ^ 18 bytes of data the header names the aligned size
-- of the packet exactly if the data is a multiple of 8 bytes long.
pub gpa_direct_header_size :
    (count id : ℕ) (response_required : Bool) (buffer : List ℕ)
    → count ≤ 32
    → length buffer < 2 ^ 18
    → (get_packet_size
          (gpa_direct_header (page_packet_length count) id response_required buffer).total_length
        ≡ packet_align (page_packet_length count + length buffer))
      ↔ (length buffer % 8 ≡ 0)
unfolding gpa_direct_header
gpa_direct_header_size count id response_required buffer few small =
    (λ e. omega arith, λ e. omega arith)

gpa_direct_header-IsHeader :
    (count id : ℕ) (response_required : Bool) (buffer : List ℕ)
    → id < 2 ^ 64
    → IsHeader (gpa_direct_header (page_packet_length count) id response_required buffer)
unfolding gpa_direct_header
gpa_direct_header-IsHeader count id true buffer h = omega arith
gpa_direct_header-IsHeader count id false buffer h = omega arith

-- The ranges as they stand in the structure: `length`, `offset` and `pfn` of each.
read_pages : ℕ → List ℕ → List SinglePageBuffer
read_pages zero bytes = []
read_pages (suc n) bytes =
    record {
      length = of_le_bytes (take 4 bytes);
      offset = of_le_bytes (take 4 (drop 4 bytes));
      pfn = of_le_bytes (take 8 (drop 8 bytes));
    }
    ∷ read_pages n (drop 16 bytes)

-- The bytes behind the packet header are a reserved word, the number of ranges, and the ranges.
unfoldable pub HoldsRanges : List ℕ → List SinglePageBuffer → Type 0
unfolding read_pages
HoldsRanges bytes pages =
    (length bytes ≡ 8 + length pages * 16)
    × (of_le_bytes (take 4 bytes) ≡ 0)
    × (of_le_bytes (take 4 (drop 4 bytes)) ≡ length pages)
    × (read_pages (length pages) (drop 8 bytes) ≡ pages)

-- Each field fits its width.
abbrev pub AreFitting : List SinglePageBuffer → Type 0
AreFitting [] = Unit
AreFitting (p ∷ ps) = (p.length < 2 ^ 32) × (p.offset < 2 ^ 32) × (p.pfn < 2 ^ 64) × AreFitting ps

read-encode_pages :
    (pages : List SinglePageBuffer)
    → AreFitting pages
    → read_pages (length pages) (encode_pages pages) ≡ pages
unfolding read_pages le_bytes of_le_bytes
read-encode_pages [] h i = []
read-encode_pages (p ∷ ps) (a, b, c, h) i =
    record {
      length = of_le_bytes-le_bytes 4 p.length a i;
      offset = of_le_bytes-le_bytes 4 p.offset b i;
      pfn = of_le_bytes-le_bytes 8 p.pfn c i;
    }
    ∷ read-encode_pages ps h i

page_ranges-HoldsRanges :
    (pages : List SinglePageBuffer)
    → length pages ≤ 32
    → AreFitting pages
    → HoldsRanges (page_ranges pages) pages
unfolding HoldsRanges le_bytes of_le_bytes read_pages
page_ranges-HoldsRanges pages few fits = (
  length-page_ranges pages,
  refl,
  of_le_bytes-le_bytes 4 (length pages) (omega arith),
  read-encode_pages pages fits,
)

-- The header, by its fields.
gpa_direct_header_lem :
    (count id : ℕ) (response_required : Bool) (buffer : List ℕ)
    → count ≤ 32
    → length buffer < 2 ^ 18
    → gpa_direct_header (page_packet_length count) id response_required buffer ≡ record {
      packet_type = 9;
      header_length = 3 + 2 * count;
      total_length = (24 + count * 16 + length buffer) / 8;
      flags = if response_required then 1 else 0;
      transaction_id = id;
    }
unfolding gpa_direct_header
gpa_direct_header_lem count id response_required buffer few small =
    let words : to_u16 (set_packet_size (page_packet_length count)) ≡ 3 + 2 * count = omega arith in
    let total : to_u16 (set_packet_size (add32 (page_packet_length count) (length buffer)))
        ≡ (24 + count * 16 + length buffer) / 8 =
      omega arith in
    ap₂
      (λ j k. record {
        packet_type = 9;
        header_length = j;
        total_length = k;
        flags = if response_required then 1 else 0;
        transaction_id = id;
      })
      words total

-- The packet is delivered under the header of `gpa_direct_header`, with `page_ranges`.
write_gpa_direct_single_page_packet_streams :
    (n : Nub) {tx : Ring}
    → n.tx_buffer ≡ some tx
    → IsValid n.tx_buffer_size tx
    → (later : HostView) → later.read_index ≡ tx.read_index
    → (response : Option ℕ) (response_required : Bool) (buffer : List ℕ)
      (pages : List SinglePageBuffer) (ps : List RingPacket)
    → n.trans_id < 2 ^ 64
    → length pages ≤ 32
    → length buffer < 2 ^ 18
    → length buffer % 8 ≡ 0
    → packet_size (page_ranges pages) buffer + 8 < n.tx_buffer_size - used tx n.tx_buffer_size
    → contents tx n.tx_buffer_size ≡ stream ps
    → Delivered
        (get_next_trans_id n).1
        ps
        (packet_of tx
          (gpa_direct_header
            (page_packet_length (length pages))
            n.trans_id
            response_required
            buffer)
          (page_ranges pages)
          buffer)
        n.trans_id
        response
        (write_gpa_direct_single_page_packet n later response_required buffer pages response)
unfolding write_gpa_direct_single_page_packet get_next_trans_id
write_gpa_direct_single_page_packet_streams n {tx} open_ring v later host response response_required
      buffer pages ps id_fits few small whole room e =
    let h =
      gpa_direct_header (page_packet_length (length pages)) n.trans_id response_required buffer in
    let l = length-page_ranges pages in
    let named =
      (gpa_direct_header_size (length pages) n.trans_id response_required buffer few small).1
        whole in
    rw (le→ltb_false 32 (length pages) few) (
      transact_streams (get_next_trans_id n).1 open_ring v later host n.trans_id response h
        (page_ranges pages) buffer (encode_header h ++ page_ranges pages) ps refl
        (gpa_direct_header-IsHeader (length pages) n.trans_id response_required buffer id_fits)
        (omega arith) (omega arith) room e)

-- On an open nub whose transmit ring is valid, holds packets and has room for the packet and its
-- index, and while the host does not read, a packet with up to 32 page buffers whose fields fit
-- and data of a multiple of 8 bytes, less than 2 ^ 18, is delivered. It stands behind the packets
-- that were there, under a header with type 9, the next transaction number and its lengths in
-- words; behind the header stand a reserved word, the number of ranges, and bytes that read back
-- as the page buffers in order. The thread sleeps on the number if it wants an answer and returns
-- success if not.
pub write_gpa_direct_single_page_packet-Delivered :
    (n : Nub) {tx : Ring}
    → n.tx_buffer ≡ some tx
    → IsValid n.tx_buffer_size tx
    → (later : HostView) → later.read_index ≡ tx.read_index
    → (response : Option ℕ) (response_required : Bool) (buffer : List ℕ)
      (pages : List SinglePageBuffer) (ps : List RingPacket)
    → n.trans_id < 2 ^ 64
    → length pages ≤ 32
    → AreFitting pages
    → length buffer < 2 ^ 18
    → length buffer % 8 ≡ 0
    → 24 + length pages * 16 + length buffer + 8 < n.tx_buffer_size - used tx n.tx_buffer_size
    → contents tx n.tx_buffer_size ≡ stream ps
    → (bytes : List ℕ) × (HoldsRanges bytes pages
        × Delivered
            (get_next_trans_id n).1
            ps
            (packet_of tx
              (record {
                packet_type = 9;
                header_length = 3 + 2 * length pages;
                total_length = (24 + length pages * 16 + length buffer) / 8;
                flags = if response_required then 1 else 0;
                transaction_id = n.trans_id;
              })
              bytes
              buffer)
            n.trans_id
            response
            (write_gpa_direct_single_page_packet n later response_required buffer pages response))
write_gpa_direct_single_page_packet-Delivered n {tx} open_ring v later host response
      response_required buffer pages ps id_fits few fits small whole room e =
    let l = length-page_ranges pages in
    (
      page_ranges pages,
      (
        page_ranges-HoldsRanges pages few fits,
        subst
            (λ h.
              Delivered (get_next_trans_id n).1 ps (packet_of tx h (page_ranges pages) buffer)
                n.trans_id response
                (write_gpa_direct_single_page_packet n later response_required buffer pages
                  response))
            (gpa_direct_header_lem (length pages) n.trans_id response_required buffer few small)
            (write_gpa_direct_single_page_packet_streams n open_ring v later host response
              response_required buffer pages ps id_fits few small whole (omega (arith, l)) e),
      ),
    )
