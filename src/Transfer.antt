-- ===== src/Transfer.antt =====
-- The raw packet transfers of a VMBus device nub over its rings: the gated functions of
-- MacHyperVSupport/VMBusDevice/HyperVVMBusDevicePrivate.cpp.
pub mod Write
pub mod Read
pub mod Fifo
pub mod Loopback
use mac_hyper_vsupport.Common.{
  ℕ, ◌+◌, ◌*◌, ◌%◌, ◌^◌, List, [], ◌++◌, length, replicate, Bool, true, false, ◌&&◌, leb, ltb, ◌==◌,
  if◌then◌else◌, Option, none, some, add32, sub32, le_bytes,
}
use mac_hyper_vsupport.Ring.{
  Ring, Memory, copy_from_ring, copy_to_ring, zero_to_ring, available_space,
}
use mac_hyper_vsupport.Packet.{
  PacketHeader, packet_header_size, get_packet_size, packet_align, decode_header,
}

-- The `IOReturn` codes that the driver returns.
pub data IoReturn : Type 0 where
  success : IoReturn
  bad_argument : IoReturn
  exclusive_access : IoReturn
  io_error : IoReturn
  message_too_large : IoReturn
  no_memory : IoReturn
  no_resources : IoReturn
  no_space : IoReturn
  not_aligned : IoReturn
  not_attached : IoReturn
  not_found : IoReturn
  not_ready : IoReturn
  still_open : IoReturn
  time_out : IoReturn
  unsupported : IoReturn

-- The fields of the transmit ring that the host changes, as they stand when they are read again
-- behind the barrier.
pub record HostView : Type 0 where
  pub read_index : ℕ
  pub interrupt_mask : ℕ

abbrev pub bytes_of : Option (List ℕ) → List ℕ
bytes_of none = []
bytes_of (some bs) = bs

-- The header is copied only if there is one.
abbrev pub copy_header_to_ring : Memory → ℕ → ℕ → Option (List ℕ) → Memory × ℕ
copy_header_to_ring m size w none = (m, w)
copy_header_to_ring m size w (some bs) = copy_to_ring m size w bs

-- Header, data, padding and index, copied one behind the other.
unfoldable pub put_packet : Memory → ℕ → ℕ → Option (List ℕ) → List ℕ → ℕ → List ℕ → Memory × ℕ
put_packet m size w header buffer padding shifted =
    let (m₁, w₁) = copy_header_to_ring m size w header in
    let (m₂, w₂) = copy_to_ring m₁ size w₁ buffer in
    let (m₃, w₃) = zero_to_ring m₂ size w₂ padding in copy_to_ring m₃ size w₃ shifted

-- One more signal to the host is counted in the ring.
abbrev pub count_interrupt : Ring → Ring
count_interrupt r = record r {
  guest_to_host_interrupt_count = (r.guest_to_host_interrupt_count + 1) % 2 ^ 64;
}

-- The end of `writeRawPacketGated`: the new write index, and a signal if the host asks for one and
-- the ring was empty.
unfoldable pub publish : Ring → HostView → ℕ → Memory × ℕ → IoReturn × Ring × Bool
publish tx later write_index_old (m, w) =
    let tx' = record tx {
      write_index = w;
      read_index = later.read_index;
      interrupt_mask = later.interrupt_mask;
      buffer = m;
    } in
    if later.interrupt_mask == 0 && write_index_old == later.read_index
    then (success, count_interrupt tx', true)
    else (success, tx', false)

-- `writeRawPacketGated`: the status, the ring, and whether `signalVMBusChannel` is called.
unfoldable pub write_raw_packet :
    ℕ → Ring → HostView → Option (List ℕ) → List ℕ → IoReturn × Ring × Bool
write_raw_packet size tx later header buffer =
    let total = add32 (length (bytes_of header)) (length buffer) in
    let aligned = packet_align total in
    let (read_bytes, write_bytes) = available_space tx size in
    if leb write_bytes aligned
    then (no_resources, count_interrupt tx, true)
    else publish tx later tx.write_index (
        put_packet tx.buffer size tx.write_index header buffer (sub32 aligned total)
          (le_bytes 8 (tx.write_index * 2 ^ 32)))

-- The header that stands at the read index.
unfoldable pub peek_header : ℕ → Ring → PacketHeader
peek_header size rx =
    decode_header
      (copy_from_ring rx.buffer size rx.read_index packet_header_size packet_header_size).0

-- `nextPacketAvailableGated`: the packet's type, header size and total size.
unfoldable pub next_packet_available : ℕ → Ring → IoReturn × Option (ℕ × ℕ × ℕ)
next_packet_available size rx =
    if rx.read_index == rx.write_index
    then (not_found, none)
    else let h = peek_header size rx in
      (
        success,
        some (h.packet_type, get_packet_size h.header_length, get_packet_size h.total_length),
      )

-- What `readRawPacketGated` leaves: its status, the bytes in `header` and in `buffer`, the ring.
pub record ReadResult : Type 0 where
  pub status : IoReturn
  pub header : List ℕ
  pub buffer : List ℕ
  pub rx : Ring

abbrev pub read_fails : IoReturn → Ring → ReadResult
read_fails e rx = record { status = e; header = []; buffer = []; rx = rx }

-- The packet without the part that goes to `header`.
abbrev pub data_length_of : ℕ → Option ℕ → ℕ
data_length_of total none = total
data_length_of total (some n) = sub32 total n

abbrev pub copy_header_from_ring : Memory → ℕ → ℕ → Option ℕ → List ℕ × ℕ
copy_header_from_ring m size r none = ([], r)
copy_header_from_ring m size r (some n) = copy_from_ring m size r n n

-- The copies of `readRawPacketGated`, and the new read index.
unfoldable pub take_packet : ℕ → Ring → Option ℕ → ℕ → ReadResult
take_packet size rx header_length data_length =
    let (header, r₁) = copy_header_from_ring rx.buffer size rx.read_index header_length in
    let (buffer, r₂) = copy_from_ring rx.buffer size r₁ data_length data_length in
    let (shifted, r₃) = copy_from_ring rx.buffer size r₂ 8 8 in
    record {
      status = success;
      header = header;
      buffer = buffer;
      rx = record rx { read_index = r₃ };
    }

-- `readRawPacketGated`: `header_length` is `none` where no header is asked for.
unfoldable pub read_raw_packet : ℕ → Ring → Option ℕ → ℕ → ReadResult
read_raw_packet size rx header_length buffer_length =
    if rx.read_index == rx.write_index
    then read_fails not_ready rx
    else let total = get_packet_size (peek_header size rx).total_length in
      let data_length = data_length_of total header_length in
      if ltb buffer_length data_length
      then read_fails no_space rx
      else take_packet size rx header_length data_length
