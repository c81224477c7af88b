-- ===== src/Ring.antt =====
-- The VMBus ring buffer: `VMBusRingBuffer` of MacHyperVSupport/VMBus/VMBus.hpp and the copies in
-- and out of it in MacHyperVSupport/VMBusDevice/HyperVVMBusDevicePrivate.cpp.
pub mod Circular
pub mod Copy
pub mod Space
pub mod Contents
use mac_hyper_vsupport.Common.{
  ℕ, zero, suc, ◌+◌, ◌-◌, ◌%◌, List, [], ◌∷◌, ◌++◌, length, take, drop, ltb, leb, ◌==◌,
  if◌then◌else◌, add32, sub32,
}

-- The bytes behind `buffer[]`, by offset. Any offset can be written, so that a copy past the end
-- of the ring would show.
abbrev pub Memory : Type 0
Memory = ℕ → ℕ

unfoldable pub poke : Memory → ℕ → ℕ → Memory
poke m i v k = if k == i then v else m k

-- `memcpy(&buffer[i], data, length)` and `memcpy(data, &buffer[i], n)`.
unfoldable pub store : Memory → ℕ → List ℕ → Memory
store m i [] = m
store m i (x ∷ xs) = store (poke m i x) (i + 1) xs

unfoldable pub load : Memory → ℕ → ℕ → List ℕ
load m i zero = []
load m i (suc n) = m i ∷ load m (i + 1) n

-- `memset(&buffer[i], 0, n)`.
unfoldable pub clear : Memory → ℕ → ℕ → Memory
clear m i zero = m
clear m i (suc n) = clear (poke m i 0) (i + 1) n

-- `VMBusRingBuffer`, less the fields that the driver neither reads nor writes.
pub record Ring : Type 0 where
  pub write_index : ℕ
  pub read_index : ℕ
  pub interrupt_mask : ℕ
  pub guest_to_host_interrupt_count : ℕ
  pub buffer : Memory

-- `copyPacketDataFromRingBuffer`: the bytes copied to `data`, and the index after them.
unfoldable pub copy_from_ring : Memory → ℕ → ℕ → ℕ → ℕ → List ℕ × ℕ
copy_from_ring m size read_index read_length data_length =
    let room = sub32 size read_index in
    (
      if ltb room data_length
          then load m read_index room ++ load m 0 (sub32 data_length room)
          else load m read_index data_length,
      add32 read_index read_length % size,
    )

-- `seekPacketDataFromRingBuffer`.
unfoldable pub seek_in_ring : ℕ → ℕ → ℕ → ℕ
seek_in_ring size read_index read_length = add32 read_index read_length % size

-- `copyPacketDataToRingBuffer`.
unfoldable pub copy_to_ring : Memory → ℕ → ℕ → List ℕ → Memory × ℕ
copy_to_ring m size write_index bytes =
    let room = sub32 size write_index in
    (
      if ltb room (length bytes)
          then store (store m write_index (take room bytes)) 0 (drop room bytes)
          else store m write_index bytes,
      add32 write_index (length bytes) % size,
    )

-- `zeroPacketDataToRingBuffer`.
unfoldable pub zero_to_ring : Memory → ℕ → ℕ → ℕ → Memory × ℕ
zero_to_ring m size write_index n =
    let room = sub32 size write_index in
    (
      if ltb room n
          then clear (clear m write_index room) 0 (sub32 n room)
          else clear m write_index n,
      add32 write_index n % size,
    )

-- `getAvailableRingSpace`: the bytes that can be read and that can be written.
unfoldable pub available_space : Ring → ℕ → ℕ × ℕ
available_space r size =
    let write_bytes =
      if leb r.read_index r.write_index
      then sub32 size (sub32 r.write_index r.read_index)
      else sub32 r.read_index r.write_index in
    (sub32 size write_bytes, write_bytes)
