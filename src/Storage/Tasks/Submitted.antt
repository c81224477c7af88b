-- ===== src/Storage/Tasks/Submitted.antt =====
-- What becomes of a data transfer to LUN 0 in `ProcessParallelTask`
-- (MacHyperVSupport/Storage/HyperVStorage.cpp).
use mathlib.Core.Bool.{false≢true}
use mac_hyper_vsupport.Transfer.{IoReturn}
use mac_hyper_vsupport.Network.Buffers.{is_success}
use mac_hyper_vsupport.Storage.{Storage}
use mac_hyper_vsupport.Storage.Tasks.{
  ScsiTask, Direction, no_data_transfer, from_initiator_to_target, from_target_to_initiator,
  bad_direction, Segment, DmaAnswers, TaskResult, segment_pfns, prepare_data_transfer,
  submit_prepared, PrepareResult, not_prepared, panicked, prepared, direction_flags,
  process_parallel_task, report_hba_specific_task_data_size, in_process, delivery_failure,
  task_panicked,
}
use mac_hyper_vsupport.Common.{
  ℕ, suc, ◌+◌, ◌-◌, ◌*◌, ◌/◌, ◌^◌, ◌≤◌, ◌<◌, ◌≡◌, refl, sym, ◌∙◌, arith, List, [], ◌∷◌, map, length,
  Bool, true, false, ◌&&◌, not, ◌==◌, ltb, none, some, ◌⊎◌, inl, inr, Bool-cases, to_u8, ltb→lt,
  ltb_false→le,
}

-- A segment that is neither the first nor the last is a whole page, or empty.
abbrev IsWhole : ℕ → ℕ → Segment → Type 0
IsWhole i count seg =
    (i ≡ 0) ⊎ ((suc i ≡ count) ⊎ ((seg.segment_length ≡ 4096) ⊎ (seg.segment_length ≡ 0)))

unfoldable pub HasWholePages : ℕ → ℕ → List Segment → Type 0
HasWholePages i count [] = Unit
HasWholePages i count (seg ∷ segs) = IsWhole i count seg × HasWholePages (suc i) count segs

whole_of :
    (i count len : ℕ)
    → (not (i == 0) && not (suc i == count) && not (len == 4096) && not (len == 0)) ≡ false
    → (i ≡ 0) ⊎ ((suc i ≡ count) ⊎ ((len ≡ 4096) ⊎ (len ≡ 0)))
whole_of i count len e = ground arith

guard_of :
    (i count len : ℕ)
    → (i ≡ 0) ⊎ ((suc i ≡ count) ⊎ ((len ≡ 4096) ⊎ (len ≡ 0)))
    → (not (i == 0) && not (suc i == count) && not (len == 4096) && not (len == 0)) ≡ false
guard_of i count len (inl e) = ground arith
guard_of i count len (inr (inl e)) = ground arith
guard_of i count len (inr (inr (inl e))) = ground arith
guard_of i count len (inr (inr (inr e))) = ground arith

IsWhole-cases :
    (i count : ℕ) (seg : Segment)
    → let len = seg.segment_length in
      let guard = not (i == 0) && not (suc i == count) && not (len == 4096) && not (len == 0) in
      ((guard ≡ false) × IsWhole i count seg) ⊎ ((guard ≡ true) × ((IsWhole i count seg) → ⊥))
IsWhole-cases i count seg =
    let len = seg.segment_length in
    elim (Bool-cases
      (not (i == 0) && not (suc i == count) && not (len == 4096) && not (len == 0))) [
        | inr e ↦ inl (e, whole_of i count len e)
        | inl e ↦ inr (e, (λ h. absurd (false≢true (sym (guard_of i count len h) ∙ e))))
      ]

-- The page numbers of the segments, or a panic.
segment_pfns-cases :
    (i count : ℕ) (segs : List Segment)
    → ((segment_pfns i count segs ≡ some (map (λ seg. seg.iovm_address / 4096) segs))
        × HasWholePages i count segs)
      ⊎ ((segment_pfns i count segs ≡ none) × (HasWholePages i count segs → ⊥))
unfolding segment_pfns HasWholePages
segment_pfns-cases i count [] = inl (refl, tt)
segment_pfns-cases i count (seg ∷ segs) = elim (IsWhole-cases i count seg) [
  | inr (e, bad) ↦ inr (rw e refl, (λ h. bad h.0))
  | inl (e, ok) ↦ elim (segment_pfns-cases (suc i) count segs) [
    | inl (r, h) ↦ inl (rw (e, r) refl, (ok, h))
    | inr (r, bad) ↦ inr (rw (e, r) refl, (λ h. bad h.1))
  ]
]

-- `dataIn` and the SRB flags of a data transfer: writes are type 0, reads type 1.
abbrev pub Transfers : Direction → ℕ → ℕ → Type 0
Transfers from_initiator_to_target type flags = (type ≡ 0) × (flags ≡ 0x88)
Transfers from_target_to_initiator type flags = (type ≡ 1) × (flags ≡ 0x48)
Transfers _ type flags = ⊥

-- I/O Kit can prepare the transfer and give its segments.
abbrev pub IsMapped : ScsiTask → DmaAnswers → Type 0
IsMapped task dma =
    (task.requested_data_transfer_count < 2 ^ 32)
    × (task.has_hba_data ≡ true)
    × (is_success dma.prepare_status ≡ true)
    × (is_success dma.segments_status ≡ true)

abbrev pub IsUnmapped : ScsiTask → DmaAnswers → Type 0
IsUnmapped task dma =
    (2 ^ 32 ≤ task.requested_data_transfer_count)
    ⊎ ((task.has_hba_data ≡ false)
        ⊎ ((is_success dma.prepare_status ≡ false) ⊎ (is_success dma.segments_status ≡ false)))

-- The four ends of a task.
pub data Submission (s : Storage) (task : ScsiTask) (dma : DmaAnswers) (write : IoReturn)
    (type flags : ℕ) : TaskResult → Type 0 where
  submitted :
      IsMapped task dma
      → HasWholePages 0 (length dma.segments) dma.segments
      → is_success write ≡ true
      → Submission s task dma write type flags (
          in_process
            (record {
              request_target_id = s.target_id;
              request_lun = to_u8 task.target_identifier;
              request_srb_flags = flags;
              request_length = 52 - s.protocol.packet_size_delta;
              request_sense_info_length = to_u8 s.protocol.sense_buffer_size;
              request_data_in = type;
              request_cdb = task.command_descriptor_block;
              request_data_transfer_length = task.requested_data_transfer_count;
            })
            (some (record {
              range_length = task.requested_data_transfer_count;
              range_offset = 0;
              pfns = map (λ seg. seg.iovm_address / 4096) dma.segments;
              page_packet_length = 32 + 8 * length dma.segments;
            })))
  left_prepared :
      IsMapped task dma
      → HasWholePages 0 (length dma.segments) dma.segments
      → is_success write ≡ false
      → Submission s task dma write type flags (delivery_failure true)
  not_mapped : IsUnmapped task dma → Submission s task dma write type flags (delivery_failure false)
  partial_page :
      IsMapped task dma
      → (HasWholePages 0 (length dma.segments) dma.segments → ⊥)
      → Submission s task dma write type flags task_panicked

-- What `prepareDataTransfer` returns, and whether it leaves the `IODMACommand` prepared.
data Preparation (task : ScsiTask) (dma : DmaAnswers) : PrepareResult × Bool → Type 0 where
  fails :
      (status : IoReturn) → IsUnmapped task dma → Preparation task dma (not_prepared status, false)
  panics :
      IsMapped task dma
      → (HasWholePages 0 (length dma.segments) dma.segments → ⊥)
      → Preparation task dma (panicked, true)
  succeeds :
      IsMapped task dma
      → HasWholePages 0 (length dma.segments) dma.segments
      → Preparation task dma (
        prepared (record {
          range_length = task.requested_data_transfer_count;
          range_offset = 0;
          pfns = map (λ seg. seg.iovm_address / 4096) dma.segments;
          page_packet_length = 32 + 8 * length dma.segments;
        }),
        true,
      )

prepare_data_transfer-Preparation :
    (task : ScsiTask) (dma : DmaAnswers) → Preparation task dma (prepare_data_transfer task dma)
unfolding prepare_data_transfer
prepare_data_transfer-Preparation task dma =
    elim (Bool-cases (ltb 0xFFFFFFFF task.requested_data_transfer_count)) [
      | inl a ↦ rw a (fails _ (inl (omega (arith, ltb→lt _ _ a))))
      | inr a ↦ elim (Bool-cases task.has_hba_data) [
        | inr b ↦ simp (a, b) (fails _ (inr (inl b)))
        | inl b ↦ elim (Bool-cases (is_success dma.prepare_status)) [
          | inr c ↦ simp (a, b, c) (fails _ (inr (inr (inl c))))
          | inl c ↦ elim (Bool-cases (is_success dma.segments_status)) [
            | inr d ↦ simp (a, b, c, d) (fails _ (inr (inr (inr d))))
            | inl d ↦
                let mapped : IsMapped task dma = (omega (arith, ltb_false→le _ _ a), b, c, d) in
                elim (segment_pfns-cases 0 (length dma.segments) dma.segments) [
                  | inl (r, whole) ↦ simp (a, b, c, d, r) (succeeds mapped whole)
                  | inr (r, bad) ↦ simp (a, b, c, d, r) (panics mapped bad)
                ]
          ]
        ]
      ]
    ]

prepared-Submission :
    (s : Storage) (task : ScsiTask) (dma : DmaAnswers) (write : IoReturn) (type flags : ℕ)
    (r : PrepareResult × Bool)
    → Preparation task dma r
    → Submission s task dma write type flags (submit_prepared s task (type, flags) r write)
prepared-Submission s task dma write type flags r (fails status h) = not_mapped h
prepared-Submission s task dma write type flags r (panics mapped bad) = partial_page mapped bad
prepared-Submission s task dma write type flags r (succeeds mapped whole) =
    elim (Bool-cases (is_success write)) [
      | inl e ↦ rw e (submitted mapped whole e)
      | inr e ↦ rw e (left_prepared mapped whole e)
    ]

Transfers-direction_flags :
    (d : Direction) (type flags : ℕ)
    → Transfers d type flags
    → (direction_flags d ≡ some (type, flags)) × ((type == 2) ≡ false)
unfolding direction_flags
Transfers-direction_flags no_data_transfer type flags h = absurd h
Transfers-direction_flags from_initiator_to_target type flags (a, b) = rw (a, b) (refl, refl)
Transfers-direction_flags from_target_to_initiator type flags (a, b) = rw (a, b) (refl, refl)
Transfers-direction_flags bad_direction type flags h = absurd h

-- A read or write for LUN 0, in no more segments than the controller takes, ends in one of four
-- ways. If I/O Kit can map it, with all segments but the first and the last whole pages or empty,
-- it is submitted under its direction's type and flags, with its length and the page of each
-- segment in order, if the write succeeds; if the write fails, so does the task, and its
-- IODMACommand is left prepared. It panics for a segment that is a part of a page, and fails
-- without anything prepared if it cannot be mapped. The page packet fits the room that was asked
-- for.
pub process_parallel_task-Submission :
    (s : Storage) (task : ScsiTask) (dma : DmaAnswers) (write : IoReturn) (type flags : ℕ)
    → task.logical_unit_number ≡ 0
    → Transfers task.direction type flags
    → length dma.segments ≤ s.max_page_segments
    → Submission s task dma write type flags (process_parallel_task s (some task) dma write)
      × (32 + 8 * length dma.segments ≤ report_hba_specific_task_data_size s)
unfolding process_parallel_task report_hba_specific_task_data_size
process_parallel_task-Submission s task dma write type flags unit direction few =
    let (named, moves) = Transfers-direction_flags task.direction type flags direction in
    (
      simp (unit, named, moves)
          (prepared-Submission s task dma write type flags (prepare_data_transfer task dma)
            (prepare_data_transfer-Preparation task dma)),
      omega (arith, few),
    )
