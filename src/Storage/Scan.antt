-- ===== src/Storage/Scan.antt =====
-- Looking for disks: `checkSCSIDiskPresent` and `scanSCSIDisks` of
-- MacHyperVSupport/Storage/HyperVStoragePrivate.cpp, and `InitializeTargetForID` of
-- MacHyperVSupport/Storage/HyperVStorage.cpp.
use mathlib.Core.Bool.{false≢true}
use mac_hyper_vsupport.Transfer.{IoReturn, success}
use mac_hyper_vsupport.Network.Buffers.{is_success}
use mac_hyper_vsupport.Storage.{StorageReply, send_storage_command}
use mac_hyper_vsupport.Common.{
  ℕ, zero, suc, ◌+◌, ◌≤◌, ◌<◌, ◌≡◌, ◌≢◌, refl, ap, ◌∙◌, arith, List, ◌∷◌, Bool, true, false, ◌&&◌,
  not, ◌==◌, ltb, if◌then◌else◌, ◌⊎◌, inl, inr, Bool-cases, ==_iff, ==_self, ne→==_false, ltb→lt,
  ltb_false→le, lt→ltb, ◌||◌, ◌↔◌, sym,
}

-- `kHyperVSRBStatusInvalidLUN`.
abbrev pub srb_status_invalid_lun : ℕ
srb_status_invalid_lun = 0x20

-- `checkSCSIDiskPresent`, from the answer to TEST UNIT READY.
unfoldable pub check_scsi_disk_present : IoReturn × StorageReply → Bool
check_scsi_disk_present (write, reply) =
    is_success (send_storage_command false (write, reply))
    && not (reply.srb_status == srb_status_invalid_lun)

-- The targets that macOS has, by number, and the calls of `CreateTargetForID` (true) and
-- `DestroyTargetForID` (false), the last one first.
pub record Targets : Type 0 where
  pub has_target : ℕ → Bool
  pub target_calls : List (ℕ × Bool)

-- `InitializeTargetForID`, which `CreateTargetForID` asks.
unfoldable pub initialize_target_for_id : ℕ → ℕ → Bool
initialize_target_for_id max_luns id = ltb id max_luns

abbrev pub set_target : ℕ → Bool → Targets → Targets
set_target id b t = record {
  has_target = λ j. if j == id then b else t.has_target j;
  target_calls = (id, b) ∷ t.target_calls;
}

-- `CreateTargetForID` of I/O Kit, by whether it succeeds once the driver has initialized the
-- target; its result is not looked at.
unfoldable pub create_target_for_id : (ℕ → Bool) → ℕ → ℕ → Targets → Targets
unfolding initialize_target_for_id
create_target_for_id creates max_luns id t =
    set_target id (initialize_target_for_id max_luns id && creates id) t

-- The body of the loop of `scanSCSIDisks`.
unfoldable pub scan_lun : (ℕ → Bool) → ℕ → Bool → ℕ → Targets → Targets
unfolding create_target_for_id
scan_lun creates max_luns present lun t =
    if present
    then (if t.has_target lun then t else create_target_for_id creates max_luns lun t)
    else (if t.has_target lun then set_target lun false t else t)

-- The loop, with `n` numbers left from `lun` on.
unfoldable pub scan_from :
    (ℕ → Bool) → ℕ → (ℕ → IoReturn × StorageReply) → ℕ → ℕ → Targets → Targets
unfolding scan_lun check_scsi_disk_present
scan_from creates max_luns answers zero lun t = t
scan_from creates max_luns answers (suc n) lun t =
    scan_from creates max_luns answers n (suc lun)
      (scan_lun creates max_luns (check_scsi_disk_present (answers lun)) lun t)

unfoldable pub scan_scsi_disks : (ℕ → Bool) → ℕ → (ℕ → IoReturn × StorageReply) → Targets → Targets
scan_scsi_disks creates max_luns answers t = scan_from creates max_luns answers max_luns 0 t

-- The disk answered, and was not called an invalid LUN.
abbrev pub IsPresent : IoReturn × StorageReply → Type 0
IsPresent (write, reply) = (write ≡ success) × (reply.srb_status ≢ 0x20)

is_success_only : (r : IoReturn) → is_success r ≡ true → r ≡ success
is_success_only success h = refl
is_success_only _ h = absurd (false≢true h)

and_left : (a b : Bool) → (a && b) ≡ true → a ≡ true
and_left a b h = ground arith

check_scsi_disk_present-IsPresent :
    (a : IoReturn × StorageReply) → (check_scsi_disk_present a ≡ true) ↔ IsPresent a
unfolding check_scsi_disk_present send_storage_command
check_scsi_disk_present-IsPresent (write, reply) = elim (Bool-cases (is_success write)) [
  | inl e ↦ rw e (
    (λ h. (is_success_only write e, (λ same. absurd (ground arith)))),
    (λ h. rw (ne→==_false reply.srb_status 0x20 h.1) refl),
  )
  | inr e ↦ rw e (
    (λ h. absurd (false≢true (sym e ∙ and_left (is_success write) _ h))),
    (λ h. absurd (false≢true (sym e ∙ ap is_success h.0))),
  )
]

-- Whether there is a target once a number was looked at.
abbrev kept_or_made : (ℕ → Bool) → Bool → ℕ → Targets → Bool
kept_or_made creates present lun t = present && (t.has_target lun || creates lun)

same_at :
    (t : Targets) (lun j : ℕ) (b : Bool)
    → t.has_target lun ≡ b
    → t.has_target j ≡ (if j == lun then b else t.has_target j)
same_at t lun j b q = elim (Bool-cases (j == lun)) [
  | inl e ↦ rw e (ap t.has_target ((==_iff j lun).0 e) ∙ q)
  | inr e ↦ rw e refl
]

module _ (creates : ℕ → Bool) (max_luns : ℕ) where
  scan_lun-has_target :
      (lun : ℕ) (present : Bool) (t : Targets) (j : ℕ)
      → lun < max_luns
      → (scan_lun creates max_luns present lun t).has_target j
        ≡ (if j == lun then kept_or_made creates present lun t else t.has_target j)
  unfolding scan_lun create_target_for_id initialize_target_for_id
  scan_lun-has_target lun true t j h = elim (Bool-cases (t.has_target lun)) [
    | inl a ↦ rw a (same_at t lun j true a)
    | inr a ↦ rw (a, lt→ltb lun max_luns h) refl
  ]
  scan_lun-has_target lun false t j h = elim (Bool-cases (t.has_target lun)) [
    | inl a ↦ rw a refl
    | inr a ↦ rw a (same_at t lun j false a)
  ]

  scan_lun_self :
      (lun : ℕ) (present : Bool) (t : Targets)
      → lun < max_luns
      → (scan_lun creates max_luns present lun t).has_target lun
        ≡ kept_or_made creates present lun t
  scan_lun_self lun present t h = scan_lun-has_target lun present t lun h ∙ rw (==_self lun) refl

  scan_lun-other :
      (lun : ℕ) (present : Bool) (t : Targets) (j : ℕ)
      → lun < max_luns
      → j ≢ lun
      → (scan_lun creates max_luns present lun t).has_target j ≡ t.has_target j
  scan_lun-other lun present t j h ne =
      scan_lun-has_target lun present t j h ∙ rw (ne→==_false j lun ne) refl

  module _ (answers : ℕ → IoReturn × StorageReply) where
    -- The loop's step at `lun`.
    abbrev step_at : ℕ → Targets → Targets
    step_at lun t = scan_lun creates max_luns (check_scsi_disk_present (answers lun)) lun t

    -- The scan of `n` numbers from `lun` on leaves the other targets.
    scan_from-outside :
        (n lun : ℕ) (t : Targets) (j : ℕ)
        → lun + n ≤ max_luns
        → (j < lun) ⊎ (lun + n ≤ j)
        → (scan_from creates max_luns answers n lun t).has_target j ≡ t.has_target j
    unfolding scan_from
    scan_from-outside zero lun t j h out = refl
    scan_from-outside (suc n) lun t j h (inl out) =
        scan_from-outside n (suc lun) (step_at lun t) j (omega arith) (inl (omega arith))
        ∙ scan_lun-other lun (check_scsi_disk_present (answers lun)) t j (omega arith)
            (λ e. absurd (omega arith))
    scan_from-outside (suc n) lun t j h (inr out) =
        scan_from-outside n (suc lun) (step_at lun t) j (omega arith) (inr (omega arith))
        ∙ scan_lun-other lun (check_scsi_disk_present (answers lun)) t j (omega arith)
            (λ e. absurd (omega arith))

    -- It settles those of its numbers.
    scan_from-inside :
        (n lun : ℕ) (t : Targets) (j : ℕ)
        → lun + n ≤ max_luns
        → lun ≤ j
        → j < lun + n
        → (scan_from creates max_luns answers n lun t).has_target j
          ≡ kept_or_made creates (check_scsi_disk_present (answers j)) j t
    unfolding scan_from
    scan_from-inside zero lun t j h a b = absurd (omega arith)
    scan_from-inside (suc n) lun t j h a b = elim (Bool-cases (j == lun)) [
      | inl e ↦ rw ((==_iff j lun).0 e) (
          scan_from-outside n (suc lun) (step_at lun t) lun (omega arith) (inl (omega arith))
          ∙ scan_lun_self lun (check_scsi_disk_present (answers lun)) t (omega arith))
      | inr e ↦
          scan_from-inside n (suc lun) (step_at lun t) j (omega arith) (ground arith) (omega arith)
          ∙ ap (λ b. check_scsi_disk_present (answers j) && (b || creates j))
              (scan_lun-other lun (check_scsi_disk_present (answers lun)) t j (omega arith)
                (λ same. absurd (ground arith)))
    ]

    -- What a scan leaves for a number below the maximum.
    scan_below :
        (t : Targets) (j : ℕ)
        → j < max_luns
        → (scan_scsi_disks creates max_luns answers t).has_target j
          ≡ kept_or_made creates (check_scsi_disk_present (answers j)) j t
    unfolding scan_scsi_disks
    scan_below t j h = scan_from-inside max_luns 0 t j (omega arith) (omega arith) (omega arith)

    scan_above :
        (t : Targets) (j : ℕ)
        → max_luns ≤ j
        → (scan_scsi_disks creates max_luns answers t).has_target j ≡ t.has_target j
    unfolding scan_scsi_disks
    scan_above t j h = scan_from-outside max_luns 0 t j (omega arith) (inr (omega arith))

or_true : (a b : Bool) → (a || b) ≡ true → (a ≡ true) ⊎ (b ≡ true)
or_true a b h = ground arith

true_or : (a b : Bool) → (a ≡ true) ⊎ (b ≡ true) → (a || b) ≡ true
true_or a b h = ground arith

made_iff :
    (p h c : Bool) {P : Type 0}
    → (p ≡ true) ↔ P
    → ((p && (h || c)) ≡ true) ↔ (P × ((h ≡ true) ⊎ (c ≡ true)))
made_iff true h c iff = ((λ e. (iff.0 refl, or_true h c e)), (λ e. true_or h c e.1))
made_iff false h c iff = ((λ e. absurd (false≢true e)), (λ e. absurd (false≢true (iff.1 e.0))))

kept_again : (p h c : Bool) → (p && ((p && (h || c)) || c)) ≡ (p && (h || c))
kept_again p h c = ground arith

-- After a scan there is a target for a number below the maximum exactly if the request to its
-- disk was answered, not with an invalid LUN, and there was a target before or one could be
-- created; a target from the maximum on is there exactly if it was. A second scan with the same
-- answers leaves each target as it is.
pub scan_scsi_disks-targets :
    (creates : ℕ → Bool) (max_luns : ℕ) (answers : ℕ → IoReturn × StorageReply) (t : Targets)
    (j : ℕ)
    → let after = scan_scsi_disks creates max_luns answers t in
      ((after.has_target j ≡ true) ↔ (
        ((j < max_luns) × IsPresent (answers j) × ((t.has_target j ≡ true) ⊎ (creates j ≡ true)))
        ⊎ ((max_luns ≤ j) × (t.has_target j ≡ true))))
      × ((scan_scsi_disks creates max_luns answers after).has_target j ≡ after.has_target j)
scan_scsi_disks-targets creates max_luns answers t j =
    let after = scan_scsi_disks creates max_luns answers t in
    elim (Bool-cases (ltb j max_luns)) [
      | inl e ↦
          let below = ltb→lt j max_luns e in
          let seen = scan_below creates max_luns answers t j below in
          let p = check_scsi_disk_present (answers j) in
          let made =
            made_iff p (t.has_target j) (creates j)
              (check_scsi_disk_present-IsPresent (answers j)) in
          (
            (
              (λ h. let (present, kept) = made.0 (sym seen ∙ h) in inl (below, present, kept)),
              (λ h. elim h [
                | inl (_, present, kept) ↦ seen ∙ made.1 (present, kept)
                | inr (above, _) ↦ absurd (omega (arith, below, above))
              ]),
            ),
            scan_below creates max_luns answers after j below
                ∙ ap (λ b. p && (b || creates j)) seen
                ∙ kept_again p (t.has_target j) (creates j)
                ∙ sym seen,
          )
      | inr e ↦
          let above = ltb_false→le j max_luns e in
          let same = scan_above creates max_luns answers t j above in
          (
            (
              (λ h. inr (above, sym same ∙ h)),
              (λ h. elim h [
                | inl (below, _, _) ↦ absurd (omega (arith, below, above))
                | inr (_, kept) ↦ same ∙ kept
              ]),
            ),
            scan_above creates max_luns answers after j above,
          )
    ]
