-- ===== src/Vmbus/Post.antt =====
-- Posting a message: the retries of `sendVMBusMessageGated` of MacHyperVSupport/VMBus/HyperVVMBus.cpp
-- over the hypercall's answers.
use mac_hyper_vsupport.Common.{ℕ, zero, suc, ◌+◌, ◌≤◌, ◌<◌, ◌≡◌, refl, ap, ◌∙◌, arith}
use mac_hyper_vsupport.Transfer.{IoReturn, success, no_resources, io_error}

-- `HypercallStatus`: success, the two that are tried again, and the others.
pub data HypercallStatus : Type 0 where
  done : HypercallStatus
  insufficient_memory : HypercallStatus
  insufficient_buffers : HypercallStatus
  failed : ℕ → HypercallStatus

-- `kHyperVHypercallRetryCount`.
abbrev pub hypercall_retry_count : ℕ
hypercall_retry_count = 100

-- The loop with the attempts left, the number of the next attempt and the status so far; it gives
-- the status and the attempts made.
unfoldable pub post_loop : ℕ → (ℕ → HypercallStatus) → ℕ → IoReturn → IoReturn × ℕ
post_loop zero answers i status = (status, i)
post_loop (suc left) answers i status = elim (answers i) [
  | done ↦ (success, i + 1)
  | insufficient_memory ↦ post_loop left answers (i + 1) no_resources
  | insufficient_buffers ↦ post_loop left answers (i + 1) no_resources
  | failed _ ↦ (io_error, i + 1)
]

unfoldable pub post_message : (ℕ → HypercallStatus) → IoReturn × ℕ
post_message answers = post_loop hypercall_retry_count answers 0 success

-- The answers that are tried again.
abbrev pub IsBusy : HypercallStatus → Type 0
IsBusy insufficient_memory = Unit {0}
IsBusy insufficient_buffers = Unit {0}
IsBusy _ = ⊥

abbrev pub verdict : HypercallStatus → IoReturn
verdict done = success
verdict insufficient_memory = no_resources
verdict insufficient_buffers = no_resources
verdict (failed _) = io_error

-- One attempt, by its answer.
post_loop_stops :
    (left i : ℕ) (answers : ℕ → HypercallStatus) (status : IoReturn) (a : HypercallStatus)
    → answers i ≡ a
    → ¬ IsBusy a
    → post_loop (suc left) answers i status ≡ (verdict a, i + 1)
unfolding post_loop
post_loop_stops left i answers status done e ends = rw (e, post_loop)
post_loop_stops left i answers status insufficient_memory e ends = absurd (ends tt)
post_loop_stops left i answers status insufficient_buffers e ends = absurd (ends tt)
post_loop_stops left i answers status (failed c) e ends = rw (e, post_loop)

post_loop_repeats :
    (left i : ℕ) (answers : ℕ → HypercallStatus) (status : IoReturn) (a : HypercallStatus)
    → answers i ≡ a
    → IsBusy a
    → post_loop (suc left) answers i status ≡ post_loop left answers (i + 1) no_resources
unfolding post_loop
post_loop_repeats left i answers status done e busy = absurd busy
post_loop_repeats left i answers status insufficient_memory e busy = rw (e, post_loop)
post_loop_repeats left i answers status insufficient_buffers e busy = rw (e, post_loop)
post_loop_repeats left i answers status (failed c) e busy = absurd busy

-- From attempt `i` on, `n` busy answers ahead of answer `j`, which is not.
post_loop_lem :
    (n left i j : ℕ) (answers : ℕ → HypercallStatus) (status : IoReturn)
    → n < left
    → i + n ≡ j
    → ((k : ℕ) → i ≤ k → k < j → IsBusy (answers k))
    → ¬ IsBusy (answers j)
    → post_loop left answers i status ≡ (verdict (answers j), j + 1)
post_loop_lem n zero i j answers status h e busy ends = absurd (omega arith)
post_loop_lem zero (suc left) i j answers status h e busy ends =
    let same : i ≡ j = omega arith in
    rw same (post_loop_stops left j answers status (answers j) refl ends)
post_loop_lem (suc n) (suc left) i j answers status h e busy ends =
    post_loop_repeats left i answers status (answers i) refl (busy i (omega arith) (omega arith))
    ∙ post_loop_lem n left (i + 1) j answers no_resources (omega arith) (omega arith)
        (λ k lo hi. busy k (omega arith) hi) ends

post_loop_exhausted :
    (left i : ℕ) (answers : ℕ → HypercallStatus)
    → ((k : ℕ) → i ≤ k → k < i + left → IsBusy (answers k))
    → post_loop left answers i no_resources ≡ (no_resources, i + left)
unfolding post_loop
post_loop_exhausted zero i answers busy = ap (λ k. (no_resources, k)) (omega arith)
post_loop_exhausted (suc left) i answers busy =
    post_loop_repeats left i answers no_resources (answers i) refl
      (busy i (omega arith) (omega arith))
    ∙ post_loop_exhausted left (i + 1) answers (λ k lo hi. busy k (omega arith) (omega arith))
    ∙ ap (λ k. (no_resources, k)) (omega arith)

-- If the answers to the attempts before attempt `n`, the first being attempt 0, are that the host
-- is short of memory or buffers, the answer to attempt `n` is another one, and `n` is below 100,
-- then that answer decides the status, and `n + 1` attempts are made.
pub post_message_decided :
    (answers : ℕ → HypercallStatus) (n : ℕ)
    → n < 100
    → ((k : ℕ) → k < n → IsBusy (answers k))
    → ¬ IsBusy (answers n)
    → post_message answers ≡ (verdict (answers n), n + 1)
unfolding post_message
post_message_decided answers n h busy ends =
    post_loop_lem n 100 0 n answers success h (omega arith) (λ k lo hi. busy k hi) ends

-- If the answers to a hundred attempts are that the host is short of memory or buffers, a hundred
-- attempts are made and the status is a lack of resources.
pub post_message_exhausted :
    (answers : ℕ → HypercallStatus)
    → ((k : ℕ) → k < 100 → IsBusy (answers k))
    → post_message answers ≡ (no_resources, 100)
unfolding post_message
post_message_exhausted answers busy =
    post_loop_repeats 99 0 answers success (answers 0) refl (busy 0 (omega arith))
    ∙ post_loop_exhausted 99 1 answers (λ k lo hi. busy k (omega arith))
