-- ===== src/Ic/FileCopy/Offered.antt =====
-- What `writeFileFragment` of
-- MacHyperVSupport/IntegrationComponents/FileCopy/HyperVFileCopyUserClient.cpp offers to the daemon.
use mathlib.Core.Bool.{false≢true}
use mac_hyper_vsupport.Common.{
  ℕ, zero, suc, ◌+◌, ◌-◌, ◌^◌, ◌%◌, ◌≤◌, ◌<◌, ◌≡◌, refl, sym, ap, ◌∙◌, subst, arith, List, [], ◌∷◌,
  ◌++◌, drop, get_elem?, Option, none, some, Bool, true, false, ltb, if◌then◌else◌, Bool-cases, ◌⊎◌,
  inl, inr, sub32, ltb→lt, ltb_false→le,
}
use mac_hyper_vsupport.Transfer.{IoReturn}
use mac_hyper_vsupport.Network.Buffers.{is_success}
use mac_hyper_vsupport.Ic.FileCopy.{
  Daemon, FileCopyClient, Notification, write_to_file, call_daemon, notify_daemon, woken,
  sleep_thread, write_second_portion, write_file_fragment,
}

-- Byte `i` of `bytes` is in the first `n` bytes of a fragment that goes to the file at `k`.
unfoldable pub Offers : ℕ → ℕ → List ℕ → ℕ → Notification → Type 0
Offers n k bytes i (write_to_file offset size there) =
    (offset ≤ k)
    × (k < offset + size)
    × (k < offset + n)
    × (get_elem? there (k - offset) ≡ get_elem? bytes i)
Offers n k bytes i _ = ⊥

unfoldable pub OffersAny : ℕ → ℕ → List ℕ → ℕ → List Notification → Type 0
OffersAny n k bytes i [] = ⊥
OffersAny n k bytes i (m ∷ ms) = Offers n k bytes i m ⊎ OffersAny n k bytes i ms

get_elem?-drop : (n i : ℕ) (xs : List ℕ) → get_elem? (drop n xs) i ≡ get_elem? xs (n + i)
get_elem?-drop zero i xs = ap (get_elem? xs) (omega arith)
get_elem?-drop (suc n) i [] = refl
get_elem?-drop (suc n) i (x ∷ xs) =
    let next : suc (n + i) ≡ suc n + i = omega arith in
    get_elem?-drop n i xs ∙ ap (get_elem? (x ∷ xs)) next

-- The status, the user client and the messages sent of an operation.
abbrev Outcome : Type 0
Outcome = IoReturn × FileCopyClient × List Notification

sent_if_success :
    (s : IoReturn) (p q : Outcome)
    → q.0 ≡ s
    → is_success (if◌then◌else◌ {A = Outcome} (is_success s) p q).0 ≡ true
    → (if◌then◌else◌ {A = Outcome} (is_success s) p q).2 ≡ p.2
sent_if_success s p q same ok = elim (Bool-cases (is_success s)) [
  | inl e ↦ rw e refl
  | inr e ↦ absurd (false≢true (sym e ∙ sym (ap is_success same) ∙ (rw e at ok)))
]

-- A call that succeeds sent its message.
sent_by_call :
    (d : Daemon) (m : Notification) (c : FileCopyClient)
    → is_success (call_daemon d m c).0 ≡ true
    → (call_daemon d m c).2 ≡ m ∷ []
unfolding call_daemon
sent_by_call d m c ok = sent_if_success (notify_daemon d m) _ _ refl ok

data_of_branch :
    (b : Bool) (p q : Outcome) (bytes : List ℕ)
    → p.1.current_file_data ≡ bytes
    → q.1.current_file_data ≡ bytes
    → (if◌then◌else◌ {A = Outcome} b p q).1.current_file_data ≡ bytes
data_of_branch true p q bytes h k = h
data_of_branch false p q bytes h k = k

data_of_woken :
    (o : Option IoReturn) (c : FileCopyClient)
    → (sleep_thread (woken o c)).1.current_file_data ≡ c.current_file_data
data_of_woken none c = refl
data_of_woken (some status) c = refl

-- No call moves the data.
data_of_call :
    (d : Daemon) (m : Notification) (c : FileCopyClient)
    → (call_daemon d m c).1.current_file_data ≡ c.current_file_data
unfolding call_daemon
data_of_call d m c =
    data_of_branch (is_success (notify_daemon d m)) _ _ c.current_file_data
      (data_of_woken (d.completes m) (record c { is_sleeping = true })) refl

OffersAny-left :
    (n k : ℕ) (bytes : List ℕ) (i : ℕ) (ms ns : List Notification)
    → OffersAny n k bytes i ms
    → OffersAny n k bytes i (ms ++ ns)
unfolding OffersAny
OffersAny-left n k bytes i [] ns h = absurd h
OffersAny-left n k bytes i (m ∷ ms) ns (inl h) = inl h
OffersAny-left n k bytes i (m ∷ ms) ns (inr h) = inr (OffersAny-left n k bytes i ms ns h)

OffersAny-right :
    (n k : ℕ) (bytes : List ℕ) (i : ℕ) (ms ns : List Notification)
    → OffersAny n k bytes i ns
    → OffersAny n k bytes i (ms ++ ns)
unfolding OffersAny
OffersAny-right n k bytes i [] ns h = h
OffersAny-right n k bytes i (m ∷ ms) ns h = inr (OffersAny-right n k bytes i ms ns h)

-- A fragment that was sent offers its bytes.
fragment_offers :
    (d : Daemon) (n k i offset size : ℕ) (bytes there : List ℕ) (c : FileCopyClient)
    → is_success (call_daemon d (write_to_file offset size there) c).0 ≡ true
    → offset ≤ k
    → k < offset + size
    → k < offset + n
    → get_elem? there (k - offset) ≡ get_elem? bytes i
    → OffersAny n k bytes i (call_daemon d (write_to_file offset size there) c).2
unfolding OffersAny Offers
fragment_offers d n k i offset size bytes there c ok a b e h =
    subst (OffersAny n k bytes i) (sym (sent_by_call d (write_to_file offset size there) c ok))
      (inl (a, b, e, h))

at_least : (n size : ℕ) → size ≤ (if ltb size n then n else size)
at_least n size = ground arith

-- The second portion offers the bytes behind the first one.
second_offers :
    (d : Daemon) (n offset size i : ℕ) (bytes : List ℕ) (c : FileCopyClient)
    → c.current_file_data ≡ bytes
    → is_success (write_second_portion d n offset size c).0 ≡ true
    → n ≤ i
    → i < size
    → size ≤ n + n
    → size < 2 ^ 32
    → offset + size < 2 ^ 64
    → OffersAny n (offset + i) bytes i (write_second_portion d n offset size c).2
second_offers d n offset size i bytes c same ok behind inside twice small whole =
    let start : (offset + n) % 2 ^ 64 ≡ offset + n = omega arith in
    let left : sub32 size n ≡ size - n = omega arith in
    let index : offset + i - (offset + n) % 2 ^ 64 ≡ i - n = omega arith in
    let byte : get_elem? (drop n c.current_file_data) (i - n) ≡ get_elem? bytes i =
      get_elem?-drop n (i - n) c.current_file_data
      ∙ ap (λ xs. get_elem? xs (n + (i - n))) same
      ∙ ap (get_elem? bytes) (omega arith) in
    fragment_offers d n (offset + i) i ((offset + n) % 2 ^ 64) (sub32 size n) bytes
      (drop n c.current_file_data) _ ok (omega arith) (omega arith) (omega arith)
      (ap (get_elem? (drop n c.current_file_data)) index ∙ byte)

-- If writing a fragment of at most twice the largest data size succeeds, and neither its size
-- wraps in 32 bits nor its end in 64, each of its bytes is announced to the daemon at its place
-- in the file, and was among the bytes that the daemon could fetch for that announcement.
pub write_file_fragment-OffersAny :
    (d : Daemon) (n offset : ℕ) (bytes : List ℕ) (size i : ℕ) (c : FileCopyClient)
    → is_success (write_file_fragment d n offset bytes size c).0 ≡ true
    → size ≤ n + n
    → size < 2 ^ 32
    → offset + size < 2 ^ 64
    → i < size
    → OffersAny n (offset + i) bytes i (write_file_fragment d n offset bytes size c).2
unfolding write_file_fragment
write_file_fragment-OffersAny d n offset bytes size i c ok twice small whole inside =
    let filled : FileCopyClient = record c { current_file_data = bytes } in
    let length_sent = if ltb size n then n else size in
    let first = call_daemon d (write_to_file offset length_sent bytes) filled in
    let same = data_of_call d (write_to_file offset length_sent bytes) filled in
    let offered : is_success first.0 ≡ true → i < n → OffersAny n (offset + i) bytes i first.2 =
      λ sent short.
        fragment_offers d n (offset + i) i offset length_sent bytes bytes filled sent (omega arith)
          (omega (arith, at_least n size)) (omega arith) (ap (get_elem? bytes) (omega arith)) in
    elim (Bool-cases (is_success first.0)) [
      | inr e ↦ absurd (false≢true (sym e ∙ (rw e at ok)))
      | inl e ↦ elim (Bool-cases (ltb n size)) [
        | inr f ↦ rw (e, f) (offered e (omega (arith, ltb_false→le n size f)))
        | inl f ↦ elim (Bool-cases (ltb i n)) [
          | inl g ↦
              rw (e, f) (OffersAny-left n (offset + i) bytes i first.2 _ (offered e (ltb→lt i n g)))
          | inr g ↦
              rw (e, f)
                (OffersAny-right n (offset + i) bytes i first.2 _ (
                  second_offers d n offset size i bytes first.1 same (rw (e, f) at ok)
                    (ltb_false→le i n g) inside twice small whole))
        ]
      ]
    ]
