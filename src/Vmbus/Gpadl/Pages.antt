-- ===== src/Vmbus/Gpadl/Pages.antt =====
-- The pages that the messages of `initVMBusChannelGPADL` of
-- MacHyperVSupport/VMBus/HyperVVMBusChannel.cpp name.
use mac_hyper_vsupport.Common.{
  ℕ, zero, suc, ◌+◌, ◌-◌, ◌*◌, ◌/◌, ◌%◌, ◌^◌, ◌≤◌, ◌<◌, ◌≡◌, ◌≢◌, refl, sym, ap, ◌∙◌, arith, List,
  [], ◌∷◌, ◌++◌, length, take, Bool, true, false, ltb, Option, none, some, inl, inr, Bool-cases,
  ltb→lt, ltb_false→le, le→ltb_false, lt→ltb, ne→==_false, lt→leb_false, append-nil, to_u32, to_u16,
  add32, take-append, take-all,
}
use mac_hyper_vsupport.Transfer.{IoReturn, success}
use mac_hyper_vsupport.Vmbus.Gpadl.{
  DmaBuffer, GpadlMessage, header, body, Delivery, posted, pages, body_loop, gpadl_transfer,
  GpadlResult, init_gpadl,
}

-- The page numbers of a message, and of a row of messages.
abbrev pub pfns_of : GpadlMessage → List ℕ
pfns_of (header _ _ _ _ _ pfns _) = pfns
pfns_of (body _ pfns _) = pfns

abbrev pub all_pfns : List GpadlMessage → List ℕ
all_pfns [] = []
all_pfns (m ∷ ms) = pfns_of m ++ all_pfns ms

abbrev pub awaits_of : GpadlMessage → Bool
awaits_of (header _ _ _ _ _ _ a) = a
awaits_of (body _ _ a) = a

-- The bytes of a message, as they are posted.
abbrev pub message_size : GpadlMessage → ℕ
message_size (header _ _ _ _ _ pfns _) = 28 + length pfns * 8
message_size (body _ pfns _) = 16 + length pfns * 8

-- Every message fits in a hypercall, and the last one alone waits for the response.
abbrev pub AreProper : List GpadlMessage → Type 0
AreProper [] = Unit {0}
AreProper (m ∷ []) = (message_size m ≤ 240) × (awaits_of m ≡ true)
AreProper (m ∷ (n ∷ ms)) = (message_size m ≤ 240) × (awaits_of m ≡ false) × AreProper (n ∷ ms)

pub length-pages : (p n : ℕ) → length (pages p n) ≡ n
unfolding pages
length-pages p zero = refl
length-pages p (suc n) = ap suc (length-pages ((p + 1) % 2 ^ 64) n)

pages-add : (p a b : ℕ) → p + a + b < 2 ^ 64 → pages p (a + b) ≡ pages p a ++ pages (p + a) b
unfolding pages
pages-add p zero b h =
    let e : 0 + b ≡ b = omega arith in let f : p + 0 ≡ p = omega arith in rw (e, f)
pages-add p (suc a) b h =
    let e : suc a + b ≡ suc (a + b) = omega arith in
    let f : (p + 1) % 2 ^ 64 ≡ p + 1 = omega arith in
    let g : p + 1 + a ≡ p + suc a = omega arith in
    rw (e, f)
      (ap (◌∷◌ p) (pages-add (p + 1) a b (omega arith) ∙ ap (λ k. pages (p + 1) a ++ pages k b) g))

-- A message ahead of others does not wait.
AreProper-cons :
    (m : GpadlMessage) (ms : List GpadlMessage)
    → message_size m ≤ 240
    → awaits_of m ≡ false
    → ms ≢ []
    → AreProper ms
    → AreProper (m ∷ ms)
AreProper-cons m [] h a ne w = absurd (ne refl)
AreProper-cons m (n ∷ ms) h a ne w = (h, a, w)

-- What a run of the body loop that posts everything leaves.
record Bodies (page remaining : ℕ) (r : Option (IoReturn × List GpadlMessage)) : Type 0 where
  messages : List GpadlMessage
  result : r ≡ some (success, messages)
  covered : all_pfns messages ≡ pages page remaining
  proper : AreProper messages
  some_left : 0 < remaining → messages ≢ []

module _ (delivery : ℕ → Delivery) (gpadl : ℕ) (all : (k : ℕ) → delivery k ≡ posted) where
  -- The last body takes what is left, and the loop ends behind it.
  last_body :
      (fuel remaining page i : ℕ)
      → 0 < remaining
      → remaining ≤ 28
      → 0 < fuel
      → page + remaining < 2 ^ 64
      → Bodies page remaining (body_loop (suc fuel) delivery gpadl remaining page i)
  unfolding body_loop
  last_body zero remaining page i pos few more small = absurd (omega arith)
  last_body (suc fuel) remaining page i pos few more small =
      let z : remaining - remaining ≡ 0 = omega arith in
      rw (ne→==_false remaining 0 (omega arith), le→ltb_false 28 remaining few, all i, z)
        (record {
          messages = body gpadl (pages page remaining) true ∷ [];
          result = refl;
          covered = append-nil (pages page remaining);
          proper = (omega (arith, length-pages page remaining), refl);
          some_left = λ h e. cc;
        })

  -- A body ahead of others takes 28 pages.
  full_body :
      (fuel remaining page i : ℕ)
      → 28 < remaining
      → page + remaining < 2 ^ 64
      → Bodies
          (page + 28)
          (remaining - 28)
          (body_loop fuel delivery gpadl (remaining - 28) (page + 28) (i + 1))
      → Bodies page remaining (body_loop (suc fuel) delivery gpadl remaining page i)
  unfolding body_loop
  full_body fuel remaining page i many small rest =
      let p : (page + 28) % 2 ^ 64 ≡ page + 28 = omega arith in
      let ms = rest.messages in
      let s : 28 + (remaining - 28) ≡ remaining = omega arith in
      rw
        (
          ne→==_false remaining 0 (omega arith),
          lt→ltb 28 remaining many,
          all i,
          p,
          ne→==_false (remaining - 28) 0 (omega arith),
        )
        (rw rest.result (record {
          messages = body gpadl (pages page 28) false ∷ ms;
          result = refl;
          covered =
              ap (◌++◌ (pages page 28)) rest.covered
              ∙ sym (pages-add page 28 (remaining - 28) (omega arith))
              ∙ ap (pages page) s;
          proper =
              AreProper-cons (body gpadl (pages page 28) false) ms
                (omega (arith, length-pages page 28)) refl (rest.some_left (omega arith))
                rest.proper;
          some_left = λ h e. cc;
        }))

  body_loop-Bodies :
      (fuel remaining page i : ℕ)
      → 0 < remaining
      → remaining < fuel
      → page + remaining < 2 ^ 64
      → Bodies page remaining (body_loop fuel delivery gpadl remaining page i)
  body_loop-Bodies zero remaining page i pos h small = absurd (omega arith)
  body_loop-Bodies (suc fuel) remaining page i pos h small = elim (Bool-cases (ltb 28 remaining)) [
    | inl e ↦
        let many = ltb→lt 28 remaining e in
        full_body fuel remaining page i many small (
          body_loop-Bodies fuel (remaining - 28) (page + 28) (i + 1) (omega arith) (omega arith)
            (omega arith))
    | inr e ↦ last_body fuel remaining page i pos (ltb_false→le 28 remaining e) (omega arith) small
  ]

-- The length of the range buffer that the first message announces.
abbrev pub announced_length : List GpadlMessage → Option ℕ
announced_length (header _ _ _ n _ _ _ ∷ _) = some n
announced_length _ = none

-- Messages that hand over `count` pages from `first` on.
pub record Covers (first count : ℕ) (messages : List GpadlMessage) : Type 0 where
  pub covered : take count (all_pfns messages) ≡ pages first count
  pub proper : AreProper messages
  pub announced : announced_length messages ≡ some (to_u16 (8 + count * 8))

module _ (delivery : ℕ → Delivery) (channel_id gpadl count : ℕ) (buffer : DmaBuffer)
    (all : (k : ℕ) → delivery k ≡ posted) (addr : buffer.phys_addr < 2 ^ 63)
    (most : count ≤ 8192) where
  abbrev CoveringTransfer : Type 0
  CoveringTransfer =
      (messages : List GpadlMessage) × (gpadl_transfer delivery channel_id gpadl buffer count
        ≡ some (success, messages))
      × Covers (buffer.phys_addr / 4096) count messages

  single_transfer : count ≤ 26 → CoveringTransfer
  unfolding gpadl_transfer
  single_transfer few =
      let p = buffer.phys_addr / 4096 in
      let split : pages p 26 ++ [] ≡ pages p count ++ pages (p + count) (26 - count) =
        append-nil (pages p 26)
        ∙ ap (pages p) (omega arith)
        ∙ pages-add p count (26 - count) (omega arith) in
      let message =
        header channel_id gpadl 1 (to_u16 (8 + count * 8)) (to_u32 buffer.size) (pages p 26) true in
      (
        message ∷ [],
        rw (le→ltb_false 26 count few, all 0),
        record {
          covered =
              ap (take count) split
              ∙ take-append (pages p count) (pages (p + count) (26 - count)) count
                  (sym (length-pages p count));
          proper = (omega (arith, length-pages p 26), refl);
          announced = refl;
        },
      )

  multiple_transfer : 26 < count → CoveringTransfer
  unfolding gpadl_transfer
  multiple_transfer many =
      let p = buffer.phys_addr / 4096 in
      let b =
        body_loop-Bodies delivery gpadl all (count + 1) (count - 26) (p + 26) 1 (omega arith)
          (omega arith) (omega arith) in
      let wrap : (p + 26) % 2 ^ 64 ≡ p + 26 = omega arith in
      let message =
        header channel_id gpadl 1 (to_u16 (8 + count * 8)) (to_u32 buffer.size) (pages p 26)
          false in
      (
        message ∷ b.messages,
        rw (lt→ltb 26 count many, all 0, wrap) (rw b.result),
        record {
          covered =
              ap (λ k. take count (pages p 26 ++ k)) b.covered
              ∙ ap (take count) (sym (pages-add p 26 (count - 26) (omega arith)))
              ∙ ap (λ k. take count (pages p k)) (omega arith)
              ∙ take-all count (pages p count) (omega (arith, length-pages p count));
          proper =
              AreProper-cons message b.messages (omega (arith, length-pages p 26)) refl
                (b.some_left (omega arith)) b.proper;
          announced = refl;
        },
      )

  gpadl_transfer-Covers : CoveringTransfer
  gpadl_transfer-Covers = elim (Bool-cases (ltb 26 count)) [
    | inl e ↦ multiple_transfer (ltb→lt 26 count e)
    | inr e ↦ single_transfer (ltb_false→le 26 count e)
  ]

-- For a buffer of up to 8192 whole pages below 2 ^ 63, on a channel with a proper number, with
-- every message posted and a response of success, a GPADL is set up under the next handle. Its
-- messages name the buffer's pages once each and in order, ahead of any others; each message fits
-- in a hypercall, the last one alone waits for the response, and the first one announces 8 bytes
-- and 8 for each page, in 16 bits.
pub init_gpadl-Covers :
    (delivery : ℕ → Delivery) (next channel_id count : ℕ) (buffer : DmaBuffer)
    → ((k : ℕ) → delivery k ≡ posted)
    → 0 < channel_id
    → channel_id < 256
    → buffer.size ≡ count * 4096
    → count ≤ 8192
    → buffer.phys_addr < 2 ^ 63
    → (r : GpadlResult) × (init_gpadl delivery 0 next channel_id (some buffer) ≡ some r)
      × (r.status ≡ success)
      × (r.gpadl_handle ≡ some next)
      × Covers (buffer.phys_addr / 4096) count r.messages
unfolding init_gpadl
init_gpadl-Covers delivery next channel_id count buffer all pos small e most addr =
    let t = gpadl_transfer-Covers delivery channel_id next count buffer all addr most in
    let c : to_u32 (buffer.size / 4096) ≡ count = omega arith in
    let a : buffer.size % 4096 ≡ 0 = omega arith in
    (
      record {
        status = success;
        gpadl_handle = some next;
        next_gpadl_handle = add32 next 1;
        messages = t.0;
      },
      rw
          (
            ne→==_false channel_id 0 (omega arith),
            lt→leb_false 256 channel_id small,
            a,
            c,
            le→ltb_false 8192 count most,
          )
          (rw t.1),
      refl,
      refl,
      t.2,
    )
