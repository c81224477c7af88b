-- ===== src/Ic/Versions.antt =====
-- What `processNegotiationResponse` of
-- MacHyperVSupport/IntegrationComponents/HyperVICService.cpp settles on.
use mac_hyper_vsupport.Common.{
  ℕ, zero, suc, ◌+◌, ◌*◌, ◌≤◌, ◌<◌, ◌≡◌, refl, sym, ap, ◌∙◌, arith, List, [], ◌∷◌, Bool, true,
  false, ◌&&◌, ◌==◌, Option, none, some, ◌⊎◌, inl, inr, Bool-cases, Option-cases, ==_iff,
  ne→==_false, le→ltb_false, ==_self, if◌then◌else◌,
}
use mac_hyper_vsupport.Ic.{
  Version, IcHeader, Negotiation, same_version, find_version, best_version, framework_versions,
  ic_packet_size, process_negotiation_response,
}

-- The message offers a version among `n` from index `j` on.
abbrev pub Offers : (ℕ → Version) → ℕ → ℕ → Version → Type 0
Offers versions j n v = (k : ℕ) × (j ≤ k) × (k < j + n) × (versions k ≡ v)

-- The first version of a list that is offered.
pub data IsBest (P : Version → Type 0) : List Version → Version → Type 0 where
  here : {v : Version} {vs : List Version} → P v → IsBest P (v ∷ vs) v
  there : {u v : Version} {vs : List Version} → ¬ P u → IsBest P vs v → IsBest P (u ∷ vs) v

abbrev pub NoneOf : (Version → Type 0) → List Version → Type 0
NoneOf P [] = Unit {0}
NoneOf P (v ∷ vs) = (¬ P v) × NoneOf P vs

and_true : (a b : Bool) → (a && b) ≡ true → (a ≡ true) × (b ≡ true)
and_true a b h = ground arith

same_version_lem : (a b : Version) → same_version a b ≡ true → b ≡ a
same_version_lem a b h i =
    let e = and_true (a.major == b.major) (a.minor == b.minor) h in
    record {
      major = sym ((==_iff a.major b.major).0 e.0) i;
      minor = sym ((==_iff a.minor b.minor).0 e.1) i;
    }

same_version_self : (a : Version) → same_version a a ≡ true
same_version_self a = rw (==_self a.major, ==_self a.minor) refl

-- What a test in front of a search means for what it finds.
if_some :
    {A : Type 0} (b : Bool) (x w : A) (r : Option A)
    → (if b then some x else r) ≡ some w
    → ((b ≡ true) × (x ≡ w)) ⊎ ((b ≡ false) × (r ≡ some w))
if_some true x w r h = inl (refl, ground arith)
if_some false x w r h = inr (refl, h)

if_none :
    {A : Type 0} (b : Bool) (x : A) (r : Option A)
    → (if b then some x else r) ≡ none
    → (b ≡ false) × (r ≡ none)
if_none true x r h = ground arith
if_none false x r h = (refl, h)

-- A search finds the version itself, and finds it if it is there.
find_version-some :
    (v w : Version) (versions : ℕ → Version) (j n : ℕ)
    → find_version v versions j n ≡ some w
    → (w ≡ v) × Offers versions j n v
unfolding find_version
find_version-some v w versions j zero h = ground arith
find_version-some v w versions j (suc n) h =
    elim (if_some (same_version v (versions j)) (versions j) w (find_version v versions (j + 1) n)
      h) [
        | inl (e, found) ↦
            let same = same_version_lem v (versions j) e in
            (sym found ∙ same, (j, omega arith, omega arith, same))
        | inr (e, rest) ↦
            let (is, (k, lo, hi, at)) = find_version-some v w versions (j + 1) n rest in
            (is, (k, omega arith, omega arith, at))
      ]

true≢false : (b : Bool) → b ≡ true → b ≡ false → ⊥
true≢false b p q = ground arith

find_version-none :
    (v : Version) (versions : ℕ → Version) (j n : ℕ)
    → find_version v versions j n ≡ none
    → ¬ Offers versions j n v
unfolding find_version
find_version-none v versions j zero h (k, lo, hi, e) = absurd (omega arith)
find_version-none v versions j (suc n) h (k, lo, hi, e) =
    let (differs, rest) =
      if_none (same_version v (versions j)) (versions j) (find_version v versions (j + 1) n) h in
    elim (Bool-cases (k == j)) [
      | inl s ↦
          let at : versions j ≡ v = ap versions (sym ((==_iff k j).0 s)) ∙ e in
          true≢false (same_version v (versions j)) (rw at (same_version_self v)) differs
      | inr s ↦ find_version-none v versions (j + 1) n rest (k, ground arith, ground arith, e)
    ]

-- The version settled on is the first of the list that is offered, or none of them is.
best_version_lem :
    (vs : List Version) (versions : ℕ → Version) (j n : ℕ)
    → ((w : Version) × (best_version vs versions j n ≡ some w) × IsBest (Offers versions j n) vs w)
      ⊎ ((best_version vs versions j n ≡ none) × NoneOf (Offers versions j n) vs)
unfolding best_version
best_version_lem [] versions j n = inr (refl, tt)
best_version_lem (v ∷ vs) versions j n = elim (Option-cases (find_version v versions j n)) [
  | inr (w, e) ↦
      let (is, offers) = find_version-some v w versions j n e in
      inl (v, rw (e, best_version) (ap some is), here offers)
  | inl e ↦
      let refused = find_version-none v versions j n e in
      elim (best_version_lem vs versions j n) [
        | inl (w, is, best) ↦ inl (w, rw (e, best_version) is, there refused best)
        | inr (is, nothing) ↦ inr (rw (e, best_version) is, (refused, nothing))
      ]
]

-- What a negotiation that could be read comes to.
pub data Settled (msg_versions : List Version) (m : Negotiation)
    : Bool × Negotiation × Option Version → Type 0 where
  agrees :
      (fw msg : Version) (m' : Negotiation)
      → IsBest (Offers m.versions 0 m.framework_version_count) framework_versions fw
      → IsBest
          (Offers m.versions m.framework_version_count m.message_version_count)
          msg_versions
          msg
      → m'.framework_version_count ≡ 1
      → m'.message_version_count ≡ 1
      → m'.versions 0 ≡ fw
      → m'.versions 1 ≡ msg
      → Settled msg_versions m (true, m', some msg)
  differs :
      NoneOf (Offers m.versions 0 m.framework_version_count) framework_versions
        ⊎ NoneOf (Offers m.versions m.framework_version_count m.message_version_count) msg_versions
      → Settled msg_versions m
          (false, record m { framework_version_count = 0; message_version_count = 0 }, none)

-- A negotiation that offers framework and message versions and is as long as they take settles on
-- the first framework version and the first message version in the driver's order that are
-- offered, and answers with those two alone. If one of the two has no version that is offered it
-- fails, and answers with no version.
pub process_negotiation_response-Settled :
    (h : IcHeader) (msg_versions : List Version) (m : Negotiation)
    → 0 < m.framework_version_count
    → 0 < m.message_version_count
    → 36 + (m.framework_version_count + m.message_version_count) * 4 ≤ ic_packet_size h
    → Settled msg_versions m (process_negotiation_response h msg_versions m)
unfolding process_negotiation_response
process_negotiation_response-Settled h msg_versions m fw_pos msg_pos long =
    rw
      (
        ne→==_false m.framework_version_count 0 (λ e. omega arith),
        ne→==_false m.message_version_count 0 (λ e. omega arith),
        le→ltb_false _ _ long,
      )
      (elim (best_version_lem framework_versions m.versions 0 m.framework_version_count) [
        | inr (is, nothing) ↦ rw is (differs (inl nothing))
        | inl (fw, is, best) ↦
            elim (best_version_lem msg_versions m.versions m.framework_version_count
              m.message_version_count) [
                | inr (missed, nothing) ↦ rw (is, missed) (differs (inr nothing))
                | inl (msg, also, best') ↦
                    rw (is, also) (agrees fw msg _ best best' refl refl refl refl)
              ]
      ])
