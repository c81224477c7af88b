-- ===== src/Network/Link.antt =====
-- The state of the link: `updateLinkState` of
-- MacHyperVSupport/Network/HyperVNetworkPrivate.cpp.
use mac_hyper_vsupport.Common.{
  ℕ, ◌≡◌, ◌≢◌, refl, sym, ap, ◌∙◌, List, [], ◌∷◌, Bool, true, false, ◌==◌, if◌then◌else◌, Option,
  none, some, inl, inr, Bool-cases, subst, ==_iff,
}

-- What `setLinkStatus` is told: `kIONetworkLinkValid`, alone or with `kIONetworkLinkActive`.
pub data LinkStatus : Type 0 where
  inactive : LinkStatus
  active : LinkStatus

-- `_isLinkUp`, and the calls of `setLinkStatus`, the last one first.
pub record Link : Type 0 where
  pub is_link_up : Bool
  pub reported : List LinkStatus

-- `kHyperVNetworkRNDISStatusMediaConnect`, `MediaDisconnect`, `LinkSpeedChange` and
-- `NetworkChange`.
abbrev pub status_media_connect : ℕ
status_media_connect = 0x4001000B

abbrev pub status_media_disconnect : ℕ
status_media_disconnect = 0x4001000C

abbrev pub status_link_speed_change : ℕ
status_link_speed_change = 0x40010013

abbrev pub status_network_change : ℕ
status_network_change = 0x40010018

-- `kHyperVNetworkRNDISLinkStateConnected`.
abbrev pub link_state_connected : ℕ
link_state_connected = 0

abbrev pub set_link_status : LinkStatus → Link → Link
set_link_status s l = record l { reported = s ∷ l.reported }

-- The first part of `updateLinkState`, without an indication: the state is read from the host,
-- with `none` if that fails.
unfoldable pub initial_link_state : Option ℕ → Link → Link
initial_link_state none l = l
initial_link_state (some state) l =
    if state == link_state_connected
    then set_link_status active (record l { is_link_up = true })
    else set_link_status inactive (record l { is_link_up = false })

-- The second part, for the status of an indication.
unfoldable pub indicate_status : ℕ → Link → Link
indicate_status status l =
    if status == status_link_speed_change
    then l
    else if status == status_media_connect
    then (if l.is_link_up then l else record (set_link_status active l) { is_link_up = true })
    else if status == status_media_disconnect
    then (if l.is_link_up then record (set_link_status inactive l) { is_link_up = false } else l)
    else if status == status_network_change
    then (if l.is_link_up then set_link_status active (set_link_status inactive l) else l)
    else l

-- `updateLinkState`: without a medium dictionary nothing happens.
unfoldable pub update_link_state : Bool → Option ℕ → Option ℕ → Link → Link
update_link_state has_dict (some status) read l = if has_dict then indicate_status status l else l
update_link_state has_dict none read l = if has_dict then initial_link_state read l else l

-- A row of indications, with the dictionary in place.
unfoldable pub run_link : List ℕ → Link → Link
run_link [] l = l
run_link (s ∷ ss) l = run_link ss (update_link_state true (some s) none l)

-- The specification: the link is as the last media event says.
abbrev pub media_state : List ℕ → Bool → Bool
media_state [] up = up
media_state (s ∷ ss) up =
    media_state ss (
      if s == status_media_connect
      then true
      else if s == status_media_disconnect
      then false
      else up)

abbrev pub status_of : Bool → LinkStatus
status_of true = active
status_of false = inactive

abbrev IsActive : LinkStatus → Type 0
IsActive active = Unit
IsActive inactive = ⊥

-- No report repeats the one before it.
unfoldable pub Alternates : List LinkStatus → Type 0
Alternates [] = Unit
Alternates (s ∷ []) = Unit
Alternates (s ∷ t ∷ rest) = (s ≢ t) × Alternates (t ∷ rest)

-- The link is up as given, macOS was last told so, and no report repeats the one before it.
unfoldable pub IsReported : Bool → Link → Type 0
IsReported up l =
    (l.is_link_up ≡ up)
    × ((rest : List LinkStatus) × ((l.reported ≡ status_of up ∷ rest)
          × Alternates (status_of up ∷ rest)))

-- What an indication can do to the link.
data Move (l : Link) : Link → Type 0 where
  stay : Move l l
  rise : l.is_link_up ≡ false → Move l (record (set_link_status active l) { is_link_up = true })
  fall : l.is_link_up ≡ true → Move l (record (set_link_status inactive l) { is_link_up = false })
  refresh : l.is_link_up ≡ true → Move l (set_link_status active (set_link_status inactive l))

rise-Move :
    (l : Link) (up : Bool)
    → l.is_link_up ≡ up
    → Move l (if up then l else record (set_link_status active l) { is_link_up = true })
rise-Move l true e = stay
rise-Move l false e = rise e

fall-Move :
    (l : Link) (up : Bool)
    → l.is_link_up ≡ up
    → Move l (if up then record (set_link_status inactive l) { is_link_up = false } else l)
fall-Move l true e = fall e
fall-Move l false e = stay

refresh-Move :
    (l : Link) (up : Bool)
    → l.is_link_up ≡ up
    → Move l (if up then set_link_status active (set_link_status inactive l) else l)
refresh-Move l true e = refresh e
refresh-Move l false e = stay

indicate_status-Move : (s : ℕ) (l : Link) → Move l (indicate_status s l)
unfolding indicate_status
indicate_status-Move s l = elim (Bool-cases (s == status_link_speed_change)) [
  | inl a ↦ rw a stay
  | inr a ↦ elim (Bool-cases (s == status_media_connect)) [
    | inl b ↦ rw a (rw b (rise-Move l l.is_link_up refl))
    | inr b ↦ elim (Bool-cases (s == status_media_disconnect)) [
      | inl c ↦ rw a (rw b (rw c (fall-Move l l.is_link_up refl)))
      | inr c ↦ elim (Bool-cases (s == status_network_change)) [
        | inl d ↦ rw a (rw b (rw c (rw d (refresh-Move l l.is_link_up refl))))
        | inr d ↦ rw a (rw b (rw c (rw d stay)))
      ]
    ]
  ]
]

active-ne-inactive : active ≢ inactive
active-ne-inactive e = absurd (subst IsActive e tt)

Move-IsReported :
    (l l' : Link) → Move l l' → IsReported l.is_link_up l → IsReported l'.is_link_up l'
unfolding IsReported Alternates
Move-IsReported l l' stay h = h
Move-IsReported l l' (rise e) (same, (rest, (r, alt))) = (
  refl,
  (
    status_of l.is_link_up ∷ rest,
    (ap (◌∷◌ active) r, ((λ q. active-ne-inactive (q ∙ ap status_of e)), alt)),
  ),
)
Move-IsReported l l' (fall e) (same, (rest, (r, alt))) = (
  refl,
  (
    status_of l.is_link_up ∷ rest,
    (ap (◌∷◌ inactive) r, ((λ q. active-ne-inactive (sym (q ∙ ap status_of e))), alt)),
  ),
)
Move-IsReported l l' (refresh e) (same, (rest, (r, alt))) = (
  refl,
  (
    inactive ∷ status_of l.is_link_up ∷ rest,
    (
      ap (λ q. active ∷ inactive ∷ q) r
          ∙ ap (λ q. q ∷ inactive ∷ status_of l.is_link_up ∷ rest) (sym (ap status_of e)),
      (
        (λ q. active-ne-inactive (sym (ap status_of e) ∙ q)),
        ((λ q. active-ne-inactive (sym (q ∙ ap status_of e))), alt),
      ),
    ),
  ),
)

rise_up :
    (l : Link) (up : Bool)
    → l.is_link_up ≡ up
    → (if up then l else record (set_link_status active l) { is_link_up = true }).is_link_up ≡ true
rise_up l true e = e
rise_up l false e = refl

fall_down :
    (l : Link) (up : Bool)
    → l.is_link_up ≡ up
    → (if up then record (set_link_status inactive l) { is_link_up = false } else l).is_link_up
      ≡ false
fall_down l true e = refl
fall_down l false e = e

refresh_same :
    (l : Link) (up : Bool)
    → (if up then set_link_status active (set_link_status inactive l) else l).is_link_up
      ≡ l.is_link_up
refresh_same l true = refl
refresh_same l false = refl

-- The link after one indication.
abbrev media_after : ℕ → Bool → Bool
media_after s up =
    if s == status_media_connect then true else if s == status_media_disconnect then false else up

indicate_status-media :
    (s : ℕ) (l : Link) → (indicate_status s l).is_link_up ≡ media_after s l.is_link_up
unfolding indicate_status
indicate_status-media s l = elim (Bool-cases (s == status_link_speed_change)) [
  | inl a ↦ rw ((==_iff s _).0 a) refl
  | inr a ↦ elim (Bool-cases (s == status_media_connect)) [
    | inl b ↦ rw a (rw b (rise_up l l.is_link_up refl))
    | inr b ↦ elim (Bool-cases (s == status_media_disconnect)) [
      | inl c ↦ rw a (rw b (rw c (fall_down l l.is_link_up refl)))
      | inr c ↦ elim (Bool-cases (s == status_network_change)) [
        | inl d ↦ rw a (rw b (rw c (rw d (refresh_same l l.is_link_up))))
        | inr d ↦ rw a (rw b (rw c (rw d refl)))
      ]
    ]
  ]
]

run_link_from :
    (ss : List ℕ) (l : Link)
    → IsReported l.is_link_up l
    → IsReported (media_state ss l.is_link_up) (run_link ss l)
unfolding run_link update_link_state
run_link_from [] l h = h
run_link_from (s ∷ ss) l h =
    subst (λ up. IsReported (media_state ss up) (run_link ss (indicate_status s l)))
      (indicate_status-media s l)
      (run_link_from ss (indicate_status s l)
        (Move-IsReported l (indicate_status s l) (indicate_status-Move s l) h))

fresh_report :
    (up : Bool) (l : Link)
    → l.reported ≡ []
    → IsReported up (record { is_link_up = up; reported = status_of up ∷ l.reported })
unfolding IsReported Alternates
fresh_report up l fresh = (refl, ([], (ap (◌∷◌ (status_of up)) fresh, tt)))

-- From a link without reports whose state could be read from the host, and behind any row of
-- indications, the link is up as the last media event says, or as read if there is none. macOS
-- was last told so, and no report repeats the one before it.
pub run_link-IsReported :
    (state : ℕ) (ss : List ℕ) (l : Link)
    → l.reported ≡ []
    → IsReported
        (media_state ss (state == link_state_connected))
        (run_link ss (update_link_state true none (some state) l))
unfolding update_link_state initial_link_state
run_link-IsReported state ss l fresh = elim (Bool-cases (state == link_state_connected)) [
  | inl e ↦ rw e (
      run_link_from ss (record { is_link_up = true; reported = active ∷ l.reported })
        (fresh_report true l fresh))
  | inr e ↦ rw e (
      run_link_from ss (record { is_link_up = false; reported = inactive ∷ l.reported })
        (fresh_report false l fresh))
]
