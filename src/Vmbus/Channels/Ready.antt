-- ===== src/Vmbus/Channels/Ready.antt =====
-- What holds of an open channel of MacHyperVSupport/VMBus, and that closing, freeing, adding and
-- removing a channel keep it.
use mac_hyper_vsupport.Common.{
  ℕ, ◌*◌, ◌<◌, ◌≡◌, ◌≢◌, refl, sym, ◌∙◌, Bool, true, false, Option, none, some, ◌==◌, inl, inr,
  Bool-cases, ==_iff, leb, subst, if◌then◌else◌, ◌⊎◌, ltb,
}
use mac_hyper_vsupport.Vmbus.{
  max_channels, MessageType, channel_close, channel_free, gpadl_teardown,
}
use mac_hyper_vsupport.Vmbus.Gpadl.{DmaBuffer}
use mac_hyper_vsupport.Vmbus.Channels.{
  Vmbus, Channel, ChannelStatus, not_present, closed, opened, Offer, set_channel, post, free_gpadl,
  close_channel, free_channel, add_device, remove_device, bad_channel_id, with_signalling,
  version_ws2008,
}

-- The transmit ring starts at the buffer: it is null exactly if there is none.
abbrev pub StartsAt : Option DmaBuffer → Option ℕ → Type 0
StartsAt none none = Unit {0}
StartsAt (some _) (some offset) = offset ≡ 0
StartsAt _ _ = ⊥

-- What an open channel must be: its number is proper, its transmit ring starts at its buffer, and
-- its receive ring stands where its page index says.
abbrev pub OpenIsReady : ℕ → Channel → Type 0
OpenIsReady id c =
    c.status ≡ opened
    → (0 < id)
      × (id < 256)
      × StartsAt c.data_buffer c.tx_buffer
      × (c.rx_buffer ≡ some (4096 * c.rx_page_index))

abbrev pub IsReady : Vmbus → Type 0
IsReady vb = (id : ℕ) → OpenIsReady id (vb.channels id)

-- A channel put in the table keeps the table ready if it is ready itself.
pub set_channel-IsReady :
    (id : ℕ) (c : Channel) (vb : Vmbus)
    → IsReady vb
    → OpenIsReady id c
    → IsReady (set_channel id c vb)
unfolding set_channel
set_channel-IsReady id c vb v h k = elim (Bool-cases (k == id)) [
  | inl e ↦ rw e (subst (λ j. OpenIsReady j c) (sym ((==_iff k id).0 e)) h)
  | inr e ↦ rw e (v k)
]

pub set-closed :
    (id : ℕ) (c : Channel) (vb : Vmbus)
    → IsReady vb
    → c.status ≢ opened
    → IsReady (set_channel id c vb)
set-closed id c vb v h = set_channel-IsReady id c vb v (λ e. absurd (h e))

pub post-IsReady :
    (b : Bool) (m : MessageType) (id : ℕ) (vb : Vmbus) → IsReady vb → IsReady (post b m id vb)
post-IsReady true m id vb v = v
post-IsReady false m id vb v = v

free_gpadl-IsReady :
    (b : Bool) (id handle : ℕ) (vb : Vmbus) → IsReady vb → IsReady (free_gpadl b id handle vb).1
unfolding free_gpadl
free_gpadl-IsReady b id handle vb v = elim (Bool-cases (bad_channel_id id)) [
  | inl e ↦ rw e v
  | inr e ↦ rw e (post-IsReady b gpadl_teardown id vb v)
]

pub Status-cases : (s : ChannelStatus) → (s ≡ not_present) ⊎ (s ≡ closed) ⊎ (s ≡ opened)
Status-cases not_present = inl refl
Status-cases closed = inr (inl refl)
Status-cases opened = inr (inr refl)

IsOpened : ChannelStatus → Type 0
IsOpened opened = Unit {0}
IsOpened _ = ⊥

pub closed≢opened : closed ≢ opened
unfolding IsOpened
closed≢opened e = subst IsOpened (sym e) tt

not_present≢opened : not_present ≢ opened
unfolding IsOpened
not_present≢opened e = subst IsOpened (sym e) tt

pub close-IsReady :
    (id : ℕ) (a b : Bool) (vb : Vmbus) → IsReady vb → IsReady (close_channel a b id vb).1
unfolding close_channel
close-IsReady id a b vb v = elim (Bool-cases (bad_channel_id id)) [
  | inl e ↦ rw e v
  | inr e ↦ elim (Status-cases (vb.channels id).status) [
    | inl s ↦ rw (e, s) v
    | inr (inl s) ↦ rw (e, s) v
    | inr (inr s) ↦
        rw (e, s)
          (set-closed id _ _
            (free_gpadl-IsReady b id (vb.channels id).data_gpadl_handle _
              (post-IsReady a channel_close id vb v))
            closed≢opened)
  ]
]

pub free-IsReady : (id : ℕ) (b : Bool) (vb : Vmbus) → IsReady vb → IsReady (free_channel b id vb)
unfolding free_channel
free-IsReady id b vb v = set-closed id _ _ (post-IsReady b channel_free id vb v) not_present≢opened

with_signalling_status : (n : ℕ) (c : Channel) → (with_signalling n c).status ≡ c.status
with_signalling_status n c = elim (Bool-cases (ltb version_ws2008 n)) [
  | inl e ↦ rw e refl
  | inr e ↦ rw e refl
]

pub add-IsReady :
    (registers : Bool) (offer : Offer) (vb : Vmbus)
    → IsReady vb
    → IsReady (add_device registers offer vb).1
unfolding add_device
add-IsReady registers offer vb v = elim (Bool-cases (leb max_channels offer.channel_id)) [
  | inl e ↦ rw e v
  | inr e ↦ elim (Status-cases (vb.channels offer.channel_id).status) [
    | inl s ↦ elim (Bool-cases registers) [
      | inl r ↦
          rw (e, s, r)
            (set-closed offer.channel_id _ _ v (λ o. closed≢opened (
              sym (
                with_signalling_status vb.version (record (vb.channels offer.channel_id) {
                  offer = offer;
                  status = closed;
                  has_device_nub = true;
                }))
              ∙ o)))
      | inr r ↦ rw (e, s, r) (set-closed offer.channel_id _ _ v not_present≢opened)
    ]
    | inr (inl s) ↦ rw (e, s) v
    | inr (inr s) ↦ rw (e, s) v
  ]
]

-- The channel without its nub.
without_nub : Bool → ℕ → Vmbus → Vmbus
without_nub b id vb =
    if b then set_channel id (record (vb.channels id) { has_device_nub = false }) vb else vb

without_nub-IsReady : (b : Bool) (id : ℕ) (vb : Vmbus) → IsReady vb → IsReady (without_nub b id vb)
unfolding without_nub
without_nub-IsReady true id vb v =
    set_channel-IsReady id (record (vb.channels id) { has_device_nub = false }) vb v (v id)
without_nub-IsReady false id vb v = v

pub remove-IsReady : (id : ℕ) (vb : Vmbus) → IsReady vb → IsReady (remove_device id vb)
unfolding remove_device without_nub
remove-IsReady id vb v = elim (Bool-cases (leb max_channels id)) [
  | inl e ↦ rw e v
  | inr e ↦
      rw e
        (elim (vb.channels id).status
          as (λ s.
            IsReady (elim s [
              | not_present ↦ vb
              | _ ↦ without_nub (vb.channels id).has_device_nub id vb
            ])) [
              | not_present ↦ v
              | _ ↦ without_nub-IsReady (vb.channels id).has_device_nub id vb v
            ])
]
