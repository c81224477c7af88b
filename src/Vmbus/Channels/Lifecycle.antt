-- ===== src/Vmbus/Channels/Lifecycle.antt =====
-- The life of a channel of MacHyperVSupport/VMBus, over every operation on the table.
use mac_hyper_vsupport.Common.{
  ℕ, ◌<◌, ◌≡◌, ◌≢◌, refl, sym, ◌∙◌, arith, Bool, true, false, Option, none, some, ◌==◌, inl, inr,
  Bool-cases, ◌||◌, subst, not, ◌%◌, Option-cases, add32,
}
use mac_hyper_vsupport.Vmbus.Channels.Ready.{
  IsReady, StartsAt, set_channel-IsReady, set-closed, post-IsReady, Status-cases, closed≢opened,
  close-IsReady, free-IsReady, add-IsReady, remove-IsReady,
}
use mac_hyper_vsupport.Transfer.{IoReturn, success}
use mac_hyper_vsupport.Vmbus.{page_size, channel_open}
use mac_hyper_vsupport.Vmbus.Gpadl.{DmaBuffer, init_gpadl, GpadlResult}
use mac_hyper_vsupport.Vmbus.Channels.{
  Vmbus, Channel, closed, opened, Offer, OpenHost, Opening, set_channel, finish_open, free_buffers,
  handle_or, ring_size, allocated_buffer, dma_fields, start_of, open_with_buffers, open_channel,
  close_channel, free_channel, add_device, remove_device, bad_channel_id,
}

-- One operation on the table.
pub data Step (vb : Vmbus) : Vmbus → Type 0 where
  opens :
      (id tx_size rx_size : ℕ) (has_tx has_rx : Bool) (host : OpenHost) (r : Opening)
      → open_channel vb id tx_size has_tx rx_size has_rx host ≡ some r
      → Step vb r.2
  closes :
      (id : ℕ) (close_posts teardown_posts : Bool)
      → Step vb (close_channel close_posts teardown_posts id vb).1
  frees : (id : ℕ) (posts : Bool) → Step vb (free_channel posts id vb)
  adds : (registers : Bool) (offer : Offer) → Step vb (add_device registers offer vb).1
  removes : (id : ℕ) → Step vb (remove_device id vb)

bad_channel_id_lem : (id : ℕ) → bad_channel_id id ≡ false → (0 < id) × (id < 256)
bad_channel_id_lem id h = ground arith

start_of-StartsAt : (b : Option DmaBuffer) → StartsAt b (start_of b)
start_of-StartsAt none = tt
start_of-StartsAt (some b) = refl

finish_open-IsReady :
    (vb : Vmbus) (id : ℕ) (c : Channel) (tx_size rx_size : ℕ) (host : OpenHost)
    → IsReady vb
    → bad_channel_id id ≡ false
    → c.status ≡ closed
    → IsReady (finish_open vb id c tx_size rx_size host).2
unfolding finish_open
finish_open-IsReady vb id c tx_size rx_size host v b s =
    let shut = λ (o : c.status ≡ opened). closed≢opened (sym s ∙ o) in
    let (pos, small) = bad_channel_id_lem id b in
    elim (Bool-cases host.open_posted) [
      | inl p ↦ elim (Bool-cases (host.open_status == 0)) [
        | inl q ↦
            rw (p, q)
              (set_channel-IsReady id _ _ (post-IsReady true channel_open id vb v)
                (λ _. (pos, small, start_of-StartsAt c.data_buffer, refl)))
        | inr q ↦ rw (p, q) (set-closed id _ _ (post-IsReady true channel_open id vb v) shut)
      ]
      | inr p ↦ rw p (set-closed id _ _ v shut)
    ]

open_with_buffers-IsReady :
    (vb : Vmbus) (id : ℕ) (c : Channel) (tx_size rx_size : ℕ) (host : OpenHost) (g : GpadlResult)
    → IsReady vb
    → bad_channel_id id ≡ false
    → c.status ≡ closed
    → IsReady (open_with_buffers vb id c tx_size rx_size host g).2
unfolding open_with_buffers
open_with_buffers-IsReady vb id c tx_size rx_size host g v b s =
    let vb₁ = record vb { next_gpadl_handle = g.next_gpadl_handle } in
    let c₁ = record c { data_gpadl_handle = handle_or c.data_gpadl_handle g.gpadl_handle } in
    let stays = set-closed id (free_buffers c₁) vb₁ v (λ o. closed≢opened (sym s ∙ o)) in
    elim g.status
      as (λ (st : IoReturn).
        IsReady
          (elim st as (λ _. Opening) [
            | success ↦ finish_open vb₁ id c₁ tx_size rx_size host
            | e ↦ (e, none, set_channel id (free_buffers c₁) vb₁)
          ]).2) [ success ↦ finish_open-IsReady vb₁ id c₁ tx_size rx_size host v b s | _ ↦ stays ]

first_guard : (a b c d e : Bool) → (a || b || c || d || e) ≡ false → a ≡ false
first_guard a b c d e h = ground arith

-- No opening, or one that leaves a ready table.
LeavesReady : Option Opening → Type 0
LeavesReady none = Unit {0}
LeavesReady (some r) = IsReady r.2

open-LeavesReady :
    (vb : Vmbus) (id tx_size rx_size : ℕ) (has_tx has_rx : Bool) (host : OpenHost)
    → IsReady vb
    → LeavesReady (open_channel vb id tx_size has_tx rx_size has_rx host)
unfolding open_channel LeavesReady
open-LeavesReady vb id tx_size rx_size has_tx has_rx host v =
    let data_new : DmaBuffer = record {
      phys_addr = host.data_addr;
      size = add32 (ring_size tx_size) (ring_size rx_size);
    } in
    let ring_memory = allocated_buffer host.data_allocated data_new (vb.channels id).data_buffer in
    elim (Bool-cases
      (bad_channel_id id || tx_size == 0 || not has_tx || rx_size == 0 || not has_rx)) [
        | inl e ↦ rw e v
        | inr e ↦
            elim (Bool-cases (not (tx_size % page_size == 0) || not (rx_size % page_size == 0))) [
              | inl a ↦ rw (e, a) v
              | inr a ↦ elim (Status-cases (vb.channels id).status) [
                | inl s ↦ rw (e, a, s) v
                | inr (inr s) ↦ rw (e, a, s) v
                | inr (inl s) ↦
                    elim (Option-cases (
                      init_gpadl host.delivery host.created vb.next_gpadl_handle id
                        (some (dma_fields ring_memory)))) [
                          | inl i ↦ rw (e, a, s, i) tt
                          | inr (g, i) ↦
                              rw (e, a, s, i)
                                (open_with_buffers-IsReady vb id _ tx_size rx_size host g v
                                  (first_guard _ _ _ _ _ e) s)
                        ]
              ]
            ]
      ]

opens-IsReady :
    (vb : Vmbus) (id tx_size rx_size : ℕ) (has_tx has_rx : Bool) (host : OpenHost) (r : Opening)
    → IsReady vb
    → open_channel vb id tx_size has_tx rx_size has_rx host ≡ some r
    → IsReady r.2
unfolding LeavesReady
opens-IsReady vb id tx_size rx_size has_tx has_rx host r v e =
    subst LeavesReady e (open-LeavesReady vb id tx_size rx_size has_tx has_rx host v)

-- Every operation on the channels keeps the table ready.
pub Step-IsReady : {vb vb₁ : Vmbus} → Step vb vb₁ → IsReady vb → IsReady vb₁
Step-IsReady {vb} (opens id tx_size rx_size has_tx has_rx host r e) v =
    opens-IsReady vb id tx_size rx_size has_tx has_rx host r v e
Step-IsReady {vb} (closes id a b) v = close-IsReady id a b vb v
Step-IsReady {vb} (frees id b) v = free-IsReady id b vb v
Step-IsReady {vb} (adds registers offer) v = add-IsReady registers offer vb v
Step-IsReady {vb} (removes id) v = remove-IsReady id vb v

-- The tables that operations lead to.
pub data Reach (vb : Vmbus) : Vmbus → Type 0 where
  start : Reach vb vb
  then_step : {mid after : Vmbus} → Reach vb mid → Step mid after → Reach vb after

-- From a table without an open channel, whatever channels are then offered, rescinded, opened,
-- closed and freed, however the host answers and whatever can be allocated, a channel that is
-- open has a number from 1 to 255, its receive ring stands at its page index, and its transmit
-- ring at the start of its buffer: it is null exactly if the buffer was not allocated.
pub Reach-IsReady :
    {vb after : Vmbus}
    → Reach vb after
    → ((k : ℕ) → (vb.channels k).status ≢ opened)
    → IsReady after
Reach-IsReady start h = λ k o. absurd (h k o)
Reach-IsReady (then_step r s) h = Step-IsReady s (Reach-IsReady r h)
