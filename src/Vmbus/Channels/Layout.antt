-- ===== src/Vmbus/Channels/Layout.antt =====
-- Where `openVMBusChannel` of MacHyperVSupport/VMBus/HyperVVMBusChannel.cpp puts the two rings.
use mac_hyper_vsupport.Common.{
  ℕ, ◌+◌, ◌*◌, ◌%◌, ◌^◌, ◌≤◌, ◌<◌, ◌≡◌, ◌≢◌, refl, ap, ◌∙◌, arith, true, Option, some, ==_self,
  ne→==_false, lt→leb_false, add32, add32,
}
use mac_hyper_vsupport.Transfer.{success}
use mac_hyper_vsupport.Vmbus.{channel_open}
use mac_hyper_vsupport.Vmbus.Gpadl.{DmaBuffer, posted}
use mac_hyper_vsupport.Vmbus.Gpadl.Pages.{init_gpadl-Covers}
use mac_hyper_vsupport.Vmbus.Channels.{
  Vmbus, Channel, closed, opened, OpenHost, Opening, ring_size, rx_page_index_of, finish_open,
  open_with_buffers, open_channel, set_channel, post, handle_or, start_of,
}

-- A channel id and page counts that `openVMBusChannel` takes, on a closed channel, with a host that
-- answers everything.
pub record CanOpen (vb : Vmbus) (id tx_pages rx_pages : ℕ) (host : OpenHost) : Type 0 where
  pub id_pos : 0 < id
  pub id_small : id < 256
  pub tx_pos : 0 < tx_pages
  pub rx_pos : 0 < rx_pages
  pub total : tx_pages + rx_pages ≤ 8190
  pub allocated : host.data_allocated ≡ true
  pub is_closed : (vb.channels id).status ≡ closed
  pub addr : host.data_addr < 2 ^ 63
  pub delivery : (k : ℕ) → host.delivery k ≡ posted
  pub created : host.created ≡ 0
  pub open_posted : host.open_posted ≡ true
  pub open_status : host.open_status ≡ 0

-- What a successful opening leaves.
pub record Opened (vb : Vmbus) (id rx_pages : ℕ) (r : Option Opening) : Type 0 where
  pub after : Vmbus
  pub result : r ≡ some (success, some (some 0, (rx_pages + 1) * 4096), after)
  pub is_open : (after.channels id).status ≡ opened
  pub tx_buffer : (after.channels id).tx_buffer ≡ some 0
  pub rx_buffer : (after.channels id).rx_buffer ≡ some ((rx_pages + 1) * 4096)
  pub handle : (after.channels id).data_gpadl_handle ≡ vb.next_gpadl_handle
  pub others : (k : ℕ) → k ≢ id → after.channels k ≡ vb.channels k

set_channel_self : (id : ℕ) (c : Channel) (vb : Vmbus) → (set_channel id c vb).channels id ≡ c
unfolding set_channel
set_channel_self id c vb = rw (==_self id)

set_channel_ne :
    (id k : ℕ) (c : Channel) (vb : Vmbus)
    → k ≢ id
    → (set_channel id c vb).channels k ≡ vb.channels k
unfolding set_channel
set_channel_ne id k c vb h = rw (ne→==_false k id h)

rx_page_index_lem :
    (tx_pages rx_pages : ℕ)
    → tx_pages + rx_pages ≤ 8190
    → rx_page_index_of (tx_pages * 4096) (rx_pages * 4096) ≡ rx_pages + 1
rx_page_index_lem tx_pages rx_pages h = omega arith

-- The channel behind a successful end of the opening.
abbrev opened_channel : ℕ → Channel → Channel
opened_channel rx_pages c = record c {
  status = opened;
  tx_buffer = some 0;
  rx_buffer = some ((rx_pages + 1) * 4096);
  rx_page_index = rx_pages + 1;
}

finish_open_lem :
    (vb : Vmbus) (id : ℕ) (c : Channel) (tx_pages rx_pages : ℕ) (host : OpenHost)
    → start_of c.data_buffer ≡ some 0
    → tx_pages + rx_pages ≤ 8190
    → host.open_posted ≡ true
    → host.open_status ≡ 0
    → finish_open vb id c (tx_pages * 4096) (rx_pages * 4096) host ≡ (
      success,
      some (some 0, (rx_pages + 1) * 4096),
      set_channel id (opened_channel rx_pages c) (post true channel_open id vb),
    )
unfolding finish_open
finish_open_lem vb id c tx_pages rx_pages host starts total posts answered =
    let p : 4096 * (rx_pages + 1) ≡ (rx_pages + 1) * 4096 = omega arith in
    rw (rx_page_index_lem tx_pages rx_pages total, posts, answered, p, starts)

-- The end of the opening, on a table with the same channels.
finish_open-Opened :
    (vb v : Vmbus) (id : ℕ) (c : Channel) (tx_pages rx_pages : ℕ) (host : OpenHost)
    → start_of c.data_buffer ≡ some 0
    → tx_pages + rx_pages ≤ 8190
    → host.open_posted ≡ true
    → host.open_status ≡ 0
    → v.channels ≡ vb.channels
    → c.data_gpadl_handle ≡ vb.next_gpadl_handle
    → Opened vb id rx_pages (some (finish_open v id c (tx_pages * 4096) (rx_pages * 4096) host))
finish_open-Opened vb v id c tx_pages rx_pages host starts total posts answered same handle =
    rw (finish_open_lem v id c tx_pages rx_pages host starts total posts answered) (record {
      after = _;
      result = refl;
      is_open = ap (λ d. d.status) (set_channel_self id _ _);
      tx_buffer = ap (λ d. d.tx_buffer) (set_channel_self id _ _);
      rx_buffer = ap (λ d. d.rx_buffer) (set_channel_self id _ _);
      handle = ap (λ d. d.data_gpadl_handle) (set_channel_self id _ _) ∙ handle;
      others = λ k ne. set_channel_ne id k _ _ ne ∙ ap (λ t. t k) same;
    })

allocated : Vmbus → ℕ → ℕ → ℕ → OpenHost → DmaBuffer
allocated vb id tx_pages rx_pages host = record {
  phys_addr = host.data_addr;
  size = add32 (ring_size (tx_pages * 4096)) (ring_size (rx_pages * 4096));
}

-- Opening a closed channel with a proper number, with rings of at least a page and of 8190 pages
-- together at most, succeeds if the buffer for them can be allocated and lies below 2 ^ 63 and
-- the host takes and answers every message. The channel is open under the next GPADL handle, no
-- other channel changes, and the rings start at byte 0 of the buffer and behind as many pages as
-- the receive ring has with its state page.
pub open_channel-Opened :
    (vb : Vmbus) (id tx_pages rx_pages : ℕ) (host : OpenHost)
    → CanOpen vb id tx_pages rx_pages host
    → Opened vb id rx_pages (open_channel vb id (tx_pages * 4096) true (rx_pages * 4096) true host)
unfolding open_channel open_with_buffers allocated
open_channel-Opened vb id tx_pages rx_pages host h =
    let a : tx_pages * 4096 % 4096 ≡ 0 = omega arith in
    let b : rx_pages * 4096 % 4096 ≡ 0 = omega arith in
    let buffer = allocated vb id tx_pages rx_pages host in
    let total = h.total in
    let (g, is, st, handle, _) =
      init_gpadl-Covers host.delivery vb.next_gpadl_handle id (tx_pages + rx_pages + 2) buffer
        h.delivery h.id_pos h.id_small (omega arith) (omega arith) h.addr in
    rw
      (
        ne→==_false id 0 (λ z. absurd (omega (arith, h.id_pos, z))),
        lt→leb_false 256 id h.id_small,
        ne→==_false (tx_pages * 4096) 0 (λ z. absurd (omega (arith, h.tx_pos, z))),
        ne→==_false (rx_pages * 4096) 0 (λ z. absurd (omega (arith, h.rx_pos, z))),
        a,
        b,
        h.is_closed,
        h.allocated,
        h.created,
      )
      (rw is (
        rw (st, open_with_buffers)
          (finish_open-Opened vb _ id _ tx_pages rx_pages host (rw h.allocated refl) total
            h.open_posted h.open_status refl
            (ap (handle_or (vb.channels id).data_gpadl_handle) handle))))
