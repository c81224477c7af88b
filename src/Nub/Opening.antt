-- ===== src/Nub/Opening.antt =====
-- Opening and closing a nub's channel, and installing its packet handlers:
-- MacHyperVSupport/VMBusDevice/HyperVVMBusDevice.cpp and `openVMBusChannelGated`.
use mac_hyper_vsupport.Common.{
  ℕ, ◌≡◌, refl, [], Bool, true, false, ◌||◌, not, ◌==◌, if◌then◌else◌, Option, none, some, ◌⊎◌, inl,
  inr,
}
use mac_hyper_vsupport.Ring.{Ring}
use mac_hyper_vsupport.Transfer.{
  IoReturn, success, bad_argument, exclusive_access, no_resources, still_open,
}
use mac_hyper_vsupport.Nub.{Nub}

-- `installPacketActions`: whether target and handler are there, the first size of the packet buffer,
-- whether an interrupt is wanted, whether the ring is to be flushed, and whether the interrupt source
-- can be made. The buffer is not cleared, and is listed without contents.
unfoldable pub install_packet_actions : Bool → ℕ → Bool → Bool → Bool → Nub → IoReturn × Nub
install_packet_actions given length registers flushes made n =
    let n₁ = record n {
      rx_packet_buffer_length = length;
      rx_packet_buffer = some [];
      has_packet_actions = true;
      should_flush_packets = flushes;
    } in
    if not given
    then (bad_argument, n)
    else (if n.has_packet_actions
        then (exclusive_access, n)
        else (if not registers
            then (success, n₁)
            else (if made
                then (success, record n₁ { has_interrupt_source = true })
                else (no_resources, record n₁ { has_interrupt_source = false }))))

-- `uninstallPacketActions`.
unfoldable pub uninstall_packet_actions : Nub → Nub
uninstall_packet_actions n = record n {
  has_interrupt_source = false;
  has_packet_actions = false;
  rx_packet_buffer = none;
}

-- `openVMBusChannelGated`, behind the provider's answer: an error, or the two ring pointers,
-- which are null if the provider's allocation failed unnoticed.
unfoldable pub provided_rings : IoReturn ⊎ (Option Ring × Option Ring) → Nub → IoReturn × Nub
provided_rings (inl e) n = (e, n)
provided_rings (inr (tx, rx)) n =
    (success, record n { tx_buffer = tx; rx_buffer = rx; channel_is_open = true })

-- `openVMBusChannel`.
unfoldable pub open_nub : ℕ → ℕ → ℕ → IoReturn ⊎ (Option Ring × Option Ring) → Nub → IoReturn × Nub
open_nub tx_size rx_size max_auto_trans_id provided n =
    let n₁ = record n {
      max_auto_trans_id = max_auto_trans_id;
      tx_buffer_size = tx_size;
      rx_buffer_size = rx_size;
    } in
    if tx_size == 0 || rx_size == 0
    then (bad_argument, n)
    else (if n.channel_is_open then (still_open, n) else provided_rings provided n₁)

abbrev pub without_rings : Nub → Nub
without_rings n = record n {
  channel_is_open = false;
  tx_buffer = none;
  tx_buffer_size = 0;
  rx_buffer = none;
  rx_buffer_size = 0;
}

-- `closeVMBusChannel`, over the provider's status.
unfoldable pub close_nub : IoReturn → Nub → IoReturn × Nub
close_nub status n = if not n.channel_is_open then (success, n) else (status, without_rings n)

-- On a nub without handlers, an installation whose interrupt source cannot be made fails for lack
-- of resources, and the next installation is refused as if handlers were there.
pub install_packet_actions_stuck :
    (first later : ℕ) (flushes registers made again : Bool) (n : Nub)
    → n.has_packet_actions ≡ false
    → let (status, n') = install_packet_actions true first true flushes false n in
      (status ≡ no_resources)
      × ((install_packet_actions true later registers again made n').0 ≡ exclusive_access)
unfolding install_packet_actions
install_packet_actions_stuck first later flushes registers made again n h = rw h (refl, refl)
