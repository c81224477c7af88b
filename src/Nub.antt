-- ===== src/Nub.antt =====
-- The VMBus device nub: `HyperVVMBusDevice` of MacHyperVSupport/VMBusDevice.
pub mod Requests
pub mod Transactions
pub mod Send
pub mod Opening
pub mod Delivery
pub mod Pages
pub mod Interrupt
use mac_hyper_vsupport.Common.{ℕ, List, Bool, Option}
use mac_hyper_vsupport.Ring.{Ring}

-- `HyperVVMBusDeviceRequest`: a thread that sleeps on a transaction, and the buffer for its answer.
pub record Request : Type 0 where
  pub transaction_id : ℕ
  pub response_data : List ℕ
  pub response_data_length : ℕ

-- The state of a nub. A buffer is `none` while its pointer is null.
pub record Nub : Type 0 where
  pub channel_is_open : Bool
  pub tx_buffer : Option Ring
  pub tx_buffer_size : ℕ
  pub rx_buffer : Option Ring
  pub rx_buffer_size : ℕ
  pub has_packet_actions : Bool
  pub has_interrupt_source : Bool
  pub should_flush_packets : Bool
  pub rx_packet_buffer : Option (List ℕ)
  pub rx_packet_buffer_length : ℕ
  -- The linked list of sleeping requests, its head first.
  pub requests : List Request
  -- Those that were taken off it and woken, the last one first.
  pub woken : List Request
  pub trans_id : ℕ
  pub max_auto_trans_id : ℕ
  -- How often `signalVMBusChannel` was called for the channel.
  pub signals : ℕ
