-- ===== src/Network.antt =====
-- The network driver: `HyperVNetwork` of MacHyperVSupport/Network.
pub mod Sections
pub mod Output
pub mod Buffers
pub mod Filter
pub mod Link
pub mod Rndis
pub mod Receive
