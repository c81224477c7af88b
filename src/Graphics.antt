-- ===== src/Graphics.antt =====
-- The graphics driver: `HyperVGraphics` of MacHyperVSupport/Graphics.
pub mod Dirty
pub mod Display
pub mod Cursor
pub mod Packets
