-- ===== src/Tests.antt =====
-- Small runs of the model of MacHyperVSupport, and the
-- properties at concrete inputs.
mod Data
mod Rings
mod Nubs
mod Channels
mod Components
mod Clients
mod Drivers
mod Disks
mod Screens
