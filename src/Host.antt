-- ===== src/Host.antt =====
-- `rust/src/core/host`: the host's side of a simulation.
pub mod Accelerator
pub mod Plugin
pub mod Configuration
pub mod Simulation
pub mod Reproduction
pub mod Simulator
