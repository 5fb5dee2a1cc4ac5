-- ===== src/Bindings.antt =====
-- `rust/src/bindings`: the C interface, whose callers name every object by a handle.
pub mod Object
pub mod State
pub mod Interfaces
pub mod Calls
pub mod Qbset
pub mod Mset
pub mod Queue
pub mod Handle
pub mod Lifetime
pub mod Program
pub mod Sets
pub mod Arb
