-- ===== src/Lifecycle.antt =====
-- What happens to a call outside its queue: core/calls.
pub mod Termination
pub mod NetworkLoss
pub mod Access
mod Tests
