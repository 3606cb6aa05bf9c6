-- ===== src/Routing.antt =====
-- Where a call goes, who is offered it and how long it waits: core/routing.
pub mod Members
pub mod OfferHistory
pub mod Picking
pub mod QueueOrder
pub mod Inbound
pub mod AutoOffline
pub mod Waiting
pub mod Coordinator
mod Tests
