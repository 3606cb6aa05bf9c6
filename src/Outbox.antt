-- ===== src/Outbox.antt =====
-- Events for consumers, written to the table `webhook_deliveries` and posted to them: outbox.
pub mod Repository
pub mod Dispatcher
mod Tests
