-- ===== src/Cluster.antt =====
-- What the workers agree on through Redis: infra/cluster.
pub mod Ownership
pub mod Deadlines
pub mod Inbox
mod Tests
