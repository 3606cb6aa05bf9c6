-- ===== src/Store.antt =====
-- The database rows that the workers share: `calls` and `agents`, with the guarded SQL statements of
-- persistence/CallRepository.js and persistence/AgentRepository.js that change them. A statement with
-- `WHERE id = ?` touches the row with that primary key.
pub mod Rows
pub mod Calls
pub mod Agents
mod Tests
