-- ===== src/Routing/Members.antt =====
-- The members of a queue, as QueueRepository.getMembers reads them: each once, with their reported
-- status and their priority in the queue.
use callio.Prelude.{ℕ, Bool, true, false, Option, List, ◌==◌, find}
use callio.Store.Rows.{Availability, available, offline}

pub record Member : Type 0 where
  pub id : ℕ
  pub availability : Availability
  pub priority : Option ℕ

abbrev pub is_available_status : Availability → Bool
is_available_status available = true
is_available_status _ = false

abbrev pub is_offline_status : Availability → Bool
is_offline_status offline = true
is_offline_status _ = false

abbrev pub is_available : Member → Bool
is_available m = is_available_status m.availability

abbrev pub has_id : ℕ → Member → Bool
has_id id m = m.id == id

-- `Map.get` on the members by id.
abbrev pub member_by_id : ℕ → List Member → Option Member
member_by_id id members = find (has_id id) members
