-- ===== src/Store/Rows.antt =====
-- Rows of the tables `calls` and `agents` (migrations/20260925000010_create_calls_table.js and
-- 20260925000003_create_agents_table.js), and the update of one row. Times are seconds.
pub mod Laws
use callio.Prelude.{
  ℕ, String, Bool, true, false, ◌&&◌, ◌||◌, not, Option, none, some, List, [], ◌∷◌, ◌==◌, ltb, leb,
  if◌then◌else◌,
}

pub data Status : Type 0 where
  initiated ringing in_progress terminated failed : Status

pub data State : Type 0 where
  ivr queue active on_hold : State

pub data Direction : Type 0 where
  inbound outbound : Direction

pub data ChannelType : Type 0 where
  whatsapp sip : ChannelType

pub data TerminationReason : Type 0 where
  completed no_answer timeout cancelled rejected busy agent_disconnected agent_media_not_ready
        system_error service_maintenance network_error customer_network_loss provider_error
        provider_trigger_failed ivr_agent_no_answer :
      TerminationReason

pub data TerminatedBy : Type 0 where
  agent system customer provider consumer : TerminatedBy

pub record Call : Type 0 where
  pub id : ℕ
  pub tenant_id : ℕ
  pub channel_id : Option ℕ
  pub channel : ChannelType
  pub customer_address : Option String
  pub queue_id : Option ℕ
  pub agent_id : Option ℕ
  pub ivr_flow_id : Option ℕ
  pub provider_call_id : Option String
  pub state : Option State
  pub direction : Direction
  pub status : Status
  pub ringing_at : Option ℕ
  pub queued_at : Option ℕ
  pub offered_at : Option ℕ
  pub answered_at : Option ℕ
  pub ended_at : Option ℕ
  pub ringing_duration : ℕ
  pub call_duration : ℕ
  pub overflow_count : ℕ
  pub termination_reason : Option TerminationReason
  pub terminated_by : Option TerminatedBy

-- The column `availability`: the shift, with the old value that counts as on shift.
pub data Availability : Type 0 where
  available on_call offline : Availability

pub record Agent : Type 0 where
  pub id : ℕ
  pub tenant_id : ℕ
  pub is_supervisor : Bool
  pub availability : Availability
  pub busy_call_id : Option ℕ
  pub is_deleted : Bool

pub record Db : Type 0 where
  pub calls : List Call
  pub agents : List Agent

-- `status IN ('INITIATED', 'RINGING', 'IN_PROGRESS')`
abbrev pub is_active : Status → Bool
is_active terminated = false
is_active failed = false
is_active _ = true

abbrev pub is_ringing : Status → Bool
is_ringing ringing = true
is_ringing _ = false

abbrev pub is_in_progress : Status → Bool
is_in_progress in_progress = true
is_in_progress _ = false

abbrev pub is_initiated : Status → Bool
is_initiated initiated = true
is_initiated _ = false

abbrev pub is_failed : Status → Bool
is_failed failed = true
is_failed _ = false

abbrev pub is_terminated : Status → Bool
is_terminated terminated = true
is_terminated _ = false

abbrev pub is_inbound : Direction → Bool
is_inbound inbound = true
is_inbound outbound = false

abbrev pub is_active_state : Option State → Bool
is_active_state (some active) = true
is_active_state _ = false

-- `state IS NULL OR state != 'IVR'`
abbrev pub is_not_ivr : Option State → Bool
is_not_ivr none = true
is_not_ivr (some ivr) = false
is_not_ivr (some _) = true

abbrev pub is_ivr : Option State → Bool
is_ivr (some ivr) = true
is_ivr _ = false

abbrev pub is_null {ℓ} : {A : Type ℓ} → Option A → Bool
is_null none = true
is_null (some _) = false

-- `column = ?` for a column that may be null, and the null-safe `column <=> ?`.
abbrev pub is_id : Option ℕ → ℕ → Bool
is_id none n = false
is_id (some m) n = m == n

abbrev pub same_id : Option ℕ → Option ℕ → Bool
same_id none none = true
same_id (some m) (some n) = m == n
same_id _ _ = false

-- `column <= ?`, false for a null.
abbrev pub at_most : Option ℕ → ℕ → Bool
at_most none t = false
at_most (some s) t = leb s t

abbrev pub coalesce {ℓ} : {A : Type ℓ} → Option A → Option A → Option A
coalesce none b = b
coalesce (some a) b = some a

unfoldable pub find_call : ℕ → List Call → Option Call
find_call id [] = none
find_call id (c ∷ cs) = if c.id == id then some c else find_call id cs

unfoldable pub put_call : Call → List Call → List Call
put_call c' [] = []
put_call c' (c ∷ cs) = if c.id == c'.id then c' ∷ cs else c ∷ put_call c' cs

unfoldable pub find_agent : ℕ → List Agent → Option Agent
find_agent id [] = none
find_agent id (a ∷ as') = if a.id == id then some a else find_agent id as'

unfoldable pub put_agent : Agent → List Agent → List Agent
put_agent a' [] = []
put_agent a' (a ∷ as') = if a.id == a'.id then a' ∷ as' else a ∷ put_agent a' as'

-- `UPDATE calls SET … WHERE id = ? AND guard`, with whether a row was affected.
unfoldable pub update_call : ℕ → (Call → Bool) → (Call → Call) → Db → Db × Bool
update_call id guard assign db = elim (find_call id db.calls) [
  | none ↦ (db, false)
  | some c ↦
      if guard c then (record db { calls = put_call (assign c) db.calls }, true) else (db, false)
]

unfoldable pub update_agent : ℕ → (Agent → Bool) → (Agent → Agent) → Db → Db × Bool
update_agent id guard assign db = elim (find_agent id db.agents) [
  | none ↦ (db, false)
  | some a ↦
      if guard a then (record db { agents = put_agent (assign a) db.agents }, true) else (db, false)
]
