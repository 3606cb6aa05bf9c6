-- ===== src/Channels/Lines.antt =====
-- core/channels/ChannelIngress.js: a channel's row, and what the handlers of its events do besides the
-- statements on calls.
use callio.Prelude.{ℕ, String, Bool, false, Option, none, some, List, [], map}
use callio.Store.Rows.{ChannelType, TerminationReason, TerminatedBy, Call, Db, is_id, find_call}
use callio.Lifecycle.Termination.{Ending, Effect, no_notice, broadcast, settle}

-- A row of `channels`: the columns that the handlers read.
pub record Line : Type 0 where
  pub id : ℕ
  pub tenant_id : ℕ
  pub type : ChannelType
  pub owner_agent_id : Option ℕ
  pub inbound_queue_id : Option ℕ

-- The states that a provider reports for a call; it may report others.
pub data ProviderStatus : Type 0 where
  rings accepts rejects fails : ProviderStatus
  other : String → ProviderStatus

pub data Act : Type 0 where
  effect : Effect → Act
  customer_joined error_told : ℕ → Act
  miss_recorded : ℕ → ℕ → Act
  status_told : ℕ → ProviderStatus → Act
  handled_told waiting_told line_ring_set : ℕ → Act
  offered_to ivr_started : ℕ → ℕ → Act
  offered_to_all : ℕ → List ℕ → Act

pub record Outcome : Type 0 where
  pub db : Db
  pub acts : List Act

-- `_belongsTo`
unfoldable pub belongs_to : Call → Line → Bool
belongs_to call line = is_id call.channel_id line.id

-- `settle` for a call whose end a provider reported: the provider is told nothing.
abbrev pub provider_ending : TerminationReason → TerminatedBy → Ending
provider_ending reason by = record {
  reason = reason;
  terminated_by = by;
  failure = false;
  only_if_status = none;
  provider = no_notice;
  media = broadcast;
  agent_goes_offline = false;
}

unfoldable pub settle_acts : Call → TerminationReason → TerminatedBy → List Act
settle_acts call reason by = map effect (settle call (provider_ending reason by))

-- `settle` on an id: the row is read first.
unfoldable pub settle_by_id : ℕ → TerminationReason → TerminatedBy → Db → List Act
settle_by_id id reason by db = elim (find_call id db.calls) [
  | none ↦ []
  | some c ↦ settle_acts c reason by
]
