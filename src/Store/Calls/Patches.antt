-- ===== src/Store/Calls/Patches.antt =====
-- persistence/CallRepository.js: the statements without a guard on the status that patch a call's times, and
-- the insert of a new row.
use callio.Prelude.{
  ℕ, String, Bool, true, false, some, none, Option, List, [], ◌∷◌, ◌++◌, ◌===◌, ◌&&◌, find,
}
use callio.Store.Rows.{TerminatedBy, Call, ChannelType, whatsapp, sip, Db, is_failed, update_call}
use callio.Store.Calls.{correct_no_answer_if_answered}

-- The fields that `updateTimestamp` accepts.
pub data Stamp : Type 0 where
  ringing_stamp answered_stamp ended_stamp : Stamp

abbrev stamp : Stamp → ℕ → Call → Call
stamp ringing_stamp t c = record c { ringing_at = some t }
stamp answered_stamp t c = record c { answered_at = some t }
stamp ended_stamp t c = record c { ended_at = some t }

abbrev everyone : Call → Bool
everyone c = true

abbrev healed : Stamp → ℕ → Db → Db
healed answered_stamp id db = (correct_no_answer_if_answered id db).0
healed _ id db = db

unfoldable pub update_timestamp : ℕ → Stamp → ℕ → Db → Db
update_timestamp id field t db = healed field id (update_call id everyone (stamp field t) db).0

-- `updateDuration` of `ringing_duration`.
unfoldable pub update_ringing_duration : ℕ → ℕ → Db → Db
update_ringing_duration id seconds db =
    (update_call id everyone (λ c. record c { ringing_duration = seconds }) db).0

unfoldable pub update_terminated_by_if_failed : ℕ → TerminatedBy → Db → Db
update_terminated_by_if_failed id by db =
    (update_call id (λ c. is_failed c.status) (λ c. record c { terminated_by = some by }) db).0

-- `create`, with the id that the database gives the row.
unfoldable pub create : Call → Db → Db
create c db = record db { calls = db.calls ++ (c ∷ []) }

abbrev pub same_channel : ChannelType → ChannelType → Bool
same_channel whatsapp whatsapp = true
same_channel sip sip = true
same_channel _ _ = false

abbrev pub same_text : Option String → String → Bool
same_text none s = false
same_text (some t) s = t === s

unfoldable pub find_by_provider_call_id : String → ChannelType → List Call → Option Call
find_by_provider_call_id provider_call_id channel calls =
    find (λ c. same_channel c.channel channel && same_text c.provider_call_id provider_call_id)
      calls
