-- ===== src/Channels/Ringing.antt =====
-- The ringing time of a call's row under the reports of its states.
use callio.Prelude.{
  ℕ, ◌≡◌, refl, ◌∙◌, Bool, ◌&&◌, not, inl, inr, some, Bool-cases, Option-cases, get_or,
}
use callio.Store.Rows.{
  Call, Db, is_null, find_call, update_call, is_active, is_in_progress, is_initiated,
}
use callio.Store.Rows.Laws.{HoldsAt, update_call-HoldsAt}
use callio.Store.Calls.{
  update_status, update_state, correct_no_answer_if_answered, fill_times, finalize_call_as_failed,
  terminate_call_if_not_terminated,
}
use callio.Store.Calls.Patches.{Stamp, ringing_stamp, answered_stamp, ended_stamp, update_timestamp}
use callio.Channels.Lines.{ProviderStatus, rings, accepts, rejects, fails, other}
use callio.Channels.Progress.{
  StatusEvent, on_rings, retro_ringing, on_fails, ring_at_once, on_accepts, timed, on_rejects,
  on_status, handle_status,
}
use callio.Channels.Crossing.{ring_at_once_lem}

-- What a report of a state keeps of the row: its ringing time.
abbrev RangFor : ℕ → Call → Type 0
RangFor n x = x.ringing_duration ≡ n

rang_kept :
    (n id : ℕ) (guard : Call → Bool) (assign : Call → Call) (db : Db)
    → ((c : Call) → (assign c).id ≡ c.id)
    → ((c : Call) → (assign c).ringing_duration ≡ c.ringing_duration)
    → HoldsAt id (RangFor n) db
    → HoldsAt id (RangFor n) (update_call id guard assign db).0
rang_kept n id guard assign db keeps same h =
    update_call-HoldsAt (RangFor n) id id guard assign db keeps (λ c g e. same c ∙ e) h

rang_kept_stamp :
    (n id : ℕ) (s : Stamp) (t : ℕ) (db : Db)
    → HoldsAt id (RangFor n) db
    → HoldsAt id (RangFor n) (update_timestamp id s t db)
unfolding update_timestamp correct_no_answer_if_answered
rang_kept_stamp n id ringing_stamp t db h = rang_kept n id _ _ db (λ c. refl) (λ c. refl) h
rang_kept_stamp n id ended_stamp t db h = rang_kept n id _ _ db (λ c. refl) (λ c. refl) h
rang_kept_stamp n id answered_stamp t db h =
    rang_kept n id _ _ _ (λ c. refl) (λ c. refl) (rang_kept n id _ _ db (λ c. refl) (λ c. refl) h)

module _ (n now t : ℕ) (c : Call) (db : Db) (h : HoldsAt c.id (RangFor n) db) where
  rang_kept_rings : HoldsAt c.id (RangFor n) (on_rings now t c db)
  unfolding on_rings retro_ringing update_status
  rang_kept_rings =
      let stamped = rang_kept_stamp n c.id ringing_stamp t db h in
      elim (Bool-cases (is_active c.status)) [
        | inl e ↦ elim (Bool-cases (is_initiated c.status)) [
          | inl f ↦ rw (e, f) (rang_kept n c.id _ _ _ (λ x. refl) (λ x. refl) stamped)
          | inr f ↦ rw (e, f) stamped
        ]
        | inr e ↦ rw e stamped
      ]

  rang_kept_accepts : HoldsAt c.id (RangFor n) (on_accepts t c db)
  unfolding on_accepts update_status update_state
  rang_kept_accepts =
      let rung : HoldsAt c.id (RangFor n) (ring_at_once t c db) =
        rw (ring_at_once_lem t c db) (elim (Bool-cases (is_null c.ringing_at)) [
          | inl e ↦ rw e (rang_kept_stamp n c.id ringing_stamp t db h)
          | inr e ↦ rw e h
        ]) in
      let stamped = rang_kept_stamp n c.id answered_stamp t (ring_at_once t c db) rung in
      elim (Bool-cases (not (not (is_active c.status)) && not (is_in_progress c.status))) [
        | inl e ↦ rw e (
            rang_kept n c.id _ _ _ (λ x. refl) (λ x. refl)
              (rang_kept n c.id _ _ _ (λ x. refl) (λ x. refl) stamped))
        | inr e ↦ rw e stamped
      ]

  rang_kept_rejects : HoldsAt c.id (RangFor n) (on_rejects now t c db).db
  unfolding on_rejects timed terminate_call_if_not_terminated
  rang_kept_rejects =
      let stamped = rang_kept_stamp n c.id ended_stamp t db h in
      elim (Option-cases c.ringing_at) [
        | inl e ↦ rw e (rang_kept n c.id _ _ _ (λ x. refl) (λ x. refl) stamped)
        | inr (r, e) ↦ rw e (rang_kept n c.id _ _ _ (λ x. refl) (λ x. refl) stamped)
      ]

  rang_kept_fails : HoldsAt c.id (RangFor n) (on_fails now t c db).db
  unfolding on_fails finalize_call_as_failed fill_times
  rang_kept_fails =
      rang_kept n c.id _ _ _ (λ x. refl) (λ x. refl)
        (rang_kept n c.id _ _ db (λ x. refl) (λ x. refl) h)

rang_kept_status :
    (n now t : ℕ) (c : Call) (s : ProviderStatus) (db : Db)
    → HoldsAt c.id (RangFor n) db
    → HoldsAt c.id (RangFor n) (on_status now s t c db).db
unfolding on_status
rang_kept_status n now t c rings db h = rang_kept_rings n now t c db h
rang_kept_status n now t c accepts db h = rang_kept_accepts n now t c db h
rang_kept_status n now t c rejects db h = rang_kept_rejects n now t c db h
rang_kept_status n now t c fails db h = rang_kept_fails n now t c db h
rang_kept_status n now t c (other s) db h = h

-- No state that a provider reports, the customer's rejection included, changes the ringing time of the
-- call's row, however long the call rang and whatever the row held when the handler read it.
pub status_keeps_ringing_duration :
    (now : ℕ) (c : Call) (e : StatusEvent) (d : Call) (db : Db)
    → find_call c.id db.calls ≡ some d
    → HoldsAt c.id (RangFor d.ringing_duration) (handle_status now c e db).db
unfolding handle_status
status_keeps_ringing_duration now c e d db there =
    rang_kept_status d.ringing_duration now (get_or e.at now) c e.status db (d, there, refl)
