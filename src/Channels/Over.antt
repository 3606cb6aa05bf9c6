-- ===== src/Channels/Over.antt =====
-- The statements by which a provider's end finishes a call leave its row over.
use callio.Prelude.{
  ℕ, ◌≡◌, ◌∙◌, refl, ◌&&◌, Bool, true, false, not, inl, inr, Option, none, some, arith,
  if◌then◌else◌, Bool-cases,
}
use callio.Store.Rows.{
  TerminationReason, TerminatedBy, terminated, Call, Db, is_active, is_failed, find_call,
  update_call, is_null,
}
use callio.Store.Rows.Laws.{
  HoldsAt, find_call-update_call, update_call-affected, update_call-HoldsAt,
}
use callio.Store.Calls.{
  Times, is_not_final, correct_no_answer_if_answered, fill_times, finalize_status,
  finalize_from_webhook, finalize_call_as_failed, terminate_call_if_not_terminated,
}
use callio.Store.Calls.Patches.{ended_stamp, update_timestamp, update_terminated_by_if_failed}
use callio.Channels.Ended.{
  EndEvent, end_terminated_by, end_times, end_reason, finalize, patch_failure, patch_ended_at,
  handle_end,
}

abbrev pub Anything : Call → Type 0
Anything c = Unit {0}

abbrev pub IsFinal : Call → Type 0
IsFinal c = is_active c.status ≡ false

spared-IsFinal : (c : Call) → is_not_final c ≡ false → IsFinal c
spared-IsFinal c g = ground arith

spared_any : (c : Call) → (is_not_final c && true) ≡ false → IsFinal c
spared_any c g = ground arith

live_not_final : (c : Call) → is_active c.status ≡ true → (is_not_final c && true) ≡ true
live_not_final c live = ground arith

spared_failed : (c : Call) → not (is_failed c.status) ≡ false → IsFinal c
spared_failed c g = ground arith

module _ (id : ℕ) where
  stays :
      (guard : Call → Bool) (assign : Call → Call) (db : Db)
      → ((c : Call) → (assign c).id ≡ c.id)
      → HoldsAt id Anything db
      → HoldsAt id Anything (update_call id guard assign db).0
  stays guard assign db keeps h =
      update_call-HoldsAt Anything id id guard assign db keeps (λ c g a. a) h

  stays_over :
      (guard : Call → Bool) (assign : Call → Call) (db : Db)
      → ((c : Call) → (assign c).id ≡ c.id)
      → ((c : Call) → (assign c).status ≡ c.status)
      → HoldsAt id IsFinal db
      → HoldsAt id IsFinal (update_call id guard assign db).0
  stays_over guard assign db keeps same h =
      update_call-HoldsAt IsFinal id id guard assign db keeps (λ c g a. rw (same c) a) h

  -- A statement that ends every row it affects, and affects every live one.
  ends_row :
      (guard : Call → Bool) (assign : Call → Call) (db : Db)
      → ((c : Call) → (assign c).id ≡ c.id)
      → ((c : Call) → guard c ≡ false → IsFinal c)
      → ((c : Call) → IsFinal (assign c))
      → HoldsAt id Anything db
      → HoldsAt id IsFinal (update_call id guard assign db).0
  ends_row guard assign db keeps spared ended (c, there, h) =
      let law = find_call-update_call id id guard assign db keeps in
      elim (Bool-cases (guard c)) [
        | inl on ↦ (assign c, ground arith, ended c)
        | inr off ↦ (c, ground arith, spared c off)
      ]

  pub fill_stays :
      (t : Times) (db : Db) → HoldsAt id Anything db → HoldsAt id Anything (fill_times id t db).0
  unfolding fill_times
  fill_stays t db h = stays _ _ db (λ c. refl) h

  pub webhook_over :
      (now : ℕ) (r : Option TerminationReason) (by : Option TerminatedBy) (t : Times) (db : Db)
      → HoldsAt id Anything db
      → HoldsAt id IsFinal (finalize_from_webhook now id terminated r by t db).0
  unfolding finalize_from_webhook finalize_status correct_no_answer_if_answered
  webhook_over now r by t db h =
      stays_over _ _ _ (λ c. refl) (λ c. refl)
        (ends_row is_not_final _ _ (λ c. refl) (λ c g. spared-IsFinal c g) (λ c. refl)
          (fill_stays t db h))

  pub failed_over :
      (now : ℕ) (by : Option TerminatedBy) (t : Times) (db : Db)
      → HoldsAt id Anything db
      → HoldsAt id IsFinal (finalize_call_as_failed now id by t db).0
  unfolding finalize_call_as_failed
  failed_over now by t db h =
      ends_row (λ c. not (is_failed c.status)) _ _ (λ c. refl) (λ c g. spared_failed c g)
        (λ c. refl) (fill_stays t db h)

  pub terminate_over :
      (now : ℕ) (r : Option TerminationReason) (by : TerminatedBy) (t : Option ℕ) (db : Db)
      → HoldsAt id Anything db
      → HoldsAt id IsFinal (terminate_call_if_not_terminated now id r by t none db).0
  unfolding terminate_call_if_not_terminated
  terminate_over now r by t db h =
      ends_row (λ c. is_not_final c && true) _ db (λ c. refl) (λ c g. spared_any c g) (λ c. refl) h

  blame_over :
      (by : TerminatedBy) (db : Db)
      → HoldsAt id IsFinal db
      → HoldsAt id IsFinal (update_terminated_by_if_failed id by db)
  unfolding update_terminated_by_if_failed
  blame_over by db h = stays_over _ _ db (λ c. refl) (λ c. refl) h

  stamp_over :
      (t : ℕ) (db : Db)
      → HoldsAt id IsFinal db
      → HoldsAt id IsFinal (update_timestamp id ended_stamp t db)
  unfolding update_timestamp
  stamp_over t db h = stays_over _ _ db (λ c. refl) (λ c. refl) h

-- A live row is terminated, and no agent's row is touched.
pub terminate_takes :
    (now id : ℕ) (r : Option TerminationReason) (by : TerminatedBy) (t : Option ℕ) (db : Db)
    → HoldsAt id (λ c. is_active c.status ≡ true) db
    → ((terminate_call_if_not_terminated now id r by t none db).1 ≡ true)
      × ((terminate_call_if_not_terminated now id r by t none db).0.agents ≡ db.agents)
unfolding terminate_call_if_not_terminated
terminate_takes now id r by t db (c, there, live) =
    let (hit, agents) = update_call-affected id (λ c. is_not_final c && true) _ db in
    (hit ∙ rw there (live_not_final c live), agents)

-- Over on both branches of a test.
pub if_over :
    (b : Bool) (x y : Db) (id : ℕ)
    → HoldsAt id IsFinal x
    → HoldsAt id IsFinal y
    → HoldsAt id IsFinal (if b then x else y)
if_over true x y id hx hy = hx
if_over false x y id hx hy = hy

pub if_over_pair :
    (b : Bool) (x y : Db × Bool) (id : ℕ)
    → HoldsAt id IsFinal x.0
    → HoldsAt id IsFinal y.0
    → HoldsAt id IsFinal (if b then x else y).0
if_over_pair true x y id hx hy = hx
if_over_pair false x y id hx hy = hy

finalized_over :
    (now : ℕ) (c : Call) (e : EndEvent) (db : Db)
    → HoldsAt c.id Anything db
    → HoldsAt c.id IsFinal (finalize now c e db).0
unfolding finalize
finalized_over now c e db h =
    let failing = failed_over c.id now (some (end_terminated_by e)) (end_times now c e) db h in
    let ending =
      webhook_over c.id now (some (end_reason now c e)) (some (end_terminated_by e))
        (end_times now c e) db h in
    if_over_pair e.is_failed _ _ c.id failing ending

patched_over :
    (now : ℕ) (c : Call) (e : EndEvent) (won : Bool) (db : Db)
    → HoldsAt c.id IsFinal db
    → HoldsAt c.id IsFinal (patch_ended_at now c e (patch_failure c e won db))
unfolding patch_failure patch_ended_at
patched_over now c e won db h =
    let blamed =
      if_over (e.is_failed && (not won && e.has_errors))
        (update_terminated_by_if_failed c.id e.failure_terminated_by db) db c.id
        (blame_over c.id e.failure_terminated_by db h) h in
    if_over (is_null e.ended_at && is_null c.ended_at) _ _ c.id (stamp_over c.id now _ blamed)
      blamed

-- Whatever became of the row since the handler read it, and whatever the provider reports of the end, the
-- row is over once the end has been handled: the handler's statements never leave a call live.
pub handled_end_is_over :
    (now : ℕ) (c : Call) (e : EndEvent) (d : Call) (db : Db)
    → find_call c.id db.calls ≡ some d
    → HoldsAt c.id IsFinal (handle_end now c e db).db
unfolding handle_end
handled_end_is_over now c e d db there =
    patched_over now c e (finalize now c e db).1 (finalize now c e db).0
      (finalized_over now c e db (d, there, tt))
