-- ===== src/Lifecycle/Termination/Once.antt =====
-- How often `CallTerminator` announces a call's end, while other statements run in between.
use callio.Prelude.{
  ℕ, ◌+◌, ◌≤◌, ◌≡◌, inl, inr, refl, ◌∙◌, Bool, true, false, ◌&&◌, none, some, List, [], ◌∷◌, ◌++◌,
  arith, ◌==◌, is_some, if◌then◌else◌, Bool-cases,
}
use callio.Store.Rows.{Status, Call, Db}
use callio.Store.Rows.Laws.{HoldsAt}
use callio.Store.Calls.Finality.{
  Write, terminate, fail, apply, HasEnded, Ends, status_of_end, is_provider_failure, by_terminate,
  by_failure, end_takes, end_refused, apply-HasEnded,
}
use callio.Lifecycle.Termination.{
  Notice, Media, Ending, Effect, announced, end_notice, terminate_notice, reject_notice,
  busy_notice, no_notice, broadcast, local, logged, close_media, free_agent, notify, tell_provider,
  update_queue, settle, commit, is_live, end_call,
}

-- What workers do to calls: an end, or one of the guarded statements.
pub data Move : Type 0 where
  end_move : Call → Ending → Move
  write_move : Write → Move

unfoldable pub make : ℕ → Move → Db → Db × List Effect
make now (end_move call o) db = let (after, es, won) = end_call now call o db in (after, es)
make now (write_move w) db = ((apply now w db).0, [])

unfoldable pub make_all : List (ℕ × Move) → Db → Db × List Effect
make_all [] db = (db, [])
make_all ((now, m) ∷ ms) db =
    let (after, es) = make now m db in let (last, rest) = make_all ms after in (last, es ++ rest)

abbrev announces : ℕ → Effect → ℕ
announces id (announced j r by) = if j == id then 1 else 0
announces id _ = 0

unfoldable pub announcements : ℕ → List Effect → ℕ
announcements id [] = 0
announcements id (e ∷ es) = announces id e + announcements id es

pub announcements-append :
    (id : ℕ) (es fs : List Effect)
    → announcements id (es ++ fs) ≡ announcements id es + announcements id fs
unfolding announcements
announcements-append id [] fs = omega arith
announcements-append id (e ∷ es) fs = omega (arith, announcements-append id es fs)

close_media-quiet : (id j : ℕ) (m : Media) → announcements id (close_media j m) ≡ 0
unfolding announcements close_media
close_media-quiet id j broadcast = refl
close_media-quiet id j local = refl

free_agent-quiet : (id : ℕ) (c : Call) (b : Bool) → announcements id (free_agent c b) ≡ 0
unfolding announcements free_agent
free_agent-quiet id c b = ground arith

notify-quiet : (id : ℕ) (c : Call) (n : Notice) → announcements id (notify c n) ≡ 0
unfolding announcements notify
notify-quiet id c end_notice = ground arith
notify-quiet id c terminate_notice = refl
notify-quiet id c reject_notice = refl
notify-quiet id c busy_notice = refl
notify-quiet id c no_notice = refl

tell_provider-quiet : (id : ℕ) (c : Call) (n : Notice) → announcements id (tell_provider c n) ≡ 0
unfolding announcements tell_provider
tell_provider-quiet id c n = ground (arith, notify-quiet id c n)

update_queue-quiet : (id : ℕ) (c : Call) → announcements id (update_queue c) ≡ 0
unfolding announcements update_queue
update_queue-quiet id c = ground arith

pub settle-announcements :
    (id : ℕ) (c : Call) (o : Ending) → announcements id (settle c o) ≡ (if c.id == id then 1 else 0)
unfolding announcements settle
settle-announcements id c o =
    let media = close_media c.id o.media in
    let provider = tell_provider c o.provider in
    ground (
      arith,
      announcements-append id (free_agent c o.agent_goes_offline)
          (provider ++ (media ++ (logged c.id ∷ update_queue c))),
      announcements-append id provider (media ++ (logged c.id ∷ update_queue c)),
      announcements-append id media (logged c.id ∷ update_queue c),
      free_agent-quiet id c o.agent_goes_offline,
      tell_provider-quiet id c o.provider,
      close_media-quiet id c.id o.media,
      update_queue-quiet id c,
    )

pub ending_write : ℕ → Ending → Write
ending_write id o =
    if o.failure
    then fail id o.reason o.terminated_by
    else terminate id (some o.reason) o.terminated_by none o.only_if_status

pub commit-apply :
    (now id : ℕ) (o : Ending) (db : Db) → commit now id o db ≡ apply now (ending_write id o) db
unfolding commit ending_write apply
commit-apply now id o db = elim (Bool-cases o.failure) [ inl e ↦ rw e refl | inr e ↦ rw e refl ]

pub ending_write-Ends : (id : ℕ) (o : Ending) → Ends id (ending_write id o)
unfolding ending_write
ending_write-Ends id o = elim (Bool-cases o.failure) [
  | inl e ↦ rw e (by_failure o.reason o.terminated_by)
  | inr e ↦ rw e (by_terminate (some o.reason) o.terminated_by none o.only_if_status)
]

ending_write-plain : (id : ℕ) (o : Ending) → is_provider_failure (ending_write id o) ≡ false
unfolding ending_write
ending_write-plain id o = elim (Bool-cases o.failure) [ inl e ↦ rw e refl | inr e ↦ rw e refl ]

pub end_call-commit :
    (now : ℕ) (c : Call) (o : Ending) (db : Db) → (end_call now c o db).0 ≡ (commit now c.id o db).0
unfolding end_call
end_call-commit now c o db = ground arith

make-HasEnded :
    (s : Status) (id now : ℕ) (m : Move) (db : Db)
    → HoldsAt id (HasEnded s) db
    → HoldsAt id (HasEnded s) (make now m db).0
unfolding make
make-HasEnded s id now (write_move w) db h = apply-HasEnded s id now db h w
make-HasEnded s id now (end_move c o) db h =
    rw (end_call-commit now c o db, commit-apply now c.id o db)
      (apply-HasEnded s id now db h (ending_write c.id o))

-- An end announces its call exactly if it committed.
pub end_call-announcements :
    (id now : ℕ) (c : Call) (o : Ending) (db : Db)
    → announcements id (end_call now c o db).1
      ≡ (if (commit now c.id o db).1 && (c.id == id) then 1 else 0)
unfolding end_call announcements
end_call-announcements id now c o db = elim (Bool-cases (commit now c.id o db).1) [
  | inl e ↦ rw e (settle-announcements id c o)
  | inr e ↦ elim (Bool-cases (is_some o.only_if_status && is_live c.id (commit now c.id o db).0)) [
    | inl q ↦ rw (e, q) refl
    | inr q ↦ rw (e, q) (close_media-quiet id c.id local)
  ]
]

ended_end-quiet :
    (s : Status) (id now : ℕ) (c : Call) (o : Ending) (db : Db)
    → HoldsAt id (HasEnded s) db
    → announcements id (end_call now c o db).1 ≡ 0
ended_end-quiet s id now c o db h = elim (Bool-cases (c.id == id)) [
  | inl e ↦
      let same : c.id ≡ id = ground arith in
      let there : HoldsAt c.id (HasEnded s) db = rw same h in
      let lost =
        end_refused c.id now s (ending_write c.id o) db (ending_write-Ends c.id o)
          (ending_write-plain c.id o) there in
      end_call-announcements id now c o db ∙ rw (commit-apply now c.id o db, lost) refl
  | inr e ↦ end_call-announcements id now c o db ∙ ground arith
]

ended-quiet :
    (s : Status) (id : ℕ) (ms : List (ℕ × Move)) (db : Db)
    → HoldsAt id (HasEnded s) db
    → announcements id (make_all ms db).1 ≡ 0
unfolding make_all make announcements
ended-quiet s id [] db h = refl
ended-quiet s id ((now, write_move w) ∷ ms) db h =
    ended-quiet s id ms (apply now w db).0 (make-HasEnded s id now (write_move w) db h)
ended-quiet s id ((now, end_move c o) ∷ ms) db h =
    announcements-append id (end_call now c o db).1 _
    ∙ omega (
      arith,
      ended_end-quiet s id now c o db h,
      ended-quiet s id ms (end_call now c o db).0 (make-HasEnded s id now (end_move c o) db h),
    )

-- However often `CallTerminator.end` is asked to end a call, on whatever rows its callers read before, and
-- however these ends interleave with the guarded statements of other workers, a provider's finalizing ones
-- included: `CallTerminator.end` announces the call's end at most once. What a channel announces after a
-- finalizing statement of its own is not counted here.
pub announced_once :
    (id : ℕ) (ms : List (ℕ × Move)) (db : Db) → announcements id (make_all ms db).1 ≤ 1
unfolding make_all make announcements
announced_once id [] db = omega arith
announced_once id ((now, write_move w) ∷ ms) db = announced_once id ms (apply now w db).0
announced_once id ((now, end_move c o) ∷ ms) db =
    let after = (end_call now c o db).0 in
    let split = announcements-append id (end_call now c o db).1 (make_all ms after).1 in
    let here = end_call-announcements id now c o db in
    elim (Bool-cases ((commit now c.id o db).1 && (c.id == id))) [
      | inl e ↦
          let same : c.id ≡ id = ground arith in
          let won : (apply now (ending_write c.id o) db).1 ≡ true =
            ground (arith, commit-apply now c.id o db) in
          let s = status_of_end (ending_write c.id o) in
          let over = end_takes c.id now (ending_write c.id o) db (ending_write-Ends c.id o) won in
          let there : HoldsAt id (HasEnded s) after =
            rw (end_call-commit now c o db, commit-apply now c.id o db, ← same) over in
          ground (arith, ended-quiet s id ms after there)
      | inr e ↦ ground (arith, announced_once id ms after)
    ]
