-- ===== src/Routing/QueueOrder.antt =====
-- `reconcileQueueOrder` of core/routing/CallAgentAssignmentService.js, which ROUND_ROBIN picks by: the
-- order in which members became available. What Redis stores for the queue (the order and each
-- member's metadata, as they parse) comes in and goes out as a value.
pub mod Laws
use callio.Prelude.{
  ℕ, suc, ◌+◌, ◌-◌, Bool, true, false, not, ◌&&◌, ◌||◌, Option, none, some, List, [], ◌∷◌, ◌++◌,
  ◌==◌, ltb, leb, filter, map, any, if◌then◌else◌,
}
use callio.Routing.Members.{Member, is_available, is_offline_status, has_id, member_by_id}
use callio.Routing.Picking.{claim_in_order}

pub record Meta : Type 0 where
  pub entered_at : ℕ
  pub join_sequence : Option ℕ
  pub unavailable_since : Option ℕ

pub record Stored : Type 0 where
  pub order : List ℕ
  pub meta : List (ℕ × Meta)
  pub seq : ℕ

abbrev pub queue_reconnect_hold_ms : ℕ
queue_reconnect_hold_ms = 60000

abbrev pub mem : ℕ → List ℕ → Bool
mem a [] = false
mem a (x ∷ xs) = x == a || mem a xs

unfoldable pub meta_of : ℕ → List (ℕ × Meta) → Option Meta
meta_of id [] = none
meta_of id ((j, m) ∷ ms) = if j == id then some m else meta_of id ms

-- `[...new Set(order)]`: later repetitions are dropped.
unfoldable pub distinct_from : List ℕ → List ℕ → List ℕ
distinct_from seen [] = []
distinct_from seen (x ∷ xs) =
    let rest = distinct_from (x ∷ seen) xs in if mem x seen then rest else x ∷ rest

-- `a || b` on a number that may be absent or 0.
abbrev pub or_else : Option ℕ → ℕ → ℕ
or_else none d = d
or_else (some n) d = if n == 0 then d else n

unfoldable pub previous_meta : ℕ → List (ℕ × Meta) → ℕ → Meta
previous_meta now meta id = elim (meta_of id meta) [
  | none ↦ record { entered_at = now; join_sequence = none; unavailable_since = none }
  | some m ↦ record m { entered_at = or_else (some m.entered_at) now }
]

unfoldable pub is_available_id : List Member → ℕ → Bool
is_available_id members id = any (has_id id) (filter is_available members)

abbrev is_offline_member : Option Member → Bool
is_offline_member none = false
is_offline_member (some m) = is_offline_status m.availability

-- A member who went offline keeps their place for a while.
unfoldable pub holds_position : ℕ → List Member → List (ℕ × Meta) → ℕ → Bool
holds_position now members meta id =
    is_offline_member (member_by_id id members)
    && leb (now - or_else (previous_meta now meta id).unavailable_since now) queue_reconnect_hold_ms

unfoldable pub stays : ℕ → List Member → List (ℕ × Meta) → ℕ → Bool
stays now members meta id =
    if is_available_id members id then true else holds_position now members meta id

abbrev stay_meta : ℕ → List Member → List (ℕ × Meta) → ℕ → ℕ × Meta
stay_meta now members meta id =
    let m = previous_meta now meta id in
    (
      id,
      record m {
        unavailable_since =
            if is_available_id members id then none else some (or_else m.unavailable_since now);
      },
    )

unfoldable pub insert_id : ℕ → List ℕ → List ℕ
insert_id a [] = a ∷ []
insert_id a (x ∷ xs) = if ltb x a then x ∷ insert_id a xs else a ∷ x ∷ xs

unfoldable pub sort_ids : List ℕ → List ℕ
sort_ids [] = []
sort_ids (x ∷ xs) = insert_id x (sort_ids xs)

unfoldable pub available_ids : List Member → List ℕ
available_ids members = distinct_from [] (map (λ (m : Member). m.id) (filter is_available members))

unfoldable pub newcomers : List Member → List ℕ → List ℕ
newcomers members placed = sort_ids (filter (λ id. not (mem id placed)) (available_ids members))

-- Each newcomer takes the next number of the queue's sequence.
unfoldable pub join_all : ℕ → ℕ → List ℕ → List (ℕ × Meta)
join_all now seq [] = []
join_all now seq (id ∷ ids) =
    (id, record { entered_at = now; join_sequence = some (suc seq); unavailable_since = none })
    ∷ join_all now (suc seq) ids

abbrev count_ids : List ℕ → ℕ
count_ids [] = 0
count_ids (_ ∷ ids) = suc (count_ids ids)

unfoldable pub kept_order : ℕ → List Member → Stored → List ℕ
kept_order now members s = filter (stays now members s.meta) (distinct_from [] s.order)

unfoldable pub next_order : ℕ → List Member → Stored → List ℕ
next_order now members s = kept_order now members s ++ newcomers members (kept_order now members s)

abbrev pub keep_found : Option Member → List Member → List Member
keep_found none ms = ms
keep_found (some m) ms = m ∷ ms

-- `nextOrder.map((id) => available.get(id)).filter(Boolean)`
unfoldable pub available_in_order : List Member → List ℕ → List Member
available_in_order members [] = []
available_in_order members (id ∷ ids) =
    keep_found (member_by_id id (filter is_available members)) (available_in_order members ids)

unfoldable pub reconcile : ℕ → List Member → Stored → Stored × List Member
reconcile now members s =
    let kept = kept_order now members s in
    let new = newcomers members kept in
    (
      record {
        order = kept ++ new;
        meta = map (stay_meta now members s.meta) kept ++ join_all now s.seq new;
        seq = s.seq + count_ids new;
      },
      available_in_order members (kept ++ new),
    )

unfoldable pub pick_round_robin {ℓ} :
    {S : Type ℓ} → (ℕ → S → S × Bool) → ℕ → List Member → Stored → S → Stored × S × Option Member
pick_round_robin claim now members stored s =
    let (stored', ordered) = reconcile now members stored in
    let (t, m) = claim_in_order claim ordered s in
    if any is_available members then (stored', t, m) else (stored, s, none)
