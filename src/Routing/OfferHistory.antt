-- ===== src/Routing/OfferHistory.antt =====
-- core/routing/OfferHistory.js: who has had a waiting call offered and passed on it. The two Redis sets
-- of a call are lists of agent ids here; their expiry after an hour is left out.
pub mod Laws
use callio.Prelude.{
  ℕ, Bool, true, false, not, ◌&&◌, ◌||◌, List, [], ◌∷◌, ◌==◌, filter, any, if◌then◌else◌,
}
use callio.Routing.Members.{Member, is_available}

pub record History : Type 0 where
  pub declined : List ℕ
  pub missed : List ℕ

pub data Kind : Type 0 where
  declined missed : Kind

abbrev pub mem : ℕ → List ℕ → Bool
mem a [] = false
mem a (x ∷ xs) = x == a || mem a xs

add : ℕ → List ℕ → List ℕ
add a xs = if mem a xs then xs else a ∷ xs

unfoldable pub record_offer : ℕ → Kind → History → History
unfolding add
record_offer agent declined h = record h { declined = add agent h.declined }
record_offer agent missed h = record h { missed = add agent h.missed }

unfoldable pub clear_missed : History → History
clear_missed h = record h { missed = [] }

abbrev pub is_empty : List ℕ → Bool
is_empty [] = true
is_empty (_ ∷ _) = false

unfoldable pub not_declined : History → List Member → List Member
not_declined h members = filter (λ m. not (mem m.id h.declined)) members

unfoldable pub fresh : History → List Member → List Member
fresh h members = filter (λ m. not (mem m.id h.missed)) (not_declined h members)

-- The members that the call may be offered to now, and the history afterwards.
unfoldable pub eligible : History → List Member → List Member × History
eligible h members =
    if is_empty h.declined && is_empty h.missed
    then (members, h)
    else if is_empty h.missed || any is_available (fresh h members)
    then (fresh h members, h)
    else if any is_available (not_declined h members)
    then (not_declined h members, clear_missed h)
    else (not_declined h members, h)
