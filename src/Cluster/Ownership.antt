-- ===== src/Cluster/Ownership.antt =====
-- infra/cluster/CallOwnershipService.js: which worker handles a call. The Redis keys of the service are a
-- function on call ids; a key without a time to live is permanent, any other may expire at any time.
-- Redis' failures, which every method answers with `false` or null, are left out.
pub mod Exclusive
use callio.Prelude.{
  ℕ, String, Bool, true, false, not, Option, none, some, ◌==◌, ◌===◌, if◌then◌else◌,
}

pub record Owner : Type 0 where
  pub worker : String
  pub permanent : Bool

abbrev pub Owners : Type 0
Owners = ℕ → Option Owner

unfoldable pub put : ℕ → Option Owner → Owners → Owners
put id o owners j = if j == id then o else owners j

-- `claimCall`: `SET … NX` with a time to live.
unfoldable pub claim_call : String → ℕ → Owners → Owners × Bool
claim_call worker id owners = elim (owners id) [
  | some _ ↦ (owners, false)
  | none ↦ (put id (some (record { worker = worker; permanent = false })) owners, true)
]

-- `setCallOwnershipPermanent`, undisturbed: false also if there was no time to live to remove.
unfoldable pub set_call_ownership_permanent : String → ℕ → Owners → Owners × Bool
set_call_ownership_permanent worker id owners = elim (owners id) [
  | none ↦ (owners, false)
  | some o ↦
      if o.worker === worker
      then (put id (some (record o { permanent = true })) owners, not o.permanent)
      else (owners, false)
]

-- What `releaseCall` finds when it reads the owner, in a command of its own.
pub data Found : Type 0 where
  nobody another itself : Found

unfoldable pub release_read : String → ℕ → Owners → Found
release_read worker id owners = elim (owners id) [
  | none ↦ nobody
  | some o ↦ if o.worker === worker then itself else another
]

-- What it does then, in a second command: others run between the two.
unfoldable pub release_act : Found → ℕ → Owners → Owners × Bool
release_act nobody id owners = (owners, true)
release_act another id owners = (owners, false)
release_act itself id owners = (put id none owners, true)

abbrev pub get_call_owner : ℕ → Owners → Option String
get_call_owner id owners = elim (owners id) [ none ↦ none | some o ↦ some o.worker ]

unfoldable pub owns_call : String → ℕ → Owners → Bool
owns_call worker id owners = elim (owners id) [ none ↦ false | some o ↦ o.worker === worker ]

-- A key's time to live runs out.
unfoldable pub expire : ℕ → Owners → Owners
expire id owners = elim (owners id) [
  | none ↦ owners
  | some o ↦ if o.permanent then owners else put id none owners
]
