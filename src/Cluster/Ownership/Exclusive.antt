-- ===== src/Cluster/Ownership/Exclusive.antt =====
-- A permanent owner keeps the call, and a release that is disturbed can take it from another.
use callio.Prelude.{
  ℕ, zero, suc, ◌≡◌, ◌∙◌, inl, inr, refl, Option, none, Option-cases, String, Bool, true, false,
  ◌&&◌, some, List, [], ◌∷◌, arith, eq_iff, eq_refl, ◌==◌, ◌===◌,
}
use callio.Cluster.Ownership.{
  Owner, Owners, Found, put, claim_call, set_call_ownership_permanent, release_read, release_act,
  owns_call, expire, nobody, another, itself,
}

-- What happens to the keys, one command after the other. A release that has read the owner waits, and then
-- acts on what it found, whatever became of the key.
pub data Op : Type 0 where
  claims makes_permanent reads_owner : String → ℕ → Op
  acts : ℕ → Op
  expires : ℕ → Op

pub record Keys : Type 0 where
  pub owners : Owners
  pub releasing : List (ℕ × Found)

abbrev nth {ℓ} : {A : Type ℓ} → ℕ → List A → Option A
nth n [] = none
nth zero (x ∷ xs) = some x
nth (suc n) (x ∷ xs) = nth n xs

abbrev without {ℓ} : {A : Type ℓ} → ℕ → List A → List A
without n [] = []
without zero (x ∷ xs) = xs
without (suc n) (x ∷ xs) = x ∷ without n xs

unfoldable pub act_next : ℕ → Keys → Keys
unfolding release_act
act_next n s = elim (nth n s.releasing) [
  | none ↦ s
  | some (id, found) ↦ record {
    owners = (release_act found id s.owners).0;
    releasing = without n s.releasing;
  }
]

unfoldable pub apply : Op → Keys → Keys
apply (claims w id) s = record s { owners = (claim_call w id s.owners).0 }
apply (makes_permanent w id) s = record s {
  owners = (set_call_ownership_permanent w id s.owners).0;
}
apply (reads_owner w id) s = record s { releasing = (id, release_read w id s.owners) ∷ s.releasing }
apply (acts n) s = act_next n s
apply (expires id) s = record s { owners = expire id s.owners }

unfoldable pub run : List Op → Keys → Keys
run [] s = s
run (p ∷ ps) s = run ps (apply p s)

abbrev is_release : String → ℕ → Op → Bool
is_release w id (reads_owner v j) = (v === w) && (j == id)
is_release w id _ = false

-- The worker does not begin a release of the call itself.
abbrev pub KeepsIt : String → ℕ → List Op → Type 0
KeepsIt w id [] = Unit
KeepsIt w id (p ∷ ps) = (is_release w id p ≡ false) × KeepsIt w id ps

abbrev found_itself : Found → Bool
found_itself itself = true
found_itself _ = false

-- No release of the call has found its own worker and is about to delete the key.
abbrev pub IsClear : ℕ → List (ℕ × Found) → Type 0
IsClear id [] = Unit
IsClear id ((j, found) ∷ rs) = ((j == id) && found_itself found) ≡ false × IsClear id rs

abbrev pub permanent_owner : String → Owner
permanent_owner w = record { worker = w; permanent = true }

-- The worker owns the call for good.
abbrev pub Holds : String → ℕ → Keys → Type 0
Holds w id s = (s.owners id ≡ some (permanent_owner w)) × IsClear id s.releasing

without-IsClear : (id n : ℕ) (rs : List (ℕ × Found)) → IsClear id rs → IsClear id (without n rs)
without-IsClear id n [] h = tt
without-IsClear id zero ((j, f) ∷ rs) h = h.1
without-IsClear id (suc n) ((j, f) ∷ rs) h = (h.0, without-IsClear id n rs h.1)

nth-IsClear :
    (id n j : ℕ) (f : Found) (rs : List (ℕ × Found))
    → IsClear id rs
    → nth n rs ≡ some (j, f)
    → ((j == id) && found_itself f) ≡ false
nth-IsClear id n j f [] h e = absurd (cc)
nth-IsClear id zero j f ((k, g) ∷ rs) h e = ground arith
nth-IsClear id (suc n) j f ((k, g) ∷ rs) h e = nth-IsClear id n j f rs h.1 e

acts-keeps :
    (id j : ℕ) (f : Found) (o : Owners)
    → ((j == id) && found_itself f) ≡ false
    → (release_act f j o).0 id ≡ o id
unfolding release_act put
acts-keeps id j nobody o h = refl
acts-keeps id j another o h = refl
acts-keeps id j itself o h = ground arith

apply-Holds :
    (w : String) (id : ℕ) (p : Op) (s : Keys)
    → is_release w id p ≡ false
    → Holds w id s
    → Holds w id (apply p s)
unfolding apply act_next claim_call set_call_ownership_permanent release_read expire put
apply-Holds w id (claims v j) s q h = (ground arith, h.1)
apply-Holds w id (makes_permanent v j) s q h = (ground (arith, eq_iff w v), h.1)
apply-Holds w id (reads_owner v j) s q h = (h.0, (ground (arith, eq_iff w v, eq_iff v w), h.1))
apply-Holds w id (acts n) s q h = elim (Option-cases (nth n s.releasing)) [
  | inl e ↦ rw (act_next, e) h
  | inr ((j, f), e) ↦
      let kept = acts-keeps id j f s.owners (nth-IsClear id n j f s.releasing h.1 e) in
      rw (act_next, e) (kept ∙ h.0, without-IsClear id n s.releasing h.1)
]
apply-Holds w id (expires j) s q h = (ground arith, h.1)

run-Holds :
    (w : String) (id : ℕ) (ps : List Op) (s : Keys)
    → KeepsIt w id ps
    → Holds w id s
    → Holds w id (run ps s)
unfolding run
run-Holds w id [] s q h = h
run-Holds w id (p ∷ ps) s (q, qs) h = run-Holds w id ps (apply p s) qs (apply-Holds w id p s q h)

-- Let a worker own a call for good, where no release of the call that found its own worker is about to delete
-- the key. Then through any claims, expiries and commands of releases, as long as it begins no release of the
-- call itself, it stays the owner: nobody else can claim the call or make it theirs, which leaves the keys as
-- they are, and a release by anybody else finds another owner and deletes nothing.
pub owner_kept :
    (w v : String) (id : ℕ) (ps : List Op) (s : Keys)
    → s.owners id ≡ some (permanent_owner w)
    → IsClear id s.releasing
    → KeepsIt w id ps
    → (w === v) ≡ false
    → (owns_call w id (run ps s).owners ≡ true)
      × (owns_call v id (run ps s).owners ≡ false)
      × (claim_call v id (run ps s).owners ≡ ((run ps s).owners, false))
      × (set_call_ownership_permanent v id (run ps s).owners ≡ ((run ps s).owners, false))
      × (release_read v id (run ps s).owners ≡ another)
unfolding owns_call claim_call set_call_ownership_permanent release_read
owner_kept w v id ps s h clear q other =
    let k = (run-Holds w id ps s q (h, clear)).0 in
    (ground (arith, eq_refl w), ground arith, ground arith, ground arith, ground arith)

-- A release is two commands. If the key expires between them and another worker claims the call, the
-- release deletes that worker's key: its claim has succeeded, and it does not own the call.
pub release_takes_away :
    (w v : String) (id : ℕ) (o : Owners)
    → o id ≡ some (record { worker = w; permanent = false })
    → (release_read w id o ≡ Found.itself)
      × ((claim_call v id (expire id o)).1 ≡ true)
      × (owns_call v id (claim_call v id (expire id o)).0 ≡ true)
      × (owns_call v id (release_act (release_read w id o) id (claim_call v id (expire id o)).0).0
          ≡ false)
unfolding owns_call claim_call release_read release_act expire put
release_takes_away w v id o h =
    let mine : release_read w id o ≡ Found.itself = ground (arith, eq_refl w) in
    (mine, ground arith, ground (arith, eq_refl v), rw mine (ground arith))
