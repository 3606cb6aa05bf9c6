-- ===== src/Routing/Coordinator/Shifts/Access.antt =====
-- Who may set whose shift: `setAvailability` of core/routing/AgentAssignmentCoordinator.js.
use callio.Prelude.{
  ℕ, ◌≡◌, ◌⊎◌, inl, inr, refl, true, none, some, List, ◌==◌, arith, Bool-cases, Option-cases,
}
use callio.Store.Rows.{Agent, Availability, available, on_call, offline}
use callio.Routing.Inbound.{find_owner}
use callio.Routing.Coordinator.{Floor, Setup}
use callio.Routing.Coordinator.Shifts.{
  is_settable, is_supervisor_of, set_availability, set_shift, settable_agent,
}

-- The actor may set the shift of the target: their own, or as a supervisor of the same tenant.
pub record MaySet (tenant_id actor_id target_id : ℕ) (value : Availability) (agents : List Agent)
    (target : Agent) : Type 0 where
  pub value_is_shift : (value ≡ available) ⊎ (value ≡ offline)
  pub found : find_owner target_id agents ≡ some target
  pub in_tenant : target.tenant_id ≡ tenant_id
  pub by_right :
      (actor_id ≡ target_id)
      ⊎ ((actor : Agent) × (find_owner actor_id agents ≡ some actor)
          × (actor.is_supervisor ≡ true)
          × (actor.tenant_id ≡ tenant_id))

shift_value :
    (value : Availability) → is_settable value ≡ true → (value ≡ available) ⊎ (value ≡ offline)
shift_value available v = inl refl
shift_value offline v = inr refl
shift_value on_call v = absurd (cc)

supervisor :
    (tenant_id actor_id : ℕ) (agents : List Agent)
    → is_supervisor_of tenant_id (find_owner actor_id agents) ≡ true
    → (actor : Agent) × (find_owner actor_id agents ≡ some actor)
      × (actor.is_supervisor ≡ true)
      × (actor.tenant_id ≡ tenant_id)
supervisor tenant_id actor_id agents e = elim (Option-cases (find_owner actor_id agents)) [
  | inl n ↦ absurd (ground (arith, e, n))
  | inr (a, n) ↦ (a, n, ground (arith, e, n), ground (arith, e, n))
]

settable-MaySet :
    (tenant_id actor_id target_id : ℕ) (value : Availability) (agents : List Agent) (target : Agent)
    → is_settable value ≡ true
    → settable_agent tenant_id actor_id target_id agents ≡ some target
    → MaySet tenant_id actor_id target_id value agents target
unfolding settable_agent
settable-MaySet tenant_id actor_id target_id value agents target v e =
    elim (Option-cases (find_owner target_id agents)) [
      | inl n ↦ absurd (ground (arith, e, n))
      | inr (a, n) ↦
          let same : a ≡ target = ground (arith, e, n) in
          record {
            value_is_shift = shift_value value v;
            found = rw same at n;
            in_tenant = ground (arith, e, n);
            by_right = elim (Bool-cases (actor_id == target_id)) [
              | inl i ↦ inl (ground (arith, i))
              | inr i ↦ inr (supervisor tenant_id actor_id agents (ground (arith, e, n, i)))
            ];
          }
    ]

-- `setAvailability` refuses, and changes nothing, or it returns a status, and then the shift to set is
-- AVAILABLE or OFFLINE, the agent it is for is there and of the tenant, and the actor is that agent or a
-- supervisor of the tenant.
pub set_availability-MaySet :
    (s : Setup) (tenant_id actor_id target_id : ℕ) (value : Availability) (f : Floor)
    → (set_availability s tenant_id actor_id target_id value f ≡ (f, none))
      ⊎ ((reported : Availability) × (target : Agent) × ((set_availability s tenant_id actor_id
              target_id value f).1
            ≡ some reported)
          × MaySet tenant_id actor_id target_id value f.world.db.agents target)
unfolding set_availability set_shift
set_availability-MaySet s tenant_id actor_id target_id value f =
    elim (Bool-cases (is_settable value)) [
      | inr v ↦ rw (set_availability, v) (inl refl)
      | inl v ↦
          elim (Option-cases (settable_agent tenant_id actor_id target_id f.world.db.agents)) [
            | inl e ↦ rw (set_availability, v, e) (inl refl)
            | inr (target, e) ↦
                rw (set_availability, v, e)
                  (inr (
                    _,
                    target,
                    refl,
                    settable-MaySet tenant_id actor_id target_id value f.world.db.agents target v e,
                  ))
          ]
    ]
