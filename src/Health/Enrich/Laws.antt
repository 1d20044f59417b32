-- ===== src/Health/Enrich/Laws.antt =====
-- The health of a deployment is the worst of its components', and its entrypoints follow it.
use mathlib.Core.Path.{subst}
use mathlib.Core.List.Memᴰ
use zvia.Prelude.{
  String, ◌≤◌, ◌≡◌, refl, ap, ◌∙◌, ◌⊎◌, inl, inr, Option, none, some, List, [], ◌∷◌, ◌==◌,
  string_eq, All, All_of_mem, Memᴰ, map, any, arith, Bool-cases, if◌then◌else◌,
}
use zvia.Prelude.Dict.{Dict, lookup, update, lookup-update, map_some}
use zvia.Topology.{HealthStatus, Deployment, EntityRef, Relationship, TopologyEntity}
use zvia.Health.{health_rank, set_status, sync_entrypoints, sync_entrypoint_entity_health}
use zvia.Health.Worst.{worst_status-IsWorst, worst_status-cons}
use zvia.Health.Enrich.{statuses, health_of, compute_deployment_health, enrich, enrich_deployments}

-- The worst of some statuses: one of them, and none is worse.
abbrev pub IsWorst : HealthStatus → List HealthStatus → Type 0
IsWorst h l = Memᴰ h l × All (λ s. health_rank s ≤ health_rank h) l

health_of-IsWorst :
    (l : List HealthStatus)
    → ((l ≡ []) × (health_of l ≡ HealthStatus.unknown)) ⊎ IsWorst (health_of l) l
unfolding health_of
health_of-IsWorst [] = inl (refl, refl)
health_of-IsWorst (s ∷ l) = inr (worst_status-cons s l, (worst_status-IsWorst (s ∷ l)).1)

-- The health of a deployment is unknown if none of its components has a status, and otherwise
-- the worst of its components' statuses.
pub compute_deployment_health-IsWorst :
    (d : Deployment) (entities : Dict TopologyEntity) (rels : List Relationship)
    → ((statuses (compute_deployment_health d entities rels).1 ≡ [])
        × ((compute_deployment_health d entities rels).0 ≡ HealthStatus.unknown))
      ⊎ IsWorst
          (compute_deployment_health d entities rels).0
          (statuses (compute_deployment_health d entities rels).1)
unfolding compute_deployment_health
compute_deployment_health-IsWorst d entities rels = health_of-IsWorst _

-- The last of the deployments that have the entity as an entrypoint decides on its status.
abbrev pub last_health : String → Option HealthStatus → List Deployment → Option HealthStatus
last_health j h [] = h
last_health j h (d ∷ ds) =
    last_health j (if any (λ e. e.id == j) d.entrypoints then some d.health else h) ds

abbrev pub with_status : Option HealthStatus → Option TopologyEntity → Option TopologyEntity
with_status none o = o
with_status (some h) o = map_some (set_status h) o

set_status_twice :
    (g h : HealthStatus) (o : Option TopologyEntity)
    → map_some (set_status h) (map_some (set_status g) o) ≡ map_some (set_status h) o
unfolding set_status
set_status_twice g h none = refl
set_status_twice g h (some a) = refl

module _ (j : String) (h : HealthStatus) where
  lookup-sync_entrypoints :
      (es : List EntityRef) (m : Dict TopologyEntity)
      → lookup j (sync_entrypoints h es m)
        ≡ (if any (λ e. e.id == j) es then map_some (set_status h) (lookup j m) else lookup j m)
  unfolding sync_entrypoints any
  lookup-sync_entrypoints [] m = refl
  lookup-sync_entrypoints (e ∷ es) m =
      lookup-sync_entrypoints es (update e.id (set_status h) m)
      ∙ rw lookup-update (elim (Bool-cases (e.id == j)) [
        | inl s ↦ rw s (ground (arith, set_status_twice h h (lookup j m)))
        | inr n ↦ rw n
      ])

lookup-sync :
    (j : String) (ds : List Deployment) (m m' : Dict TopologyEntity) (h : Option HealthStatus)
    → lookup j m' ≡ with_status h (lookup j m)
    → lookup j (sync_entrypoint_entity_health ds m') ≡ with_status (last_health j h ds) (lookup j m)
unfolding sync_entrypoint_entity_health
lookup-sync j [] m m' h e = e
lookup-sync j (d ∷ ds) m m' h e =
    lookup-sync j ds m (sync_entrypoints d.health d.entrypoints m') _
      (lookup-sync_entrypoints j d.health d.entrypoints m' ∙ here h e)
  where
    again :
        (h : Option HealthStatus)
        → lookup j m' ≡ with_status h (lookup j m)
        → map_some (set_status d.health) (lookup j m') ≡ map_some (set_status d.health) (lookup j m)
    again none e = ap (map_some (set_status d.health)) e
    again (some g) e =
        ap (map_some (set_status d.health)) e ∙ set_status_twice g d.health (lookup j m)

    here :
        (h : Option HealthStatus)
        → lookup j m' ≡ with_status h (lookup j m)
        → (if any (λ x. x.id == j) d.entrypoints
            then map_some (set_status d.health) (lookup j m')
            else lookup j m')
          ≡ with_status
              (if any (λ x. x.id == j) d.entrypoints then some d.health else h)
              (lookup j m)
    here h e = elim (Bool-cases (any (λ x. x.id == j) d.entrypoints)) [
      | inl y ↦ rw y (again h e)
      | inr n ↦ rw n e
    ]

-- what of a deployment enriching leaves alone
abbrev pub identity : Deployment → String × List String × List EntityRef
identity d = (d.id, d.entity_ids, d.entrypoints)

-- Enriching keeps the deployments, their entities and their entrypoints, in order; an entity that
-- is an entrypoint takes the health of the last deployment that it is one of, and no other entity
-- changes.
pub enrich_deployments-entrypoints :
    (ds : List Deployment) (m : Dict TopologyEntity) (rels : List Relationship) (j : String)
    → (map identity (enrich_deployments ds m rels).0 ≡ map identity ds)
      × (lookup j (enrich_deployments ds m rels).1
          ≡ with_status (last_health j none (enrich_deployments ds m rels).0) (lookup j m))
unfolding enrich_deployments
enrich_deployments-entrypoints ds m rels j =
    (kept ds, lookup-sync j (map (enrich m rels) ds) m m none refl)
  where
    kept : (l : List Deployment) → map identity (map (enrich m rels) l) ≡ map identity l
    kept [] = refl
    kept (d ∷ l) = rw (kept l) (unfold enrich in refl)

failed_of_mem :
    (h : HealthStatus) (l : List HealthStatus)
    → IsWorst h l
    → Memᴰ HealthStatus.failed l
    → h ≡ HealthStatus.failed
unfolding health_rank
failed_of_mem h l w m =
    let below : 4 ≤ health_rank h = All_of_mem (λ s. health_rank s ≤ health_rank h) l w.1 m in
    only h below
  where
    only : (s : HealthStatus) → 4 ≤ health_rank s → s ≡ HealthStatus.failed
    only HealthStatus.failed b = refl
    only HealthStatus.healthy b = absurd (omega arith)
    only HealthStatus.degraded b = absurd (omega arith)
    only HealthStatus.unknown b = absurd (omega arith)
    only HealthStatus.discovering b = absurd (omega arith)

-- A deployment has failed as soon as one of its components has.
pub compute_deployment_health-failed :
    (d : Deployment) (entities : Dict TopologyEntity) (rels : List Relationship)
    → Memᴰ HealthStatus.failed (statuses (compute_deployment_health d entities rels).1)
    → (compute_deployment_health d entities rels).0 ≡ HealthStatus.failed
compute_deployment_health-failed d entities rels m =
    elim (compute_deployment_health-IsWorst d entities rels) [
      | inl (e, _) ↦ absurd (Memᴰ.not-nil (subst (λ l. Memᴰ HealthStatus.failed l) e m))
      | inr w ↦ failed_of_mem _ _ w m
    ]
