-- ===== src/Health/Containers.antt =====
-- Failed containers and their published ports after `applyEntityHealth`.
use mathlib.Core.Path.{subst}
use zvia.Prelude.{
  String, Bool, true, not, ◌&&◌, ◌||◌, ◌≡◌, refl, sym, ap, ◌∙◌, inl, inr, Option, none, some, List,
  [], ◌∷◌, ◌==◌, string_eq, Memᴰ, arith, beq_self, Bool-cases,
}
use zvia.Prelude.Dict.{Dict, lookup, update, lookup-update, map_some}
use zvia.Topology.{EntityKind, HealthStatus, RelationshipType, Relationship, TopologyEntity}
use zvia.Topology.Enums.{kind_eq, status_eq, type_eq}
use zvia.Health.{
  PortListener, set_status, is_failed_kind, fail_port, pass_containers, pass_downstream,
  pass_reported, pass_listeners, apply_entity_health,
}

-- No port that is not failed stands there.
abbrev pub port_fails : Option TopologyEntity → Bool
port_fails none = true
port_fails (some a) = not (a.kind == EntityKind.port) || a.status == HealthStatus.failed

-- A failed container stands there.
abbrev pub container_has_failed : Option TopologyEntity → Bool
container_has_failed o = is_failed_kind EntityKind.docker_container o

fail_port-container_has_failed :
    (o : Option TopologyEntity)
    → container_has_failed (map_some fail_port o) ≡ container_has_failed o
unfolding fail_port set_status
fail_port-container_has_failed none = refl
fail_port-container_has_failed (some a) = ground arith

fail_port-port_fails : (o : Option TopologyEntity) → port_fails (map_some fail_port o) ≡ true
unfolding fail_port set_status
fail_port-port_fails none = refl
fail_port-port_fails (some a) = ground arith

module _ (j : String) where
  update-container_has_failed :
      (k : String) (m : Dict TopologyEntity)
      → container_has_failed (lookup j (update k fail_port m)) ≡ container_has_failed (lookup j m)
  update-container_has_failed k m = rw lookup-update (elim (Bool-cases (k == j)) [
    | inl e ↦ rw e (fail_port-container_has_failed (lookup j m))
    | inr e ↦ rw e
  ])

  update-port_fails :
      (k : String) (m : Dict TopologyEntity)
      → port_fails (lookup j m) ≡ true
      → port_fails (lookup j (update k fail_port m)) ≡ true
  update-port_fails k m h = rw lookup-update (elim (Bool-cases (k == j)) [
    | inl e ↦ rw e (fail_port-port_fails (lookup j m))
    | inr e ↦ rw e h
  ])

  pass_containers-container_has_failed :
      (rels : List Relationship) (m : Dict TopologyEntity)
      → container_has_failed (lookup j (pass_containers rels m)) ≡ container_has_failed (lookup j m)
  unfolding pass_containers
  pass_containers-container_has_failed [] m = refl
  pass_containers-container_has_failed (r ∷ rels) m =
      elim (Bool-cases
        (r.type == RelationshipType.published_by && container_has_failed (lookup r.to.id m))) [
          | inl e ↦ rw e (
              pass_containers-container_has_failed rels (update r.from.id fail_port m)
              ∙ update-container_has_failed r.from.id m)
          | inr e ↦ rw e (pass_containers-container_has_failed rels m)
        ]

  pass_containers-port_fails :
      (rels : List Relationship) (m : Dict TopologyEntity)
      → port_fails (lookup j m) ≡ true
      → port_fails (lookup j (pass_containers rels m)) ≡ true
  unfolding pass_containers
  pass_containers-port_fails [] m h = h
  pass_containers-port_fails (r ∷ rels) m h =
      elim (Bool-cases
        (r.type == RelationshipType.published_by && container_has_failed (lookup r.to.id m))) [
          | inl e ↦ rw e (
              pass_containers-port_fails rels (update r.from.id fail_port m)
                (update-port_fails r.from.id m h))
          | inr e ↦ rw e (pass_containers-port_fails rels m h)
        ]

pass_containers_closed :
    (rels : List Relationship) (m : Dict TopologyEntity) (r : Relationship)
    → Memᴰ r rels
    → r.type ≡ RelationshipType.published_by
    → container_has_failed (lookup r.to.id (pass_containers rels m)) ≡ true
    → port_fails (lookup r.from.id (pass_containers rels m)) ≡ true
unfolding pass_containers
pass_containers_closed [] m r mem t h = elim mem [ ]
pass_containers_closed (q ∷ rels) m r (Memᴰ.head s) t h =
    let was : container_has_failed (lookup r.to.id m) ≡ true =
      sym (pass_containers-container_has_failed r.to.id (q ∷ rels) m) ∙ h in
    let enters : (q.type == RelationshipType.published_by
          && container_has_failed (lookup q.to.id m))
        ≡ true =
      subst
        (λ x.
          (x.type == RelationshipType.published_by && container_has_failed (lookup x.to.id m))
          ≡ true)
        s (rw (t, was)) in
    let updated : port_fails (lookup r.from.id (update q.from.id fail_port m)) ≡ true =
      rw lookup-update (
        rw (ap (λ x. x.from.id) (sym s), beq_self r.from.id)
          (fail_port-port_fails (lookup r.from.id m))) in
    rw enters (pass_containers-port_fails r.from.id rels (update q.from.id fail_port m) updated)
pass_containers_closed (q ∷ rels) m r (Memᴰ.tail mem) t h =
    elim (Bool-cases
      (q.type == RelationshipType.published_by && container_has_failed (lookup q.to.id m))) [
        | inl e ↦
            rw e (pass_containers_closed rels (update q.from.id fail_port m) r mem t (rw e at h))
        | inr e ↦ rw e (pass_containers_closed rels m r mem t (rw e at h))
      ]

-- After the health pass no port that is published by a failed container is left standing,
-- whatever made the container fail.
pub apply_entity_health-containers :
    (m : Dict TopologyEntity) (rels : List Relationship) (ls : List PortListener) (r : Relationship)
    → Memᴰ r rels
    → r.type ≡ RelationshipType.published_by
    → container_has_failed (lookup r.to.id (apply_entity_health m rels ls)) ≡ true
    → port_fails (lookup r.from.id (apply_entity_health m rels ls)) ≡ true
unfolding apply_entity_health
apply_entity_health-containers m rels ls r mem t h =
    pass_containers_closed rels (pass_downstream rels (pass_reported (pass_listeners ls rels m))) r
      mem t h
