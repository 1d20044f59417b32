-- ===== src/Health/Apply.antt =====
-- What `applyEntityHealth` does to the entities.
use zvia.Prelude.{
  String, not, ◌&&◌, ◌||◌, ◌≡◌, refl, ap, ◌∙◌, ◌⊎◌, inl, inr, Option, none, some, List, [], ◌∷◌,
  ◌==◌, string_eq, arith, Bool-cases,
}
use zvia.Prelude.Dict.{Dict, lookup, update, lookup-update, map_some}
use zvia.Topology.{
  EntityKind, Confidence, HealthStatus, RelationshipType, Relationship, TopologyEntity,
}
use zvia.Topology.Enums.{kind_eq, status_eq, type_eq, confidence_eq}
use zvia.Health.{
  PortListener, set_status, fail_unheard, pass_listeners, fail_reported, pass_reported,
  is_failed_kind, fail_downstream, pass_downstream, fail_port, pass_containers, apply_entity_health,
}

-- The entity is as it was, or it is as it was but failed.
abbrev pub SameOrFailed : TopologyEntity → TopologyEntity → Type 0
SameOrFailed a b = (b ≡ a) ⊎ (b ≡ set_status HealthStatus.failed a)

abbrev pub SameOrFailedAt : Option TopologyEntity → Option TopologyEntity → Type 0
SameOrFailedAt none o = o ≡ none
SameOrFailedAt (some a) o = (b : TopologyEntity) × (o ≡ some b) × SameOrFailed a b

SameOrFailed-trans :
    (a b c : TopologyEntity) → SameOrFailed a b → SameOrFailed b c → SameOrFailed a c
unfolding set_status
SameOrFailed-trans a b c (inl p) (inl q) = inl (q ∙ p)
SameOrFailed-trans a b c (inl p) (inr q) = inr (q ∙ ap (set_status HealthStatus.failed) p)
SameOrFailed-trans a b c (inr p) (inl q) = inr (q ∙ p)
SameOrFailed-trans a b c (inr p) (inr q) = inr (q ∙ ap (set_status HealthStatus.failed) p)

SameOrFailedAt-refl : (o : Option TopologyEntity) → SameOrFailedAt o o
SameOrFailedAt-refl none = refl
SameOrFailedAt-refl (some a) = (a, refl, inl refl)

pub SameOrFailedAt-trans :
    (o p q : Option TopologyEntity) → SameOrFailedAt o p → SameOrFailedAt p q → SameOrFailedAt o q
SameOrFailedAt-trans none none q h k = k
SameOrFailedAt-trans none (some b) q h k = absurd (ground arith)
SameOrFailedAt-trans (some a) none q (b, e, s) k = absurd (ground arith)
SameOrFailedAt-trans (some a) (some b) q (b', e, s) (c, f, t) =
    (c, f, SameOrFailed-trans a b c (ground arith) t)

-- An update by a function that at most fails an entity at most fails entities.
module _ (f : TopologyEntity → TopologyEntity)
    (fails : (a : TopologyEntity) → SameOrFailed a (f a)) where
  map_some-SameOrFailed : (o : Option TopologyEntity) → SameOrFailedAt o (map_some f o)
  map_some-SameOrFailed none = refl
  map_some-SameOrFailed (some a) = (f a, refl, fails a)

  pub update-SameOrFailed :
      (k j : String) (m : Dict TopologyEntity)
      → SameOrFailedAt (lookup j m) (lookup j (update k f m))
  update-SameOrFailed k j m = rw lookup-update (elim (Bool-cases (k == j)) [
    | inl e ↦ rw e (map_some-SameOrFailed (lookup j m))
    | inr e ↦ rw e (SameOrFailedAt-refl (lookup j m))
  ])

pub fail_unheard-SameOrFailed :
    (ls : List PortListener) (a : TopologyEntity) → SameOrFailed a (fail_unheard ls a)
unfolding fail_unheard
fail_unheard-SameOrFailed ls a = ground arith

fail_reported-SameOrFailed : (a : TopologyEntity) → SameOrFailed a (fail_reported a)
unfolding fail_reported
fail_reported-SameOrFailed a = ground arith

fail_downstream-SameOrFailed : (a : TopologyEntity) → SameOrFailed a (fail_downstream a)
unfolding fail_downstream
fail_downstream-SameOrFailed a = ground arith

pub fail_port-SameOrFailed : (a : TopologyEntity) → SameOrFailed a (fail_port a)
unfolding fail_port
fail_port-SameOrFailed a = ground arith

pub lookup-pass_reported :
    (j : String) (m : Dict TopologyEntity)
    → lookup j (pass_reported m) ≡ map_some fail_reported (lookup j m)
unfolding lookup pass_reported
lookup-pass_reported j [] = refl
lookup-pass_reported j ((i, a) ∷ m) = ground (arith, lookup-pass_reported j m)

module _ (j : String) where
  pub pass_listeners-SameOrFailed :
      (ls : List PortListener) (rels : List Relationship) (m : Dict TopologyEntity)
      → SameOrFailedAt (lookup j m) (lookup j (pass_listeners ls rels m))
  unfolding pass_listeners
  pass_listeners-SameOrFailed ls [] m = SameOrFailedAt-refl (lookup j m)
  pass_listeners-SameOrFailed ls (r ∷ rels) m =
      elim (Bool-cases
        (not (r.type == RelationshipType.proxies_to) || r.confidence == Confidence.conflicting)) [
          | inl e ↦ rw e (pass_listeners-SameOrFailed ls rels m)
          | inr e ↦ rw e (
              SameOrFailedAt-trans _ _ _
                (update-SameOrFailed (fail_unheard ls) (fail_unheard-SameOrFailed ls) r.to.id j m)
                (pass_listeners-SameOrFailed ls rels (update r.to.id (fail_unheard ls) m)))
        ]

  pub pass_downstream-SameOrFailed :
      (rels : List Relationship) (m : Dict TopologyEntity)
      → SameOrFailedAt (lookup j m) (lookup j (pass_downstream rels m))
  unfolding pass_downstream
  pass_downstream-SameOrFailed [] m = SameOrFailedAt-refl (lookup j m)
  pass_downstream-SameOrFailed (r ∷ rels) m =
      elim (Bool-cases (
        (r.type == RelationshipType.published_by || r.type == RelationshipType.bound_to)
        && is_failed_kind EntityKind.port (lookup r.from.id m))) [
          | inl e ↦ rw e (
              SameOrFailedAt-trans _ _ _
                (update-SameOrFailed fail_downstream fail_downstream-SameOrFailed r.to.id j m)
                (pass_downstream-SameOrFailed rels (update r.to.id fail_downstream m)))
          | inr e ↦ rw e (pass_downstream-SameOrFailed rels m)
        ]

  pub pass_containers-SameOrFailed :
      (rels : List Relationship) (m : Dict TopologyEntity)
      → SameOrFailedAt (lookup j m) (lookup j (pass_containers rels m))
  unfolding pass_containers
  pass_containers-SameOrFailed [] m = SameOrFailedAt-refl (lookup j m)
  pass_containers-SameOrFailed (r ∷ rels) m =
      elim (Bool-cases (
        r.type == RelationshipType.published_by
        && is_failed_kind EntityKind.docker_container (lookup r.to.id m))) [
          | inl e ↦ rw e (
              SameOrFailedAt-trans _ _ _
                (update-SameOrFailed fail_port fail_port-SameOrFailed r.from.id j m)
                (pass_containers-SameOrFailed rels (update r.from.id fail_port m)))
          | inr e ↦ rw e (pass_containers-SameOrFailed rels m)
        ]

  pub pass_reported-SameOrFailed :
      (m : Dict TopologyEntity) → SameOrFailedAt (lookup j m) (lookup j (pass_reported m))
  pass_reported-SameOrFailed m =
      rw lookup-pass_reported
        (map_some-SameOrFailed fail_reported fail_reported-SameOrFailed (lookup j m))

  -- The health pass adds and removes no entity and changes none but in its status, and no status
  -- but to `failed`.
  pub apply_entity_health-SameOrFailed :
      (m : Dict TopologyEntity) (rels : List Relationship) (ls : List PortListener)
      → SameOrFailedAt (lookup j m) (lookup j (apply_entity_health m rels ls))
  unfolding apply_entity_health
  apply_entity_health-SameOrFailed m rels ls =
      let m1 = pass_listeners ls rels m in
      let m2 = pass_reported m1 in
      let m3 = pass_downstream rels m2 in
      SameOrFailedAt-trans _ _ _ (pass_listeners-SameOrFailed ls rels m) (
        SameOrFailedAt-trans (lookup j m1) _ _ (pass_reported-SameOrFailed m1) (
          SameOrFailedAt-trans (lookup j m2) _ _ (pass_downstream-SameOrFailed rels m2)
            (pass_containers-SameOrFailed rels m3)))
