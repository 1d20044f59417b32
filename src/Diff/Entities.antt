-- ===== src/Diff/Entities.antt =====
-- Which entities a diff reports as added, removed or modified.
use zvia.Prelude.{
  String, Bool, true, false, not, ◌&&◌, ◌||◌, ◌≡◌, refl, ◌∙◌, inl, inr, Option, none, some, List,
  [], ◌∷◌, ◌==◌, string_eq, any, any-append, is_some, arith, eq_iff, Bool-cases, contains,
  contains_iff, beq_self, all, length, All, Memᴰ, map, nat_eq,
}
use mathlib.Core.List.Memᴰ
use zvia.Prelude.Dict.{Dict, keys, lookup, has, has-any, any-at_key, passes, IsDict}
use zvia.Topology.{
  TopologyEntity, TopologySnapshot, Relationship, TopologyChangeKind, TopologyChange, Scalar,
}
use zvia.Topology.Enums.{change_kind_eq, status_eq}
use zvia.Diff.{
  diff_topology, change_after, change_before, added_change, modified_change, removed_change,
  relationship_change, diff_entities, diff_relationships, scan_after, scan_before,
  scan_relationships, entity_changed, scalar_beq, sources_equal,
}

-- Some change of the kind is about the entity.
abbrev pub reports : TopologyChangeKind → String → List TopologyChange → Bool
reports kind id changes = any (λ c. c.kind == kind && c.entity_id == id) changes

abbrev changed_from : Option TopologyEntity → TopologyEntity → Bool
changed_from none entity = false
changed_from (some previous) entity = entity_changed previous entity

-- Both snapshots hold the entity, with another status or another source.
abbrev pub changed_between : Option TopologyEntity → Option TopologyEntity → Bool
changed_between previous entity = passes (changed_from previous) entity

-- What one round of the first loop reports.
module _ (after : TopologySnapshot) (j id : String) (entity : TopologyEntity) where
  added-change_after :
      (o : Option TopologyEntity)
      → reports TopologyChangeKind.entity_added id (change_after after j entity o)
        ≡ (j == id && not (is_some o))
  unfolding change_after added_change modified_change any
  added-change_after none = ground arith
  added-change_after (some x) = ground arith

  modified-change_after :
      (o : Option TopologyEntity)
      → reports TopologyChangeKind.entity_modified id (change_after after j entity o)
        ≡ (j == id && changed_from o entity)
  unfolding change_after added_change modified_change any
  modified-change_after none = ground arith
  modified-change_after (some x) = ground arith

  removed-change_after :
      (o : Option TopologyEntity)
      → reports TopologyChangeKind.entity_removed id (change_after after j entity o) ≡ false
  unfolding change_after added_change modified_change any
  removed-change_after none = ground arith
  removed-change_after (some x) = ground arith

module _ (before : TopologySnapshot) (j id : String) (entity : TopologyEntity) where
  removed-change_before :
      (o : Option TopologyEntity)
      → reports TopologyChangeKind.entity_removed id (change_before before j entity o)
        ≡ (j == id && not (is_some o))
  unfolding change_before removed_change any
  removed-change_before none = ground arith
  removed-change_before (some x) = ground arith

  others-change_before :
      (kind : TopologyChangeKind)
      → (TopologyChangeKind.entity_removed == kind) ≡ false
      → (o : Option TopologyEntity) → reports kind id (change_before before j entity o) ≡ false
  unfolding change_before removed_change any
  others-change_before kind h none = ground arith
  others-change_before kind h (some x) = refl

module _ (before after : TopologySnapshot) (id : String) where
  added-scan_after :
      (m : Dict TopologyEntity)
      → reports TopologyChangeKind.entity_added id (scan_after before after m)
        ≡ (any (λ e. e.0 == id) m && not (has id before.entities))
  unfolding scan_after any
  added-scan_after [] = refl
  added-scan_after ((j, entity) ∷ rest) =
      rw
        (
          any-append _ (change_after after j entity (lookup j before.entities)),
          added-scan_after rest,
          added-change_after after j id entity,
        )
        (ground (arith, eq_iff j id))

  modified-scan_after :
      (m : Dict TopologyEntity)
      → reports TopologyChangeKind.entity_modified id (scan_after before after m)
        ≡ any (λ e. e.0 == id && changed_from (lookup id before.entities) e.1) m
  unfolding scan_after any
  modified-scan_after [] = refl
  modified-scan_after ((j, entity) ∷ rest) =
      rw
        (
          any-append _ (change_after after j entity (lookup j before.entities)),
          modified-scan_after rest,
          modified-change_after after j id entity,
        )
        (ground (arith, eq_iff j id))

  removed-scan_after :
      (m : Dict TopologyEntity)
      → reports TopologyChangeKind.entity_removed id (scan_after before after m) ≡ false
  unfolding scan_after any
  removed-scan_after [] = refl
  removed-scan_after ((j, entity) ∷ rest) =
      rw
        (
          any-append _ (change_after after j entity (lookup j before.entities)),
          removed-scan_after rest,
          removed-change_after after j id entity,
        )
        refl

  removed-scan_before :
      (m : Dict TopologyEntity)
      → reports TopologyChangeKind.entity_removed id (scan_before before after m)
        ≡ (any (λ e. e.0 == id) m && not (has id after.entities))
  unfolding scan_before any
  removed-scan_before [] = refl
  removed-scan_before ((j, entity) ∷ rest) =
      rw
        (
          any-append _ (change_before before j entity (lookup j after.entities)),
          removed-scan_before rest,
          removed-change_before before j id entity,
        )
        (ground (arith, eq_iff j id))

  -- Neither other scan reports the kind.
  others-scan_before :
      (kind : TopologyChangeKind) (m : Dict TopologyEntity)
      → (TopologyChangeKind.entity_removed == kind) ≡ false
      → reports kind id (scan_before before after m) ≡ false
  unfolding scan_before any
  others-scan_before kind [] h = refl
  others-scan_before kind ((j, entity) ∷ rest) h =
      rw
        (
          any-append _ (change_before before j entity (lookup j after.entities)),
          others-scan_before kind rest h,
          others-change_before before j id entity kind h,
        )
        refl

  others-scan_relationships :
      (given kind : TopologyChangeKind) (owner : TopologySnapshot) (others : List String)
      (rels : List Relationship)
      → (given == kind) ≡ false
      → reports kind id (scan_relationships given owner others rels) ≡ false
  unfolding scan_relationships any
  others-scan_relationships given kind owner others [] h = refl
  others-scan_relationships given kind owner others (rel ∷ rest) h =
      let ih = others-scan_relationships given kind owner others rest h in
      elim (Bool-cases (contains rel.id others)) [
        | inl e ↦ rw e ih
        | inr e ↦ rw e (rw ih (unfold relationship_change in ground arith))
      ]

  -- What the four scans of a diff report together.
  reports-diff_topology :
      (kind : TopologyChangeKind)
      → (TopologyChangeKind.relationship_added == kind) ≡ false
      → (TopologyChangeKind.relationship_removed == kind) ≡ false
      → reports kind id (diff_topology before after) ≡ (
          reports kind id (scan_after before after after.entities)
          || reports kind id (scan_before before after before.entities))
  unfolding diff_topology diff_entities diff_relationships
  reports-diff_topology kind p q =
      rw
        (
          any-append,
          any-append,
          any-append,
          others-scan_relationships _ kind _ _ after.relationships p,
          others-scan_relationships _ kind _ _ before.relationships q,
        )
        (ground arith)

  -- Under distinct keys, an entity is reported as added, removed or modified exactly when it is
  -- only in the second snapshot, only in the first, or in both with another status or source.
  pub diff_topology-reports :
      IsDict after.entities
      → (reports TopologyChangeKind.entity_added id (diff_topology before after)
          ≡ (has id after.entities && not (has id before.entities)))
        × (reports TopologyChangeKind.entity_removed id (diff_topology before after)
            ≡ (has id before.entities && not (has id after.entities)))
        × (reports TopologyChangeKind.entity_modified id (diff_topology before after)
            ≡ changed_between (lookup id before.entities) (lookup id after.entities))
  diff_topology-reports distinct = (
    reports-diff_topology TopologyChangeKind.entity_added refl refl
        ∙ rw
            (
              added-scan_after,
              others-scan_before TopologyChangeKind.entity_added before.entities refl,
              ← has-any id after.entities,
            )
            (ground arith),
    reports-diff_topology TopologyChangeKind.entity_removed refl refl
        ∙ rw (removed-scan_after, removed-scan_before, ← has-any id before.entities) refl,
    reports-diff_topology TopologyChangeKind.entity_modified refl refl
        ∙ rw
            (
              modified-scan_after,
              others-scan_before TopologyChangeKind.entity_modified before.entities refl,
              any-at_key id (changed_from (lookup id before.entities)) after.entities distinct,
            )
            (ground arith),
  )

scalar_beq_self : (v : Option Scalar) → scalar_beq v v ≡ true
unfolding scalar_beq
scalar_beq_self none = refl
scalar_beq_self (some (Scalar.text a)) = beq_self a
scalar_beq_self (some (Scalar.number a)) = beq_self a
scalar_beq_self (some (Scalar.flag true)) = refl
scalar_beq_self (some (Scalar.flag false)) = refl
scalar_beq_self (some Scalar.null) = refl

all_keys_equal :
    (d : Dict Scalar) (ks : List String)
    → all (λ key. scalar_beq (lookup key d) (lookup key d)) ks ≡ true
unfolding all
all_keys_equal d [] = refl
all_keys_equal d (k ∷ ks) = rw (scalar_beq_self (lookup k d), all_keys_equal d ks)

sources_equal_self : (s : Option (Dict Scalar)) → sources_equal s s ≡ true
unfolding sources_equal
sources_equal_self none = refl
sources_equal_self (some d) = rw (beq_self (length d), all_keys_equal d (keys d))

entity_changed_self : (x : TopologyEntity) → entity_changed x x ≡ false
unfolding entity_changed
entity_changed_self x = rw (beq_self x.status, sources_equal_self x.source_ref)

module _ (s : TopologySnapshot) where
  scan_after_self :
      (m : Dict TopologyEntity)
      → All (λ e. lookup e.0 s.entities ≡ some e.1) m
      → scan_after s s m ≡ []
  unfolding scan_after change_after
  scan_after_self [] h = refl
  scan_after_self ((j, x) ∷ m) h =
      rw (h.0, change_after, entity_changed_self x, scan_after_self m h.1)

  scan_before_self :
      (m : Dict TopologyEntity)
      → All (λ e. lookup e.0 s.entities ≡ some e.1) m
      → scan_before s s m ≡ []
  unfolding scan_before change_before
  scan_before_self [] h = refl
  scan_before_self ((j, x) ∷ m) h = rw (h.0, change_before, scan_before_self m h.1)

  scan_relationships_self :
      (kind : TopologyChangeKind) (rels : List Relationship) (ids : List String)
      → ((r : Relationship) → Memᴰ r rels → contains r.id ids ≡ true)
      → scan_relationships kind s ids rels ≡ []
  unfolding scan_relationships
  scan_relationships_self kind [] ids h = refl
  scan_relationships_self kind (r ∷ rest) ids h =
      rw (h r (Memᴰ.head refl), scan_relationships_self kind rest ids (λ x m. h x (Memᴰ.tail m)))

  own_ids :
      (r : Relationship)
      → Memᴰ r s.relationships
      → contains r.id (map (λ x. x.id) s.relationships) ≡ true
  own_ids r m = (contains_iff _ _).1 (Memᴰ.map (λ (x : Relationship). x.id) m)

  -- A snapshot with distinct entity keys has no changes against itself.
  pub diff_topology_self : IsDict s.entities → diff_topology s s ≡ []
  unfolding diff_topology diff_entities diff_relationships
  diff_topology_self distinct = rw (
    scan_after_self s.entities distinct,
    scan_before_self s.entities distinct,
    scan_relationships_self TopologyChangeKind.relationship_added s.relationships _ own_ids,
    scan_relationships_self TopologyChangeKind.relationship_removed s.relationships _ own_ids,
  )
