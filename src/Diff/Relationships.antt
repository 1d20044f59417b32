-- ===== src/Diff/Relationships.antt =====
-- Which relationships a diff reports as added or removed.
use zvia.Prelude.{
  String, false, not, ◌&&◌, ◌≡◌, refl, inl, inr, Option, none, some, List, [], ◌∷◌, map, ◌==◌,
  string_eq, any, any-append, arith, eq_iff, Bool-cases, contains,
}
use zvia.Prelude.Dict.{Dict, lookup}
use zvia.Topology.{TopologyEntity, TopologySnapshot, Relationship, TopologyChangeKind}
use zvia.Topology.Enums.{change_kind_eq}
use zvia.Diff.{
  diff_topology, change_after, change_before, added_change, modified_change, removed_change,
  relationship_change, diff_entities, diff_relationships, scan_after, scan_before,
  scan_relationships,
}
use zvia.Diff.Entities.{reports}

-- The entity scans report no change of another kind.
module _ (kind : TopologyChangeKind) (before after : TopologySnapshot) (id : String)
    (not_added : (TopologyChangeKind.entity_added == kind) ≡ false)
    (not_removed : (TopologyChangeKind.entity_removed == kind) ≡ false)
    (not_modified : (TopologyChangeKind.entity_modified == kind) ≡ false) where
  none-change_after :
      (j : String) (x : TopologyEntity) (o : Option TopologyEntity)
      → reports kind id (change_after after j x o) ≡ false
  unfolding change_after added_change modified_change any
  none-change_after j x none = ground arith
  none-change_after j x (some y) = ground arith

  none-change_before :
      (j : String) (x : TopologyEntity) (o : Option TopologyEntity)
      → reports kind id (change_before before j x o) ≡ false
  unfolding change_before removed_change any
  none-change_before j x none = ground arith
  none-change_before j x (some y) = ground arith

  none-scan_after : (m : Dict TopologyEntity) → reports kind id (scan_after before after m) ≡ false
  unfolding scan_after any
  none-scan_after [] = refl
  none-scan_after ((j, x) ∷ m) =
      rw
        (
          any-append _ (change_after after j x (lookup j before.entities)),
          none-scan_after m,
          none-change_after j x,
        )
        refl

  none-scan_before :
      (m : Dict TopologyEntity) → reports kind id (scan_before before after m) ≡ false
  unfolding scan_before any
  none-scan_before [] = refl
  none-scan_before ((j, x) ∷ m) =
      rw
        (
          any-append _ (change_before before j x (lookup j after.entities)),
          none-scan_before m,
          none-change_before j x,
        )
        refl

module _ (id : String) (owner : TopologySnapshot) (others : List String) where
  own-scan_relationships :
      (kind : TopologyChangeKind) (rels : List Relationship)
      → reports kind id (scan_relationships kind owner others rels)
        ≡ (contains id (map (λ r. r.id) rels) && not (contains id others))
  unfolding scan_relationships any contains relationship_change
  own-scan_relationships kind [] = refl
  own-scan_relationships kind (r ∷ rest) =
      let ih = own-scan_relationships kind rest in
      let same = (change_kind_eq.same_iff kind kind).1 refl in
      elim (Bool-cases (contains r.id others)) [
        | inl e ↦ rw e (rw ih (ground (arith, eq_iff r.id id)))
        | inr e ↦ rw e (rw ih (ground (arith, eq_iff r.id id)))
      ]

  other-scan_relationships :
      (given kind : TopologyChangeKind) (rels : List Relationship)
      → (given == kind) ≡ false
      → reports kind id (scan_relationships given owner others rels) ≡ false
  unfolding scan_relationships any relationship_change
  other-scan_relationships given kind [] h = refl
  other-scan_relationships given kind (r ∷ rest) h =
      let ih = other-scan_relationships given kind rest h in
      elim (Bool-cases (contains r.id others)) [
        | inl e ↦ rw e ih
        | inr e ↦ rw e (rw ih (ground arith))
      ]

-- A relationship is reported as added, or removed, exactly when its id is only in the second
-- snapshot, or only in the first.
pub diff_topology-reports_relationships :
    (before after : TopologySnapshot) (id : String)
    → (reports TopologyChangeKind.relationship_added id (diff_topology before after) ≡ (
        contains id (map (λ r. r.id) after.relationships)
        && not (contains id (map (λ r. r.id) before.relationships))))
      × (reports TopologyChangeKind.relationship_removed id (diff_topology before after) ≡ (
          contains id (map (λ r. r.id) before.relationships)
          && not (contains id (map (λ r. r.id) after.relationships))))
unfolding diff_topology diff_entities diff_relationships
diff_topology-reports_relationships before after id = (
  rw
      (
        any-append,
        any-append,
        any-append,
        none-scan_after TopologyChangeKind.relationship_added before after id refl refl refl,
        none-scan_before TopologyChangeKind.relationship_added before after id refl refl refl,
        own-scan_relationships id,
        other-scan_relationships id before _ TopologyChangeKind.relationship_removed
            TopologyChangeKind.relationship_added before.relationships refl,
      )
      (ground arith),
  rw
      (
        any-append,
        any-append,
        any-append,
        none-scan_after TopologyChangeKind.relationship_removed before after id refl refl refl,
        none-scan_before TopologyChangeKind.relationship_removed before after id refl refl refl,
        own-scan_relationships id before,
        other-scan_relationships id after _ TopologyChangeKind.relationship_added
            TopologyChangeKind.relationship_removed after.relationships refl,
      )
      (ground arith),
)
