-- ===== src/Diff/Owned.antt =====
-- `diffTopologyForDeployment`: which changes of the whole diff are a deployment's.
use zvia.Prelude.{
  String, Bool, not, ◌&&◌, ◌||◌, ◌≡◌, refl, ap, ◌∙◌, inl, inr, Option, none, some, List, [], ◌∷◌,
  ◌==◌, string_eq, any, filter, filter_congr, map, contains, contains-add_all, arith, Bool-cases,
  All, All-append, All_of_mem,
}
use zvia.Prelude.Dict.{Dict, lookup}
use zvia.Topology.{
  Deployment, Relationship, TopologyEntity, TopologySnapshot, TopologyChangeKind, TopologyChange,
}
use zvia.Diff.{
  deployment_ids_for, deployment_ids_for_relationship, entity_changed, added_change,
  modified_change, removed_change, change_after, scan_after, change_before, scan_before,
  diff_entities, relationship_change, scan_relationships, diff_relationships, diff_topology,
  diff_topology_for_deployment,
}
use zvia.Diff.Churn.{restarted_in, comm_of, filter_process_churn_iff}

-- The snapshot that holds what a change is about: the one before for a removal.
abbrev pub side : TopologySnapshot → TopologySnapshot → TopologyChangeKind → TopologySnapshot
side before after TopologyChangeKind.entity_added = after
side before after TopologyChangeKind.entity_removed = before
side before after TopologyChangeKind.entity_modified = after
side before after TopologyChangeKind.relationship_added = after
side before after TopologyChangeKind.relationship_removed = before

-- The deployment has the changed entity, or an end of the changed relationship.
abbrev pub has_changed : TopologyChange → Deployment → Bool
has_changed c d = elim c.relationship [
  | none ↦ contains c.entity_id d.entity_ids
  | some r ↦ contains r.from d.entity_ids || contains r.to d.entity_ids
]

-- A deployment with the id, in that snapshot, has what was changed.
abbrev pub owned : TopologySnapshot → TopologySnapshot → String → TopologyChange → Bool
owned before after id c =
    any (λ d. d.id == id && has_changed c d) (side before after c.kind).deployments

contains-filter-map :
    (id : String) (p : Deployment → Bool) (ds : List Deployment)
    → contains id (map (λ d. d.id) (filter p ds)) ≡ any (λ d. d.id == id && p d) ds
unfolding contains filter any
contains-filter-map id p [] = refl
contains-filter-map id p (d ∷ ds) = elim (Bool-cases (p d)) [
  | inl e ↦ rw e (ap (λ r. d.id == id || r) (contains-filter-map id p ds) ∙ ground arith)
  | inr n ↦ rw n (contains-filter-map id p ds ∙ ground arith)
]

any_or :
    (id : String) (p q : Deployment → Bool) (ds : List Deployment)
    → (any (λ d. d.id == id && p d) ds || any (λ d. d.id == id && q d) ds)
      ≡ any (λ d. d.id == id && (p d || q d)) ds
unfolding any
any_or id p q [] = refl
any_or id p q (d ∷ ds) = ground (arith, any_or id p q ds)

module _ (before after : TopologySnapshot) (id : String) where
  abbrev Ascribed : TopologyChange → Type 0
  Ascribed c = contains id c.deployment_ids ≡ owned before after id c

  contains-deployment_ids_for :
      (snapshot : TopologySnapshot) (entity : String)
      → contains id (deployment_ids_for snapshot entity)
        ≡ any (λ d. d.id == id && contains entity d.entity_ids) snapshot.deployments
  unfolding deployment_ids_for
  contains-deployment_ids_for snapshot entity =
      contains-filter-map id (λ d. contains entity d.entity_ids) snapshot.deployments

  contains-deployment_ids_for_relationship :
      (snapshot : TopologySnapshot) (from to : String)
      → contains id (deployment_ids_for_relationship snapshot from to)
        ≡ any
            (λ d. d.id == id && (contains from d.entity_ids || contains to d.entity_ids))
            snapshot.deployments
  unfolding deployment_ids_for_relationship
  contains-deployment_ids_for_relationship snapshot from to =
      rw
        (
          contains-add_all,
          contains-add_all,
          contains-deployment_ids_for snapshot from,
          contains-deployment_ids_for snapshot to,
        )
        (unfold contains in
          any_or id (λ d. contains from d.entity_ids) (λ d. contains to d.entity_ids)
            snapshot.deployments)

  change_after-Ascribed :
      (key : String) (entity : TopologyEntity) (previous : Option TopologyEntity)
      → All Ascribed (change_after after key entity previous)
  unfolding change_after added_change modified_change
  change_after-Ascribed key entity none = (contains-deployment_ids_for after key, tt)
  change_after-Ascribed key entity (some previous) =
      elim (Bool-cases (entity_changed previous entity)) [
        | inl e ↦ rw e (contains-deployment_ids_for after key, tt)
        | inr n ↦ rw n tt
      ]

  scan_after-Ascribed : (l : Dict TopologyEntity) → All Ascribed (scan_after before after l)
  unfolding scan_after
  scan_after-Ascribed [] = tt
  scan_after-Ascribed ((key, entity) ∷ rest) =
      All-append Ascribed (change_after after key entity (lookup key before.entities)) _
        (change_after-Ascribed key entity (lookup key before.entities)) (scan_after-Ascribed rest)

  change_before-Ascribed :
      (key : String) (entity : TopologyEntity) (later : Option TopologyEntity)
      → All Ascribed (change_before before key entity later)
  unfolding change_before removed_change
  change_before-Ascribed key entity none = (contains-deployment_ids_for before key, tt)
  change_before-Ascribed key entity (some later) = tt

  scan_before-Ascribed : (l : Dict TopologyEntity) → All Ascribed (scan_before before after l)
  unfolding scan_before
  scan_before-Ascribed [] = tt
  scan_before-Ascribed ((key, entity) ∷ rest) =
      All-append Ascribed (change_before before key entity (lookup key after.entities)) _
        (change_before-Ascribed key entity (lookup key after.entities)) (scan_before-Ascribed rest)

  scan_relationships-Ascribed :
      (kind : TopologyChangeKind) (others : List String) (l : List Relationship)
      → All Ascribed (scan_relationships kind (side before after kind) others l)
  unfolding scan_relationships relationship_change
  scan_relationships-Ascribed kind others [] = tt
  scan_relationships-Ascribed kind others (rel ∷ rest) =
      let later = scan_relationships-Ascribed kind others rest in
      elim (Bool-cases (contains rel.id others)) [
        | inl e ↦ rw e later
        | inr n ↦ rw n (
          contains-deployment_ids_for_relationship (side before after kind) rel.from.id rel.to.id,
          later,
        )
      ]

  diff_topology-Ascribed : All Ascribed (diff_topology before after)
  unfolding diff_topology diff_relationships diff_entities
  diff_topology-Ascribed =
      All-append Ascribed _ _
        (All-append Ascribed _ _
          (All-append Ascribed _ _ (scan_after-Ascribed after.entities)
            (scan_before-Ascribed before.entities))
          (scan_relationships-Ascribed TopologyChangeKind.relationship_added _ after.relationships))
        (scan_relationships-Ascribed TopologyChangeKind.relationship_removed _ before.relationships)

-- A deployment's diff is the whole diff, in its order, less the changes that are not the
-- deployment's, and then less the process changes of the runtimes that restarted in what is left.
-- A change is the deployment's if a deployment with the id has the changed entity, or an end of
-- the changed relationship, in the later snapshot or, for a removal, in the earlier one.
pub diff_topology_for_deployment_lem :
    (before after : TopologySnapshot) (id : String)
    → diff_topology_for_deployment before after id
      ≡ filter
          (λ c. not (
            restarted_in (filter (owned before after id) (diff_topology before after)) (comm_of c)))
          (filter (owned before after id) (diff_topology before after))
unfolding diff_topology_for_deployment
diff_topology_for_deployment_lem before after id =
    let changes = diff_topology before after in
    let own : filter (λ (c : TopologyChange). contains id c.deployment_ids) changes
        ≡ filter (owned before after id) changes =
      filter_congr _ _ changes (λ c m.
        All_of_mem (Ascribed before after id) changes (diff_topology-Ascribed before after id) m) in
    rw own (filter_process_churn_iff (filter (owned before after id) changes))
