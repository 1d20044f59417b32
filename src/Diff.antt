-- ===== src/Diff.antt =====
-- app/src/main/services/deployments/diff.ts: the changes between two topology snapshots.
-- `changes.push` in a loop is a list built in the loop's order. Two `sourceRef` objects are
-- compared by their entries; the shortcut for one and the same object gives the same answer, as
-- an object's keys are distinct.
pub mod Entities
pub mod Relationships
pub mod Churn
pub mod Owned
mod Tests
use zvia.Prelude.{
  String, Bool, true, false, not, ◌&&◌, ◌||◌, Option, none, some, List, [], ◌∷◌, ◌++◌, map, ◌==◌,
  if◌then◌else◌, string_eq, nat_eq, length, any, all, filter, contains, add, add_all, bind, is_some,
  truthy,
}
use zvia.Prelude.Dict.{Dict, lookup, keys, has}
use zvia.Topology.{
  EntityKind, Scalar, Relationship, Deployment, TopologyEntity, TopologySnapshot,
  TopologyChangeKind, TopologyEntityState, TopologyChange,
}
use zvia.Topology.Enums.{kind_eq, status_eq, change_kind_eq}

-- `===` on the values of a `sourceRef`, where a missing key reads `undefined`.
pub scalar_beq : Option Scalar → Option Scalar → Bool
scalar_beq none none = true
scalar_beq (some (Scalar.text a)) (some (Scalar.text b)) = a == b
scalar_beq (some (Scalar.number a)) (some (Scalar.number b)) = a == b
scalar_beq (some (Scalar.flag true)) (some (Scalar.flag b)) = b
scalar_beq (some (Scalar.flag false)) (some (Scalar.flag b)) = not b
scalar_beq (some Scalar.null) (some Scalar.null) = true
scalar_beq _ _ = false

pub entity_state : TopologyEntity → TopologyEntityState
entity_state entity = record { status = entity.status; source_ref = entity.source_ref }

pub sources_equal : Option (Dict Scalar) → Option (Dict Scalar) → Bool
sources_equal none none = true
sources_equal none (some _) = false
sources_equal (some _) none = false
sources_equal (some before) (some after) =
    if length before == length after
    then all (λ key. scalar_beq (lookup key before) (lookup key after)) (keys before)
    else false

pub deployment_ids_for : TopologySnapshot → String → List String
deployment_ids_for snapshot entity_id =
    map (λ d. d.id) (filter (λ d. contains entity_id d.entity_ids) snapshot.deployments)

pub deployment_ids_for_relationship : TopologySnapshot → String → String → List String
deployment_ids_for_relationship snapshot from_id to_id =
    add_all (add_all [] (deployment_ids_for snapshot from_id)) (deployment_ids_for snapshot to_id)

-- `statusChanged || sourceChanged`
pub entity_changed : TopologyEntity → TopologyEntity → Bool
entity_changed previous entity =
    not (previous.status == entity.status)
    || not (sources_equal previous.source_ref entity.source_ref)

pub added_change : TopologySnapshot → String → TopologyEntity → TopologyChange
added_change after id entity = record {
  kind = TopologyChangeKind.entity_added;
  entity_id = id;
  kind_label = some entity.kind;
  label = some entity.label;
  before = none;
  after = some (entity_state entity);
  relationship = none;
  deployment_ids = deployment_ids_for after id;
}

pub modified_change : TopologySnapshot → String → TopologyEntity → TopologyEntity → TopologyChange
modified_change after id previous entity = record {
  kind = TopologyChangeKind.entity_modified;
  entity_id = id;
  kind_label = some entity.kind;
  label = some entity.label;
  before = some (entity_state previous);
  after = some (entity_state entity);
  relationship = none;
  deployment_ids = deployment_ids_for after id;
}

pub removed_change : TopologySnapshot → String → TopologyEntity → TopologyChange
removed_change before id entity = record {
  kind = TopologyChangeKind.entity_removed;
  entity_id = id;
  kind_label = some entity.kind;
  label = some entity.label;
  before = some (entity_state entity);
  after = none;
  relationship = none;
  deployment_ids = deployment_ids_for before id;
}

-- one round of the loop over `after.entities`
pub change_after :
    TopologySnapshot → String → TopologyEntity → Option TopologyEntity → List TopologyChange
change_after after id entity none = added_change after id entity ∷ []
change_after after id entity (some previous) =
    if entity_changed previous entity then modified_change after id previous entity ∷ [] else []

pub scan_after : TopologySnapshot → TopologySnapshot → Dict TopologyEntity → List TopologyChange
scan_after before after [] = []
scan_after before after ((id, entity) ∷ rest) =
    change_after after id entity (lookup id before.entities) ++ scan_after before after rest

-- one round of the loop over `before.entities`
pub change_before :
    TopologySnapshot → String → TopologyEntity → Option TopologyEntity → List TopologyChange
change_before before id entity none = removed_change before id entity ∷ []
change_before before id entity (some _) = []

pub scan_before : TopologySnapshot → TopologySnapshot → Dict TopologyEntity → List TopologyChange
scan_before before after [] = []
scan_before before after ((id, entity) ∷ rest) =
    change_before before id entity (lookup id after.entities) ++ scan_before before after rest

pub diff_entities : TopologySnapshot → TopologySnapshot → List TopologyChange → List TopologyChange
diff_entities before after changes =
    (changes ++ scan_after before after after.entities) ++ scan_before before after before.entities

pub relationship_change : TopologyChangeKind → TopologySnapshot → Relationship → TopologyChange
relationship_change kind owner rel = record {
  kind = kind;
  entity_id = rel.id;
  kind_label = none;
  label = none;
  before = none;
  after = none;
  relationship =
      some (record {
        type = rel.type;
        from = rel.from.id;
        to = rel.to.id;
        confidence = rel.confidence;
      });
  deployment_ids = deployment_ids_for_relationship owner rel.from.id rel.to.id;
}

-- The relationships of `rels` whose id the other snapshot's does not hold.
pub scan_relationships :
    TopologyChangeKind → TopologySnapshot → List String → List Relationship → List TopologyChange
scan_relationships kind owner others [] = []
scan_relationships kind owner others (rel ∷ rest) =
    (if contains rel.id others then [] else relationship_change kind owner rel ∷ [])
    ++ scan_relationships kind owner others rest

abbrev relationship_ids : TopologySnapshot → List String
relationship_ids snapshot = map (λ r. r.id) snapshot.relationships

pub diff_relationships :
    TopologySnapshot → TopologySnapshot → List TopologyChange → List TopologyChange
diff_relationships before after changes =
    (changes
      ++ scan_relationships TopologyChangeKind.relationship_added after (relationship_ids before)
          after.relationships)
    ++ scan_relationships TopologyChangeKind.relationship_removed before (relationship_ids after)
        before.relationships

pub diff_topology : TopologySnapshot → TopologySnapshot → List TopologyChange
diff_topology before after = diff_relationships before after (diff_entities before after [])

pub text_of : Option Scalar → Option String
text_of (some (Scalar.text s)) = some s
text_of _ = none

pub process_comm : Option (Dict Scalar) → Option String
unfolding text_of
process_comm none = none
process_comm (some source_ref) = text_of (lookup "comm" source_ref)

pub state_comm : Option TopologyEntityState → Option String
state_comm none = none
state_comm (some state) = truthy (process_comm state.source_ref)

is_process_label : Option EntityKind → Bool
is_process_label none = false
is_process_label (some k) = k == EntityKind.process

pub is_process : TopologyChange → Bool
unfolding is_process_label
is_process change = is_process_label change.kind_label

pub add_some : List String → Option String → List String
add_some s none = s
add_some s (some comm) = add s comm

-- the first loop, for the changes of one kind: the `comm`s of the processes added, or removed
pub added_comms : List String → List TopologyChange → List String
added_comms s [] = s
added_comms s (change ∷ rest) =
    added_comms
      (if is_process change && change.kind == TopologyChangeKind.entity_added
        then add_some s (state_comm change.after)
        else s)
      rest

pub removed_comms : List String → List TopologyChange → List String
removed_comms s [] = s
removed_comms s (change ∷ rest) =
    removed_comms
      (if is_process change && change.kind == TopologyChangeKind.entity_removed
        then add_some s (state_comm change.before)
        else s)
      rest

pub not_churn : List String → Option String → Bool
not_churn churn none = true
not_churn churn (some comm) = not (contains comm churn)

pub survives : List String → TopologyChange → Bool
unfolding not_churn
survives churn change =
    if not (is_process change)
    then true
    else if change.kind == TopologyChangeKind.entity_added
    then not_churn churn (state_comm change.after)
    else if change.kind == TopologyChangeKind.entity_removed
    then not_churn churn (state_comm change.before)
    else true

pub churn_comms : List TopologyChange → List String
churn_comms changes =
    filter (λ comm. contains comm (removed_comms [] changes)) (added_comms [] changes)

pub filter_process_churn : List TopologyChange → List TopologyChange
unfolding churn_comms survives
filter_process_churn changes =
    let churn = churn_comms changes in
    if length churn == 0 then changes else filter (survives churn) changes

pub diff_topology_for_deployment :
    TopologySnapshot → TopologySnapshot → String → List TopologyChange
diff_topology_for_deployment before after deployment_id =
    filter_process_churn
      (filter (λ change. contains deployment_id change.deployment_ids) (diff_topology before after))

-- The names that a run of a diff unfolds.
unfoldable pub diff : Unit {0}
unfolding diff_topology_for_deployment diff_topology filter_process_churn diff_entities
    diff_relationships scan_after scan_before change_after change_before scan_relationships
    added_change modified_change removed_change relationship_change entity_changed sources_equal
    scalar_beq entity_state deployment_ids_for deployment_ids_for_relationship churn_comms
    added_comms removed_comms add_some survives not_churn is_process is_process_label state_comm
    process_comm text_of lookup any all filter contains add add_all
diff = tt
