-- ===== src/Service.antt =====
-- app/src/main/services/deployments/TopologyHistoryService.ts and summarize.ts: what the
-- application asks of the history.
-- A method that writes returns the store and what it answers or throws.
pub mod Tagging
pub mod Timeline
mod Tests
use Prim.Native.String.{◌++◌ as concat}
use mathlib.Core.List.{reverse}
use zvia.Prelude.{
  ℕ, String, Bool, true, false, ◌&&◌, Option, none, some, List, [], ◌∷◌, ◌++◌, map, ◌==◌, string_eq,
  nat_eq, length, contains, bind, get_or, truthy, if◌then◌else◌,
}
use zvia.Prelude.Decimal.{show}
use zvia.Prelude.Dict.{Dict}
use zvia.Topology.{EntityKind, TopologySnapshot, TopologyChange}
use zvia.Diff.{diff_topology, diff_topology_for_deployment}
use zvia.History.{
  PersistedSnapshot, Store, StoreError, Result, ok, err, list, get, latest, tags_in,
  record_snapshot, add_deployment_tag,
}

-- summarize.ts: the name of a kind, or the kind as it is spelled
change_kind_label : EntityKind → String
change_kind_label EntityKind.ssl_certificate = "SSL"
change_kind_label EntityKind.nginx_site = "Nginx config"
change_kind_label EntityKind.port = "Port"
change_kind_label EntityKind.process = "Process"
change_kind_label EntityKind.systemd_unit = "Service"
change_kind_label EntityKind.docker_container = "Container"
change_kind_label EntityKind.docker_compose_service = "Compose"
change_kind_label EntityKind.file_path = "Files"
change_kind_label EntityKind.domain = "Domain"
change_kind_label EntityKind.deployment = "Deployment"
change_kind_label EntityKind.database = "database"
change_kind_label EntityKind.runtime = "runtime"

change_label : TopologyChange → String
change_label change = elim change.kind_label [
  | some kind ↦ change_kind_label kind
  | none ↦ get_or change.label change.entity_id
]

-- The labels in the order in which they are first seen; `seen` holds the same.
pub labels_of : List String → List TopologyChange → List String
labels_of labels [] = labels
labels_of labels (change ∷ rest) =
    labels_of
      (if contains (change_label change) labels then labels else labels ++ change_label change ∷ [])
      rest

summary_of : ℕ → List String → String
summary_of count (a ∷ []) = a
summary_of count (a ∷ b ∷ []) = concat a (concat ", " b)
summary_of count _ = concat (show count) " changes"

pub summarize_changes : List TopologyChange → String
summarize_changes [] = "No changes"
summarize_changes (change ∷ rest) =
    summary_of (length (change ∷ rest)) (labels_of [] (change ∷ rest))

pub record HistorySummary : Type 0 where
  pub id : String
  pub scanned_at : String
  pub deployment_tags : Dict (List String)

pub history_list : String → Store → List HistorySummary
history_list server_id s =
    map
      (λ entry. record {
        id = entry.id;
        scanned_at = entry.scanned_at;
        deployment_tags = entry.deployment_tags;
      })
      (list server_id s)

-- a store, and the id that the method answers or the error that it throws
pub record Outcome : Type 0 where
  pub store : Store
  pub answer : Result String

tagged : Store → String → Result Store → Outcome
tagged recorded id (ok s) = record { store = s; answer = ok id }
tagged recorded id (err e) = record { store = recorded; answer = err e }

pub tag_current : String → TopologySnapshot → String → String → Store → Outcome
unfolding tagged
tag_current server_id snapshot deployment_id tag_name s =
    let recorded = record_snapshot server_id snapshot s in
    let snapshot_id = snapshot.scanned_at in
    tagged recorded snapshot_id
      (add_deployment_tag server_id snapshot_id deployment_id tag_name recorded)

pub record DiffResponse : Type 0 where
  pub changes : List TopologyChange
  pub baseline_id : Option String
  pub baseline_scanned_at : Option String

-- the changes of the whole snapshot, or of one deployment
pub changes_between : TopologySnapshot → TopologySnapshot → Option String → List TopologyChange
changes_between before after deployment_id = elim (truthy deployment_id) [
  | some id ↦ diff_topology_for_deployment before after id
  | none ↦ diff_topology before after
]

-- `a ?? b`
pub or_latest : Option String → Option String → Option String
or_latest (some id) latest = some id
or_latest none latest = latest

-- the snapshot with the given id, or else the latest
pub baseline_of : String → Option String → Store → Option PersistedSnapshot
unfolding or_latest
baseline_of server_id baseline_id s =
    bind (truthy (or_latest baseline_id (bind (latest server_id s) (λ entry. some entry.id))))
      (λ id. get server_id id s)

pub respond : TopologySnapshot → Option String → Option PersistedSnapshot → DiffResponse
respond current deployment_id none = record {
  changes = [];
  baseline_id = none;
  baseline_scanned_at = none;
}
respond current deployment_id (some baseline) = record {
  changes = changes_between baseline.snapshot current deployment_id;
  baseline_id = some baseline.id;
  baseline_scanned_at = some baseline.scanned_at;
}

pub diff : String → TopologySnapshot → Option String → Option String → Store → DiffResponse
diff server_id current baseline_id deployment_id s =
    respond current deployment_id (baseline_of server_id baseline_id s)

pub record SnapshotDiffResponse : Type 0 where
  pub changes : List TopologyChange
  pub from_id : String
  pub from_scanned_at : String
  pub to_id : String
  pub to_scanned_at : String

-- the answer, or the message of the `NOT_FOUND` error
pub data SnapshotDiff : Type 0 where
  found : SnapshotDiffResponse → SnapshotDiff
  not_found : String → SnapshotDiff

pub snapshot_diff : String → String → String → Option String → Store → SnapshotDiff
snapshot_diff server_id from_snapshot_id to_snapshot_id deployment_id s =
    elim (get server_id from_snapshot_id s) [
      | none ↦ not_found (concat "Snapshot not found: " from_snapshot_id)
      | some from ↦ elim (get server_id to_snapshot_id s) [
        | none ↦ not_found (concat "Snapshot not found: " to_snapshot_id)
        | some to ↦ found (record {
          changes = changes_between from.snapshot to.snapshot deployment_id;
          from_id = from.id;
          from_scanned_at = from.scanned_at;
          to_id = to.id;
          to_scanned_at = to.scanned_at;
        })
      ]
    ]

pub record DeploymentHistoryEntry : Type 0 where
  pub id : String
  pub scanned_at : String
  pub tags : List String
  pub change_count : ℕ
  pub summary : String

pub changes_since : Option PersistedSnapshot → PersistedSnapshot → String → List TopologyChange
changes_since none entry deployment_id = []
changes_since (some previous) entry deployment_id =
    diff_topology_for_deployment previous.snapshot entry.snapshot deployment_id

-- one round of the loop, for a snapshot and the one before it
pub history_entry :
    Option PersistedSnapshot → PersistedSnapshot → String → List DeploymentHistoryEntry
history_entry previous entry deployment_id =
    let tags = tags_in deployment_id entry in
    let changes = changes_since previous entry deployment_id in
    if length changes == 0 && length tags == 0
    then []
    else (record {
      id = entry.id;
      scanned_at = entry.scanned_at;
      tags = tags;
      change_count = length changes;
      summary = summarize_changes changes;
    })
      ∷ []

pub history_entries :
    Option PersistedSnapshot → List PersistedSnapshot → String → List DeploymentHistoryEntry
history_entries previous [] deployment_id = []
history_entries previous (entry ∷ rest) deployment_id =
    history_entry previous entry deployment_id ++ history_entries (some entry) rest deployment_id

pub deployment_history : String → String → Store → List DeploymentHistoryEntry
deployment_history server_id deployment_id s =
    reverse (history_entries none (reverse (list server_id s)) deployment_id)

-- The names that a run of the service unfolds.
service : Unit {0}
unfolding change_kind_label change_label labels_of summary_of summarize_changes history_list tagged
    tag_current changes_between or_latest baseline_of respond diff snapshot_diff changes_since
    history_entry history_entries deployment_history
service = tt
