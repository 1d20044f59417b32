-- ===== src/History.antt =====
-- app/src/main/store/topologyHistory.ts: the snapshots that are kept for each server, and the tags
-- that deployments have in them.
-- The store is its `byServer` and the file that holds the last state saved. A method returns the
-- new store; `reserved` is the error that is thrown for the tag name "latest".
pub mod Persistence
pub mod Eviction
pub mod Tags
pub mod Samples
mod Tests
use zvia.Prelude.{
  ℕ, zero, suc, String, Bool, true, false, not, ◌&&◌, Option, none, some, List, [], ◌∷◌, ◌++◌, ◌==◌,
  if◌then◌else◌, string_eq, nat_eq, ltb, length, any, filter, find, contains, bind, is_some, get_or,
  get_last?, map,
}
use mathlib.Core.List.{reverse}
use zvia.Prelude.Dict.{Dict, lookup, insert, remove}
use zvia.Topology.{TopologySnapshot}

abbrev pub history_per_server_limit : ℕ
history_per_server_limit = 10

pub record PersistedSnapshot : Type 0 where
  pub id : String
  pub scanned_at : String
  pub snapshot : TopologySnapshot
  pub deployment_tags : Dict (List String)

pub record ServerHistory : Type 0 where
  pub snapshots : List PersistedSnapshot

-- The file as it parses: versions 1 and 2 have entries without the present tags.
pub record OldSnapshot : Type 0 where
  pub id : String
  pub scanned_at : String
  pub snapshot : TopologySnapshot

pub data HistoryFile : Type 0 where
  missing invalid : HistoryFile
  version_1 version_2 : Dict (Option (List OldSnapshot)) → HistoryFile
  version_3 : Dict ServerHistory → HistoryFile

pub record Store : Type 0 where
  pub by_server : Dict ServerHistory
  pub file : HistoryFile

pub data StoreError : Type 0 where
  reserved invalid_file : StoreError

pub data Result {ℓ} (A : Type ℓ) : Type ℓ where
  ok : A → Result A
  err : StoreError → Result A

-- The write goes to a temporary file that is then renamed, so the file is the old or the new one.
pub save : Store → Store
save s = record s { file = version_3 s.by_server }

migrate_snapshot : OldSnapshot → PersistedSnapshot
migrate_snapshot s = record {
  id = s.id;
  scanned_at = s.scanned_at;
  snapshot = s.snapshot;
  deployment_tags = [];
}

migrate_into : Dict ServerHistory → Dict (Option (List OldSnapshot)) → Dict ServerHistory
migrate_into result [] = result
migrate_into result ((server_id, entry) ∷ rest) =
    migrate_into
      (insert server_id (record { snapshots = map migrate_snapshot (get_or entry []) }) result) rest

-- `migrateV1` and `migrateV2`
pub migrate : Dict (Option (List OldSnapshot)) → Dict ServerHistory
unfolding migrate_into migrate_snapshot
migrate entries = migrate_into [] entries

pub load_file : Store → HistoryFile → Result Store
load_file s missing = ok (save (record s { by_server = [] }))
load_file s invalid = err invalid_file
load_file s (version_1 old) = ok (save (record s { by_server = migrate old }))
load_file s (version_2 old) = ok (save (record s { by_server = migrate old }))
load_file s (version_3 now) = ok (save (record s { by_server = now }))

pub load : Store → Result Store
unfolding load_file
load s = load_file s s.file

-- `this.byServer[serverId]?.snapshots`, none if the server is not there
abbrev pub snapshots_of : String → Store → List PersistedSnapshot
snapshots_of server_id s = get_or (bind (lookup server_id s.by_server) (λ h. some h.snapshots)) []

unfoldable pub list : String → Store → List PersistedSnapshot
list server_id s = reverse (snapshots_of server_id s)

abbrev pub has_id : String → PersistedSnapshot → Bool
has_id id entry = entry.id == id

pub get : String → String → Store → Option PersistedSnapshot
get server_id snapshot_id s = find (has_id snapshot_id) (snapshots_of server_id s)

pub latest : String → Store → Option PersistedSnapshot
latest server_id s = get_last? (snapshots_of server_id s)

abbrev pub tags_in : String → PersistedSnapshot → List String
tags_in deployment_id entry = get_or (lookup deployment_id entry.deployment_tags) []

pub get_deployment_tags : String → String → String → Store → List String
get_deployment_tags server_id snapshot_id deployment_id s =
    get_or
      (bind (get server_id snapshot_id s) (λ entry. lookup deployment_id entry.deployment_tags)) []

-- from the newest snapshot to the oldest
latest_tag_in : String → List PersistedSnapshot → Option String
latest_tag_in deployment_id [] = none
latest_tag_in deployment_id (entry ∷ older) =
    let rest = latest_tag_in deployment_id older in
    elim (get_last? (tags_in deployment_id entry)) [ some tag ↦ some tag | none ↦ rest ]

pub get_latest_deployment_tag : String → String → Store → Option String
get_latest_deployment_tag server_id deployment_id s =
    latest_tag_in deployment_id (reverse (snapshots_of server_id s))

abbrev pub nonempty : List String → Bool
nonempty [] = false
nonempty (t ∷ ts) = true

pub get_tagged_deployment_snapshots : String → String → Store → List PersistedSnapshot
get_tagged_deployment_snapshots server_id deployment_id s =
    filter (λ entry. nonempty (tags_in deployment_id entry)) (snapshots_of server_id s)

-- Some deployment has a tag in the snapshot.
pub is_tagged : PersistedSnapshot → Bool
is_tagged entry = any (λ e. nonempty e.1) entry.deployment_tags

pub has_any_deployment_tags : String → Store → Bool
has_any_deployment_tags server_id s = any is_tagged (snapshots_of server_id s)

-- `splice` at the oldest untagged snapshot; none if there is no such snapshot
pub drop_untagged : List PersistedSnapshot → Option (List PersistedSnapshot)
drop_untagged [] = none
drop_untagged (entry ∷ rest) =
    let later = drop_untagged rest in
    if is_tagged entry then bind later (λ r. some (entry ∷ r)) else some rest

-- The `while` loop. Each round drops a snapshot, so as many rounds as there are snapshots are
-- enough.
pub evict : ℕ → List PersistedSnapshot → List PersistedSnapshot
evict zero snapshots = snapshots
evict (suc fuel) snapshots =
    if ltb history_per_server_limit (length snapshots)
    then elim (drop_untagged snapshots) [ none ↦ snapshots | some shorter ↦ evict fuel shorter ]
    else snapshots

unfoldable pub fresh_entry : TopologySnapshot → PersistedSnapshot
fresh_entry snapshot = record {
  id = snapshot.scanned_at;
  scanned_at = snapshot.scanned_at;
  snapshot = snapshot;
  deployment_tags = [];
}

pub push_snapshot : TopologySnapshot → List PersistedSnapshot → List PersistedSnapshot
push_snapshot snapshot snapshots =
    if any (has_id snapshot.scanned_at) snapshots
    then snapshots
    else let pushed = snapshots ++ fresh_entry snapshot ∷ [] in evict (length pushed) pushed

-- `record`; the id that it returns is the snapshot's `scannedAt`
pub record_snapshot : String → TopologySnapshot → Store → Store
record_snapshot server_id snapshot s = save (record s {
  by_server =
      insert server_id (record { snapshots = push_snapshot snapshot (snapshots_of server_id s) })
        s.by_server;
})

-- a mutation of the first snapshot with the id
pub modify :
    String
    → (PersistedSnapshot → PersistedSnapshot)
    → List PersistedSnapshot
    → List PersistedSnapshot
modify id f [] = []
modify id f (entry ∷ rest) = if entry.id == id then f entry ∷ rest else entry ∷ modify id f rest

pub set_tags : String → List String → PersistedSnapshot → PersistedSnapshot
set_tags deployment_id tags entry = record entry {
  deployment_tags = insert deployment_id tags entry.deployment_tags;
}

pub modify_snapshot : String → String → (PersistedSnapshot → PersistedSnapshot) → Store → Store
modify_snapshot server_id id f s = save (record s {
  by_server =
      insert server_id (record { snapshots = modify id f (snapshots_of server_id s) }) s.by_server;
})

pub add_to : String → String → String → String → Store → PersistedSnapshot → Store
add_to server_id snapshot_id deployment_id tag_name s entry =
    let tags = tags_in deployment_id entry in
    if contains tag_name tags
    then s
    else modify_snapshot server_id snapshot_id (set_tags deployment_id (tags ++ tag_name ∷ [])) s

pub add_deployment_tag : String → String → String → String → Store → Result Store
unfolding add_to
add_deployment_tag server_id snapshot_id deployment_id tag_name s =
    elim (lookup server_id s.by_server) [
      | none ↦ ok s
      | some history ↦
          if tag_name == "latest" then err reserved else elim (get server_id snapshot_id s) [
            | none ↦ ok s
            | some entry ↦ ok (add_to server_id snapshot_id deployment_id tag_name s entry)
          ]
    ]

-- `splice` at `indexOf`
pub erase : String → List String → List String
erase tag [] = []
erase tag (t ∷ ts) = if t == tag then ts else t ∷ erase tag ts

pub remove_deployment_tag : String → String → String → String → Store → Store
remove_deployment_tag server_id snapshot_id deployment_id tag_name s =
    elim (bind (get server_id snapshot_id s)
      (λ entry. lookup deployment_id entry.deployment_tags)) [
        | none ↦ s
        | some tags ↦
            if contains tag_name tags
            then modify_snapshot server_id snapshot_id
                (set_tags deployment_id (erase tag_name tags)) s
            else s
      ]

pub remove_server : String → Store → Store
remove_server server_id s = elim (lookup server_id s.by_server) [
  | none ↦ s
  | some _ ↦ save (record s { by_server = remove server_id s.by_server })
]

-- `reset` leaves the file as it is.
pub reset : Store → Store
reset s = record s { by_server = [] }

-- The names that a run of the store's methods unfolds.
unfoldable pub history : Unit {0}
unfolding save migrate load list get latest get_deployment_tags latest_tag_in
    get_latest_deployment_tag get_tagged_deployment_snapshots is_tagged has_any_deployment_tags
    drop_untagged evict fresh_entry push_snapshot record_snapshot modify set_tags modify_snapshot
    add_deployment_tag erase remove_deployment_tag remove_server reset lookup insert remove any
    filter find contains
history = tt
