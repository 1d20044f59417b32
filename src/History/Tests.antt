-- ===== src/History/Tests.antt =====
-- Tests of the snapshot store, and its theorems at a concrete input.
use zvia.Prelude.{
  String, ◌≤◌, ◌≡◌, ◌⊎◌, not, ◌&&◌, refl, some, [], ◌∷◌, ◌==◌, string_eq, map, length, filter,
  contains, All, if◌then◌else◌,
}
use zvia.Prelude.Dict.{lookup}
use zvia.Topology.Samples.{before}
use zvia.History.{
  history, Store, ok, err, reserved, invalid, invalid_file, history_per_server_limit, is_tagged,
  snapshots_of, latest, get, record_snapshot, fresh_entry, add_to, add_deployment_tag,
  remove_deployment_tag, get_deployment_tags, get_latest_deployment_tag, load, reset,
}
use zvia.History.Eviction.{
  IsTagged, record_snapshot-keeps_tagged, record_snapshot_bound, record_snapshot-latest,
}
use zvia.Prelude.Distinct.{Distinct}
use zvia.History.Tags.{added, add_deployment_tag_lem, remove_deployment_tag_lem}
use zvia.History.Persistence.{IsSaved, here, next, recorded, restarted, Run-load}
use zvia.History.Samples.{tagged_entry, full, full-new, full-few}

abbrev d : String
d = "d"

abbrev v1 : String
v1 = "v1"

abbrev v2 : String
v2 = "v2"

-- The oldest untagged snapshot makes room.
record_test :
    map (λ e. e.id) (snapshots_of "s1" (record_snapshot "s1" before full))
    ≡ "a0" ∷ "a2" ∷ "a3" ∷ "a4" ∷ "a5" ∷ "a6" ∷ "a7" ∷ "a8" ∷ "a9" ∷ "t1" ∷ []
unfolding history
record_test = refl

latest_tag_test : get_latest_deployment_tag "s1" "d" full ≡ some "v1"
unfolding history
latest_tag_test = refl

load_test : load (record full { file = invalid }) ≡ err invalid_file
unfolding history
load_test = refl

record_snapshot-keeps_tagged_example :
    (filter is_tagged (snapshots_of "s1" (record_snapshot "s1" before full))
      ≡ filter is_tagged (snapshots_of "s1" full))
    × (lookup "s2" (record_snapshot "s1" before full).by_server ≡ lookup "s2" full.by_server)
record_snapshot-keeps_tagged_example = record_snapshot-keeps_tagged "s1" "s2" before full refl

record_snapshot_bound_example :
    (length (snapshots_of "s1" (record_snapshot "s1" before full)) ≤ history_per_server_limit)
    ⊎ All IsTagged (snapshots_of "s1" (record_snapshot "s1" before full))
record_snapshot_bound_example = record_snapshot_bound "s1" before full full-new

record_snapshot-latest_example :
    (latest "s1" (record_snapshot "s1" before full) ≡ some (fresh_entry before))
    × (get "s1" before.scanned_at (record_snapshot "s1" before full) ≡ some (fresh_entry before))
record_snapshot-latest_example = record_snapshot-latest "s1" before full full-new full-few

a0_found : get "s1" "a0" full ≡ some (tagged_entry "a0")
unfolding history
a0_found = refl

add_deployment_tag_lem_example :
    (add_deployment_tag "s1" "a0" "d" "v2" full ≡ (
      if v2 == "latest"
      then err reserved
      else ok (add_to "s1" "a0" "d" "v2" full (tagged_entry "a0"))))
    × (get_deployment_tags "s1" "a0" "d" (add_to "s1" "a0" "d" "v2" full (tagged_entry "a0")) ≡ (
        if d == d
        then added "v2" (get_deployment_tags "s1" "a0" "d" full)
        else get_deployment_tags "s1" "a0" "d" full))
add_deployment_tag_lem_example =
    add_deployment_tag_lem "s1" "a0" "d" "v2" full (tagged_entry "a0") a0_found "d"

tags-Distinct : Distinct (get_deployment_tags "s1" "a0" "d" full)
unfolding history
tags-Distinct = (refl, tt)

remove_deployment_tag_lem_example :
    contains "v1"
      (get_deployment_tags "s1" "a0" "d" (remove_deployment_tag "s1" "a0" "d" "v1" full))
    ≡ (contains "v1" (get_deployment_tags "s1" "a0" "d" full) && not (d == d && v1 == v1))
remove_deployment_tag_lem_example =
    remove_deployment_tag_lem "s1" "a0" "d" "v1" full (tagged_entry "a0") a0_found "d" "v1"
      tags-Distinct

abbrev recorded_once : Store
recorded_once = record_snapshot "s1" before full

-- The snapshot that was recorded is there again after a restart.
Run-load_example :
    IsSaved recorded_once
    × (load recorded_once ≡ ok recorded_once)
    × (load (reset recorded_once) ≡ ok recorded_once)
Run-load_example = Run-load {s = full} refl (
    next (next here (recorded "s1" before refl))
      (restarted (Run-load {s = full} refl (next here (recorded "s1" before refl))).2))
