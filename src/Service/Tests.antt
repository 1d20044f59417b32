-- ===== src/Service/Tests.antt =====
-- Tests of the history service, and its theorems at a concrete input.
use zvia.Prelude.{
  String, ◌≡◌, ◌==◌, string_eq, refl, none, some, [], ◌∷◌, map, Memᴰ, All, if◌then◌else◌,
}
use zvia.Prelude.Decimal.{show}
use zvia.Prelude.Dict.{lookup, IsDict}
use zvia.Topology.Samples.{before, after}
use zvia.Diff as Diff
use zvia.History.{
  history, ok, err, reserved, get, get_deployment_tags, record_snapshot, snapshots_of, fresh_entry,
  set_tags,
}
use zvia.History.Samples.{
  tagged_entry, full, all_tagged, full-new, full-few, all_tagged-new, all_tagged-many,
  all_tagged-IsTagged,
}
use zvia.Service.{
  service, not_found, summarize_changes, tag_current, diff, snapshot_diff, deployment_history,
  changes_between,
}
use zvia.Service.Tagging.{tag_current_lem, tag_current-dropped, diff-record_snapshot}
use zvia.Service.Timeline.{Shows, IsEvent, deployment_history-Shows, deployment_history-IsEvent}

summary_test : summarize_changes (changes_between before after none) ≡ "5 changes"
unfolding service Diff.diff show
summary_test = refl

abbrev v2 : String
v2 = "v2"

missing_test : snapshot_diff "s1" "a0" "none" none full ≡ not_found "Snapshot not found: none"
unfolding service history
missing_test = refl

-- The snapshots without a tag and without a change are left out.
history_test : map (λ h. h.id) (deployment_history "s1" "d" full) ≡ "a0" ∷ []
unfolding service history Diff.diff
history_test = refl

tag_current_lem_example :
    ((tag_current "s1" before "d" "v2" full).answer
      ≡ (if v2 == "latest" then err reserved else ok "t1"))
    × (get "s1" "t1" (tag_current "s1" before "d" "v2" full).store
        ≡ some (
            if v2 == "latest"
            then fresh_entry before
            else set_tags "d" ("v2" ∷ []) (fresh_entry before)))
    × (get_deployment_tags "s1" "t1" "d" (tag_current "s1" before "d" "v2" full).store
        ≡ (if v2 == "latest" then [] else "v2" ∷ []))
tag_current_lem_example = tag_current_lem "s1" before "d" "v2" full full-new full-few

tag_current-dropped_example :
    ((tag_current "s1" before "d" "v2" all_tagged).answer ≡ ok "t1")
    × (get "s1" "t1" (tag_current "s1" before "d" "v2" all_tagged).store ≡ none)
tag_current-dropped_example =
    tag_current-dropped "s1" before "d" "v2" all_tagged all_tagged-new all_tagged-many
      all_tagged-IsTagged refl

before-IsDict : IsDict before.entities
unfolding lookup
before-IsDict = (refl, (refl, (refl, (refl, (refl, tt)))))

diff-record_snapshot_example :
    ((diff "s1" before none none (record_snapshot "s1" before full)).baseline_id
      ≡ (if before.scanned_at == "" then none else some before.scanned_at))
    × ((diff "s1" before none none (record_snapshot "s1" before full)).changes ≡ [])
diff-record_snapshot_example = diff-record_snapshot "s1" before full before-IsDict full-new full-few

a0-kept : Memᴰ (tagged_entry "a0") (snapshots_of "s1" full)
unfolding history
a0-kept = Memᴰ.head refl

deployment_history-Shows_example : Shows "d" (tagged_entry "a0") (deployment_history "s1" "d" full)
unfolding lookup
deployment_history-Shows_example =
    deployment_history-Shows "s1" "d" (tagged_entry "a0") full a0-kept refl

deployment_history-IsEvent_example :
    All (IsEvent "d" (snapshots_of "s1" full)) (deployment_history "s1" "d" full)
deployment_history-IsEvent_example = deployment_history-IsEvent "s1" "d" full
