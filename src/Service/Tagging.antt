-- ===== src/Service/Tagging.antt =====
-- `tagCurrent`, which records the scan and tags it, and `diff` against the latest snapshot.
use zvia.Prelude.{
  ◌≤◌, ◌<◌, String, false, ◌≡◌, refl, ap, ◌∙◌, inl, inr, none, some, [], ◌∷◌, ◌==◌, string_eq,
  length, any, filter, contains, bind, truthy, Bool-cases, beq_self, All, if◌then◌else◌,
}
use zvia.Prelude.Dict.{IsDict, lookup}
use zvia.Topology.{TopologySnapshot}
use zvia.Diff.Entities.{diff_topology_self}
use zvia.History.{
  Store, ok, err, reserved, history_per_server_limit, is_tagged, has_id, snapshots_of, get,
  get_deployment_tags, fresh_entry, record_snapshot, add_deployment_tag, add_to, latest, tags_in,
  set_tags,
}
use zvia.History.Eviction.{IsTagged, record_snapshot-latest, record_snapshot-dropped}
use zvia.History.Tags.{add_deployment_tag_lem, add_deployment_tag-missing, tags_of_get, get-add_to}
use zvia.Service.{tagged, tag_current, diff, baseline_of, respond, or_latest, changes_between}

module _ (server : String) (x : TopologySnapshot) (d tag : String) (s : Store)
    (new : any (has_id x.scanned_at) (snapshots_of server s) ≡ false) where
  no_tags : tags_in d (fresh_entry x) ≡ []
  unfolding fresh_entry lookup
  no_tags = refl

  -- Tagging the current scan, when it is a new one and the server has fewer than ten tagged
  -- snapshots: the scan is recorded and found under its id, also when the name is "latest", which
  -- is refused. With any other name the id is answered, and the snapshot then has this one tag, for
  -- this deployment.
  pub tag_current_lem :
      length (filter is_tagged (snapshots_of server s)) < history_per_server_limit
      → ((tag_current server x d tag s).answer
          ≡ (if tag == "latest" then err reserved else ok x.scanned_at))
        × (get server x.scanned_at (tag_current server x d tag s).store
            ≡ some
                (if tag == "latest" then fresh_entry x else set_tags d (tag ∷ []) (fresh_entry x)))
        × (get_deployment_tags server x.scanned_at d (tag_current server x d tag s).store
            ≡ (if tag == "latest" then [] else tag ∷ []))
  unfolding tag_current tagged
  tag_current_lem few =
      let r = record_snapshot server x s in
      let found = (record_snapshot-latest server x s new few).1 in
      let (answers, tags) =
        add_deployment_tag_lem server x.scanned_at d tag r (fresh_entry x) found d in
      let none_before : get_deployment_tags server x.scanned_at d r ≡ [] =
        tags_of_get server x.scanned_at d r (fresh_entry x) found ∙ no_tags in
      elim (Bool-cases (tag == "latest")) [
        | inl e ↦
            let refused : add_deployment_tag server x.scanned_at d tag r ≡ err reserved =
              answers ∙ rw e in
            rw e (rw refused, rw refused found, rw refused none_before)
        | inr e ↦
            let done : add_deployment_tag server x.scanned_at d tag r
                ≡ ok (add_to server x.scanned_at d tag r (fresh_entry x)) =
              answers ∙ rw e in
            let there = get-add_to server x.scanned_at d tag r (fresh_entry x) found in
            rw e (
              rw done,
              rw done (there ∙ rw no_tags (unfold contains in refl)),
              rw done (tags ∙ rw (beq_self d, none_before) (unfold contains in refl)),
            )
      ]

  -- Tagging the current scan, when it is a new one and the server has ten snapshots or more, all
  -- tagged, by a name other than "latest": the id of the scan is answered, but no snapshot is found
  -- under it.
  pub tag_current-dropped :
      history_per_server_limit ≤ length (snapshots_of server s)
      → All IsTagged (snapshots_of server s)
      → (tag == "latest") ≡ false
      → ((tag_current server x d tag s).answer ≡ ok x.scanned_at)
        × (get server x.scanned_at (tag_current server x d tag s).store ≡ none)
  unfolding tag_current tagged
  tag_current-dropped many all other =
      let r = record_snapshot server x s in
      let gone = (record_snapshot-dropped server x s new many all).1 in
      let done = add_deployment_tag-missing server x.scanned_at d tag r gone other in
      (rw done, rw done gone)

-- The baseline after a new scan was recorded is none, if its id is empty, or else the scan.
baseline_of-latest :
    (server : String) (x : TopologySnapshot) (s : Store)
    → latest server s ≡ some (fresh_entry x)
    → get server x.scanned_at s ≡ some (fresh_entry x)
    → baseline_of server none s ≡ (if x.scanned_at == "" then none else some (fresh_entry x))
unfolding baseline_of or_latest fresh_entry
baseline_of-latest server x s last there =
    let id = ap (λ o. bind (truthy (bind o (λ entry. some entry.id))) (λ i. get server i s)) last in
    elim (Bool-cases (x.scanned_at == "")) [
      | inl e ↦ rw (e) (id ∙ rw e)
      | inr n ↦ rw (n) (id ∙ rw n there)
    ]

-- Against the latest snapshot, a new scan that was recorded has no changes, and the baseline is
-- the scan itself, or none if its id is the empty text, when its keys are distinct and the server
-- has fewer than ten tagged snapshots.
pub diff-record_snapshot :
    (server : String) (x : TopologySnapshot) (s : Store)
    → IsDict x.entities
    → any (has_id x.scanned_at) (snapshots_of server s) ≡ false
    → length (filter is_tagged (snapshots_of server s)) < history_per_server_limit
    → ((diff server x none none (record_snapshot server x s)).baseline_id
        ≡ (if x.scanned_at == "" then none else some x.scanned_at))
      × ((diff server x none none (record_snapshot server x s)).changes ≡ [])
unfolding diff respond changes_between fresh_entry
diff-record_snapshot server x s distinct new few =
    let (last, there) = record_snapshot-latest server x s new few in
    let baseline = baseline_of-latest server x (record_snapshot server x s) last there in
    elim (Bool-cases (x.scanned_at == "")) [
      | inl e ↦
          let b : baseline_of server none (record_snapshot server x s) ≡ none = baseline ∙ rw e in
          rw e (rw b, rw b)
      | inr n ↦
          let b : baseline_of server none (record_snapshot server x s) ≡ some (fresh_entry x) =
            baseline ∙ rw n in
          rw n (rw b, rw b (diff_topology_self x distinct))
    ]
