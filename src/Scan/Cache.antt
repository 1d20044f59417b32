-- ===== src/Scan/Cache.antt =====
-- What the cache answers after a scan, and when a scan is recorded.
use zvia.Prelude.{
  ℕ, ◌-◌, ◌<◌, String, Bool, false, not, ◌&&◌, ◌≡◌, ap, ◌∙◌, inl, inr, some, [], string_eq, ltb,
  length, any, filter, Bool-cases, beq_self, if◌then◌else◌,
}
use zvia.Prelude.Dict.{IsDict, lookup, lookup-insert}
use zvia.Topology.{TopologySnapshot}
use zvia.Diff.{diff_topology, filter_process_churn}
use zvia.Diff.Churn.{filter_process_churn-nil}
use zvia.Diff.Entities.{diff_topology_self}
use zvia.History.{
  Store, history_per_server_limit, is_tagged, has_id, snapshots_of, fresh_entry, latest,
  record_snapshot,
}
use zvia.History.Eviction.{record_snapshot-latest}
use zvia.Scan.{Service, topology_cache_ttl_ms, record_history, scan, usable, get_snapshot}

cached-scan :
    (server : String) (x : TopologySnapshot) (t : ℕ) (s : Service)
    → lookup server (scan server x t s).cache ≡ some (record { snapshot = x; cached_at = t })
unfolding scan
cached-scan server x t s = rw lookup-insert (rw (beq_self server))

-- After a scan at time `t`, a request that is not forced and comes before the cache's time is up
-- gets the scanned snapshot and changes nothing; any other request gets a new scan.
pub get_snapshot-scan :
    (server : String) (x built : TopologySnapshot) (force : Bool) (t now finished : ℕ) (s : Service)
    → get_snapshot server force built now finished (scan server x t s) ≡ (
        if not force && ltb (now - t) topology_cache_ttl_ms
        then record { service = scan server x t s; snapshot = x }
        else record { service = scan server built finished (scan server x t s); snapshot = built })
unfolding get_snapshot usable
get_snapshot-scan server x built force t now finished s =
    elim (Bool-cases (not force && ltb (now - t) topology_cache_ttl_ms)) [
      | inl e ↦ rw (e, get_snapshot, cached-scan server x t s, e)
      | inr e ↦ rw (e, get_snapshot, cached-scan server x t s, e)
    ]

record_history-known :
    (server : String) (x : TopologySnapshot) (s : Store)
    → latest server s ≡ some (fresh_entry x)
    → filter_process_churn (diff_topology x x) ≡ []
    → record_history server x s ≡ s
unfolding record_history fresh_entry
record_history-known server x s last quiet = rw (last, record_history, quiet)

-- A new scan that was recorded, with distinct keys and fewer than ten tagged snapshots kept, is not
-- recorded a second time.
pub record_history_idem :
    (server : String) (x : TopologySnapshot) (s : Store)
    → IsDict x.entities
    → any (has_id x.scanned_at) (snapshots_of server s) ≡ false
    → length (filter is_tagged (snapshots_of server s)) < history_per_server_limit
    → record_history server x (record_snapshot server x s) ≡ record_snapshot server x s
record_history_idem server x s distinct new few =
    record_history-known server x (record_snapshot server x s)
      (record_snapshot-latest server x s new few).0
      (ap filter_process_churn (diff_topology_self x distinct) ∙ filter_process_churn-nil)
