-- ===== src/Scan.antt =====
-- app/src/main/services/deployments/TopologyService.ts: the cache of snapshots, the lookup of an
-- entity's deployment, and what a scan puts into the history.
-- The times of `Date.now()` and the snapshot that a scan builds are arguments.
pub mod Naming
pub mod Lookup
pub mod Cache
mod Tests
use Prim.Native.String.{◌++◌ as concat}
use zvia.Prelude.{
  ℕ, ◌-◌, String, Bool, true, false, not, ◌&&◌, Option, none, some, List, [], ◌∷◌, map, ◌==◌,
  string_eq, nat_eq, ltb, length, find, contains, bind, truthy, if◌then◌else◌,
}
use zvia.Prelude.Decimal.{show}
use zvia.Prelude.Dict.{Dict, lookup, insert, remove, has}
use zvia.Topology.{EntityKind, TopologySnapshot, TopologyEntity, Deployment, Scalar}
use zvia.Topology.Enums.{kind_eq}
use zvia.Topology.Ids.{container_entity_id, domain_entity_id, nginx_site_entity_id, port_entity_id}
use zvia.Diff.{diff_topology, filter_process_churn}
use zvia.Health.{source_field, as_number}
use zvia.History.{Store, latest, record_snapshot}

abbrev pub topology_cache_ttl_ms : ℕ
topology_cache_ttl_ms = 60000

pub record CacheEntry : Type 0 where
  pub snapshot : TopologySnapshot
  pub cached_at : ℕ

-- the cache of the service, and the store of the history behind it
pub record Service : Type 0 where
  pub cache : Dict CacheEntry
  pub history : Store

pub data DeploymentLookupQuery : Type 0 where
  port : ℕ → DeploymentLookupQuery
  container : String → DeploymentLookupQuery
  domain : String → DeploymentLookupQuery
  nginx_site : String → ℕ → DeploymentLookupQuery

pub record DeploymentLookupResult : Type 0 where
  pub deployment_id : String
  pub entity_id : String

-- The default of `recordHistory`: a scan that shows nothing but churn is not recorded.
pub record_history : String → TopologySnapshot → Store → Store
record_history server_id snapshot s = elim (latest server_id s) [
  | none ↦ record_snapshot server_id snapshot s
  | some last ↦
      if length (filter_process_churn (diff_topology last.snapshot snapshot)) == 0
      then s
      else record_snapshot server_id snapshot s
]

pub clear_server : String → Service → Service
clear_server server_id s = record s { cache = remove server_id s.cache }

-- `invalidate`
pub invalidate : String → Service → Service
invalidate server_id s = clear_server server_id s

-- the end of `scan`, when the snapshot was built, at the time `now`
pub scan : String → TopologySnapshot → ℕ → Service → Service
scan server_id built now s = record {
  cache = insert server_id (record { snapshot = built; cached_at = now }) s.cache;
  history = record_history server_id built s.history;
}

-- the cached snapshot, if it may be used
pub usable : Bool → ℕ → Option CacheEntry → Option TopologySnapshot
usable force now none = none
usable force now (some cached) =
    if not force && ltb (now - cached.cached_at) topology_cache_ttl_ms
    then some cached.snapshot
    else none

pub record Reply : Type 0 where
  pub service : Service
  pub snapshot : TopologySnapshot

pub get_snapshot : String → Bool → TopologySnapshot → ℕ → ℕ → Service → Reply
get_snapshot server_id force built now finished s =
    elim (usable force now (lookup server_id s.cache)) [
      | some snapshot ↦ record { service = s; snapshot = snapshot }
      | none ↦ record { service = scan server_id built finished s; snapshot = built }
    ]

is_port : ℕ → Option ℕ → Bool
is_port wanted none = false
is_port wanted (some n) = n == wanted

-- what was found, or else a second search
or_search : Option TopologyEntity → Option String → Option String
or_search (some entity) other = some entity.id
or_search none other = other

known : String → TopologySnapshot → Option String
known id snapshot = if has id snapshot.entities then some id else none

pub find_port_entity_id : TopologySnapshot → ℕ → Option String
find_port_entity_id snapshot wanted =
    let values = map (λ entry. entry.1) snapshot.entities in
    or_search
      (find
        (λ entity.
          entity.kind == EntityKind.port && is_port wanted (as_number (source_field "port" entity)))
        values)
      (or_search
        (find (λ entity. entity.kind == EntityKind.port && entity.label == concat ":" (show wanted))
          values)
        (known (port_entity_id "tcp" "127.0.0.1" wanted) snapshot))

pub entity_id_of : TopologySnapshot → DeploymentLookupQuery → Option String
entity_id_of snapshot (port n) = find_port_entity_id snapshot n
entity_id_of snapshot (container id) = known (container_entity_id id) snapshot
entity_id_of snapshot (domain name) = known (domain_entity_id name) snapshot
entity_id_of snapshot (nginx_site path line) = known (nginx_site_entity_id path line) snapshot

pub owner_of : TopologySnapshot → String → Option DeploymentLookupResult
owner_of snapshot entity_id =
    bind (find (λ entry. contains entity_id entry.entity_ids) snapshot.deployments)
      (λ deployment. some (record { deployment_id = deployment.id; entity_id = entity_id }))

pub lookup_deployment : String → DeploymentLookupQuery → Service → Option DeploymentLookupResult
lookup_deployment server_id query s =
    bind (lookup server_id s.cache)
      (λ cached. bind (truthy (entity_id_of cached.snapshot query)) (owner_of cached.snapshot))

-- The names that a run of the service unfolds.
running : Unit {0}
unfolding record_history clear_server invalidate scan usable get_snapshot is_port or_search known
    find_port_entity_id entity_id_of owner_of lookup_deployment
running = tt
