-- ===== src/Scan/Tests.antt =====
-- Tests of the topology service, and its theorems at a concrete input.
use zvia.Prelude.{
  ◌-◌, false, not, ◌&&◌, ◌≡◌, string_eq, refl, none, some, [], ◌∷◌, ltb, contains, find,
  if◌then◌else◌,
}
use zvia.Prelude.Decimal.{show, lower}
use zvia.Prelude.Dict.{lookup}
use zvia.Topology.Ids.{domain_entity_id, port_entity_id}
use zvia.Topology.Samples.{before, after, port_ref, site_deployment}
use zvia.History.Samples.{full}
use zvia.Scan.{
  running, CacheEntry, Service, DeploymentLookupQuery, DeploymentLookupResult,
  topology_cache_ttl_ms, scan, get_snapshot, lookup_deployment,
}
use zvia.Scan.Lookup.{IsLookup, lookup_deployment-IsLookup}
use zvia.Scan.Cache.{get_snapshot-scan}

abbrev cached : CacheEntry
cached = record { snapshot = before; cached_at = 1000 }

abbrev service : Service
service = record { cache = ("s1", cached) ∷ []; history = full }

abbrev port_owner : DeploymentLookupResult
port_owner = record { deployment_id = site_deployment.id; entity_id = port_ref.id }

lookup_test : lookup_deployment "s1" (DeploymentLookupQuery.port 3000) service ≡ some port_owner
unfolding running show lower lookup find contains domain_entity_id port_entity_id
lookup_test = refl

missing_test : lookup_deployment "s1" (DeploymentLookupQuery.domain "b.com") service ≡ none
unfolding running show lower lookup find contains domain_entity_id port_entity_id
missing_test = refl

there : lookup "s1" service.cache ≡ some cached
unfolding lookup
there = refl

lookup_deployment-IsLookup_example :
    IsLookup before
      (DeploymentLookupQuery.port 3000)
      (lookup_deployment "s1" (DeploymentLookupQuery.port 3000) service)
lookup_deployment-IsLookup_example =
    lookup_deployment-IsLookup "s1" (DeploymentLookupQuery.port 3000) service cached there

get_snapshot-scan_example :
    get_snapshot "s1" false after 31000 32000 (scan "s1" before 1000 service) ≡ (
      if not false && ltb (31000 - 1000) topology_cache_ttl_ms
      then record { service = scan "s1" before 1000 service; snapshot = before }
      else record {
        service = scan "s1" after 32000 (scan "s1" before 1000 service);
        snapshot = after;
      })
get_snapshot-scan_example = get_snapshot-scan "s1" before after false 1000 31000 32000 service
