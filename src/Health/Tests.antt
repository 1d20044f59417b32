-- ===== src/Health/Tests.antt =====
-- Tests of the health pass, and its theorems at a concrete input.
use zvia.Prelude.{
  true, ◌≡◌, ◌⊎◌, refl, none, some, List, [], ◌∷◌, map, Memᴰ, find, filter, contains, string_eq,
}
use zvia.Prelude.Dict.{Dict, lookup}
use zvia.Prelude.Decimal.{capitalise, strip_suffix}
use zvia.Topology.{HealthStatus, TopologyEntity}
use zvia.Topology.Samples.{
  entities, relationships, proxies, publishes, port_entity, container_entity, site_deployment,
  domain_ref,
}
use zvia.Health.{PortListener, health, apply_entity_health}
use zvia.Health.Apply.{SameOrFailedAt, apply_entity_health-SameOrFailed}
use zvia.Health.Failures.{
  FailedAt, reported_failed, unheard, apply_entity_health-reported, apply_entity_health-unheard,
}
use zvia.Health.Containers.{container_has_failed, port_fails, apply_entity_health-containers}
use zvia.Health.Deployments.{build_stack_summary, selection}
use zvia.Health.Enrich.{enrichment, statuses, compute_deployment_health, enrich_deployments}
use zvia.Health.Enrich.Laws.{
  IsWorst, compute_deployment_health-IsWorst, identity, last_health, with_status,
  enrich_deployments-entrypoints,
}

abbrev listeners : List PortListener
listeners = []

abbrev heard : List PortListener
heard =
    record {
      protocol = "tcp";
      address = "0.0.0.0";
      port = 3000;
      pid = some 7;
      process = "node";
      unit = none;
      container_id = none;
    }
    ∷ []

abbrev settled : Dict TopologyEntity
settled = apply_entity_health entities relationships heard

-- The container that has exited makes its published port fail, although something listens there.
settled_test :
    map (λ e. e.1.status) settled
    ≡ HealthStatus.healthy ∷ HealthStatus.healthy ∷ HealthStatus.failed ∷ HealthStatus.failed
      ∷ HealthStatus.healthy ∷ []
unfolding health selection enrichment find filter contains capitalise strip_suffix
settled_test = refl

health_test :
    (compute_deployment_health site_deployment settled relationships).0 ≡ HealthStatus.failed
unfolding health selection enrichment find filter contains capitalise strip_suffix
health_test = refl

summary_test :
    build_stack_summary site_deployment settled relationships
    ≡ "Nginx → port:tcp:127.0.0.1:3000 → Docker"
unfolding health selection enrichment find filter contains capitalise strip_suffix
summary_test = refl

apply_entity_health-SameOrFailed_example :
    SameOrFailedAt
      (lookup "process:7" entities)
      (lookup "process:7" (apply_entity_health entities relationships heard))
apply_entity_health-SameOrFailed_example =
    apply_entity_health-SameOrFailed "process:7" entities relationships heard

container_found :
    lookup "container:c1" entities ≡ some (container_entity HealthStatus.healthy "exited")
unfolding lookup
container_found = refl

port_found : lookup proxies.to.id entities ≡ some (port_entity HealthStatus.healthy)
unfolding lookup
port_found = refl

container_reported : reported_failed (container_entity HealthStatus.healthy "exited") ≡ true
unfolding lookup
container_reported = refl

apply_entity_health-reported_example :
    FailedAt (lookup "container:c1" (apply_entity_health entities relationships heard))
apply_entity_health-reported_example =
    apply_entity_health-reported "container:c1" entities relationships heard
      (container_entity HealthStatus.healthy "exited") container_found container_reported

port_unheard : unheard listeners (port_entity HealthStatus.healthy) ≡ true
unfolding health selection enrichment find filter contains capitalise strip_suffix
port_unheard = refl

apply_entity_health-unheard_example :
    FailedAt (lookup proxies.to.id (apply_entity_health entities relationships listeners))
apply_entity_health-unheard_example =
    apply_entity_health-unheard entities relationships listeners proxies
      (port_entity HealthStatus.healthy) (Memᴰ.tail (Memᴰ.head refl)) refl refl port_found
      port_unheard

container_failed :
    container_has_failed (lookup publishes.to.id (apply_entity_health entities relationships heard))
    ≡ true
unfolding health selection enrichment find filter contains capitalise strip_suffix
container_failed = refl

apply_entity_health-containers_example :
    port_fails (lookup publishes.from.id (apply_entity_health entities relationships heard)) ≡ true
apply_entity_health-containers_example =
    apply_entity_health-containers entities relationships heard publishes
      (Memᴰ.tail (Memᴰ.tail (Memᴰ.head refl))) refl container_failed

compute_deployment_health-IsWorst_example :
    ((statuses (compute_deployment_health site_deployment settled relationships).1 ≡ [])
      × ((compute_deployment_health site_deployment settled relationships).0
          ≡ HealthStatus.unknown))
    ⊎ IsWorst
        (compute_deployment_health site_deployment settled relationships).0
        (statuses (compute_deployment_health site_deployment settled relationships).1)
compute_deployment_health-IsWorst_example =
    compute_deployment_health-IsWorst site_deployment settled relationships

a_component_failed :
    Memᴰ HealthStatus.failed
      (statuses (compute_deployment_health site_deployment settled relationships).1)
unfolding health selection enrichment find filter contains capitalise strip_suffix
a_component_failed = Memᴰ.tail (Memᴰ.head refl)

enrich_deployments-entrypoints_example :
    (map identity (enrich_deployments (site_deployment ∷ []) settled relationships).0
      ≡ map identity (site_deployment ∷ []))
    × (lookup domain_ref.id (enrich_deployments (site_deployment ∷ []) settled relationships).1
        ≡ with_status
            (last_health domain_ref.id none
              (enrich_deployments (site_deployment ∷ []) settled relationships).0)
            (lookup domain_ref.id settled))
enrich_deployments-entrypoints_example =
    enrich_deployments-entrypoints (site_deployment ∷ []) settled relationships domain_ref.id
