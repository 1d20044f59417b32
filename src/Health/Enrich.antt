-- ===== src/Health/Enrich.antt =====
-- app/src/main/services/deployments/health.ts: the component statuses of a deployment, its health,
-- and the enrichment of all deployments.
pub mod Laws
use zvia.Prelude.{
  String, Bool, true, ◌&&◌, Option, none, some, List, [], ◌∷◌, ◌++◌, map, ◌==◌, string_eq, find,
  bind, truthy,
}
use zvia.Prelude.Dict.{Dict}
use zvia.Topology.{
  Confidence, HealthStatus, RelationshipType, Relationship, Deployment, DeploymentComponentStatus,
  TopologyEntity,
}
use zvia.Topology.Enums.{type_eq, confidence_eq}
use zvia.Health.{entity_status, worst_status, sync_entrypoint_entity_health}
use zvia.Health.Deployments.{
  Backend, from_of_type, from_site, container_backend_entities, deployment_relationships,
  deployment_site_id, proxy_relationship_for_site, build_stack_summary,
}

module _ (entities : Dict TopologyEntity) (rels : List Relationship) where
  -- the status of what a relationship that was found leads to
  status_of : Option Relationship → Option HealthStatus
  status_of found = bind found (λ rel. some (entity_status entities rel.to.id))

  -- the unit that manages the process bound to the backend port
  service_of : String → Option HealthStatus
  service_of port_id =
      bind (find (from_of_type RelationshipType.bound_to port_id) rels)
        (λ bound. status_of (find (from_of_type RelationshipType.managed_by bound.to.id) rels))

  record BackendStatus : Type 0 where
    backend : Option HealthStatus
    container : Option HealthStatus
    service : Option HealthStatus

  direct_status : Option Backend → BackendStatus
  direct_status none = record { backend = none; container = none; service = none }
  direct_status (some b) = record {
    backend = some (entity_status entities b.backend_port_id);
    container = bind (truthy b.container_id) (λ id. some (entity_status entities id));
    service = none;
  }

  backend_status : Deployment → Option Relationship → Option String → BackendStatus
  unfolding status_of service_of direct_status
  backend_status deployment (some proxy) site = record {
    backend = status_of (some proxy);
    container = status_of (find (from_of_type RelationshipType.published_by proxy.to.id) rels);
    service = service_of proxy.to.id;
  }
  backend_status deployment none none = direct_status (container_backend_entities deployment rels)
  backend_status deployment none (some site) = direct_status none

  pub component_status : Deployment → DeploymentComponentStatus
  unfolding status_of backend_status
  component_status deployment =
      let site = truthy (deployment_site_id deployment rels) in
      let of_backend = backend_status deployment (proxy_relationship_for_site site rels) site in
      record {
        ssl = status_of (
            find
              (λ rel.
                rel.type == RelationshipType.terminates_tls
                && rel.confidence == Confidence.confirmed
                && from_site site rel)
              rels);
        nginx = bind site (λ id. some (entity_status entities id));
        backend = of_backend.backend;
        service = of_backend.service;
        files =
            status_of
              (find (λ rel. rel.type == RelationshipType.serves_static && from_site site rel) rels);
        container = of_backend.container;
      }

present : Option HealthStatus → List HealthStatus
present none = []
present (some s) = s ∷ []

-- `Object.values(componentStatus).filter(Boolean)`
pub statuses : DeploymentComponentStatus → List HealthStatus
unfolding present
statuses c =
    present c.ssl
    ++ (present c.nginx
        ++ (present c.backend ++ (present c.container ++ (present c.service ++ present c.files))))

pub health_of : List HealthStatus → HealthStatus
health_of [] = HealthStatus.unknown
health_of (s ∷ rest) = worst_status (s ∷ rest)

pub compute_deployment_health :
    Deployment → Dict TopologyEntity → List Relationship → HealthStatus × DeploymentComponentStatus
compute_deployment_health deployment entities relationships =
    let component_status =
      component_status entities (deployment_relationships deployment relationships) deployment in
    (health_of (statuses component_status), component_status)

pub enrich : Dict TopologyEntity → List Relationship → Deployment → Deployment
enrich entities relationships deployment =
    let (health, components) = compute_deployment_health deployment entities relationships in
    record deployment {
      stack_summary = build_stack_summary deployment entities relationships;
      health = health;
      component_status = components;
    }

-- The new deployments, and the entities with the entrypoints' statuses.
pub enrich_deployments :
    List Deployment
    → Dict TopologyEntity
    → List Relationship
    → List Deployment × Dict TopologyEntity
enrich_deployments deployments entities relationships =
    let enriched = map (enrich entities relationships) deployments in
    (enriched, sync_entrypoint_entity_health enriched entities)

-- The names that a run of the health pass unfolds.
unfoldable pub enrichment : Unit {0}
unfolding enrich_deployments enrich compute_deployment_health health_of statuses component_status
enrichment = tt
