-- ===== src/Cluster/Assign.antt =====
-- app/src/main/services/deployments/clusterer.ts: `clusterContainerDeployments`, after the
-- containers are grouped, and `clusterDeployments`.
pub mod Apart
pub mod Whole
use zvia.Prelude.{
  String, Bool, true, false, ◌&&◌, ◌||◌, Option, none, some, List, [], ◌∷◌, ◌++◌, map, ◌==◌,
  string_eq, if◌then◌else◌, any, filter, contains, add, add_all, get_or, head?, truthy,
}
use zvia.Prelude.Dict.{Dict}
use zvia.Topology.{
  EntityKind, HealthStatus, EntityRef, Relationship, Deployment, DeploymentComponentStatus,
  TopologyEntity, TopologyInsight,
}
use zvia.Topology.Enums.{kind_eq}
use zvia.Topology.Ids.{domain_entity_id, deployment_entity_id}
use zvia.Cluster.{ClusterInput, entity_kind_for_id}
use zvia.Cluster.Domains.{primary_domains, collect_related_entity_ids}
use zvia.Cluster.Containers.{
  ContainerCluster, Clusters, group_published_port, unique_deployment_id, sort_containers,
  collect_container_deployment_entities,
}
use zvia.Cluster.Insights.{detect_shared_backends}

abbrev no_status : DeploymentComponentStatus
no_status = record {
  ssl = none;
  nginx = none;
  backend = none;
  service = none;
  files = none;
  container = none;
}

-- a deployment before its health is known
pub new_deployment : String → String → List String → EntityRef → Deployment
new_deployment id name entity_ids entrypoint = record {
  id = id;
  name = name;
  health = HealthStatus.unknown;
  entity_ids = entity_ids;
  entrypoints = entrypoint ∷ [];
  stack_summary = "";
  component_status = no_status;
}

abbrev footprint_kinds : List EntityKind
footprint_kinds =
    EntityKind.docker_container ∷ EntityKind.port ∷ EntityKind.docker_compose_service ∷ []

has_kind : Option EntityKind → List EntityKind → Bool
has_kind none kinds = false
has_kind (some kind) kinds = contains kind kinds

-- the deployments made so far, and `claimedIds`
pub record Claims : Type 0 where
  pub deployments : List Deployment
  pub claimed_ids : List String

module _ (relationships : List Relationship) (entities : Dict TopologyEntity) where
  pub is_footprint : String → Bool
  is_footprint id = has_kind (entity_kind_for_id id entities relationships) footprint_kinds

  entrypoint_of : ContainerCluster → EntityRef
  entrypoint_of cluster = elim (truthy cluster.compose_id) [
    | some compose_id ↦ record { kind = EntityKind.docker_compose_service; id = compose_id }
    | none ↦ elim (truthy (group_published_port cluster.members relationships)) [
      | some port_id ↦ record { kind = EntityKind.port; id = port_id }
      | none ↦ record { kind = EntityKind.docker_container; id = get_or (head? cluster.members) "" }
    ]
  ]

  pub footprint_overlaps : List String → List String → Bool
  footprint_overlaps entity_ids claimed =
      any (λ id. is_footprint id && contains id claimed) entity_ids

  pub cluster_deployment : ContainerCluster → List String → Deployment
  cluster_deployment cluster claimed =
      let name = get_or cluster.label "container" in
      new_deployment (unique_deployment_id name claimed) name
        (collect_container_deployment_entities relationships entities cluster.members)
        (entrypoint_of cluster)

  -- the body of the loop over the clusters
  pub assign : Claims → ContainerCluster → Claims
  assign s cluster =
      if any (λ id. contains id s.claimed_ids) cluster.members
      then s
      else if footprint_overlaps
          (collect_container_deployment_entities relationships entities cluster.members)
          s.claimed_ids
      then s
      else (let deployment = cluster_deployment cluster s.claimed_ids in
          record {
            deployments = s.deployments ++ deployment ∷ [];
            claimed_ids = add_all (add s.claimed_ids deployment.id) deployment.entity_ids;
          })

  pub assign_all : Claims → List ContainerCluster → Claims
  assign_all s [] = s
  assign_all s (cluster ∷ rest) = assign_all (assign s cluster) rest

  container_ids : List String
  container_ids =
      map (λ entity. entity.id)
        (filter (λ entity. entity.kind == EntityKind.docker_container)
          (map (λ entry. entry.1) entities))

  pub clusters : List ContainerCluster
  clusters =
      let sorted : Clusters =
        sort_containers relationships entities
          (record { compose_clusters = []; net_clusters = []; orphans = [] }) container_ids in
      map (λ entry. entry.1) sorted.compose_clusters
      ++ (map (λ entry. entry.1) sorted.net_clusters ++ sorted.orphans)

  pub cluster_container_deployments : List String → List Deployment
  cluster_container_deployments claimed =
      (assign_all (record { deployments = []; claimed_ids = claimed }) clusters).deployments

pub domain_deployment : ClusterInput → String → Deployment
domain_deployment input domain =
    new_deployment (deployment_entity_id domain) domain
      (collect_related_entity_ids input.relationships input.entities (domain_entity_id domain))
      (record { kind = EntityKind.domain; id = domain_entity_id domain })

-- the body of the loop over the domains, which claims their entities
pub claim_domain : ClusterInput → Claims → String → Claims
claim_domain input s domain =
    let deployment = domain_deployment input domain in
    record {
      deployments = s.deployments ++ deployment ∷ [];
      claimed_ids = add_all s.claimed_ids deployment.entity_ids;
    }

pub claim_domains : ClusterInput → Claims → List String → Claims
claim_domains input s [] = s
claim_domains input s (domain ∷ rest) = claim_domains input (claim_domain input s domain) rest

pub record Clustering : Type 0 where
  pub deployments : List Deployment
  pub insights : List TopologyInsight

pub cluster_deployments : ClusterInput → Clustering
cluster_deployments input =
    let s =
      claim_domains input (record { deployments = []; claimed_ids = [] })
        (primary_domains input.server_blocks) in
    let deployments =
      s.deployments
      ++ cluster_container_deployments input.relationships input.entities s.claimed_ids in
    record {
      deployments = deployments;
      insights = detect_shared_backends deployments input.relationships input.entities;
    }

-- The names that a run of these definitions unfolds.
unfoldable pub assigning : Unit {0}
unfolding new_deployment has_kind is_footprint entrypoint_of footprint_overlaps cluster_deployment
    assign assign_all container_ids clusters cluster_container_deployments domain_deployment
    claim_domain claim_domains cluster_deployments
assigning = tt
