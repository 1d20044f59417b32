-- ===== src/Cluster/Tests.antt =====
-- Tests of the clustering, and its theorems at a concrete input.
use zvia.Prelude.{
  String, Bool, true, false, ◌≡◌, ◌↔◌, refl, List, [], ◌∷◌, ◌++◌, map, contains, add, add_all,
  filter, find, any, string_eq, All,
}
use zvia.Prelude.Dict.{Dict, lookup, insert, update}
use zvia.Prelude.Words.{split_on, trim, join, sort}
use zvia.Prelude.Decimal.{show, lower}
use zvia.Topology.{EntityKind, HealthStatus, RelationshipType, Relationship, Scalar, TopologyEntity}
use zvia.Topology.Ids.{domain_entity_id, deployment_entity_id}
use zvia.Topology.Samples.{
  entity, link, at, entities, relationships, site_deployment, domain_ref, container_ref,
}
use zvia.Health.Deployments.{selection}
use zvia.Cluster.{ClusterInput, searching, search}
use zvia.Cluster.Reach.{Reached, search_iff}
use zvia.Cluster.Domains.{domain_search, primary_domains}
use zvia.Cluster.Containers.{grouping, unique_deployment_id}
use zvia.Cluster.Containers.Names.{unique_deployment_id-fresh}
use zvia.Cluster.Insights.{insight_search, detect_shared_backends}
use zvia.Cluster.Insights.Shared.{IsShared, detect_shared_backends-IsShared}
use zvia.Topology.{Deployment}
use zvia.Cluster.Assign.{assigning, cluster_container_deployments, cluster_deployments}
use zvia.Cluster.Assign.Apart.{Separate, Pairwise, cluster_container_deployments-Separate}
use zvia.Cluster.Assign.Whole.{Split, cluster_deployments-Split}

abbrev container : String → String → TopologyEntity
container id networks =
    entity id EntityKind.docker_container HealthStatus.healthy
      (("networks", Scalar.text networks) ∷ [])

-- The small server with two containers more in one network, and one in a compose project.
abbrev more_entities : Dict TopologyEntity
more_entities =
    entities
    ++ ("container:web", container "container:web" "bridge, front")
      ∷ ("container:api", container "container:api" "front")
      ∷ ("container:db", container "container:db" "bridge")
      ∷ (
        "compose:shop",
        entity "compose:shop" EntityKind.docker_compose_service HealthStatus.healthy [],
      )
      ∷ []

abbrev more_relationships : List Relationship
more_relationships =
    relationships
    ++ link RelationshipType.member_of (at EntityKind.docker_container "container:db")
        (at EntityKind.docker_compose_service "compose:shop") "rel:db"
      ∷ []

abbrev input : ClusterInput
input = record {
  server_blocks = (record { server_names = "_" ∷ "a.com" ∷ "A.com" ∷ [] }) ∷ [];
  relationships = more_relationships;
  entities = more_entities;
}

abbrev claimed : List String
claimed = domain_ref.id ∷ container_ref.id ∷ []

deployments_test :
    map {B = String × List String}
      (λ d. (d.id, d.entity_ids))
      (cluster_deployments input).deployments
    ≡ (
      "deployment:a.com",
      "domain:a.com" ∷ "nginx:/etc/nginx/a:1" ∷ "port:tcp:127.0.0.1:3000" ∷ "container:c1" ∷ [],
    )
      ∷ ("deployment:compose:shop", "container:db" ∷ "compose:shop" ∷ [])
      ∷ ("deployment:front", "container:web" ∷ "container:api" ∷ [])
      ∷ []
unfolding searching domain_search grouping insight_search assigning selection contains add add_all
    filter find any lookup insert update split_on trim join sort show lower domain_entity_id
    deployment_entity_id
deployments_test = refl

-- An orphan container with the label of a domain gets the id that the domain's deployment has.
same_id_test :
    map
      (λ d. d.id)
      (cluster_deployments (record {
        server_blocks = (record { server_names = "a.com" ∷ [] }) ∷ [];
        relationships = [];
        entities = ("a.com", container "a.com" "bridge") ∷ [];
      })).deployments
    ≡ "deployment:a.com" ∷ "deployment:a.com" ∷ []
unfolding searching domain_search grouping insight_search assigning selection contains add add_all
    filter find any lookup insert update split_on trim join sort show lower domain_entity_id
    deployment_entity_id
same_id_test = refl

unique_test :
    unique_deployment_id "api" ("deployment:api" ∷ "deployment:api-2" ∷ []) ≡ "deployment:api-3"
unfolding grouping contains show lower deployment_entity_id
unique_test = refl

primary_test : primary_domains ((record { server_names = "_" ∷ [] }) ∷ []) ≡ "_" ∷ []
unfolding domain_search contains lower
primary_test = refl

abbrev all_admitted : String → Bool
all_admitted id = true

abbrev no_barrier : String → Bool
no_barrier id = false

search_iff_example :
    (contains container_ref.id (search relationships no_barrier all_admitted (domain_ref.id ∷ []))
      ≡ true)
    ↔ Reached relationships no_barrier all_admitted (domain_ref.id ∷ []) container_ref.id
search_iff_example =
    search_iff relationships no_barrier all_admitted (domain_ref.id ∷ []) container_ref.id

unique_deployment_id-fresh_example :
    contains (unique_deployment_id "api" ("deployment:api" ∷ [])) ("deployment:api" ∷ []) ≡ false
unique_deployment_id-fresh_example = unique_deployment_id-fresh "api" ("deployment:api" ∷ [])

cluster_container_deployments-Separate_example :
    Pairwise
      (Separate more_relationships more_entities)
      (cluster_container_deployments more_relationships more_entities claimed)
cluster_container_deployments-Separate_example =
    cluster_container_deployments-Separate more_relationships more_entities claimed

cluster_deployments-Split_example : Split input (cluster_deployments input).deployments
cluster_deployments-Split_example = cluster_deployments-Split input

-- A second deployment on the site of the first.
abbrev two_deployments : List Deployment
two_deployments = site_deployment ∷ record site_deployment { id = "deployment:b.com" } ∷ []

insights_test :
    map (λ i. i.label) (detect_shared_backends two_deployments relationships entities)
    ≡ "2 domains → same backend :3000" ∷ []
unfolding insight_search contains add filter lookup insert show
insights_test = refl

detect_shared_backends-IsShared_example :
    All (IsShared two_deployments) (detect_shared_backends two_deployments relationships entities)
detect_shared_backends-IsShared_example =
    detect_shared_backends-IsShared two_deployments relationships entities
