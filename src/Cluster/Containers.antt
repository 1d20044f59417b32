-- ===== src/Cluster/Containers.antt =====
-- app/src/main/services/deployments/clusterer.ts: the deployments of containers that no domain
-- leads to: how they are grouped, named, and what they take in.
pub mod Names
use Prim.Native.String.{◌++◌ as concat}
use zvia.Prelude.{
  ℕ, zero, suc, String, Bool, true, false, not, ◌&&◌, ◌||◌, Option, none, some, List, [], ◌∷◌, ◌++◌,
  map, ◌==◌, string_eq, if◌then◌else◌, length, any, filter, find, contains, add, add_all, bind,
  get_or, head?, truthy,
}
use zvia.Prelude.Decimal.{show}
use zvia.Prelude.Words.{split_on, trim, join, sort}
use zvia.Prelude.Dict.{Dict, lookup, insert, update, has}
use zvia.Topology.{
  EntityKind, HealthStatus, RelationshipType, EntityRef, Relationship, Deployment,
  DeploymentComponentStatus, TopologyEntity, TopologyInsight,
}
use zvia.Topology.Enums.{kind_eq, type_eq}
use zvia.Topology.Ids.{domain_entity_id, deployment_entity_id}
use zvia.Health.{source_field, as_text}
use zvia.Health.Deployments.{published_port_for_container}
use zvia.Cluster.{ClusterInput, entity_kind_for_id, is_kind, search}
use zvia.Cluster.Domains.{primary_domains, collect_related_entity_ids}

container_compose_service : String → List Relationship → Option String
container_compose_service container_id relationships =
    bind
      (find (λ rel. rel.type == RelationshipType.member_of && rel.from.id == container_id)
        relationships)
      (λ rel. some rel.to.id)

abbrev default_networks : List String
default_networks = "bridge" ∷ "host" ∷ "none" ∷ "default" ∷ []

joined_key : List String → Option String
joined_key [] = none
joined_key (name ∷ rest) = some (join "," (sort (name ∷ rest)))

custom_networks : String → List String
custom_networks networks =
    filter (λ name. not (contains name default_networks))
      (filter (λ name. not (name == "")) (map trim (split_on "," networks)))

network_key_of : String → Dict TopologyEntity → Option String
network_key_of container_id entities =
    bind (as_text (bind (lookup container_id entities) (source_field "networks")))
      (λ networks. joined_key (custom_networks networks))

pub group_published_port : List String → List Relationship → Option String
group_published_port [] relationships = none
group_published_port (member ∷ rest) relationships =
    let later = group_published_port rest relationships in
    elim (truthy (published_port_for_container member relationships)) [
      | some port ↦ some port
      | none ↦ later
    ]

module _ (relationships : List Relationship) (entities : Dict TopologyEntity) where
  pub kind_of : String → Option EntityKind
  kind_of id = entity_kind_for_id id entities relationships

  is_unit : String → Bool
  is_unit id = is_kind EntityKind.systemd_unit (kind_of id)

  joins_containers : String → Bool
  joins_containers neighbor = elim (kind_of neighbor) [
    | none ↦ false
    | some kind ↦ not (kind == EntityKind.domain || kind == EntityKind.nginx_site)
  ]

  pub collect_container_deployment_entities : List String → List String
  collect_container_deployment_entities seeds = search relationships is_unit joins_containers seeds

-- The `while` loop of `uniqueDeploymentId`, with a round for each id that is taken.
next_free : ℕ → String → List String → String → ℕ → String
next_free zero base taken id suffix = id
next_free (suc rounds) base taken id suffix =
    let later =
      next_free rounds base taken (deployment_entity_id (concat base (concat "-" (show suffix))))
        (suc suffix) in
    if contains id taken then later else id

-- The id is added to those taken by the caller.
pub unique_deployment_id : String → List String → String
unique_deployment_id base taken = next_free (length taken) base taken (deployment_entity_id base) 2

pub record ContainerCluster : Type 0 where
  pub members : List String
  pub compose_id : Option String
  pub label : Option String

-- the two maps and the list that the containers are sorted into
pub record Clusters : Type 0 where
  pub compose_clusters : Dict ContainerCluster
  pub net_clusters : Dict ContainerCluster
  pub orphans : List ContainerCluster

push_member : String → ContainerCluster → ContainerCluster
push_member cid cluster = record cluster { members = cluster.members ++ cid ∷ [] }

-- The cluster of a key is made when it is missing, and gets the container.
join_cluster : String → ContainerCluster → String → Dict ContainerCluster → Dict ContainerCluster
join_cluster key fresh cid clusters =
    update key (push_member cid) (if has key clusters then clusters else insert key fresh clusters)

label_of : String → Dict TopologyEntity → Option String
label_of id entities = bind (lookup id entities) (λ entity. some entity.label)

sort_container : List Relationship → Dict TopologyEntity → Clusters → String → Clusters
sort_container relationships entities clusters cid =
    elim (truthy (container_compose_service cid relationships)) [
      | some compose_id ↦ record clusters {
        compose_clusters =
            join_cluster compose_id
              (record {
                members = [];
                compose_id = some compose_id;
                label = label_of compose_id entities;
              })
              cid clusters.compose_clusters;
      }
      | none ↦ elim (truthy (network_key_of cid entities)) [
        | some net_key ↦ record clusters {
          net_clusters =
              join_cluster net_key
                (record {
                  members = [];
                  compose_id = none;
                  label = some (get_or (head? (split_on "," net_key)) net_key);
                })
                cid clusters.net_clusters;
        }
        | none ↦ record clusters {
          orphans =
              clusters.orphans
              ++ (record { members = cid ∷ []; compose_id = none; label = label_of cid entities })
                ∷ [];
        }
      ]
    ]

pub sort_containers : List Relationship → Dict TopologyEntity → Clusters → List String → Clusters
sort_containers relationships entities clusters [] = clusters
sort_containers relationships entities clusters (cid ∷ rest) =
    sort_containers relationships entities (sort_container relationships entities clusters cid) rest

-- The names that a run of these definitions unfolds.
unfoldable pub grouping : Unit {0}
unfolding container_compose_service joined_key custom_networks network_key_of group_published_port
    kind_of is_unit joins_containers collect_container_deployment_entities next_free
    unique_deployment_id push_member join_cluster label_of sort_container sort_containers
grouping = tt
