-- ===== src/Health/Deployments.antt =====
-- app/src/main/services/deployments/health.ts, the second half: the relationships of a
-- deployment that its health and its summary are read from, and the summary.
use Prim.Native.String.{◌++◌ as concat}
use zvia.Prelude.{
  String, Bool, true, false, not, ◌&&◌, ◌||◌, Option, none, some, List, [], ◌∷◌, ◌++◌, map, ◌==◌,
  if◌then◌else◌, string_eq, nat_eq, ltb, length, any, filter, find, contains, bind, is_some, get_or,
  head?, truthy,
}
use zvia.Prelude.Decimal.{capitalise, strip_suffix}
use zvia.Prelude.Dict.{Dict, lookup}
use zvia.Topology.{
  EntityKind, Confidence, RelationshipType, Relationship, EntityRef, Deployment, TopologyEntity,
}
use zvia.Topology.Enums.{kind_eq, type_eq, confidence_eq}
use zvia.Health.{source_field, as_text}

pub published_port_for_container : String → List Relationship → Option String
published_port_for_container container_id relationships =
    bind
      (find
        (λ rel.
          rel.type == RelationshipType.published_by
          && rel.to.id == container_id
          && rel.from.kind == EntityKind.port)
        relationships)
      (λ rel. some rel.from.id)

-- the first member of the compose project that publishes a port
member_port : String → List Relationship → List Relationship → Option String
member_port entry_id relationships [] = none
member_port entry_id relationships (rel ∷ rest) =
    let later = member_port entry_id relationships rest in
    if not (rel.type == RelationshipType.member_of && rel.to.id == entry_id)
    then later
    else elim (truthy (published_port_for_container rel.from.id relationships)) [
      | some port ↦ some port
      | none ↦ later
    ]

entry_backend_port : Option EntityRef → List Relationship → Option String
entry_backend_port none relationships = none
entry_backend_port (some entry) relationships =
    if entry.kind == EntityKind.port
    then some entry.id
    else if entry.kind == EntityKind.docker_container
    then published_port_for_container entry.id relationships
    else if entry.kind == EntityKind.docker_compose_service
    then member_port entry.id relationships relationships
    else none

pub container_backend_port : Deployment → List Relationship → Option String
container_backend_port deployment relationships =
    entry_backend_port (head? deployment.entrypoints) relationships

pub record Backend : Type 0 where
  pub backend_port_id : String
  pub container_id : Option String

abbrev pub from_of_type : RelationshipType → String → Relationship → Bool
from_of_type type id rel = rel.type == type && rel.from.id == id

pub container_backend_entities : Deployment → List Relationship → Option Backend
container_backend_entities deployment relationships =
    bind (truthy (container_backend_port deployment relationships)) (λ port. some (record {
      backend_port_id = port;
      container_id =
          bind (find (from_of_type RelationshipType.published_by port) relationships)
            (λ rel. some rel.to.id);
    }))

is_entry : Option String → String → Bool
is_entry none id = false
is_entry (some skip) id = id == skip

sibling_labels : String → Option String → Dict TopologyEntity → List Relationship → List String
sibling_labels entry_id skip entities [] = []
sibling_labels entry_id skip entities (rel ∷ rest) =
    (if not (rel.type == RelationshipType.member_of && rel.to.id == entry_id)
      then []
      else if is_entry skip rel.from.id
      then []
      else elim (lookup rel.from.id entities) [ none ↦ [] | some sibling ↦ sibling.label ∷ [] ])
    ++ sibling_labels entry_id skip entities rest

pub compose_sibling_labels :
    Option EntityRef → List Relationship → Dict TopologyEntity → Option String → List String
compose_sibling_labels none relationships entities skip = []
compose_sibling_labels (some entry) relationships entities skip =
    if entry.kind == EntityKind.docker_compose_service
    then sibling_labels entry.id skip entities relationships
    else []

nonempty_comm : Option String → Option String
nonempty_comm o = truthy o

pub runtime_label : Option TopologyEntity → String
unfolding nonempty_comm
runtime_label none = "Unknown"
runtime_label (some entity) =
    elim (if entity.kind == EntityKind.process
      then nonempty_comm (as_text (source_field "comm" entity))
      else none) [
        | some comm ↦ capitalise comm
        | none ↦
            if entity.kind == EntityKind.docker_container
            then "Docker"
            else if entity.kind == EntityKind.systemd_unit
            then strip_suffix ".service" entity.label
            else if entity.kind == EntityKind.file_path
            then "Static"
            else entity.label
      ]

pub deployment_relationships : Deployment → List Relationship → List Relationship
deployment_relationships deployment relationships =
    filter
      (λ rel.
        contains rel.from.id deployment.entity_ids || contains rel.to.id deployment.entity_ids)
      relationships

abbrev serves_domain : String → Relationship → Bool
serves_domain domain_id rel =
    rel.type == RelationshipType.serves
    && not (rel.confidence == Confidence.unknown)
    && ((rel.from.kind == EntityKind.domain
          && rel.from.id == domain_id
          && rel.to.kind == EntityKind.nginx_site)
        || (rel.to.kind == EntityKind.domain
            && rel.to.id == domain_id
            && rel.from.kind == EntityKind.nginx_site))

pub served_site_ids : String → List Relationship → List String
served_site_ids domain_id relationships =
    map (λ rel. if rel.from.kind == EntityKind.nginx_site then rel.from.id else rel.to.id)
      (filter (serves_domain domain_id) relationships)

abbrev proxies_from : String → Relationship → Bool
proxies_from site_id rel =
    rel.type == RelationshipType.proxies_to
    && rel.from.id == site_id
    && not (rel.confidence == Confidence.unknown)

-- `a ?? b`
abbrev or_else : Option String → Option String → Option String
or_else (some a) o = some a
or_else none o = o

pub deployment_site_id : Deployment → List Relationship → Option String
deployment_site_id deployment relationships =
    bind (truthy (bind (head? deployment.entrypoints) (λ e. some e.id))) (λ domain_id.
      let served = served_site_ids domain_id relationships in
      or_else (truthy (find (λ site. any (proxies_from site) relationships) served)) (
        or_else
          (truthy (
            find (λ site. any (from_of_type RelationshipType.serves_static site) relationships)
              served))
          (head? served)))

pub proxy_relationship_for_site : Option String → List Relationship → Option Relationship
proxy_relationship_for_site none relationships = none
proxy_relationship_for_site (some site_id) relationships = find (proxies_from site_id) relationships

-- `siteId ? rel.from.id === siteId : true`
abbrev pub from_site : Option String → Relationship → Bool
from_site none rel = true
from_site (some site_id) rel = rel.from.id == site_id

-- the `parts` of the summary
pub stack_parts : Deployment → Dict TopologyEntity → List Relationship → List String
stack_parts deployment entities relationships =
    let rels = deployment_relationships deployment relationships in
    let site = truthy (deployment_site_id deployment rels) in
    let proxy = proxy_relationship_for_site site rels in
    let label_of = λ (id : String) (fallback : String).
      get_or (bind (lookup id entities) (λ e. some e.label)) fallback in
    let runtime = λ (rel : Relationship). runtime_label (lookup rel.to.id entities) in
    let of_site : List String = elim site [ some _ ↦ "Nginx" ∷ [] | none ↦ [] ] in
    let of_backend : List String = elim proxy [
      | some p ↦
          label_of p.to.id ":backend"
          ∷ elim (find (from_of_type RelationshipType.published_by p.to.id) rels) [
            | some docker ↦ runtime docker ∷ []
            | none ↦ elim (find (from_of_type RelationshipType.bound_to p.to.id) rels) [
              | some bound ↦ runtime bound ∷ []
              | none ↦ []
            ]
          ]
      | none ↦ elim site [
        | some _ ↦ []
        | none ↦ elim (container_backend_entities deployment rels) [
          | none ↦ []
          | some backend ↦
              label_of backend.backend_port_id ":backend" ∷ elim (truthy backend.container_id) [
                | none ↦ []
                | some container ↦
                    label_of container "Docker"
                    ∷ compose_sibling_labels (head? deployment.entrypoints) rels entities
                        (some container)
              ]
        ]
      ]
    ] in
    let parts = of_site ++ of_backend in
    let of_static : List String =
      if is_some (find (λ r. r.type == RelationshipType.serves_static && from_site site r) rels)
        && ltb (length parts) 2
      then "Static" ∷ []
      else [] in
    let of_unit : List String = elim proxy [
      | some _ ↦ []
      | none ↦ elim (find (λ r. r.type == RelationshipType.managed_by) rels) [
        | some managed ↦ runtime managed ∷ []
        | none ↦ []
      ]
    ] in
    (parts ++ of_static) ++ of_unit

-- `parts.join(' → ')`
join_parts : String → List String → String
join_parts part [] = part
join_parts part (next ∷ rest) = concat part (concat " → " (join_parts next rest))

summary_of : List String → String
unfolding join_parts
summary_of [] = "Discovered resources"
summary_of (part ∷ rest) = join_parts part rest

pub build_stack_summary : Deployment → Dict TopologyEntity → List Relationship → String
unfolding summary_of stack_parts
build_stack_summary deployment entities relationships =
    summary_of (stack_parts deployment entities relationships)

-- The names that a run of these definitions unfolds.
unfoldable pub selection : Unit {0}
unfolding published_port_for_container member_port entry_backend_port container_backend_port
    container_backend_entities is_entry sibling_labels compose_sibling_labels runtime_label
    deployment_relationships served_site_ids deployment_site_id proxy_relationship_for_site
    build_stack_summary
selection = tt
