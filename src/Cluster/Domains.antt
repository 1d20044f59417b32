-- ===== src/Cluster/Domains.antt =====
-- app/src/main/services/deployments/clusterer.ts: the domains of the server blocks, and what
-- belongs to a domain.
pub mod Members
use zvia.Prelude.{
  String, Bool, true, false, not, ◌&&◌, ◌||◌, Option, none, some, List, [], ◌∷◌, ◌++◌, ◌==◌,
  string_eq, if◌then◌else◌, any, filter, contains, add, add_all, is_some,
}
use zvia.Prelude.Decimal.{lower}
use zvia.Prelude.Dict.{Dict}
use zvia.Topology.{
  EntityKind, Confidence, RelationshipType, EntityRef, Relationship, TopologyEntity,
}
use zvia.Topology.Enums.{kind_eq, type_eq, confidence_eq}
use zvia.Cluster.{ServerBlock, entity_kind_for_id, is_kind, search}

abbrev skip_domains : List String
skip_domains = "_" ∷ "default_server" ∷ "localhost" ∷ []

-- the two accumulators of `primaryDomains`
record Domains : Type 0 where
  pub domains : List String
  pub seen : List String

add_name : Domains → String → Domains
add_name d name =
    if contains (lower name) skip_domains || contains (lower name) d.seen
    then d
    else record { domains = d.domains ++ name ∷ []; seen = d.seen ++ lower name ∷ [] }

add_names : Domains → List String → Domains
add_names d [] = d
add_names d (name ∷ rest) = add_names (add_name d name) rest

add_blocks : Domains → List ServerBlock → Domains
add_blocks d [] = d
add_blocks d (block ∷ rest) = add_blocks (add_names d block.server_names) rest

-- the first name of a block, when no block has a proper name
add_fallback : Domains → List String → Domains
add_fallback d [] = d
add_fallback d (fallback ∷ names) =
    if contains (lower fallback) d.seen
    then d
    else record { domains = d.domains ++ fallback ∷ []; seen = d.seen ++ lower fallback ∷ [] }

add_fallbacks : Domains → List ServerBlock → Domains
add_fallbacks d [] = d
add_fallbacks d (block ∷ rest) = add_fallbacks (add_fallback d block.server_names) rest

or_fallbacks : Domains → List ServerBlock → Domains
or_fallbacks d blocks = elim d.domains [ [] ↦ add_fallbacks d blocks | x ∷ xs ↦ d ]

pub primary_domains : List ServerBlock → List String
primary_domains blocks =
    (or_fallbacks (add_blocks (record { domains = []; seen = [] }) blocks) blocks).domains

is_domain_ref : EntityRef → String → Bool
is_domain_ref ref domain_id = ref.kind == EntityKind.domain && ref.id == domain_id

add_sites : String → List String → Relationship → List String
add_sites domain_id sites rel =
    if not (rel.type == RelationshipType.serves)
    then sites
    else (let first = if is_domain_ref rel.from domain_id then add sites rel.to.id else sites in
        if is_domain_ref rel.to domain_id then add first rel.from.id else first)

sites_of : String → List String → List Relationship → List String
sites_of domain_id sites [] = sites
sites_of domain_id sites (rel ∷ rest) = sites_of domain_id (add_sites domain_id sites rel) rest

has_backend : List Relationship → String → Bool
has_backend relationships site_id =
    any
      (λ rel.
        rel.from.id == site_id
        && (rel.type == RelationshipType.proxies_to || rel.type == RelationshipType.serves_static)
        && not (rel.confidence == Confidence.unknown))
      relationships

or_all : List String → List String → List String
or_all [] sites = sites
or_all (site ∷ rest) sites = site ∷ rest

pub nginx_sites_for_domain : String → List Relationship → List String
nginx_sites_for_domain domain_id relationships =
    let sites = sites_of domain_id [] relationships in
    or_all (filter (has_backend relationships) sites) sites

module _ (relationships : List Relationship) (entities : Dict TopologyEntity) where
  pub kind_of : String → Option EntityKind
  kind_of id = entity_kind_for_id id entities relationships

  -- a shared runtime node: claimed, but not gone beyond
  pub is_hub : String → Bool
  is_hub id =
      is_kind EntityKind.systemd_unit (kind_of id)
      || is_kind EntityKind.docker_compose_service (kind_of id)

  pub joins_domain : String → String → Bool
  joins_domain start_domain_id neighbor =
      is_some (kind_of neighbor)
      && (not (is_kind EntityKind.domain (kind_of neighbor)) || neighbor == start_domain_id)
      && (not (is_kind EntityKind.nginx_site (kind_of neighbor))
          || contains neighbor (nginx_sites_for_domain start_domain_id relationships))

  pub collect_related_entity_ids : String → List String
  collect_related_entity_ids start_domain_id =
      search relationships is_hub (joins_domain start_domain_id) (start_domain_id ∷ [])

-- The names that a run of these definitions unfolds.
unfoldable pub domain_search : Unit {0}
unfolding add_name add_names add_blocks add_fallback add_fallbacks or_fallbacks primary_domains
    is_domain_ref add_sites sites_of has_backend or_all nginx_sites_for_domain kind_of is_hub
    joins_domain collect_related_entity_ids
domain_search = tt
