-- ===== src/Cluster.antt =====
-- app/src/main/services/deployments/clusterer.ts: the deployments that the relationships make up.
-- A `Set` is a list in the order of insertion, and `Object.values(entities)` the entries in order.
pub mod Search
pub mod Reach
pub mod Domains
pub mod Containers
pub mod Insights
pub mod Assign
pub mod Tests
use zvia.Prelude.{
  ℕ, zero, suc, ◌+◌, String, Bool, true, false, not, ◌&&◌, ◌||◌, Option, none, some, List, [], ◌∷◌,
  ◌++◌, ◌==◌, string_eq, if◌then◌else◌, length, contains, add_all,
}
use zvia.Prelude.Dict.{Dict, lookup}
use zvia.Topology.{EntityKind, Relationship, TopologyEntity}
use zvia.Topology.Enums.{kind_eq}

pub record ServerBlock : Type 0 where
  pub server_names : List String

pub record ClusterInput : Type 0 where
  pub server_blocks : List ServerBlock
  pub relationships : List Relationship
  pub entities : Dict TopologyEntity

-- `currentKind === kind`, where there may be no kind
abbrev pub is_kind : EntityKind → Option EntityKind → Bool
is_kind k none = false
is_kind k (some j) = j == k

-- the kind that a relationship gives an entity
kind_in : String → List Relationship → Option EntityKind
kind_in id [] = none
kind_in id (rel ∷ rest) =
    if rel.from.id == id
    then some rel.from.kind
    else if rel.to.id == id
    then some rel.to.kind
    else kind_in id rest

or_kind : Option TopologyEntity → Option EntityKind → Option EntityKind
or_kind none k = k
or_kind (some entity) k = some entity.kind

unfoldable pub entity_kind_for_id :
    String → Dict TopologyEntity → List Relationship → Option EntityKind
unfolding kind_in or_kind
entity_kind_for_id id entities relationships =
    or_kind (lookup id entities) (kind_in id relationships)

-- the neighbours of an entity, for each relationship in turn
unfoldable pub neighbors : String → List Relationship → List String
neighbors current [] = []
neighbors current (rel ∷ rest) =
    (if rel.from.id == current then rel.to.id ∷ [] else [])
    ++ ((if rel.to.id == current then rel.from.id ∷ [] else []) ++ neighbors current rest)

-- all ends of the relationships
unfoldable pub ends : List Relationship → List String
ends [] = []
ends (rel ∷ rest) = rel.from.id ∷ rel.to.id ∷ ends rest

-- A breadth-first search: what was visited, and the queue.
pub record Frontier : Type 0 where
  pub visited : List String
  pub queue : List String

-- The two searches differ in the entities that they do not go beyond, and in those that they
-- do not enter.
module _ (relationships : List Relationship) (barrier admit : String → Bool) where
  -- the innermost loop's body
  pub visit : Frontier → String → Frontier
  visit s neighbor =
      if contains neighbor s.visited
      then s
      else if not (admit neighbor)
      then s
      else record { visited = s.visited ++ neighbor ∷ []; queue = s.queue ++ neighbor ∷ [] }

  pub visit_all : Frontier → List String → Frontier
  visit_all s [] = s
  visit_all s (n ∷ rest) = visit_all (visit s n) rest

  -- one round of the `while` loop, after `current` left the queue
  pub expand : Frontier → String → Frontier
  expand s current = if barrier current then s else visit_all s (neighbors current relationships)

  pub loop : ℕ → Frontier → List String
  loop zero s = s.visited
  loop (suc fuel) s = elim s.queue [
    | [] ↦ s.visited
    | current ∷ rest ↦ loop fuel (expand (record s { queue = rest }) current)
  ]

  -- A round takes an entity from the queue, and each entity enters it once: the seeds, and ends
  -- of relationships.
  pub search : List String → List String
  search seeds =
      loop (length seeds + length (ends relationships))
        (record { visited = add_all [] seeds; queue = seeds })

-- The names that a run of the searches unfolds.
unfoldable pub searching : Unit {0}
unfolding entity_kind_for_id neighbors ends visit visit_all expand loop search
searching = tt
