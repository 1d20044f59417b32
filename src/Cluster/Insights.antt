-- ===== src/Cluster/Insights.antt =====
-- app/src/main/services/deployments/insights.ts: the backends that several deployments share.
pub mod Shared
use Prim.Native.String.{◌++◌ as concat}
use zvia.Prelude.{
  ℕ, suc, String, Bool, true, false, not, ◌||◌, Option, none, some, List, [], ◌∷◌, ◌++◌, ◌==◌,
  string_eq, if◌then◌else◌, length, filter, contains, add, bind, get_or, ltb, nat_eq,
}
use zvia.Prelude.Decimal.{show}
use zvia.Prelude.Dict.{Dict, lookup, insert}
use zvia.Topology.{
  EntityKind, Confidence, RelationshipType, Relationship, Evidence, Deployment, Scalar,
  TopologyEntity, TopologyInsight, TopologyInsightType,
}
use zvia.Topology.Enums.{kind_eq, type_eq}
use zvia.Health.{source_field}

-- what a `sourceRef.port` that passes `!port` prints as
truthy_text : Option Scalar → Option String
truthy_text none = none
truthy_text (some (Scalar.text s)) = if s == "" then none else some s
truthy_text (some (Scalar.number n)) = if n == 0 then none else some (show n)
truthy_text (some (Scalar.flag b)) = if b then some "true" else none
truthy_text (some Scalar.null) = none

backend_key_from_relationship : Relationship → Dict TopologyEntity → Option String
backend_key_from_relationship rel entities =
    if not (rel.type == RelationshipType.proxies_to) || not (rel.to.kind == EntityKind.port)
    then none
    else bind (truthy_text (bind (lookup rel.to.id entities) (source_field "port")))
        (λ port. some (concat ":" port))

pub record BackendEntry : Type 0 where
  pub deployment_ids : List String
  pub evidence : List Relationship
  pub port_entity_ids : List String

pub no_entry : BackendEntry
no_entry = record { deployment_ids = []; evidence = []; port_entity_ids = [] }

pub add_relationship : String → Relationship → BackendEntry → BackendEntry
add_relationship deployment_id rel entry = record {
  deployment_ids = add entry.deployment_ids deployment_id;
  evidence = entry.evidence ++ rel ∷ [];
  port_entity_ids = add entry.port_entity_ids rel.to.id;
}

pub note_backend :
    Dict TopologyEntity → String → Dict BackendEntry → Relationship → Dict BackendEntry
note_backend entities deployment_id backends rel =
    elim (backend_key_from_relationship rel entities) [
      | none ↦ backends
      | some key ↦
          insert key (add_relationship deployment_id rel (get_or (lookup key backends) no_entry))
            backends
    ]

pub note_backends :
    Dict TopologyEntity → String → Dict BackendEntry → List Relationship → Dict BackendEntry
note_backends entities deployment_id backends [] = backends
note_backends entities deployment_id backends (rel ∷ rest) =
    note_backends entities deployment_id (note_backend entities deployment_id backends rel) rest

pub touches : Deployment → Relationship → Bool
touches deployment rel =
    contains rel.from.id deployment.entity_ids || contains rel.to.id deployment.entity_ids

pub backends_of :
    List Relationship
    → Dict TopologyEntity
    → Dict BackendEntry
    → List Deployment
    → Dict BackendEntry
backends_of relationships entities backends [] = backends
backends_of relationships entities backends (deployment ∷ rest) =
    backends_of relationships entities
      (note_backends entities deployment.id backends (filter (touches deployment) relationships))
      rest

all_evidence : List Relationship → List Evidence
all_evidence [] = []
all_evidence (rel ∷ rest) = rel.evidence ++ all_evidence rest

pub insight_of : ℕ → String → BackendEntry → TopologyInsight
insight_of counter backend entry = record {
  id = concat "insight-shared-backend-" (show counter);
  type = TopologyInsightType.shared_backend;
  deployment_ids = entry.deployment_ids;
  label = concat (show (length entry.deployment_ids)) (concat " domains → same backend " backend);
  confidence = Confidence.confirmed;
  evidence = all_evidence entry.evidence;
  port_entity_ids = some entry.port_entity_ids;
}

pub insights_of : ℕ → Dict BackendEntry → List TopologyInsight
insights_of counter [] = []
insights_of counter ((backend, entry) ∷ rest) = elim (ltb (length entry.deployment_ids) 2) [
  | true ↦ insights_of counter rest
  | false ↦ insight_of (suc counter) backend entry ∷ insights_of (suc counter) rest
]

pub detect_shared_backends :
    List Deployment → List Relationship → Dict TopologyEntity → List TopologyInsight
detect_shared_backends deployments relationships entities =
    insights_of 0 (backends_of relationships entities [] deployments)

-- The names that a run of these definitions unfolds.
unfoldable pub insight_search : Unit {0}
unfolding truthy_text backend_key_from_relationship no_entry add_relationship note_backend
    note_backends touches backends_of all_evidence insight_of insights_of detect_shared_backends
insight_search = tt
