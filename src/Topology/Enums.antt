-- ===== src/Topology/Enums.antt =====
-- `===` on the enumerations of app/src/shared/topology.ts: each value has a number of its own.
use zvia.Prelude.{ℕ, ◌≡◌, refl, sym, ap, ◌∙◌, List, [], ◌∷◌}
use zvia.Prelude.Tests.{Equality, nat_eq}
use zvia.Prelude.Lists.{get_elem_or}
use zvia.Topology.{EntityKind, HealthStatus, RelationshipType, Confidence, TopologyChangeKind}

-- A list that holds each value at its number makes the numbering one to one.
abbrev pub Index-eq :
    {A : Type 0} (index : A → ℕ) (all : List A) (d : A)
    → ((a : A) → get_elem_or all (index a) d ≡ a)
    → Equality A
Index-eq index all d at = record {
  same = λ a b. nat_eq.same (index a) (index b);
  same_iff = λ a b. (
    λ h. sym (at a) ∙ ap (λ n. get_elem_or all n d) ((nat_eq.same_iff _ _).0 h) ∙ at b,
    λ e. (nat_eq.same_iff _ _).1 (ap index e),
  );
}

abbrev pub kind_index : EntityKind → ℕ
kind_index EntityKind.deployment = 0
kind_index EntityKind.domain = 1
kind_index EntityKind.nginx_site = 2
kind_index EntityKind.ssl_certificate = 3
kind_index EntityKind.port = 4
kind_index EntityKind.process = 5
kind_index EntityKind.systemd_unit = 6
kind_index EntityKind.docker_container = 7
kind_index EntityKind.docker_compose_service = 8
kind_index EntityKind.file_path = 9
kind_index EntityKind.database = 10
kind_index EntityKind.runtime = 11

abbrev pub kind_values : List EntityKind
kind_values =
    EntityKind.deployment ∷ EntityKind.domain ∷ EntityKind.nginx_site ∷ EntityKind.ssl_certificate
    ∷ EntityKind.port ∷ EntityKind.process ∷ EntityKind.systemd_unit ∷ EntityKind.docker_container
    ∷ EntityKind.docker_compose_service ∷ EntityKind.file_path ∷ EntityKind.database
    ∷ EntityKind.runtime ∷ []

pub kind_values-index :
    (a : EntityKind) → get_elem_or kind_values (kind_index a) EntityKind.deployment ≡ a
kind_values-index EntityKind.deployment = refl
kind_values-index _ = refl

instance abbrev pub kind_eq : Equality EntityKind
kind_eq = Index-eq kind_index kind_values EntityKind.deployment kind_values-index

abbrev pub status_index : HealthStatus → ℕ
status_index HealthStatus.healthy = 0
status_index HealthStatus.degraded = 1
status_index HealthStatus.failed = 2
status_index HealthStatus.unknown = 3
status_index HealthStatus.discovering = 4

abbrev pub status_values : List HealthStatus
status_values =
    HealthStatus.healthy ∷ HealthStatus.degraded ∷ HealthStatus.failed ∷ HealthStatus.unknown
    ∷ HealthStatus.discovering ∷ []

pub status_values-index :
    (a : HealthStatus) → get_elem_or status_values (status_index a) HealthStatus.healthy ≡ a
status_values-index HealthStatus.healthy = refl
status_values-index _ = refl

instance abbrev pub status_eq : Equality HealthStatus
status_eq = Index-eq status_index status_values HealthStatus.healthy status_values-index

abbrev pub type_index : RelationshipType → ℕ
type_index RelationshipType.serves = 0
type_index RelationshipType.terminates_tls = 1
type_index RelationshipType.listens_on = 2
type_index RelationshipType.proxies_to = 3
type_index RelationshipType.serves_static = 4
type_index RelationshipType.bound_to = 5
type_index RelationshipType.managed_by = 6
type_index RelationshipType.published_by = 7
type_index RelationshipType.member_of = 8

abbrev pub type_values : List RelationshipType
type_values =
    RelationshipType.serves ∷ RelationshipType.terminates_tls ∷ RelationshipType.listens_on
    ∷ RelationshipType.proxies_to ∷ RelationshipType.serves_static ∷ RelationshipType.bound_to
    ∷ RelationshipType.managed_by ∷ RelationshipType.published_by ∷ RelationshipType.member_of ∷ []

pub type_values-index :
    (a : RelationshipType) → get_elem_or type_values (type_index a) RelationshipType.serves ≡ a
type_values-index RelationshipType.serves = refl
type_values-index _ = refl

instance abbrev pub type_eq : Equality RelationshipType
type_eq = Index-eq type_index type_values RelationshipType.serves type_values-index

abbrev pub confidence_index : Confidence → ℕ
confidence_index Confidence.confirmed = 0
confidence_index Confidence.likely = 1
confidence_index Confidence.unknown = 2
confidence_index Confidence.conflicting = 3

abbrev pub confidence_values : List Confidence
confidence_values =
    Confidence.confirmed ∷ Confidence.likely ∷ Confidence.unknown ∷ Confidence.conflicting ∷ []

pub confidence_values-index :
    (a : Confidence) → get_elem_or confidence_values (confidence_index a) Confidence.confirmed ≡ a
confidence_values-index Confidence.confirmed = refl
confidence_values-index _ = refl

instance abbrev pub confidence_eq : Equality Confidence
confidence_eq =
    Index-eq confidence_index confidence_values Confidence.confirmed confidence_values-index

abbrev pub change_kind_index : TopologyChangeKind → ℕ
change_kind_index TopologyChangeKind.entity_added = 0
change_kind_index TopologyChangeKind.entity_removed = 1
change_kind_index TopologyChangeKind.entity_modified = 2
change_kind_index TopologyChangeKind.relationship_added = 3
change_kind_index TopologyChangeKind.relationship_removed = 4

abbrev pub change_kind_values : List TopologyChangeKind
change_kind_values =
    TopologyChangeKind.entity_added ∷ TopologyChangeKind.entity_removed
    ∷ TopologyChangeKind.entity_modified ∷ TopologyChangeKind.relationship_added
    ∷ TopologyChangeKind.relationship_removed ∷ []

pub change_kind_values-index :
    (a : TopologyChangeKind)
    → get_elem_or change_kind_values (change_kind_index a) TopologyChangeKind.entity_added ≡ a
change_kind_values-index TopologyChangeKind.entity_added = refl
change_kind_values-index _ = refl

instance abbrev pub change_kind_eq : Equality TopologyChangeKind
change_kind_eq =
    Index-eq change_kind_index change_kind_values TopologyChangeKind.entity_added
      change_kind_values-index
