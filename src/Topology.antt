-- ===== src/Topology.antt =====
-- app/src/shared/topology.ts: the data of a topology snapshot, and the ids of its entities.
-- Optional fields are `Option`; `number` is ℕ; a `sourceRef` is a dictionary of scalars.
pub mod Enums
pub mod Ids
pub mod Samples
use zvia.Prelude.{ℕ, String, Bool, List, Option}
use zvia.Prelude.Dict.{Dict}

pub data EntityKind : Type 0 where
  deployment domain nginx_site ssl_certificate port process systemd_unit docker_container :
      EntityKind
  docker_compose_service file_path database runtime : EntityKind

pub data Confidence : Type 0 where
  confirmed likely unknown conflicting : Confidence

pub data HealthStatus : Type 0 where
  healthy degraded failed unknown discovering : HealthStatus

pub data RelationshipType : Type 0 where
  serves terminates_tls listens_on proxies_to serves_static : RelationshipType
  bound_to managed_by published_by member_of : RelationshipType

pub data EvidenceKind : Type 0 where
  directive command_output file_path pid_match inference : EvidenceKind

pub record EntityRef : Type 0 where
  pub kind : EntityKind
  pub id : String

pub record Evidence : Type 0 where
  pub source : String
  pub kind : EvidenceKind
  pub detail : String
  pub raw : Option String
  pub location : Option String
  pub observed_at : String

pub record Relationship : Type 0 where
  pub id : String
  pub from : EntityRef
  pub to : EntityRef
  pub type : RelationshipType
  pub confidence : Confidence
  pub evidence : List Evidence
  pub label : Option String

pub record DeploymentComponentStatus : Type 0 where
  pub ssl : Option HealthStatus
  pub nginx : Option HealthStatus
  pub backend : Option HealthStatus
  pub service : Option HealthStatus
  pub files : Option HealthStatus
  pub container : Option HealthStatus

pub record Deployment : Type 0 where
  pub id : String
  pub name : String
  pub health : HealthStatus
  pub entity_ids : List String
  pub entrypoints : List EntityRef
  pub stack_summary : String
  pub component_status : DeploymentComponentStatus

pub data TopologyInsightType : Type 0 where
  shared_backend shared_upstream shared_dependency : TopologyInsightType

pub record TopologyInsight : Type 0 where
  pub id : String
  pub type : TopologyInsightType
  pub deployment_ids : List String
  pub label : String
  pub confidence : Confidence
  pub evidence : List Evidence
  pub port_entity_ids : Option (List String)

pub data NavigateTool : Type 0 where
  nginx ssl ports processes services docker files deployments : NavigateTool

pub record TopologyNavigateHint : Type 0 where
  pub tool : NavigateTool
  pub config_path : Option String
  pub domain : Option String
  pub port : Option ℕ
  pub pid : Option ℕ
  pub unit : Option String
  pub container_id : Option String
  pub path : Option String
  pub deployment_id : Option String
  pub entity_id : Option String

-- string | number | boolean | null
pub data Scalar : Type 0 where
  text : String → Scalar
  number : ℕ → Scalar
  flag : Bool → Scalar
  null : Scalar

pub record TopologyEntity : Type 0 where
  pub id : String
  pub kind : EntityKind
  pub label : String
  pub status : HealthStatus
  pub source_ref : Option (Dict Scalar)
  pub navigate : Option TopologyNavigateHint

-- `scannedAt` and `observedAt` are texts; the server's id is one too.
pub record TopologySnapshot : Type 0 where
  pub server_id : String
  pub scanned_at : String
  pub scan_duration_ms : ℕ
  pub entities : Dict TopologyEntity
  pub relationships : List Relationship
  pub deployments : List Deployment
  pub insights : List TopologyInsight
  pub warnings : List String

pub data TopologyChangeKind : Type 0 where
  entity_added entity_removed entity_modified relationship_added relationship_removed :
      TopologyChangeKind

pub record TopologyEntityState : Type 0 where
  pub status : HealthStatus
  pub source_ref : Option (Dict Scalar)

pub record TopologyChangeRelationship : Type 0 where
  pub type : RelationshipType
  pub from : String
  pub to : String
  pub confidence : Confidence

pub record TopologyChange : Type 0 where
  pub kind : TopologyChangeKind
  pub entity_id : String
  pub kind_label : Option EntityKind
  pub label : Option String
  pub before : Option TopologyEntityState
  pub after : Option TopologyEntityState
  pub relationship : Option TopologyChangeRelationship
  pub deployment_ids : List String
