-- ===== src/Health.antt =====
-- app/src/main/services/deployments/health.ts: the health of entities and deployments.
-- The entities are one shared dictionary; `entity.status = s` is an update of the entry under
-- the entity's id. `Object.values(entities)` visits the entries in their order.
pub mod Worst
pub mod Apply
pub mod Failures
pub mod Containers
pub mod Deployments
pub mod Enrich
mod Tests
use Prim.Native.String.{◌++◌ as concat}
use zvia.Prelude.{
  ℕ, String, Bool, true, false, not, ◌&&◌, ◌||◌, Option, none, some, List, [], ◌∷◌, ◌++◌, map, ◌==◌,
  if◌then◌else◌, string_eq, nat_eq, ltb, any, all, filter, find, contains, bind, is_some, get_or,
  head?,
}
use zvia.Prelude.Dict.{Dict, lookup, update, has}
use zvia.Topology.{
  EntityKind, Confidence, HealthStatus, RelationshipType, EntityRef, Scalar, Relationship,
  Deployment, DeploymentComponentStatus, TopologyEntity,
}
use zvia.Topology.Enums.{kind_eq, status_eq, type_eq, confidence_eq}

-- PortListener (app/src/shared/ports.ts), as far as topology discovery reads it
pub record PortListener : Type 0 where
  pub protocol : String
  pub address : String
  pub port : ℕ
  pub pid : Option ℕ
  pub process : String
  pub unit : Option String
  pub container_id : Option String

pub health_rank : HealthStatus → ℕ
health_rank HealthStatus.failed = 4
health_rank HealthStatus.degraded = 3
health_rank HealthStatus.unknown = 2
health_rank HealthStatus.discovering = 1
health_rank HealthStatus.healthy = 0

pub worse : HealthStatus → HealthStatus → HealthStatus
worse worst status = if ltb (health_rank worst) (health_rank status) then status else worst

pub worst_from : HealthStatus → List HealthStatus → HealthStatus
worst_from worst [] = worst
worst_from worst (status ∷ rest) = worst_from (worse worst status) rest

pub worst_status : List HealthStatus → HealthStatus
worst_status statuses = worst_from HealthStatus.healthy statuses

pub entity_status : Dict TopologyEntity → String → HealthStatus
entity_status entities id =
    get_or (bind (lookup id entities) (λ e. some e.status)) HealthStatus.unknown

abbrev is_loopback : String → Bool
is_loopback a = a == "127.0.0.1" || a == "::1" || a == "0.0.0.0" || a == "*"

-- An absent or empty target address is falsy.
pub addresses_compatible : Option String → String → Bool
addresses_compatible none listener_address = is_loopback listener_address
addresses_compatible (some target) listener_address =
    if target == "" || target == "127.0.0.1" || target == "localhost"
    then is_loopback listener_address
    else (listener_address == target || listener_address == "0.0.0.0" || listener_address == "*")

abbrev pub as_text : Option Scalar → Option String
as_text none = none
as_text (some (Scalar.text s)) = some s
as_text (some (Scalar.number n)) = none
as_text (some (Scalar.flag b)) = none
as_text (some Scalar.null) = none

abbrev pub as_number : Option Scalar → Option ℕ
as_number none = none
as_number (some (Scalar.text s)) = none
as_number (some (Scalar.number n)) = some n
as_number (some (Scalar.flag b)) = none
as_number (some Scalar.null) = none

-- `entity.sourceRef?.key`
abbrev pub source_field : String → TopologyEntity → Option Scalar
source_field key entity = bind entity.source_ref (lookup key)

abbrev has_text : Option Scalar → String → Bool
has_text (some (Scalar.text s)) t = s == t
has_text _ t = false

listens_at : Option String → ℕ → PortListener → Bool
listens_at target port listener =
    is_some listener.pid && listener.port == port && addresses_compatible target listener.address

active_at : Option ℕ → Option String → List PortListener → Bool
unfolding listens_at
active_at none target listeners = false
active_at (some port) target listeners = any (listens_at target port) listeners

pub has_active_listener : TopologyEntity → List PortListener → Bool
has_active_listener port_entity listeners =
    active_at (as_number (source_field "port" port_entity))
      (as_text (source_field "address" port_entity)) listeners

pub set_status : HealthStatus → TopologyEntity → TopologyEntity
set_status status entity = record entity { status = status }

-- the inner loop of `syncEntrypointEntityHealth`, for one deployment
pub sync_entrypoints : HealthStatus → List EntityRef → Dict TopologyEntity → Dict TopologyEntity
sync_entrypoints status [] entities = entities
sync_entrypoints status (entrypoint ∷ rest) entities =
    sync_entrypoints status rest (update entrypoint.id (set_status status) entities)

pub sync_entrypoint_entity_health : List Deployment → Dict TopologyEntity → Dict TopologyEntity
sync_entrypoint_entity_health [] entities = entities
sync_entrypoint_entity_health (d ∷ rest) entities =
    sync_entrypoint_entity_health rest (sync_entrypoints d.health d.entrypoints entities)

-- A port that a site proxies to fails when nothing listens on it.
pub fail_unheard : List PortListener → TopologyEntity → TopologyEntity
fail_unheard listeners entity =
    if entity.kind == EntityKind.port && not (has_active_listener entity listeners)
    then set_status HealthStatus.failed entity
    else entity

pub pass_listeners :
    List PortListener → List Relationship → Dict TopologyEntity → Dict TopologyEntity
pass_listeners listeners [] entities = entities
pass_listeners listeners (rel ∷ rest) entities = pass_listeners listeners rest (
    if not (rel.type == RelationshipType.proxies_to) || rel.confidence == Confidence.conflicting
    then entities
    else update rel.to.id (fail_unheard listeners) entities)

-- The second loop's body, for one entity.
pub fail_reported : TopologyEntity → TopologyEntity
fail_reported entity =
    if (entity.kind == EntityKind.systemd_unit
        && has_text (source_field "activeState" entity) "failed")
      || (entity.kind == EntityKind.docker_container
          && has_text (source_field "state" entity) "exited")
    then set_status HealthStatus.failed entity
    else entity

pub pass_reported : Dict TopologyEntity → Dict TopologyEntity
pass_reported [] = []
pass_reported ((id, entity) ∷ rest) = (id, fail_reported entity) ∷ pass_reported rest

abbrev is_failed_kind : EntityKind → Option TopologyEntity → Bool
is_failed_kind kind none = false
is_failed_kind kind (some entity) = entity.kind == kind && entity.status == HealthStatus.failed

pub fail_downstream : TopologyEntity → TopologyEntity
fail_downstream entity =
    if entity.status == HealthStatus.healthy || entity.status == HealthStatus.unknown
    then set_status HealthStatus.failed entity
    else entity

pub pass_downstream : List Relationship → Dict TopologyEntity → Dict TopologyEntity
pass_downstream [] entities = entities
pass_downstream (rel ∷ rest) entities = pass_downstream rest (
    if (rel.type == RelationshipType.published_by || rel.type == RelationshipType.bound_to)
      && is_failed_kind EntityKind.port (lookup rel.from.id entities)
    then update rel.to.id fail_downstream entities
    else entities)

pub fail_port : TopologyEntity → TopologyEntity
fail_port entity =
    if entity.kind == EntityKind.port && not (entity.status == HealthStatus.failed)
    then set_status HealthStatus.failed entity
    else entity

pub pass_containers : List Relationship → Dict TopologyEntity → Dict TopologyEntity
pass_containers [] entities = entities
pass_containers (rel ∷ rest) entities = pass_containers rest (
    if rel.type == RelationshipType.published_by
      && is_failed_kind EntityKind.docker_container (lookup rel.to.id entities)
    then update rel.from.id fail_port entities
    else entities)

pub apply_entity_health :
    Dict TopologyEntity → List Relationship → List PortListener → Dict TopologyEntity
apply_entity_health entities relationships listeners = pass_containers relationships (
    pass_downstream relationships (pass_reported (pass_listeners listeners relationships entities)))

-- The names that a run of the health pass unfolds.
health : Unit {0}
unfolding health_rank worse worst_from worst_status entity_status addresses_compatible active_at
    has_active_listener set_status sync_entrypoints sync_entrypoint_entity_health fail_unheard
    pass_listeners fail_reported pass_reported fail_downstream pass_downstream fail_port
    pass_containers apply_entity_health lookup update any
health = tt
