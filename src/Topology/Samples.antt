-- ===== src/Topology/Samples.antt =====
-- A small server for the tests: nginx serves a domain and proxies to a container's port, and a
-- process runs beside it.
use zvia.Prelude.{String, none, some, List, [], ◌∷◌}
use zvia.Prelude.Dict.{Dict}
use zvia.Topology.{
  EntityKind, Confidence, HealthStatus, RelationshipType, EntityRef, Relationship, Deployment,
  Scalar, TopologyEntity, TopologySnapshot,
}

abbrev pub entity : String → EntityKind → HealthStatus → Dict Scalar → TopologyEntity
entity id kind status source = record {
  id = id;
  kind = kind;
  label = id;
  status = status;
  source_ref = some source;
  navigate = none;
}

abbrev pub link : RelationshipType → EntityRef → EntityRef → String → Relationship
link type from to id = record {
  id = id;
  from = from;
  to = to;
  type = type;
  confidence = Confidence.confirmed;
  evidence = [];
  label = none;
}

abbrev pub at : EntityKind → String → EntityRef
at kind id = record { kind = kind; id = id }

abbrev pub domain_ref : EntityRef
domain_ref = at EntityKind.domain "domain:a.com"

abbrev pub site_ref : EntityRef
site_ref = at EntityKind.nginx_site "nginx:/etc/nginx/a:1"

abbrev pub port_ref : EntityRef
port_ref = at EntityKind.port "port:tcp:127.0.0.1:3000"

abbrev pub container_ref : EntityRef
container_ref = at EntityKind.docker_container "container:c1"

abbrev pub port_entity : HealthStatus → TopologyEntity
port_entity status =
    entity port_ref.id EntityKind.port status
      (("address", Scalar.text "127.0.0.1") ∷ ("port", Scalar.number 3000) ∷ [])

abbrev pub container_entity : HealthStatus → String → TopologyEntity
container_entity status state =
    entity container_ref.id EntityKind.docker_container status (("state", Scalar.text state) ∷ [])

abbrev pub process_entity : String → TopologyEntity
process_entity id =
    entity id EntityKind.process HealthStatus.healthy (("comm", Scalar.text "node") ∷ [])

abbrev pub entities : Dict TopologyEntity
entities =
    (domain_ref.id, entity domain_ref.id EntityKind.domain HealthStatus.healthy [])
    ∷ (site_ref.id, entity site_ref.id EntityKind.nginx_site HealthStatus.healthy [])
    ∷ (port_ref.id, port_entity HealthStatus.healthy)
    ∷ (container_ref.id, container_entity HealthStatus.healthy "exited")
    ∷ ("process:7", process_entity "process:7")
    ∷ []

abbrev pub serves : Relationship
serves = link RelationshipType.serves domain_ref site_ref "rel:serves"

abbrev pub proxies : Relationship
proxies = link RelationshipType.proxies_to site_ref port_ref "rel:proxies"

abbrev pub publishes : Relationship
publishes = link RelationshipType.published_by port_ref container_ref "rel:published"

abbrev pub relationships : List Relationship
relationships = serves ∷ proxies ∷ publishes ∷ []

abbrev pub site_deployment : Deployment
site_deployment = record {
  id = "deployment:a.com";
  name = "a.com";
  health = HealthStatus.unknown;
  entity_ids = domain_ref.id ∷ site_ref.id ∷ port_ref.id ∷ container_ref.id ∷ [];
  entrypoints = domain_ref ∷ [];
  stack_summary = "";
  component_status = record {
    ssl = none;
    nginx = none;
    backend = none;
    service = none;
    files = none;
    container = none;
  };
}

abbrev pub snapshot : String → Dict TopologyEntity → List Relationship → TopologySnapshot
snapshot scanned_at entities relationships = record {
  server_id = "s1";
  scanned_at = scanned_at;
  scan_duration_ms = 5;
  entities = entities;
  relationships = relationships;
  deployments = site_deployment ∷ [];
  insights = [];
  warnings = [];
}

abbrev pub before : TopologySnapshot
before = snapshot "t1" entities relationships

-- The container is gone with its link, and the process has restarted.
abbrev pub after : TopologySnapshot
after =
    snapshot "t2"
      ((domain_ref.id, entity domain_ref.id EntityKind.domain HealthStatus.healthy [])
        ∷ (site_ref.id, entity site_ref.id EntityKind.nginx_site HealthStatus.healthy [])
        ∷ (port_ref.id, port_entity HealthStatus.failed)
        ∷ ("process:9", process_entity "process:9")
        ∷ [])
      (serves ∷ proxies ∷ [])
