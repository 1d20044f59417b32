-- ===== src/Topology/Ids.antt =====
-- The entity ids of app/src/shared/topology.ts: a prefix for the kind, then what identifies it.
use Prim.Native.String.{◌++◌}
use zvia.Prelude.{ℕ, String}
use zvia.Prelude.Decimal.{show, lower}

unfoldable pub domain_entity_id : String → String
domain_entity_id domain = "domain:" ++ lower domain

unfoldable pub nginx_site_entity_id : String → ℕ → String
nginx_site_entity_id config_path start_line_number =
    "nginx:" ++ (config_path ++ (":" ++ show start_line_number))

unfoldable pub port_entity_id : String → String → ℕ → String
port_entity_id protocol address port =
    "port:" ++ (protocol ++ (":" ++ (address ++ (":" ++ show port))))

unfoldable pub process_entity_id : ℕ → String
process_entity_id pid = "process:" ++ show pid

unfoldable pub unit_entity_id : String → String
unit_entity_id unit = "unit:" ++ unit

unfoldable pub container_entity_id : String → String
container_entity_id id = "container:" ++ id

unfoldable pub compose_service_entity_id : String → String
compose_service_entity_id project = "compose:" ++ project

unfoldable pub ssl_cert_entity_id : String → String
ssl_cert_entity_id id = "ssl:" ++ id

unfoldable pub file_entity_id : String → String
file_entity_id path = "file:" ++ path

unfoldable pub deployment_entity_id : String → String
deployment_entity_id domain = "deployment:" ++ lower domain
