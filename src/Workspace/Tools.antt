-- ===== src/Workspace/Tools.antt =====
-- `===` on the tools of app/src/renderer/lib/tools.ts.
use zvia.Prelude.{ℕ, ◌≡◌, refl, List, [], ◌∷◌}
use zvia.Prelude.Tests.{Equality}
use zvia.Prelude.Lists.{get_elem_or}
use zvia.Topology.Enums.{Index-eq}
use zvia.Workspace.{ToolId}

abbrev tool_index : ToolId → ℕ
tool_index ToolId.overview = 0
tool_index ToolId.stats = 1
tool_index ToolId.logs = 2
tool_index ToolId.terminal = 3
tool_index ToolId.files = 4
tool_index ToolId.docker = 5
tool_index ToolId.ports = 6
tool_index ToolId.nginx = 7
tool_index ToolId.ssl = 8
tool_index ToolId.services = 9
tool_index ToolId.cron = 10
tool_index ToolId.users = 11
tool_index ToolId.processes = 12
tool_index ToolId.packages = 13
tool_index ToolId.deployments = 14

abbrev tool_values : List ToolId
tool_values =
    ToolId.overview ∷ ToolId.stats ∷ ToolId.logs ∷ ToolId.terminal ∷ ToolId.files ∷ ToolId.docker
    ∷ ToolId.ports ∷ ToolId.nginx ∷ ToolId.ssl ∷ ToolId.services ∷ ToolId.cron ∷ ToolId.users
    ∷ ToolId.processes ∷ ToolId.packages ∷ ToolId.deployments ∷ []

pub tool_values-index : (a : ToolId) → get_elem_or tool_values (tool_index a) ToolId.overview ≡ a
tool_values-index ToolId.overview = refl
tool_values-index _ = refl

instance abbrev pub tool_eq : Equality ToolId
tool_eq = Index-eq tool_index tool_values ToolId.overview tool_values-index
