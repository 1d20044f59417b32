-- ===== src/Workspace/Store.antt =====
-- app/src/renderer/state/workspaceStore.ts over the workspaces of all servers, with the two
-- stores that closing a panel goes to: app/src/renderer/state/panelStateStore.ts and the terminals.
pub mod Steps
pub mod Closing
mod Tests
use zvia.Prelude.{
  ℕ, String, Bool, true, false, Option, none, some, bind, get_or, is_some, ◌==◌, if◌then◌else◌,
}
use zvia.Prelude.Dict.{Dict, lookup, insert, remove, has}
use zvia.Terminals.{Sessions, close_all_for_panel}
use zvia.Workspace.{ToolId, Direction, Share}
use zvia.Workspace.Tools.{tool_eq}
use zvia.Workspace.Panels.{
  ServerWorkspace, empty_workspace, open_tool, focus_panel, close_panel_in, split_panel,
  set_split_layout, reorder_tabs,
}

-- app/src/renderer/state/panelStateStore.ts
pub data PanelDirtyKind : Type 0 where
  terminal files : PanelDirtyKind

pub record PanelDirtyState : Type 0 where
  pub kind : PanelDirtyKind
  pub session_count : Option ℕ

pub record PendingPanelClose : Type 0 where
  pub server_id : String
  pub panel_id : String

pub record Stores : Type 0 where
  pub workspaces : Dict ServerWorkspace
  pub pending_panel_close : Option PendingPanelClose
  pub dirty_panels : Dict PanelDirtyState
  pub sessions : Sessions

pub register_panel_dirty : String → Option PanelDirtyState → Stores → Stores
register_panel_dirty panel_id none s = record s { dirty_panels = remove panel_id s.dirty_panels }
register_panel_dirty panel_id (some state) s = record s {
  dirty_panels = insert panel_id state s.dirty_panels;
}

pub clear_panel_dirty : String → Stores → Stores
clear_panel_dirty panel_id s = register_panel_dirty panel_id none s

pub get_workspace : String → Stores → ServerWorkspace
get_workspace server_id s = get_or (lookup server_id s.workspaces) empty_workspace

-- What a method makes of a server's workspace, if there is one.
pub update_where :
    Option ServerWorkspace → String → (ServerWorkspace → ServerWorkspace) → Stores → Stores
update_where none server_id f s = s
update_where (some workspace) server_id f s = record s {
  workspaces = insert server_id (f workspace) s.workspaces;
}

pub update_workspace : String → (ServerWorkspace → ServerWorkspace) → Stores → Stores
update_workspace server_id f s = update_where (lookup server_id s.workspaces) server_id f s

pub open_tool_for : String → ToolId → String → Stores → Stores
open_tool_for server_id tool_id fresh s = record s {
  workspaces =
      insert server_id
        (open_tool tool_id fresh (get_or (lookup server_id s.workspaces) empty_workspace))
        s.workspaces;
}

pub tool_of : String → String → Stores → Option ToolId
tool_of server_id panel_id s =
    bind (lookup server_id s.workspaces)
      (λ workspace. bind (lookup panel_id workspace.panels) (λ panel. some panel.tool_id))

is_terminal : Option ToolId → Bool
is_terminal none = false
is_terminal (some tool_id) = tool_id == ToolId.terminal

-- the first half of `closePanel`
pub end_sessions : String → String → Stores → Stores
end_sessions server_id panel_id s =
    if is_terminal (tool_of server_id panel_id s)
    then record s { sessions = close_all_for_panel panel_id server_id s.sessions }
    else s

-- the second half, which is inside `set`
pub drop_panel : String → String → Stores → Stores
drop_panel server_id panel_id s =
    if is_some (tool_of server_id panel_id s)
    then update_workspace server_id (close_panel_in panel_id) (clear_panel_dirty panel_id s)
    else s

pub close_panel : String → String → Stores → Stores
close_panel server_id panel_id s = drop_panel server_id panel_id (end_sessions server_id panel_id s)

pub request_close_panel : String → String → Stores → Stores
request_close_panel server_id panel_id s =
    if has panel_id s.dirty_panels
    then record s {
      pending_panel_close = some (record { server_id = server_id; panel_id = panel_id });
    }
    else close_panel server_id panel_id s

pub cancel_close_panel : Stores → Stores
cancel_close_panel s = record s { pending_panel_close = none }

pub confirm_where : Option PendingPanelClose → Stores → Stores
confirm_where none s = s
confirm_where (some pending) s =
    close_panel pending.server_id pending.panel_id
      (clear_panel_dirty pending.panel_id (record s { pending_panel_close = none }))

pub confirm_close_panel : Stores → Stores
confirm_close_panel s = confirm_where s.pending_panel_close s

pub focus_panel_of : String → String → Stores → Stores
focus_panel_of server_id panel_id = update_workspace server_id (focus_panel panel_id)

pub split_panel_of : String → String → Direction → ToolId → String → String → Stores → Stores
split_panel_of server_id panel_id direction tool_id fresh split_id =
    update_workspace server_id (split_panel panel_id direction tool_id fresh split_id)

pub set_split_layout_of : String → String → Dict Share → Stores → Stores
set_split_layout_of server_id split_id layout =
    update_workspace server_id (set_split_layout split_id layout)

pub reorder_tabs_of : String → String → String → Stores → Stores
reorder_tabs_of server_id source target = update_workspace server_id (reorder_tabs source target)

-- The names that a run of the stores unfolds.
stores : Unit {0}
unfolding register_panel_dirty clear_panel_dirty get_workspace update_where update_workspace
    open_tool_for tool_of is_terminal end_sessions drop_panel close_panel request_close_panel
    cancel_close_panel confirm_where confirm_close_panel focus_panel_of split_panel_of
    set_split_layout_of reorder_tabs_of
stores = tt
