-- ===== src/Workspace/Panels.antt =====
-- app/src/renderer/state/workspaceStore.ts: the workspace of one server, and what each method of
-- the store makes of it. The ids that `generateId` makes are arguments.
pub mod Validity
pub mod Closing
pub mod Splits
pub mod Reorder
use zvia.Prelude.{
  ℕ, zero, suc, String, Bool, true, false, not, Option, none, some, List, [], ◌∷◌, ◌++◌, ◌==◌,
  string_eq, if◌then◌else◌, find, filter, get_last?, truthy,
}
use zvia.Prelude.Dict.{Dict, lookup, insert, remove, has, values}
use zvia.Workspace.{
  ToolId, WorkspacePanel, Direction, Share, LayoutNode, panel, split, cons, nil, is_panel_in_layout,
  ensure_panel_visible, remove_panel_from_layout, replace_in_node, update_node,
}
use zvia.Workspace.Tools.{tool_eq}

pub record ServerWorkspace : Type 0 where
  pub panels : Dict WorkspacePanel
  pub root : Option LayoutNode
  pub focused_panel_id : Option String
  pub tab_order : List String

abbrev pub empty_workspace : ServerWorkspace
empty_workspace = record { panels = []; root = none; focused_panel_id = none; tab_order = [] }

pub find_panel_by_tool : ServerWorkspace → ToolId → Option WorkspacePanel
find_panel_by_tool workspace tool_id =
    find (λ panel. panel.tool_id == tool_id) (values workspace.panels)

-- A panel is focused, and is all that is shown unless it is shown already.
pub focus_on : String → ServerWorkspace → ServerWorkspace
focus_on panel_id workspace = record workspace {
  focused_panel_id = some panel_id;
  root = some (ensure_panel_visible workspace.root panel_id);
}

pub add_panel : String → ToolId → ServerWorkspace → ServerWorkspace
add_panel fresh tool_id workspace = record {
  panels = insert fresh (record { id = fresh; tool_id = tool_id }) workspace.panels;
  root = some (panel fresh);
  focused_panel_id = some fresh;
  tab_order = workspace.tab_order ++ fresh ∷ [];
}

-- `openTool`
pub open_tool : ToolId → String → ServerWorkspace → ServerWorkspace
open_tool tool_id fresh workspace = elim (find_panel_by_tool workspace tool_id) [
  | some existing ↦ focus_on existing.id workspace
  | none ↦ add_panel fresh tool_id workspace
]

-- `focusPanel`
pub focus_panel : String → ServerWorkspace → ServerWorkspace
focus_panel panel_id workspace =
    if has panel_id workspace.panels then focus_on panel_id workspace else workspace

pub next_focus : String → List String → Option String → Option String
next_focus panel_id tab_order none = none
next_focus panel_id tab_order (some focused) =
    if focused == panel_id then get_last? tab_order else some focused

-- the layout, or the focused panel alone where the layout does not show it
pub show_focused : Option String → Option LayoutNode → Option LayoutNode
show_focused none root = root
show_focused (some focused) root =
    if is_panel_in_layout root focused then root else some (panel focused)

pub close_open : String → ServerWorkspace → ServerWorkspace
close_open panel_id workspace =
    let tab_order = filter (λ id. not (id == panel_id)) workspace.tab_order in
    let focused = next_focus panel_id tab_order workspace.focused_panel_id in
    record {
      panels = remove panel_id workspace.panels;
      root = show_focused (truthy focused) (remove_panel_from_layout workspace.root panel_id);
      focused_panel_id = focused;
      tab_order = tab_order;
    }

-- the second half of `closePanel`
pub close_panel_in : String → ServerWorkspace → ServerWorkspace
close_panel_in panel_id workspace =
    if has panel_id workspace.panels then close_open panel_id workspace else workspace

abbrev pub halves : String → Direction → String → String → LayoutNode
halves split_id direction panel_id fresh =
    split split_id direction (cons (panel panel_id) (cons (panel fresh) nil)) (
      insert fresh (record { total = 50; parts = 1 })
        (insert panel_id (record { total = 50; parts = 1 }) []))

-- Where the root is the panel itself, `replacePanelInLayout` gives the replacement too.
pub split_root : String → LayoutNode → LayoutNode → LayoutNode
split_root panel_id replacement (panel id) =
    if id == panel_id then replacement else replace_in_node (panel id) panel_id replacement
split_root panel_id replacement (split id direction children layout) =
    replace_in_node (split id direction children layout) panel_id replacement

pub split_open :
    String → Direction → ToolId → String → String → LayoutNode → ServerWorkspace → ServerWorkspace
split_open panel_id direction tool_id fresh split_id root workspace = record {
  panels = insert fresh (record { id = fresh; tool_id = tool_id }) workspace.panels;
  root = some (split_root panel_id (halves split_id direction panel_id fresh) root);
  focused_panel_id = some fresh;
  tab_order = workspace.tab_order ++ fresh ∷ [];
}

-- What `splitPanel` and `setSplitLayout` do with the root, if there is one.
pub split_where :
    Option LayoutNode
    → String
    → Direction
    → ToolId
    → String
    → String
    → ServerWorkspace
    → ServerWorkspace
split_where none panel_id direction tool_id fresh split_id workspace = workspace
split_where (some root) panel_id direction tool_id fresh split_id workspace =
    if has panel_id workspace.panels
    then split_open panel_id direction tool_id fresh split_id root workspace
    else workspace

pub split_panel : String → Direction → ToolId → String → String → ServerWorkspace → ServerWorkspace
split_panel panel_id direction tool_id fresh split_id workspace =
    split_where workspace.root panel_id direction tool_id fresh split_id workspace

pub layout_where : Option LayoutNode → String → Dict Share → ServerWorkspace → ServerWorkspace
layout_where none split_id layout workspace = workspace
layout_where (some root) split_id layout workspace = record workspace {
  root = some (update_node split_id layout root);
}

pub set_split_layout : String → Dict Share → ServerWorkspace → ServerWorkspace
set_split_layout split_id layout workspace = layout_where workspace.root split_id layout workspace

pub index_of : String → List String → Option ℕ
index_of id [] = none
index_of id (x ∷ rest) =
    let later = index_of id rest in
    if x == id then some 0 else elim later [ none ↦ none | some n ↦ some (suc n) ]

-- `splice(index, 1)`
pub remove_at : ℕ → List String → List String
remove_at n [] = []
remove_at zero (x ∷ rest) = rest
remove_at (suc n) (x ∷ rest) = x ∷ remove_at n rest

-- `splice(index, 0, id)`
pub insert_at : ℕ → String → List String → List String
insert_at zero id l = id ∷ l
insert_at (suc n) id [] = id ∷ []
insert_at (suc n) id (x ∷ rest) = x ∷ insert_at n id rest

pub move_tab : String → Option ℕ → Option ℕ → List String → List String
move_tab source none to tab_order = tab_order
move_tab source (some from) none tab_order = tab_order
move_tab source (some from) (some to) tab_order = insert_at to source (remove_at from tab_order)

-- `reorderTabs`
pub reorder_tabs : String → String → ServerWorkspace → ServerWorkspace
reorder_tabs source target workspace = if source == target then workspace else record workspace {
  tab_order =
      move_tab source (index_of source workspace.tab_order) (index_of target workspace.tab_order)
        workspace.tab_order;
}

-- The names that a run of the methods unfolds.
unfoldable pub methods : Unit {0}
unfolding find_panel_by_tool focus_on add_panel open_tool focus_panel next_focus show_focused
    close_open close_panel_in split_root split_open split_where split_panel layout_where
    set_split_layout index_of remove_at insert_at move_tab reorder_tabs lookup insert remove find
    filter
methods = tt
