-- ===== src/Workspace.antt =====
-- app/src/renderer/state/workspaceStore.ts: the layout tree of a server's panels.
-- A share of a split is a quotient of numbers that is not evaluated.
pub mod Removal
pub mod Splitting
pub mod Tools
pub mod Panels
pub mod Store
use zvia.Prelude.{
  ℕ, String, Bool, true, false, ◌||◌, Option, none, some, List, [], ◌∷◌, ◌++◌, ◌==◌, string_eq,
  if◌then◌else◌, length,
}
use zvia.Prelude.Dict.{Dict, insert}

-- app/src/renderer/lib/tools.ts
pub data ToolId : Type 0 where
  overview stats logs terminal files docker ports nginx ssl services : ToolId
  cron users processes packages deployments : ToolId

pub record WorkspacePanel : Type 0 where
  pub id : String
  pub tool_id : ToolId

pub data Direction : Type 0 where
  horizontal vertical : Direction

pub record Share : Type 0 where
  pub total : ℕ
  pub parts : ℕ

mutual
  pub data LayoutNode : Type 0 where
    panel : String → LayoutNode
    split : String → Direction → Nodes → Dict Share → LayoutNode

  pub data Nodes : Type 0 where
    nil : Nodes
    cons : LayoutNode → Nodes → Nodes

unfoldable mutual
  -- `isPanelInLayout`
  pub is_panel_in_node : LayoutNode → String → Bool
  is_panel_in_node (panel id) panel_id = id == panel_id
  is_panel_in_node (split id direction children layout) panel_id =
      is_panel_in_nodes children panel_id

  pub is_panel_in_nodes : Nodes → String → Bool
  is_panel_in_nodes nil panel_id = false
  is_panel_in_nodes (cons child rest) panel_id =
      is_panel_in_node child panel_id || is_panel_in_nodes rest panel_id

pub is_panel_in_layout : Option LayoutNode → String → Bool
is_panel_in_layout none panel_id = false
is_panel_in_layout (some node) panel_id = is_panel_in_node node panel_id

unfoldable mutual
  -- `collectPanelIdsInLayout`
  pub collect_in_node : LayoutNode → List String
  collect_in_node (panel id) = id ∷ []
  collect_in_node (split id direction children layout) = collect_in_nodes children

  pub collect_in_nodes : Nodes → List String
  collect_in_nodes nil = []
  collect_in_nodes (cons child rest) = collect_in_node child ++ collect_in_nodes rest

abbrev pub collect_panel_ids_in_layout : Option LayoutNode → List String
collect_panel_ids_in_layout none = []
collect_panel_ids_in_layout (some node) = collect_in_node node

pub ensure_panel_visible : Option LayoutNode → String → LayoutNode
ensure_panel_visible none panel_id = panel panel_id
ensure_panel_visible (some root) panel_id =
    if is_panel_in_node root panel_id then root else panel panel_id

-- the panels among the children
panels_among : Nodes → List String
panels_among nil = []
panels_among (cons (panel id) rest) = id ∷ panels_among rest
panels_among (cons (split id direction children layout) rest) = panels_among rest

-- the panels among the children, and among the children of the splits there
pub child_ids : Nodes → List String
child_ids nil = []
child_ids (cons (panel id) rest) = id ∷ child_ids rest
child_ids (cons (split id direction children layout) rest) = panels_among children ++ child_ids rest

pub set_shares : List String → Share → Dict Share → Dict Share
set_shares [] share layout = layout
set_shares (id ∷ rest) share layout = set_shares rest share (insert id share layout)

-- What is left of a split when children are gone.
pub rebuild : String → Direction → Nodes → Option LayoutNode
rebuild id direction nil = none
rebuild id direction (cons child nil) = some child
rebuild id direction (cons child (cons next rest)) =
    let ids = child_ids (cons child (cons next rest)) in
    some (
      split id direction (cons child (cons next rest))
        (set_shares ids (record { total = 100; parts = length ids }) []))

cons_some : Option LayoutNode → Nodes → Nodes
cons_some none rest = rest
cons_some (some child) rest = cons child rest

mutual
  unfolding rebuild cons_some

  -- `removePanelFromLayout`
  pub remove_from_node : LayoutNode → String → Option LayoutNode
  remove_from_node (panel id) panel_id = if id == panel_id then none else some (panel id)
  remove_from_node (split id direction children layout) panel_id =
      rebuild id direction (remove_from_nodes children panel_id)

  pub remove_from_nodes : Nodes → String → Nodes
  remove_from_nodes nil panel_id = nil
  remove_from_nodes (cons child rest) panel_id =
      cons_some (remove_from_node child panel_id) (remove_from_nodes rest panel_id)

pub remove_panel_from_layout : Option LayoutNode → String → Option LayoutNode
remove_panel_from_layout none panel_id = none
remove_panel_from_layout (some node) panel_id = remove_from_node node panel_id

mutual
  -- `replacePanelInLayout`
  pub replace_in_node : LayoutNode → String → LayoutNode → LayoutNode
  replace_in_node (panel id) panel_id replacement = if id == panel_id then replacement else panel id
  replace_in_node (split id direction children layout) panel_id replacement =
      split id direction (replace_in_nodes children panel_id replacement) layout

  pub replace_in_nodes : Nodes → String → LayoutNode → Nodes
  replace_in_nodes nil panel_id replacement = nil
  replace_in_nodes (cons child rest) panel_id replacement =
      cons (replace_in_node child panel_id replacement) (replace_in_nodes rest panel_id replacement)

mutual
  -- `updateLayout` of `setSplitLayout`
  pub update_node : String → Dict Share → LayoutNode → LayoutNode
  update_node split_id layout (panel id) = panel id
  update_node split_id layout (split id direction children old) =
      let updated = update_nodes split_id layout children in
      if id == split_id then split id direction children layout else split id direction updated old

  pub update_nodes : String → Dict Share → Nodes → Nodes
  update_nodes split_id layout nil = nil
  update_nodes split_id layout (cons child rest) =
      cons (update_node split_id layout child) (update_nodes split_id layout rest)

-- The names that a run on layouts unfolds.
unfoldable pub layouts : Unit {0}
unfolding is_panel_in_node is_panel_in_layout collect_in_node ensure_panel_visible panels_among
    child_ids set_shares rebuild cons_some remove_from_node remove_panel_from_layout replace_in_node
    update_node insert
layouts = tt
