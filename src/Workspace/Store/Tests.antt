-- ===== src/Workspace/Store/Tests.antt =====
-- Tests of the workspace, and its theorems at a concrete input.
use zvia.Prelude.{
  String, Option, ◌≡◌, refl, arith, false, true, none, some, List, [], ◌∷◌, string_eq, contains,
}
use zvia.Prelude.Dict.{lookup, keys, has}
use zvia.Terminals.Invariant.{empty-AllSound}
use zvia.Terminals.{terminal_methods}
use zvia.Workspace.{
  layouts, ToolId, Direction, LayoutNode, panel, split, cons, nil, collect_panel_ids_in_layout,
  remove_panel_from_layout,
}
use zvia.Workspace.Removal.{others}
use zvia.Workspace.Panels.{methods, ServerWorkspace, split_panel, index_of, reorder_tabs}
use zvia.Workspace.Panels.Validity.{IsValid}
use zvia.Workspace.Panels.Splits.{split_panel-shows}
use zvia.Workspace.Panels.Reorder.{reorder_tabs_lem}
use zvia.Workspace.Store.{
  stores, Stores, PanelDirtyKind, register_panel_dirty, get_workspace, open_tool_for,
  split_panel_of, request_close_panel, confirm_close_panel,
}
use zvia.Workspace.Store.Steps.{AllValid, opens, Run, here, next, Run-AllValid}
use zvia.Workspace.Store.Closing.{request_close_panel_lem}

abbrev start : Stores
start = record {
  workspaces = [];
  pending_panel_close = none;
  dirty_panels = [];
  sessions = record { panels = []; closed = [] };
}

start-AllValid : AllValid start
unfolding lookup
start-AllValid = record {
  workspaces = λ k w h. absurd (ground arith);
  sessions = empty-AllSound [];
}

abbrev opened : Stores
opened = open_tool_for "s1" ToolId.files "p2" (open_tool_for "s1" ToolId.terminal "p1" start)

abbrev after_split : Stores
after_split = split_panel_of "s1" "p1" Direction.horizontal ToolId.terminal "p3" "d1" opened

-- The hidden panel is split into one that is focused and not shown.
hidden_split_test : collect_panel_ids_in_layout (get_workspace "s1" after_split).root ≡ "p2" ∷ []
unfolding stores methods layouts terminal_methods
hidden_split_test = refl

hidden_focus_test : (get_workspace "s1" after_split).focused_panel_id ≡ some "p3"
unfolding stores methods layouts terminal_methods
hidden_focus_test = refl

abbrev layout_keys : Option LayoutNode → List String
layout_keys none = []
layout_keys (some (panel id)) = []
layout_keys (some (split id direction children layout)) = keys layout

-- The group of the outer split has the panels `a` and `d3`, but its shares are for `a`, `c` and `d`.
shares_test :
    layout_keys (
      remove_panel_from_layout
        (some (
          split "d1" Direction.horizontal
            (cons (panel "a") (
              cons
                (split "d2" Direction.vertical
                  (cons (panel "b") (
                    cons
                      (split "d3" Direction.horizontal (cons (panel "c") (cons (panel "d") nil)) [])
                      nil))
                  [])
                nil))
            []))
        "b")
    ≡ "a" ∷ "c" ∷ "d" ∷ []
unfolding layouts
shares_test = refl

p1_new : has "p1" (get_workspace "s1" start).panels ≡ false
unfolding stores methods
p1_new = refl

p2_new :
    has "p2" (get_workspace "s1" (open_tool_for "s1" ToolId.terminal "p1" start)).panels ≡ false
unfolding stores methods layouts
p2_new = refl

p3_new : has "p3" (get_workspace "s1" opened).panels ≡ false
unfolding stores methods layouts
p3_new = refl

opening : Run start opened
opening =
    next (next here (opens "s1" ToolId.terminal "p1" p1_new refl))
      (opens "s1" ToolId.files "p2" p2_new refl)

Run-AllValid_example : AllValid opened
Run-AllValid_example = Run-AllValid opening start-AllValid

found : lookup "s1" opened.workspaces ≡ some (get_workspace "s1" opened)
unfolding stores methods layouts
found = refl

opened-IsValid : IsValid (get_workspace "s1" opened)
opened-IsValid =
    (Run-AllValid opening start-AllValid).workspaces "s1" (get_workspace "s1" opened) found

p1_open : has "p1" (get_workspace "s1" opened).panels ≡ true
unfolding stores methods layouts
p1_open = refl

abbrev split_hidden : ServerWorkspace
split_hidden =
    split_panel "p1" Direction.horizontal ToolId.terminal "p3" "d1" (get_workspace "s1" opened)

split_panel-shows_example :
    (split_hidden.focused_panel_id ≡ some "p3")
    × (contains "p3" (collect_panel_ids_in_layout split_hidden.root)
        ≡ contains "p1" (collect_panel_ids_in_layout (get_workspace "s1" opened).root))
split_panel-shows_example =
    split_panel-shows "p1" "p3" "d1" Direction.horizontal ToolId.terminal
      (get_workspace "s1" opened) p3_new refl opened-IsValid p1_open

place_1 : index_of "p1" (get_workspace "s1" opened).tab_order ≡ some 0
unfolding stores methods layouts
place_1 = refl

place_2 : index_of "p2" (get_workspace "s1" opened).tab_order ≡ some 1
unfolding stores methods layouts
place_2 = refl

reorder_tabs_lem_example :
    (others "p1" (reorder_tabs "p1" "p2" (get_workspace "s1" opened)).tab_order
      ≡ others "p1" (get_workspace "s1" opened).tab_order)
    × (index_of "p1" (reorder_tabs "p1" "p2" (get_workspace "s1" opened)).tab_order ≡ some 1)
reorder_tabs_lem_example =
    reorder_tabs_lem "p1" "p2" (get_workspace "s1" opened) 0 1 opened-IsValid refl place_1 place_2

abbrev dirty : Stores
dirty =
    register_panel_dirty "p1" (some (record { kind = PanelDirtyKind.files; session_count = none }))
      opened

p1_dirty : has "p1" dirty.dirty_panels ≡ true
unfolding stores methods
p1_dirty = refl

request_close_panel_lem_example :
    ((request_close_panel "s1" "p1" dirty).workspaces ≡ dirty.workspaces)
    × ((request_close_panel "s1" "p1" dirty).sessions ≡ dirty.sessions)
    × (has "p1"
          (get_workspace "s1" (confirm_close_panel (request_close_panel "s1" "p1" dirty))).panels
        ≡ false)
request_close_panel_lem_example = request_close_panel_lem "s1" "p1" dirty p1_dirty
