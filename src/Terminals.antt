-- ===== src/Terminals.antt =====
-- app/src/renderer/state/terminalSessionStore.ts: the terminal tabs of each panel.
-- A new tab's id is an argument. What is closed through `window.zvia.terminal.close` and
-- `disposeTerminalInstance`, which are called one after the other, is kept in the order of calls.
pub mod Invariant
pub mod Tests
use Prim.Native.String.{◌++◌ as concat}
use zvia.Prelude.{
  ℕ, ◌+◌, String, Bool, true, false, not, Option, none, some, List, [], ◌∷◌, ◌++◌, map, ◌==◌,
  string_eq, if◌then◌else◌, length, any, filter, get_last?, get_or, bind,
}
use zvia.Prelude.Decimal.{show}
use zvia.Prelude.Dict.{Dict, lookup, insert, remove}

pub record TerminalTab : Type 0 where
  pub id : String
  pub title : String
  pub ended : Bool

pub record PanelTerminalState : Type 0 where
  pub tabs : List TerminalTab
  pub active_tab_id : Option String

pub record ClosedSession : Type 0 where
  pub server_id : String
  pub session_id : String

pub record Sessions : Type 0 where
  pub panels : Dict PanelTerminalState
  pub closed : List ClosedSession

abbrev pub empty_panel_state : PanelTerminalState
empty_panel_state = record { tabs = []; active_tab_id = none }

unfoldable pub create_tab : String → ℕ → TerminalTab
create_tab id index = record { id = id; title = concat "Terminal " (show index); ended = false }

abbrev pub get_panel_state : String → Sessions → PanelTerminalState
get_panel_state panel_id s = get_or (lookup panel_id s.panels) empty_panel_state

pub add_tab : String → String → Sessions → Sessions
add_tab panel_id fresh s =
    let current = get_panel_state panel_id s in
    record s {
      panels =
          insert panel_id
            (record {
              tabs = current.tabs ++ create_tab fresh (length current.tabs + 1) ∷ [];
              active_tab_id = some fresh;
            })
            s.panels;
    }

abbrev pub without : String → List TerminalTab → List TerminalTab
without tab_id tabs = filter (λ tab. not (tab.id == tab_id)) tabs

-- the tab that is active when `tab_id` is gone and these are left
abbrev pub next_active : String → List TerminalTab → Option String → Option String
next_active tab_id left none = none
next_active tab_id left (some active) =
    if active == tab_id then bind (get_last? left) (λ tab. some tab.id) else some active

pub keep_tabs :
    String → List TerminalTab → Option String → Dict PanelTerminalState → Dict PanelTerminalState
keep_tabs panel_id [] active panels = remove panel_id panels
keep_tabs panel_id (tab ∷ tabs) active panels =
    insert panel_id (record { tabs = tab ∷ tabs; active_tab_id = active }) panels

pub close_tab : String → String → String → Sessions → Sessions
close_tab panel_id tab_id server_id s = record {
  panels = elim (lookup panel_id s.panels) [
    | none ↦ s.panels
    | some current ↦
        keep_tabs panel_id (without tab_id current.tabs)
          (next_active tab_id (without tab_id current.tabs) current.active_tab_id) s.panels
  ];
  closed = s.closed ++ (record { server_id = server_id; session_id = tab_id }) ∷ [];
}

abbrev pub has_tab : String → List TerminalTab → Bool
has_tab tab_id tabs = any (λ tab. tab.id == tab_id) tabs

pub set_active_tab : String → String → Sessions → Sessions
set_active_tab panel_id tab_id s = elim (lookup panel_id s.panels) [
  | none ↦ s
  | some current ↦
      if has_tab tab_id current.tabs
      then record s {
        panels = insert panel_id (record current { active_tab_id = some tab_id }) s.panels;
      }
      else s
]

unfoldable pub end_tab : String → TerminalTab → TerminalTab
end_tab tab_id tab =
    if tab.id == tab_id
    then record tab { title = concat tab.title " (ended)"; ended = true }
    else tab

pub mark_ended : String → String → Sessions → Sessions
mark_ended panel_id tab_id s = elim (lookup panel_id s.panels) [
  | none ↦ s
  | some current ↦ record s {
    panels = insert panel_id (record current { tabs = map (end_tab tab_id) current.tabs }) s.panels;
  }
]

pub close_tabs : String → List TerminalTab → List ClosedSession
close_tabs server_id [] = []
close_tabs server_id (tab ∷ rest) =
    (record { server_id = server_id; session_id = tab.id }) ∷ close_tabs server_id rest

pub close_all_for_panel : String → String → Sessions → Sessions
unfolding close_tabs
close_all_for_panel panel_id server_id s = elim (lookup panel_id s.panels) [
  | none ↦ s
  | some current ↦ record {
    panels = remove panel_id s.panels;
    closed = s.closed ++ close_tabs server_id current.tabs;
  }
]

-- The names that a run of the store unfolds.
unfoldable pub terminal_methods : Unit {0}
unfolding add_tab keep_tabs close_tab set_active_tab mark_ended close_tabs close_all_for_panel
    create_tab end_tab lookup insert remove any filter show
terminal_methods = tt
