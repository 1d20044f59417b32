-- ===== src/Workspace/Store/Steps.antt =====
-- Every state that the methods of the stores lead to is valid.
use zvia.Prelude.{
  String, false, ◌≡◌, ◌⊎◌, sym, ap, ◌∙◌, inl, inr, Option, none, some, get_or, ◌==◌, string_eq,
  if◌then◌else◌, is_some, arith, Bool-cases, Option-cases,
}
use zvia.Prelude.Dict.{Dict, lookup, insert, has, lookup-insert}
use mathlib.Core.Path.{subst}
use zvia.Terminals.{
  Sessions, get_panel_state, has_tab, add_tab, close_tab, set_active_tab, mark_ended,
  close_all_for_panel,
}
use zvia.Terminals.Invariant.{
  AllSound, add_tab-AllSound, close_tab-AllSound, set_active_tab-AllSound, mark_ended-AllSound,
  close_all_for_panel-AllSound,
}
use zvia.Workspace.{ToolId, Direction, Share}
use zvia.Workspace.Panels.{
  ServerWorkspace, empty_workspace, focus_panel, close_panel_in, split_panel, set_split_layout,
  reorder_tabs,
}
use zvia.Workspace.Panels.Validity.{
  IsValid, empty_workspace-IsValid, open_tool-IsValid, focus_panel-IsValid,
}
use zvia.Workspace.Panels.Closing.{close_panel_in-IsValid}
use zvia.Workspace.Panels.Splits.{split_panel-IsValid, set_split_layout-IsValid}
use zvia.Workspace.Panels.Reorder.{reorder_tabs-IsValid}
use zvia.Workspace.Store.{
  Stores, PanelDirtyState, register_panel_dirty, clear_panel_dirty, get_workspace, update_where,
  update_workspace, PendingPanelClose, confirm_where, open_tool_for, tool_of, is_terminal,
  end_sessions, drop_panel, close_panel, request_close_panel, cancel_close_panel,
  confirm_close_panel, focus_panel_of, split_panel_of, set_split_layout_of, reorder_tabs_of,
}

-- Each workspace is valid, and the tabs of each terminal panel are.
pub record AllValid (s : Stores) : Type 0 where
  pub workspaces : (k : String) (w : ServerWorkspace) → lookup k s.workspaces ≡ some w → IsValid w
  pub sessions : AllSound s.sessions

abbrev EachValid : Dict ServerWorkspace → Type 0
EachValid d = (k : String) (w : ServerWorkspace) → lookup k d ≡ some w → IsValid w

insert-EachValid :
    (server : String) (w : ServerWorkspace) (d : Dict ServerWorkspace)
    → IsValid w
    → EachValid d
    → EachValid (insert server w d)
insert-EachValid server w d v h k u found =
    let found' : (if server == k then some w else lookup k d) ≡ some u =
      sym (lookup-insert server k w d) ∙ found in
    elim (Bool-cases (server == k)) [
      | inl e ↦ subst IsValid (some_inj (rw e at found')) v
      | inr n ↦ h k u (rw n at found')
    ]
  where
    some_inj : {a b : ServerWorkspace} → some a ≡ some b → a ≡ b
    some_inj h = ground arith

pub update_at :
    (server : String) (f : ServerWorkspace → ServerWorkspace) (s : Stores)
    (o : Option ServerWorkspace)
    → lookup server s.workspaces ≡ o
    → update_workspace server f s ≡ update_where o server f s
unfolding update_workspace
update_at server f s o e = ap (λ x. update_where x server f s) e

update-AllValid :
    (server : String) (f : ServerWorkspace → ServerWorkspace) (s : Stores)
    → ((w : ServerWorkspace) → lookup server s.workspaces ≡ some w → IsValid w → IsValid (f w))
    → AllValid s
    → AllValid (update_workspace server f s)
update-AllValid server f s g h = elim (Option-cases (lookup server s.workspaces)) [
  | inl e ↦ subst AllValid (sym (update_at server f s none e)) (unfold update_where in h)
  | inr (w, e) ↦ subst AllValid (sym (update_at server f s (some w) e)) (
      unfold update_where in
      record {
        workspaces =
            insert-EachValid server (f w) s.workspaces (g w e (h.workspaces server w e))
              h.workspaces;
        sessions = h.sessions;
      })
]

open_tool_for-AllValid :
    (server : String) (tool : ToolId) (fresh : String) (s : Stores)
    → has fresh (get_workspace server s).panels ≡ false
    → (fresh == "") ≡ false
    → AllValid s
    → AllValid (open_tool_for server tool fresh s)
unfolding open_tool_for get_workspace
open_tool_for-AllValid server tool fresh s new named h = record {
  workspaces =
      insert-EachValid server _ s.workspaces
        (open_tool-IsValid tool fresh (get_or (lookup server s.workspaces) empty_workspace) new
          named (current (Option-cases (lookup server s.workspaces)))).0
        h.workspaces;
  sessions = h.sessions;
}
  where
    current :
        (lookup server s.workspaces ≡ none)
          ⊎ ((w : ServerWorkspace) × (lookup server s.workspaces ≡ some w))
        → IsValid (get_or (lookup server s.workspaces) empty_workspace)
    current (inl e) = rw e empty_workspace-IsValid
    current (inr (w, e)) = rw e (h.workspaces server w e)

clear-AllValid : (p : String) (s : Stores) → AllValid s → AllValid (clear_panel_dirty p s)
unfolding clear_panel_dirty register_panel_dirty
clear-AllValid p s h = record { workspaces = h.workspaces; sessions = h.sessions }

register-AllValid :
    (p : String) (o : Option PanelDirtyState) (s : Stores)
    → AllValid s
    → AllValid (register_panel_dirty p o s)
unfolding register_panel_dirty
register-AllValid p none s h = record { workspaces = h.workspaces; sessions = h.sessions }
register-AllValid p (some d) s h = record { workspaces = h.workspaces; sessions = h.sessions }

close_panel-AllValid :
    (server p : String) (s : Stores) → AllValid s → AllValid (close_panel server p s)
unfolding close_panel
close_panel-AllValid server p s h = dropped (end_sessions server p s) (ended s h)
  where
    dropped : (s : Stores) → AllValid s → AllValid (drop_panel server p s)
    dropped s h =
        unfold drop_panel in
        elim (Bool-cases (is_some (tool_of server p s))) [
          | inl e ↦ rw e (
              update-AllValid server (close_panel_in p) (clear_panel_dirty p s)
                (λ w f v. (close_panel_in-IsValid p w v).0) (clear-AllValid p s h))
          | inr e ↦ rw e h
        ]

    ended : (s : Stores) → AllValid s → AllValid (end_sessions server p s)
    ended s h =
        unfold end_sessions in
        elim (Bool-cases (is_terminal (tool_of server p s))) [
          | inl e ↦ rw e (record {
            workspaces = h.workspaces;
            sessions = close_all_for_panel-AllSound p server s.sessions h.sessions;
          })
          | inr e ↦ rw e h
        ]

request-AllValid :
    (server p : String) (s : Stores) → AllValid s → AllValid (request_close_panel server p s)
unfolding request_close_panel
request-AllValid server p s h = elim (Bool-cases (has p s.dirty_panels)) [
  | inl e ↦ rw e (record { workspaces = h.workspaces; sessions = h.sessions })
  | inr e ↦ rw e (close_panel-AllValid server p s h)
]

confirm-AllValid : (s : Stores) → AllValid s → AllValid (confirm_close_panel s)
unfolding confirm_close_panel
confirm-AllValid s h = chosen s.pending_panel_close
  where
    chosen : (o : Option PendingPanelClose) → AllValid (confirm_where o s)
    chosen none = unfold confirm_where in h
    chosen (some pending) =
        unfold confirm_where in
        close_panel-AllValid pending.server_id pending.panel_id _ (
          clear-AllValid pending.panel_id _
            (record { workspaces = h.workspaces; sessions = h.sessions }))

sessions-AllValid :
    (s : Stores) (t : Sessions) → AllSound t → AllValid s → AllValid (record s { sessions = t })
sessions-AllValid s t a h = record { workspaces = h.workspaces; sessions = a }

-- One call of a method of the stores. The ids that are made are new to the workspace or the panel.
pub data Step : Stores → Stores → Type 0 where
  opens :
      {s : Stores} (server : String) (tool : ToolId) (fresh : String)
      → has fresh (get_workspace server s).panels ≡ false
      → (fresh == "") ≡ false
      → Step s (open_tool_for server tool fresh s)
  focuses : {s : Stores} (server p : String) → Step s (focus_panel_of server p s)
  requests : {s : Stores} (server p : String) → Step s (request_close_panel server p s)
  confirms : {s : Stores} → Step s (confirm_close_panel s)
  cancels : {s : Stores} → Step s (cancel_close_panel s)
  closes : {s : Stores} (server p : String) → Step s (close_panel server p s)
  splits :
      {s : Stores} (server p : String) (d : Direction) (tool : ToolId) (fresh id : String)
      → has fresh (get_workspace server s).panels ≡ false
      → (fresh == "") ≡ false
      → Step s (split_panel_of server p d tool fresh id s)
  resizes :
      {s : Stores} (server id : String) (layout : Dict Share)
      → Step s (set_split_layout_of server id layout s)
  reorders :
      {s : Stores} (server source target : String) → Step s (reorder_tabs_of server source target s)
  marks :
      {s : Stores} (p : String) (o : Option PanelDirtyState) → Step s (register_panel_dirty p o s)
  adds_tab :
      {s : Stores} (p fresh : String)
      → has_tab fresh (get_panel_state p s.sessions).tabs ≡ false
      → Step s (record s { sessions = add_tab p fresh s.sessions })
  closes_tab :
      {s : Stores} (p id server : String)
      → Step s (record s { sessions = close_tab p id server s.sessions })
  closes_all :
      {s : Stores} (p server : String)
      → Step s (record s { sessions = close_all_for_panel p server s.sessions })
  activates :
      {s : Stores} (p id : String) → Step s (record s { sessions = set_active_tab p id s.sessions })
  ends : {s : Stores} (p id : String) → Step s (record s { sessions = mark_ended p id s.sessions })

pub data Run (s : Stores) : Stores → Type 0 where
  here : Run s s
  next : {t u : Stores} → Run s t → Step t u → Run s u

Step-AllValid : {s t : Stores} → Step s t → AllValid s → AllValid t
unfolding focus_panel_of split_panel_of set_split_layout_of reorder_tabs_of cancel_close_panel
Step-AllValid (opens server tool fresh new named) h =
    open_tool_for-AllValid server tool fresh _ new named h
Step-AllValid (focuses server p) h =
    update-AllValid server (focus_panel p) _ (λ w e v. (focus_panel-IsValid p w v).0) h
Step-AllValid (requests server p) h = request-AllValid server p _ h
Step-AllValid confirms h = confirm-AllValid _ h
Step-AllValid cancels h = record { workspaces = h.workspaces; sessions = h.sessions }
Step-AllValid (closes server p) h = close_panel-AllValid server p _ h
Step-AllValid {s} (splits server p d tool fresh id new named) h =
    update-AllValid server (split_panel p d tool fresh id) s
      (λ w e v.
        split_panel-IsValid p fresh id d tool w (unfold get_workspace in rw e at new) named v)
      h
Step-AllValid (resizes server id layout) h =
    update-AllValid server (set_split_layout id layout) _
      (λ w e v. (set_split_layout-IsValid id layout w v).0) h
Step-AllValid (reorders server source target) h =
    update-AllValid server (reorder_tabs source target) _
      (λ w e v. (reorder_tabs-IsValid source target w v).0) h
Step-AllValid (marks p o) h = register-AllValid p o _ h
Step-AllValid (adds_tab p fresh new) h =
    sessions-AllValid _ _ (add_tab-AllSound p fresh _ new h.sessions) h
Step-AllValid (closes_tab p id server) h =
    sessions-AllValid _ _ (close_tab-AllSound p id server _ h.sessions) h
Step-AllValid (closes_all p server) h =
    sessions-AllValid _ _ (close_all_for_panel-AllSound p server _ h.sessions) h
Step-AllValid (activates p id) h =
    sessions-AllValid _ _ (set_active_tab-AllSound p id _ h.sessions) h
Step-AllValid (ends p id) h = sessions-AllValid _ _ (mark_ended-AllSound p id _ h.sessions) h

-- From valid stores, any sequence of calls of the methods leads to valid stores: in every
-- workspace the tabs are the open panels, each once, the layout shows open panels only, each once,
-- no split has fewer than two children, the focused panel is open, and there are a focused panel and
-- a layout as long as a panel is open; and every panel with terminals has tabs of different ids, the
-- active one among them.
pub Run-AllValid : {s t : Stores} → Run s t → AllValid s → AllValid t
Run-AllValid here h = h
Run-AllValid (next r st) h = Step-AllValid st (Run-AllValid r h)
