-- ===== src/Workspace/Store/Closing.antt =====
-- A panel with unsaved work is not closed before that is confirmed, and then it is.
use zvia.Prelude.{
  String, true, false, ◌≡◌, refl, inl, inr, none, some, bind, is_some, string_eq, beq_self, arith,
  Bool-cases, Option-cases,
}
use zvia.Prelude.Dict.{lookup, has, lookup-insert}
use zvia.Workspace.Tools.{tool_eq}
use zvia.Workspace.Panels.{close_panel_in}
use zvia.Workspace.Panels.Closing.{close_panel_in-gone}
use zvia.Workspace.Store.{
  Stores, register_panel_dirty, clear_panel_dirty, get_workspace, update_where, tool_of,
  end_sessions, drop_panel, close_panel, request_close_panel, confirm_where, confirm_close_panel,
}
use zvia.Workspace.Store.Steps.{update_at}

-- A panel without a tool is not open.
not_open :
    (server p : String) (s : Stores)
    → is_some (tool_of server p s) ≡ false
    → has p (get_workspace server s).panels ≡ false
unfolding tool_of get_workspace
not_open server p s h = elim (Option-cases (lookup server s.workspaces)) [
  | inl e ↦ rw e (unfold lookup in refl)
  | inr (w, e) ↦ rw e (elim (Option-cases (lookup p w.panels)) [
    | inl f ↦ rw f
    | inr (q, f) ↦
        let h' : is_some (bind (lookup p w.panels) (λ panel. some panel.tool_id)) ≡ false =
          rw e at h in
        let h'' : true ≡ false = rw f at h' in absurd (ground arith)
  ])
]

drop_panel-gone :
    (server p : String) (s : Stores)
    → has p (get_workspace server (drop_panel server p s)).panels ≡ false
unfolding drop_panel
drop_panel-gone server p s = elim (Bool-cases (is_some (tool_of server p s))) [
  | inr e ↦ rw e (not_open server p s e)
  | inl e ↦ rw e (elim (Option-cases (lookup server s.workspaces)) [
    | inl f ↦ absurd (has_server f e)
    | inr (w, f) ↦
        let done =
          update_at server (close_panel_in p) (clear_panel_dirty p s) (some w)
            (unfold clear_panel_dirty register_panel_dirty in f) in
        rw done (
          unfold update_where get_workspace in
          rw lookup-insert (rw (beq_self server) (close_panel_in-gone p w)))
  ])
]
  where
    has_server : lookup server s.workspaces ≡ none → is_some (tool_of server p s) ≡ true → ⊥
    has_server f e = unfold tool_of in let e' : false ≡ true = rw f at e in ground arith

pub close_panel-gone :
    (server p : String) (s : Stores)
    → has p (get_workspace server (close_panel server p s)).panels ≡ false
unfolding close_panel
close_panel-gone server p s = drop_panel-gone server p (end_sessions server p s)

-- Asking to close a panel with unsaved work changes no workspace and ends no session; confirming
-- then closes the panel.
pub request_close_panel_lem :
    (server p : String) (s : Stores)
    → has p s.dirty_panels ≡ true
    → ((request_close_panel server p s).workspaces ≡ s.workspaces)
      × ((request_close_panel server p s).sessions ≡ s.sessions)
      × (has p (get_workspace server (confirm_close_panel (request_close_panel server p s))).panels
          ≡ false)
unfolding request_close_panel confirm_close_panel confirm_where
request_close_panel_lem server p s dirty = rw dirty (refl, refl, close_panel-gone server p _)
