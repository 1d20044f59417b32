-- ===== src/Workspace/Panels/Validity.antt =====
-- What holds of a server's workspace, and that every method keeps it.
use zvia.Prelude.{
  String, true, false, ◌≡◌, refl, sym, ap, ◌∙◌, inl, inr, Option, none, some, List, [], ◌∷◌, ◌++◌,
  ◌==◌, string_eq, any, find_cases, contains, contains-append, Memᴰ, All, arith, eq_iff, beq_self,
  Bool-cases,
}
use mathlib.Core.List.Memᴰ
use zvia.Prelude.Dict.{Dict, lookup, insert, remove, has, values, has-any, has-insert}
use zvia.Prelude.Distinct.{Distinct, Distinct-concat, contains-one}
use zvia.Workspace.{
  ToolId, WorkspacePanel, LayoutNode, panel, is_panel_in_node, collect_in_node,
  collect_panel_ids_in_layout, ensure_panel_visible,
}
use zvia.Workspace.Removal.{IsProper, IsProperLayout, is_panel_in_node-collect}
use zvia.Workspace.Tools.{tool_eq}
use zvia.Workspace.Panels.{
  ServerWorkspace, empty_workspace, find_panel_by_tool, focus_on, add_panel, open_tool, focus_panel,
}

-- Panels stand under their ids.
abbrev pub IsKeyed : Dict WorkspacePanel → Type 0
IsKeyed panels = All (λ e. e.1.id ≡ e.0) panels

-- The layout shows open panels only, each once, in splits of two children or more.
pub record IsLayout (panels : Dict WorkspacePanel) (root : Option LayoutNode) : Type 0 where
  pub is_open :
      (k : String) → contains k (collect_panel_ids_in_layout root) ≡ true → has k panels ≡ true
  pub distinct : Distinct (collect_panel_ids_in_layout root)
  pub proper : IsProperLayout root

-- The tabs are the open panels, each once, and none has the empty id.
pub record HasTabs (panels : Dict WorkspacePanel) (tabs : List String) : Type 0 where
  pub keyed : IsKeyed panels
  pub named : has "" panels ≡ false
  pub same : (k : String) → contains k tabs ≡ has k panels
  pub distinct : Distinct tabs

-- The focused panel is open; where none is focused, none is open.
pub record IsFocus (panels : Dict WorkspacePanel) (focused : Option String) : Type 0 where
  pub is_open : (k : String) → focused ≡ some k → has k panels ≡ true
  pub blank : focused ≡ none → (k : String) → has k panels ≡ false

-- Where there is no layout, no panel is open.
abbrev pub IsRooted : Dict WorkspacePanel → Option LayoutNode → Type 0
IsRooted panels root = root ≡ none → (k : String) → has k panels ≡ false

pub record IsValid (w : ServerWorkspace) : Type 0 where
  pub tabs : HasTabs w.panels w.tab_order
  pub layout : IsLayout w.panels w.root
  pub focus : IsFocus w.panels w.focused_panel_id
  pub rooted : IsRooted w.panels w.root

-- The focused panel is in the layout.
unfoldable pub IsShown : ServerWorkspace → Type 0
IsShown w =
    (k : String)
    → w.focused_panel_id ≡ some k
    → contains k (collect_panel_ids_in_layout w.root) ≡ true

pub empty_workspace-IsValid : IsValid empty_workspace
unfolding lookup contains
empty_workspace-IsValid = record {
  tabs = record { keyed = tt; named = refl; same = λ k. refl; distinct = tt };
  layout = record { is_open = λ k h. absurd (ground arith); distinct = tt; proper = tt };
  focus = record { is_open = λ k h. absurd (ground arith); blank = λ h k. refl };
  rooted = λ h k. refl;
}

pub panel-IsLayout :
    (panels : Dict WorkspacePanel) (p : String)
    → has p panels ≡ true
    → IsLayout panels (some (panel p))
unfolding collect_in_node IsProper
panel-IsLayout panels p h = record {
  is_open = λ k c. let same : p ≡ k = (eq_iff p k).0 (sym (contains-one k p) ∙ c) in rw (← same) h;
  distinct = (unfold contains in refl, tt);
  proper = tt;
}

pub some_inj : {x y : String} → some x ≡ some y → x ≡ y
some_inj h = ground arith

pub some-IsRooted : (panels : Dict WorkspacePanel) (n : LayoutNode) → IsRooted panels (some n)
some-IsRooted panels n h k = absurd (ground arith)

pub some-IsFocus :
    (panels : Dict WorkspacePanel) (p : String) → has p panels ≡ true → IsFocus panels (some p)
some-IsFocus panels p h = record {
  is_open = λ k e. rw (← some_inj e) h;
  blank = λ e k. absurd (ground arith);
}

-- A layout that shows the panel stays, and else the panel is all that is shown.
ensure-IsLayout :
    (panels : Dict WorkspacePanel) (root : Option LayoutNode) (p : String)
    → has p panels ≡ true
    → IsLayout panels root
    → IsLayout panels (some (ensure_panel_visible root p))
      × (contains p (collect_in_node (ensure_panel_visible root p)) ≡ true)
unfolding ensure_panel_visible collect_in_node
ensure-IsLayout panels none p h l = (panel-IsLayout panels p h, contains-one p p ∙ beq_self p)
ensure-IsLayout panels (some r) p h l = elim (Bool-cases (is_panel_in_node r p)) [
  | inl e ↦ rw e (l, sym (is_panel_in_node-collect r p) ∙ e)
  | inr e ↦ rw e (panel-IsLayout panels p h, contains-one p p ∙ beq_self p)
]

focus_on-IsValid :
    (p : String) (w : ServerWorkspace)
    → has p w.panels ≡ true
    → IsValid w
    → IsValid (focus_on p w) × IsShown (focus_on p w)
unfolding focus_on IsShown
focus_on-IsValid p w h v =
    let (l, shown) = ensure-IsLayout w.panels w.root p h v.layout in
    (
      record {
        tabs = v.tabs;
        layout = l;
        focus = some-IsFocus w.panels p h;
        rooted = some-IsRooted w.panels _;
      },
      λ k e. rw (← some_inj e) shown,
    )

IsKeyed-insert :
    (p : WorkspacePanel) (panels : Dict WorkspacePanel)
    → IsKeyed panels
    → IsKeyed (insert p.id p panels)
unfolding insert
IsKeyed-insert p [] h = (refl, tt)
IsKeyed-insert p ((k, q) ∷ panels) h = elim (Bool-cases (k == p.id)) [
  | inl e ↦ rw e (sym ((eq_iff k p.id).0 e), h.1)
  | inr n ↦ rw n (h.0, IsKeyed-insert p panels h.1)
]

pub IsKeyed-remove :
    (k : String) (panels : Dict WorkspacePanel) → IsKeyed panels → IsKeyed (remove k panels)
unfolding remove
IsKeyed-remove k [] h = tt
IsKeyed-remove k ((j, q) ∷ panels) h = elim (Bool-cases (j == k)) [
  | inl e ↦ rw e (IsKeyed-remove k panels h.1)
  | inr n ↦ rw n (h.0, IsKeyed-remove k panels h.1)
]

-- A new panel at the end of the tabs.
pub insert-HasTabs :
    (p : WorkspacePanel) (panels : Dict WorkspacePanel) (tabs : List String)
    → has p.id panels ≡ false
    → (p.id == "") ≡ false
    → HasTabs panels tabs
    → HasTabs (insert p.id p panels) (tabs ++ p.id ∷ [])
insert-HasTabs p panels tabs new ne h = record {
  keyed = IsKeyed-insert p panels h.keyed;
  named = has-insert p.id "" p panels ∙ rw (ne, h.named);
  same = λ k.
      contains-append k tabs (p.id ∷ [])
      ∙ rw (contains-one k p.id, has-insert p.id k p panels, h.same k) (ground arith);
  distinct = Distinct-concat tabs p.id (h.same p.id ∙ new) h.distinct;
}

-- More panels may be open than before.
pub insert-IsLayout :
    (p : WorkspacePanel) (panels : Dict WorkspacePanel) (root : Option LayoutNode)
    → IsLayout panels root
    → IsLayout (insert p.id p panels) root
insert-IsLayout p panels root l = record {
  is_open = λ k c. has-insert p.id k p panels ∙ rw (l.is_open k c) (ground arith);
  distinct = l.distinct;
  proper = l.proper;
}

pub has-insert_self :
    (p : WorkspacePanel) (panels : Dict WorkspacePanel) → has p.id (insert p.id p panels) ≡ true
has-insert_self p panels = has-insert p.id p.id p panels ∙ rw (beq_self p.id)

any_entry :
    (p : WorkspacePanel) (d : Dict WorkspacePanel)
    → IsKeyed d
    → Memᴰ p (values d)
    → any (λ e. e.0 == p.id) d ≡ true
unfolding any
any_entry p [] h m = absurd (Memᴰ.not-nil m)
any_entry p ((k, q) ∷ d) h (Memᴰ.head e) = ground (arith, eq_iff k p.id, h.0, ap (λ x. x.id) e)
any_entry p ((k, q) ∷ d) h (Memᴰ.tail m) = ground (arith, any_entry p d h.1 m)

-- A panel that is found is open.
found-has :
    (p : WorkspacePanel) (panels : Dict WorkspacePanel)
    → IsKeyed panels
    → Memᴰ p (values panels)
    → has p.id panels ≡ true
found-has p panels h m = has-any p.id panels ∙ any_entry p panels h m

add_panel-IsValid :
    (fresh : String) (tool : ToolId) (w : ServerWorkspace)
    → has fresh w.panels ≡ false
    → (fresh == "") ≡ false
    → IsValid w
    → IsValid (add_panel fresh tool w) × IsShown (add_panel fresh tool w)
unfolding add_panel IsShown collect_in_node
add_panel-IsValid fresh tool w new ne v =
    let p : WorkspacePanel = record { id = fresh; tool_id = tool } in
    let there = has-insert_self p w.panels in
    (
      record {
        tabs = insert-HasTabs p w.panels w.tab_order new ne v.tabs;
        layout = panel-IsLayout (insert fresh p w.panels) fresh there;
        focus = some-IsFocus (insert fresh p w.panels) fresh there;
        rooted = some-IsRooted (insert fresh p w.panels) _;
      },
      λ k e. contains-one k fresh ∙ ground (arith, some_inj e, eq_iff fresh k),
    )

-- Opening a tool keeps the workspace valid, and shows what it focuses.
pub open_tool-IsValid :
    (tool : ToolId) (fresh : String) (w : ServerWorkspace)
    → has fresh w.panels ≡ false
    → (fresh == "") ≡ false
    → IsValid w
    → IsValid (open_tool tool fresh w) × IsShown (open_tool tool fresh w)
unfolding open_tool find_panel_by_tool IsShown
open_tool-IsValid tool fresh w new ne v =
    elim (find_cases (λ p. p.tool_id == tool) (values w.panels)) [
      | inl (e, _) ↦ rw (e, open_tool) (add_panel-IsValid fresh tool w new ne v)
      | inr (p, e, m, _) ↦
          rw (e, open_tool) (focus_on-IsValid p.id w (found-has p w.panels v.tabs.keyed m) v)
    ]

pub focus_panel-IsValid :
    (p : String) (w : ServerWorkspace)
    → IsValid w
    → IsValid (focus_panel p w) × (IsShown w → IsShown (focus_panel p w))
unfolding focus_panel
focus_panel-IsValid p w v = elim (Bool-cases (has p w.panels)) [
  | inl e ↦ let (a, b) = focus_on-IsValid p w e v in rw e (a, λ _. b)
  | inr e ↦ rw e (v, λ s. s)
]
