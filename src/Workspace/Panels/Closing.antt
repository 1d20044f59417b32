-- ===== src/Workspace/Panels/Closing.antt =====
-- Closing a panel keeps the workspace valid, and shows the panel that is focused then.
use zvia.Prelude.{
  String, true, false, ◌&&◌, not, ◌≡◌, ◌≢◌, refl, sym, ap, ◌∙◌, inl, inr, Option, none, some, List,
  [], ◌∷◌, ◌==◌, string_eq, filter, contains, truthy, get_last?, arith, eq_iff, beq_self,
  Bool-cases,
}
use zvia.Prelude.Dict.{Dict, remove, has, has-remove}
use zvia.Prelude.Distinct.{contains-one, contains-filter_ne, filter-Distinct}
use zvia.Workspace.{
  WorkspacePanel, LayoutNode, is_panel_in_layout, collect_in_node, collect_panel_ids_in_layout,
  remove_panel_from_layout,
}
use zvia.Workspace.Removal.{
  is_panel_in_layout-collect, collect-remove_panel_from_layout,
  remove_panel_from_layout-IsProperLayout,
}
use zvia.Workspace.Panels.{ServerWorkspace, next_focus, show_focused, close_open, close_panel_in}
use zvia.Workspace.Panels.Validity.{
  IsKeyed-remove, IsLayout, HasTabs, IsFocus, IsValid, IsShown, panel-IsLayout, some-IsFocus,
  IsRooted, some-IsRooted, some_inj,
}

remove-HasTabs :
    (p : String) (panels : Dict WorkspacePanel) (tabs : List String)
    → HasTabs panels tabs
    → HasTabs (remove p panels) (filter (λ id. not (id == p)) tabs)
remove-HasTabs p panels tabs h = record {
  keyed = IsKeyed-remove p panels h.keyed;
  named = has-remove p "" panels ∙ rw h.named;
  same = λ k.
      contains-filter_ne k p tabs
      ∙ ap (λ b. b && not (p == k)) (h.same k)
      ∙ sym (has-remove p k panels);
  distinct = filter-Distinct p tabs h.distinct;
}

remove-IsLayout :
    (p : String) (panels : Dict WorkspacePanel) (root : Option LayoutNode)
    → IsLayout panels root
    → IsLayout (remove p panels) (remove_panel_from_layout root p)
remove-IsLayout p panels root l =
    let e = collect-remove_panel_from_layout root p in
    record {
      is_open = λ k c.
          let both : (contains k (collect_panel_ids_in_layout root) && not (p == k)) ≡ true =
            sym (contains-filter_ne k p (collect_panel_ids_in_layout root))
            ∙ ap (contains k) (sym e)
            ∙ c in
          has-remove p k panels ∙ ground (arith, l.is_open k);
      distinct = rw e (filter-Distinct p (collect_panel_ids_in_layout root) l.distinct);
      proper = remove_panel_from_layout-IsProperLayout root p l.proper;
    }

last_in :
    (x : String) (l : List String)
    → (y : String) × (get_last? (x ∷ l) ≡ some y) × (contains y (x ∷ l) ≡ true)
unfolding contains
last_in x [] = (x, refl, ground (arith, eq_iff x x))
last_in x (z ∷ l) = let (y, e, m) = last_in z l in (y, e, ground arith)

last-IsFocus :
    (panels : Dict WorkspacePanel) (tabs : List String)
    → HasTabs panels tabs
    → IsFocus panels (get_last? tabs)
unfolding contains
last-IsFocus panels [] h = record {
  is_open = λ k e. absurd (ground arith);
  blank = λ e k. sym (h.same k);
}
last-IsFocus panels (x ∷ l) h =
    let (y, e, m) = last_in x l in rw e (some-IsFocus panels y (sym (h.same y) ∙ m))

next-IsFocus :
    (p : String) (panels : Dict WorkspacePanel) (tabs : List String) (focused : Option String)
    → HasTabs (remove p panels) tabs
    → IsFocus panels focused
    → IsFocus (remove p panels) (next_focus p tabs focused)
unfolding next_focus
next-IsFocus p panels tabs none h f = record {
  is_open = λ k e. absurd (ground arith);
  blank = λ e k. has-remove p k panels ∙ rw (f.blank refl k);
}
next-IsFocus p panels tabs (some a) h f = elim (Bool-cases (a == p)) [
  | inl e ↦ rw e (last-IsFocus (remove p panels) tabs h)
  | inr n ↦ rw n (
      some-IsFocus (remove p panels) a
        (has-remove p a panels ∙ ground (arith, f.is_open a refl, eq_iff a p, eq_iff p a)))
]

not_in_none : (a : String) → is_panel_in_layout none a ≢ true
unfolding is_panel_in_layout
not_in_none a h = absurd (ground arith)

-- With a valid focus, what is shown stays a layout and shows the focused panel.
show-IsLayout :
    (panels : Dict WorkspacePanel) (focused : Option String) (root : Option LayoutNode)
    → has "" panels ≡ false
    → IsFocus panels focused
    → IsLayout panels root
    → IsLayout panels (show_focused (truthy focused) root)
      × ((k : String)
          → focused ≡ some k
          → contains k (collect_panel_ids_in_layout (show_focused (truthy focused) root)) ≡ true)
      × IsRooted panels (show_focused (truthy focused) root)
unfolding show_focused collect_in_node
show-IsLayout panels none root named f l = (l, λ k e. absurd (ground arith), λ e. f.blank refl)
show-IsLayout panels (some a) root named f l = elim (Bool-cases (a == "")) [
  | inl e ↦ absurd (ground (arith, eq_iff a "", f.is_open a refl))
  | inr n ↦ elim (Bool-cases (is_panel_in_layout root a)) [
    | inl there ↦
        rw (n, show_focused, there)
          (
            l,
            λ k e. rw (← some_inj e) (sym (is_panel_in_layout-collect root a) ∙ there),
            λ e. absurd (not_in_none a (sym (ap (λ r. is_panel_in_layout r a) e) ∙ there)),
          )
    | inr gone ↦
        rw (n, show_focused, gone)
          (
            panel-IsLayout panels a (f.is_open a refl),
            λ k e. rw (← some_inj e) (contains-one a a ∙ beq_self a),
            some-IsRooted panels _,
          )
  ]
]

pub close_panel_in-IsValid :
    (p : String) (w : ServerWorkspace)
    → IsValid w
    → IsValid (close_panel_in p w) × (IsShown w → IsShown (close_panel_in p w))
unfolding close_panel_in close_open IsShown
close_panel_in-IsValid p w v = elim (Bool-cases (has p w.panels)) [
  | inr e ↦ rw e (v, λ s. s)
  | inl e ↦
      let t = remove-HasTabs p w.panels w.tab_order v.tabs in
      let f =
        next-IsFocus p w.panels (filter (λ id. not (id == p)) w.tab_order) w.focused_panel_id t
          v.focus in
      let (l, shown, rooted) =
        show-IsLayout (remove p w.panels) _ _ t.named f
          (remove-IsLayout p w.panels w.root v.layout) in
      rw e (record { tabs = t; layout = l; focus = f; rooted = rooted }, λ _. shown)
]

pub close_panel_in-gone :
    (p : String) (w : ServerWorkspace) → has p (close_panel_in p w).panels ≡ false
unfolding close_panel_in close_open
close_panel_in-gone p w = elim (Bool-cases (has p w.panels)) [
  | inl e ↦ rw e (has-remove p p w.panels ∙ rw (beq_self p) (ground arith))
  | inr e ↦ rw e e
]
