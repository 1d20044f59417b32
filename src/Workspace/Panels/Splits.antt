-- ===== src/Workspace/Panels/Splits.antt =====
-- Splitting a panel, and moving a separator, keep the workspace valid.
use zvia.Prelude.{
  String, Bool, true, false, ◌||◌, ◌&&◌, ◌≡◌, refl, sym, ap, ◌∙◌, inl, inr, Option, none, some, [],
  ◌∷◌, ◌==◌, string_eq, contains, arith, eq_iff, beq_self, Bool-cases, Option-cases,
}
use zvia.Prelude.Dict.{Dict, insert, has}
use mathlib.Core.Path.{subst}
use zvia.Prelude.Distinct.{Distinct}
use zvia.Workspace.{
  ToolId, WorkspacePanel, Direction, Share, LayoutNode, panel, split, collect_in_node,
  collect_panel_ids_in_layout, update_node,
}
use zvia.Workspace.Removal.{IsProper, IsProperLayout}
use zvia.Workspace.Splitting.{
  expand, collect-replace_in_node, contains-expand, expand-Distinct, replace_in_node-IsProper,
  update_node-collect,
}
use zvia.Workspace.Panels.{
  ServerWorkspace, halves, split_root, split_open, split_where, split_panel, layout_where,
  set_split_layout,
}
use zvia.Workspace.Panels.Validity.{
  IsLayout, IsValid, IsShown, insert-HasTabs, insert-IsLayout, has-insert_self, some-IsFocus,
  some-IsRooted,
}

module _ (p q id : String) (d : Direction) where
  collect-split_root :
      (root : LayoutNode)
      → collect_in_node (split_root p (halves id d p q) root)
        ≡ expand p (p ∷ q ∷ []) (collect_in_node root)
  unfolding split_root collect_in_node
  collect-split_root (panel x) = elim (Bool-cases (x == p)) [
    | inl e ↦ rw e (unfold expand in rw e)
    | inr n ↦ rw n (collect-replace_in_node (panel x) p (halves id d p q))
  ]
  collect-split_root (split s e cs l) = collect-replace_in_node (split s e cs l) p (halves id d p q)

  split_root-IsProper :
      (root : LayoutNode) → IsProper root → IsProper (split_root p (halves id d p q) root)
  unfolding split_root IsProper
  split_root-IsProper (panel x) h = elim (Bool-cases (x == p)) [
    | inl e ↦ rw e (tt, (tt, (tt, tt)))
    | inr n ↦ rw n (replace_in_node-IsProper (panel x) p (halves id d p q) tt (tt, (tt, (tt, tt))))
  ]
  split_root-IsProper (split s e cs l) h =
      replace_in_node-IsProper (split s e cs l) p (halves id d p q) h (tt, (tt, (tt, tt)))

  module _ (tool : ToolId) (w : ServerWorkspace) (root : LayoutNode) (e : w.root ≡ some root)
      (old : has p w.panels ≡ true) (new : has q w.panels ≡ false) where
    added : WorkspacePanel
    added = record { id = q; tool_id = tool }

    shown_before :
        IsValid w → (k : String) → contains k (collect_in_node root) ≡ true → has k w.panels ≡ true
    shown_before v k c = v.layout.is_open k (rw e c)

    new_hidden : IsValid w → contains q (collect_in_node root) ≡ false
    new_hidden v = elim (Bool-cases (contains q (collect_in_node root))) [
      | inl c ↦ absurd (ground (arith, shown_before v q c))
      | inr n ↦ n
    ]

    split-IsLayout :
        IsValid w → IsLayout (insert q added w.panels) (some (split_root p (halves id d p q) root))
    unfolding added
    split-IsLayout v =
        let same = collect-split_root root in
        record {
          is_open = λ k c. elim (Bool-cases (contains k (collect_in_node root))) [
            | inl was ↦ (insert-IsLayout added w.panels w.root v.layout).is_open k (rw e was)
            | inr n ↦
                let now : (contains k (collect_in_node root)
                      || (contains p (collect_in_node root) && q == k))
                    ≡ true =
                  sym (contains-expand k p q (collect_in_node root))
                  ∙ ap (contains k) (sym same)
                  ∙ c in
                let is_new : q ≡ k = ground (arith, eq_iff q k) in
                rw (← is_new) (has-insert_self added w.panels)
          ];
          distinct = rw same (
              expand-Distinct p q (collect_in_node root) (new_hidden v)
                (different (has p w.panels) refl)
                (subst (λ o. Distinct (collect_panel_ids_in_layout o)) e v.layout.distinct));
          proper = split_root-IsProper root (root_proper v);
        }
      where
        different : (b : Bool) → has p w.panels ≡ b → (p == q) ≡ false
        different b h = elim (Bool-cases (p == q)) [
          | inl s ↦ absurd (ground (arith, ap (λ x. has x w.panels) ((eq_iff p q).0 s)))
          | inr n ↦ n
        ]

        root_proper : IsValid w → IsProper root
        root_proper v = subst IsProperLayout e v.layout.proper

    split_open-IsValid : (q == "") ≡ false → IsValid w → IsValid (split_open p d tool q id root w)
    unfolding split_open added
    split_open-IsValid named v = record {
      tabs = insert-HasTabs added w.panels w.tab_order new named v.tabs;
      layout = split-IsLayout v;
      focus = some-IsFocus (insert q added w.panels) q (has-insert_self added w.panels);
      rooted = some-IsRooted (insert q added w.panels) _;
    }

    -- The new panel is shown exactly when the panel that was split was shown.
    split_open-shows :
        IsValid w
        → contains q (collect_panel_ids_in_layout (split_open p d tool q id root w).root)
          ≡ contains p (collect_in_node root)
    unfolding split_open
    split_open-shows v =
        ap (contains q) (collect-split_root root)
        ∙ contains-expand q p q (collect_in_node root)
        ∙ rw (new_hidden v, beq_self q) (ground arith)

module _ (p q id : String) (d : Direction) (tool : ToolId) (w : ServerWorkspace)
    (new : has q w.panels ≡ false) (named : (q == "") ≡ false) where
  split_is :
      (o : Option LayoutNode)
      → w.root ≡ o
      → split_panel p d tool q id w ≡ split_where o p d tool q id w
  unfolding split_panel
  split_is o e = ap (λ r. split_where r p d tool q id w) e

  pub split_panel-IsValid : IsValid w → IsValid (split_panel p d tool q id w)
  split_panel-IsValid v = elim (Option-cases w.root) [
    | inl e ↦ rw (split_is none e) (unfold split_where in v)
    | inr (root, e) ↦ elim (Bool-cases (has p w.panels)) [
      | inl old ↦
          rw (split_is (some root) e) (
            unfold split_where in
            rw old (split_open-IsValid p q id d tool w root e old new named v))
      | inr gone ↦ rw (split_is (some root) e) (unfold split_where in rw gone v)
    ]
  ]

  -- Splitting an open panel focuses the new one, and the layout shows the new one exactly when it
  -- showed the panel that was split: a hidden panel is split into one that is focused and hidden.
  pub split_panel-shows :
      IsValid w
      → has p w.panels ≡ true
      → ((split_panel p d tool q id w).focused_panel_id ≡ some q)
        × (contains q (collect_panel_ids_in_layout (split_panel p d tool q id w).root)
            ≡ contains p (collect_panel_ids_in_layout w.root))
  split_panel-shows v old = elim (Option-cases w.root) [
    | inl e ↦ absurd (ground (arith, v.rooted e p))
    | inr (root, e) ↦
        let done : split_panel p d tool q id w ≡ split_open p d tool q id root w =
          split_is (some root) e ∙ (unfold split_where in rw old) in
        (
          ap (λ x. x.focused_panel_id) done ∙ (unfold split_open in refl),
          ap (λ x. contains q (collect_panel_ids_in_layout x.root)) done
              ∙ split_open-shows p q id d tool w root e old new v
              ∙ ap (λ o. contains p (collect_panel_ids_in_layout o)) (sym e),
        )
  ]

updated :
    (id : String) (layout : Dict Share) (w : ServerWorkspace) (root : LayoutNode)
    → w.root ≡ some root
    → IsValid w
    → IsValid (record w { root = some (update_node id layout root) })
      × (IsShown w → IsShown (record w { root = some (update_node id layout root) }))
unfolding IsShown
updated id layout w root e v =
    let (same, proper) =
      update_node-collect id layout root (subst IsProperLayout e v.layout.proper) in
    (
      record {
        tabs = v.tabs;
        layout = record {
          is_open = λ k c. v.layout.is_open k (rw e (rw same at c));
          distinct =
              rw same (subst (λ o. Distinct (collect_panel_ids_in_layout o)) e v.layout.distinct);
          proper = proper;
        };
        focus = v.focus;
        rooted = some-IsRooted w.panels _;
      },
      λ s k f. rw same (subst (λ o. contains k (collect_panel_ids_in_layout o) ≡ true) e (s k f)),
    )

-- Another layout of a split keeps the workspace valid and what it shows.
pub set_split_layout-IsValid :
    (id : String) (layout : Dict Share) (w : ServerWorkspace)
    → IsValid w
    → IsValid (set_split_layout id layout w) × (IsShown w → IsShown (set_split_layout id layout w))
unfolding set_split_layout layout_where
set_split_layout-IsValid id layout w v =
    let by : (o : Option LayoutNode)
        → w.root ≡ o
        → set_split_layout id layout w ≡ layout_where o id layout w =
      λ o e. ap (λ r. layout_where r id layout w) e in
    elim (Option-cases w.root) [
      | inl e ↦ subst (λ x. IsValid x × (IsShown w → IsShown x)) (sym (by none e)) (v, λ s. s)
      | inr (root, e) ↦
          subst (λ x. IsValid x × (IsShown w → IsShown x)) (sym (by (some root) e))
            (updated id layout w root e v)
    ]
