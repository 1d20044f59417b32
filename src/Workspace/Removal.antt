-- ===== src/Workspace/Removal.antt =====
-- What removing a panel leaves in the layout.
use zvia.Prelude.{
  String, not, ◌≡◌, refl, sym, ap, ◌∙◌, inl, inr, Option, none, some, List, [], ◌∷◌, ◌++◌, ◌==◌,
  string_eq, filter, filter-append, contains, contains-append, arith, Bool-cases,
}
use zvia.Workspace.{
  LayoutNode, panel, split, Nodes, nil, cons, Direction, is_panel_in_node, is_panel_in_nodes,
  is_panel_in_layout, collect_in_node, collect_in_nodes, collect_panel_ids_in_layout, rebuild,
  cons_some, remove_from_node, remove_from_nodes, remove_panel_from_layout,
}

-- A panel is found in a layout exactly when it is collected from it.
mutual
  unfolding is_panel_in_node collect_in_node contains

  in_node : (n : LayoutNode) (p : String) → is_panel_in_node n p ≡ contains p (collect_in_node n)
  in_node (panel id) p = ground arith
  in_node (split id d cs l) p = in_nodes cs p

  in_nodes : (cs : Nodes) (p : String) → is_panel_in_nodes cs p ≡ contains p (collect_in_nodes cs)
  in_nodes nil p = refl
  in_nodes (cons c cs) p = rw contains-append (rw (in_node c p, in_nodes cs p))

pub is_panel_in_node-collect :
    (n : LayoutNode) (p : String) → is_panel_in_node n p ≡ contains p (collect_in_node n)
is_panel_in_node-collect n p = in_node n p

pub is_panel_in_layout-collect :
    (root : Option LayoutNode) (p : String)
    → is_panel_in_layout root p ≡ contains p (collect_panel_ids_in_layout root)
unfolding is_panel_in_layout contains
is_panel_in_layout-collect none p = refl
is_panel_in_layout-collect (some n) p = in_node n p

abbrev pub others : String → List String → List String
others p l = filter (λ x. not (x == p)) l

collect-rebuild :
    (id : String) (d : Direction) (cs : Nodes)
    → collect_panel_ids_in_layout (rebuild id d cs) ≡ collect_in_nodes cs
unfolding rebuild collect_in_node
collect-rebuild id d nil = refl
collect-rebuild id d (cons c nil) = sym (append_nil (collect_in_node c))
  where
    append_nil : (l : List String) → l ++ [] ≡ l
    append_nil [] = refl
    append_nil (x ∷ l) = ap (λ t. x ∷ t) (append_nil l)
collect-rebuild id d (cons c (cons e cs)) = refl

collect-cons_some :
    (o : Option LayoutNode) (cs : Nodes)
    → collect_in_nodes (cons_some o cs) ≡ collect_panel_ids_in_layout o ++ collect_in_nodes cs
unfolding cons_some collect_in_node
collect-cons_some none cs = refl
collect-cons_some (some c) cs = refl

mutual
  unfolding remove_from_node collect_in_node filter

  collect-remove_node :
      (n : LayoutNode) (p : String)
      → collect_panel_ids_in_layout (remove_from_node n p) ≡ others p (collect_in_node n)
  collect-remove_node (panel id) p = elim (Bool-cases (id == p)) [ inl e ↦ rw e | inr e ↦ rw e ]
  collect-remove_node (split id d cs l) p =
      collect-rebuild id d (remove_from_nodes cs p) ∙ collect-remove_nodes cs p

  collect-remove_nodes :
      (cs : Nodes) (p : String)
      → collect_in_nodes (remove_from_nodes cs p) ≡ others p (collect_in_nodes cs)
  collect-remove_nodes nil p = refl
  collect-remove_nodes (cons c cs) p =
      collect-cons_some (remove_from_node c p) (remove_from_nodes cs p)
      ∙ rw (collect-remove_node c p, collect-remove_nodes cs p)
          (sym (filter-append _ (collect_in_node c) (collect_in_nodes cs)))

-- Removing a panel from a layout leaves the other panels, in their order, and no others.
pub collect-remove_panel_from_layout :
    (root : Option LayoutNode) (p : String)
    → collect_panel_ids_in_layout (remove_panel_from_layout root p)
      ≡ others p (collect_panel_ids_in_layout root)
unfolding remove_panel_from_layout filter
collect-remove_panel_from_layout none p = refl
collect-remove_panel_from_layout (some n) p = collect-remove_node n p

-- Every split has two children or more.
unfoldable mutual
  pub IsProper : LayoutNode → Type 0
  IsProper (panel id) = Unit {0}
  IsProper (split id d cs l) = HasTwo cs × AllProper cs

  pub AllProper : Nodes → Type 0
  AllProper nil = Unit {0}
  AllProper (cons c cs) = IsProper c × AllProper cs

  pub HasTwo : Nodes → Type 0
  HasTwo nil = ⊥
  HasTwo (cons c nil) = ⊥
  HasTwo (cons c (cons e cs)) = Unit {0}

abbrev pub IsProperLayout : Option LayoutNode → Type 0
IsProperLayout none = Unit {0}
IsProperLayout (some n) = IsProper n

rebuild-IsProperLayout :
    (id : String) (d : Direction) (cs : Nodes) → AllProper cs → IsProperLayout (rebuild id d cs)
unfolding rebuild IsProper
rebuild-IsProperLayout id d nil h = tt
rebuild-IsProperLayout id d (cons c nil) h = h.0
rebuild-IsProperLayout id d (cons c (cons e cs)) h = (tt, h)

cons_some-AllProper :
    (o : Option LayoutNode) (cs : Nodes)
    → IsProperLayout o
    → AllProper cs
    → AllProper (cons_some o cs)
unfolding cons_some IsProper
cons_some-AllProper none cs h k = k
cons_some-AllProper (some c) cs h k = (h, k)

mutual
  unfolding remove_from_node IsProper

  remove_node-IsProper :
      (n : LayoutNode) (p : String) → IsProper n → IsProperLayout (remove_from_node n p)
  remove_node-IsProper (panel id) p h = elim (Bool-cases (id == p)) [
    | inl e ↦ rw e tt
    | inr e ↦ rw e tt
  ]
  remove_node-IsProper (split id d cs l) p h =
      rebuild-IsProperLayout id d (remove_from_nodes cs p) (remove_nodes-AllProper cs p h.1)

  remove_nodes-AllProper :
      (cs : Nodes) (p : String) → AllProper cs → AllProper (remove_from_nodes cs p)
  remove_nodes-AllProper nil p h = tt
  remove_nodes-AllProper (cons c cs) p h =
      cons_some-AllProper (remove_from_node c p) (remove_from_nodes cs p)
        (remove_node-IsProper c p h.0) (remove_nodes-AllProper cs p h.1)

pub remove_panel_from_layout-IsProperLayout :
    (root : Option LayoutNode) (p : String)
    → IsProperLayout root
    → IsProperLayout (remove_panel_from_layout root p)
unfolding remove_panel_from_layout
remove_panel_from_layout-IsProperLayout none p h = tt
remove_panel_from_layout-IsProperLayout (some n) p h = remove_node-IsProper n p h
