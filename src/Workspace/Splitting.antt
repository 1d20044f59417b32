-- ===== src/Workspace/Splitting.antt =====
-- What splitting a panel, and moving a separator, do to the layout.
use zvia.Prelude.{
  String, false, ◌&&◌, ◌||◌, ◌≡◌, refl, sym, ap, ◌∙◌, inl, inr, List, [], ◌∷◌, ◌++◌, ◌==◌,
  string_eq, if◌then◌else◌, contains, arith, eq_iff, Bool-cases,
}
use zvia.Prelude.Dict.{Dict}
use zvia.Prelude.Distinct.{Distinct}
use zvia.Workspace.{
  LayoutNode, panel, split, Nodes, nil, cons, Share, collect_in_node, collect_in_nodes,
  replace_in_node, replace_in_nodes, update_node, update_nodes,
}
use zvia.Workspace.Removal.{IsProper, AllProper, HasTwo}

-- A list in which the text is replaced by a list.
unfoldable pub expand : String → List String → List String → List String
expand p r [] = []
expand p r (x ∷ l) = (if x == p then r else x ∷ []) ++ expand p r l

append_assoc : (xs ys zs : List String) → (xs ++ ys) ++ zs ≡ xs ++ (ys ++ zs)
append_assoc [] ys zs = refl
append_assoc (x ∷ xs) ys zs = ap (λ l. x ∷ l) (append_assoc xs ys zs)

append_nil : (l : List String) → l ++ [] ≡ l
append_nil [] = refl
append_nil (x ∷ l) = ap (λ t. x ∷ t) (append_nil l)

expand-append :
    (p : String) (r l m : List String) → expand p r (l ++ m) ≡ expand p r l ++ expand p r m
unfolding expand
expand-append p r [] m = refl
expand-append p r (x ∷ l) m =
    ap (λ t. (if x == p then r else x ∷ []) ++ t) (expand-append p r l m)
    ∙ sym (append_assoc (if x == p then r else x ∷ []) (expand p r l) (expand p r m))

mutual
  unfolding replace_in_node collect_in_node expand

  replace_node :
      (n : LayoutNode) (p : String) (r : LayoutNode)
      → collect_in_node (replace_in_node n p r) ≡ expand p (collect_in_node r) (collect_in_node n)
  replace_node (panel id) p r = elim (Bool-cases (id == p)) [
    | inl e ↦ rw e (sym (append_nil (collect_in_node r)))
    | inr n ↦ rw n
  ]
  replace_node (split id d cs l) p r = replace_nodes cs p r

  replace_nodes :
      (cs : Nodes) (p : String) (r : LayoutNode)
      → collect_in_nodes (replace_in_nodes cs p r)
        ≡ expand p (collect_in_node r) (collect_in_nodes cs)
  replace_nodes nil p r = refl
  replace_nodes (cons c cs) p r =
      rw (replace_node c p r, replace_nodes cs p r)
        (sym (expand-append p (collect_in_node r) (collect_in_node c) (collect_in_nodes cs)))

-- A panel in the layout is replaced by the panels of the replacement, and all others stay.
pub collect-replace_in_node :
    (n : LayoutNode) (p : String) (r : LayoutNode)
    → collect_in_node (replace_in_node n p r) ≡ expand p (collect_in_node r) (collect_in_node n)
collect-replace_in_node n p r = replace_node n p r

-- What is in a list in which `p` became `p` and `q`.
pub contains-expand :
    (x p q : String) (l : List String)
    → contains x (expand p (p ∷ q ∷ []) l) ≡ (contains x l || (contains p l && q == x))
unfolding contains expand
contains-expand x p q [] = refl
contains-expand x p q (y ∷ l) = elim (Bool-cases (y == p)) [
  | inl e ↦ rw e (ground (arith, contains-expand x p q l, eq_iff y p, eq_iff y x, eq_iff p x))
  | inr n ↦ rw n (ground (arith, contains-expand x p q l))
]

pub expand-Distinct :
    (p q : String) (l : List String)
    → contains q l ≡ false
    → (p == q) ≡ false
    → Distinct l
    → Distinct (expand p (p ∷ q ∷ []) l)
unfolding contains expand
expand-Distinct p q [] new ne h = tt
expand-Distinct p q (y ∷ l) new ne h = elim (Bool-cases (y == p)) [
  | inl e ↦
      let old : contains p l ≡ false = rw (← (eq_iff y p).0 e) h.0 in
      rw e (
        ground (arith, contains-expand p p q l, old, eq_iff p q, eq_iff q p),
        (ground (arith, contains-expand q p q l, old), expand-Distinct p q l (ground arith) ne h.1),
      )
  | inr n ↦ rw n (
    contains-expand y p q l ∙ ground (arith, h.0, eq_iff y q, eq_iff q y),
    expand-Distinct p q l (ground arith) ne h.1,
  )
]

mutual
  unfolding replace_in_node IsProper

  replace-IsProper :
      (n : LayoutNode) (p : String) (r : LayoutNode)
      → IsProper n
      → IsProper r
      → IsProper (replace_in_node n p r)
  replace-IsProper (panel id) p r h k = elim (Bool-cases (id == p)) [
    | inl e ↦ rw e k
    | inr e ↦ rw e tt
  ]
  replace-IsProper (split id d cs l) p r h k =
      (replace-HasTwo cs p r h.0, replace-AllProper cs p r h.1 k)

  replace-AllProper :
      (cs : Nodes) (p : String) (r : LayoutNode)
      → AllProper cs
      → IsProper r
      → AllProper (replace_in_nodes cs p r)
  replace-AllProper nil p r h k = tt
  replace-AllProper (cons c cs) p r h k =
      (replace-IsProper c p r h.0 k, replace-AllProper cs p r h.1 k)

  replace-HasTwo :
      (cs : Nodes) (p : String) (r : LayoutNode) → HasTwo cs → HasTwo (replace_in_nodes cs p r)
  replace-HasTwo nil p r h = h
  replace-HasTwo (cons c nil) p r h = h
  replace-HasTwo (cons c (cons e cs)) p r h = tt

pub replace_in_node-IsProper :
    (n : LayoutNode) (p : String) (r : LayoutNode)
    → IsProper n
    → IsProper r
    → IsProper (replace_in_node n p r)
replace_in_node-IsProper n p r h k = replace-IsProper n p r h k

mutual
  unfolding update_node collect_in_node IsProper

  update-collect :
      (id : String) (layout : Dict Share) (n : LayoutNode)
      → collect_in_node (update_node id layout n) ≡ collect_in_node n
  update-collect id layout (panel p) = refl
  update-collect id layout (split s d cs l) = elim (Bool-cases (s == id)) [
    | inl e ↦ rw e
    | inr n ↦ rw n (updates-collect id layout cs)
  ]

  updates-collect :
      (id : String) (layout : Dict Share) (cs : Nodes)
      → collect_in_nodes (update_nodes id layout cs) ≡ collect_in_nodes cs
  updates-collect id layout nil = refl
  updates-collect id layout (cons c cs) =
      rw (update-collect id layout c, updates-collect id layout cs)

mutual
  unfolding update_node IsProper

  update-IsProper :
      (id : String) (layout : Dict Share) (n : LayoutNode)
      → IsProper n
      → IsProper (update_node id layout n)
  update-IsProper id layout (panel p) h = tt
  update-IsProper id layout (split s d cs l) h = elim (Bool-cases (s == id)) [
    | inl e ↦ rw e h
    | inr n ↦ rw n (update-HasTwo id layout cs h.0, update-AllProper id layout cs h.1)
  ]

  update-AllProper :
      (id : String) (layout : Dict Share) (cs : Nodes)
      → AllProper cs
      → AllProper (update_nodes id layout cs)
  update-AllProper id layout nil h = tt
  update-AllProper id layout (cons c cs) h =
      (update-IsProper id layout c h.0, update-AllProper id layout cs h.1)

  update-HasTwo :
      (id : String) (layout : Dict Share) (cs : Nodes)
      → HasTwo cs
      → HasTwo (update_nodes id layout cs)
  update-HasTwo id layout nil h = h
  update-HasTwo id layout (cons c nil) h = h
  update-HasTwo id layout (cons c (cons e cs)) h = tt

-- Another layout of a split leaves the panels, and the shape of the tree.
pub update_node-collect :
    (id : String) (layout : Dict Share) (n : LayoutNode)
    → IsProper n
    → (collect_in_node (update_node id layout n) ≡ collect_in_node n)
      × IsProper (update_node id layout n)
update_node-collect id layout n h = (update-collect id layout n, update-IsProper id layout n h)
