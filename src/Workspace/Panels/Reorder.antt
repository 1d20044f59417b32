-- ===== src/Workspace/Panels/Reorder.antt =====
-- Moving a tab: the others keep their order, and the tab stands where the target stood.
use zvia.Prelude.{
  ℕ, zero, suc, ◌≤◌, String, true, false, ◌||◌, ◌≡◌, refl, sym, ap, ◌∙◌, inl, inr, Option, none,
  some, List, [], ◌∷◌, ◌==◌, string_eq, contains, filter, arith, eq_iff, Bool-cases, Option-cases,
  length,
}
use mathlib.Core.Path.{subst}
use zvia.Prelude.Distinct.{Distinct, filter-Distinct, contains-filter_ne, filter_absent}
use zvia.Prelude.Dict.{Dict}
use zvia.Workspace.{WorkspacePanel}
use zvia.Workspace.Removal.{others}
use zvia.Workspace.Panels.{ServerWorkspace, index_of, remove_at, insert_at, move_tab, reorder_tabs}
use zvia.Workspace.Panels.Validity.{HasTabs, IsValid, IsShown}

shift-some :
    (o : Option ℕ) (n : ℕ)
    → elim o [ none ↦ none | some m ↦ some (suc m) ] ≡ some n
    → (m : ℕ) × (o ≡ some m) × (n ≡ suc m)
shift-some none n h = absurd (ground arith)
shift-some (some m) n h = (m, refl, ground arith)

index_of-contains :
    (a : String) (l : List String) (n : ℕ) → index_of a l ≡ some n → contains a l ≡ true
unfolding index_of contains
index_of-contains a [] n h = absurd (ground arith)
index_of-contains a (x ∷ l) n h = elim (Bool-cases (x == a)) [
  | inl e ↦ rw e
  | inr ne ↦
      let (m, e, _) = shift-some (index_of a l) n (rw ne at h) in rw ne (index_of-contains a l m e)
]

-- `splice` at the index of a tab that stands once takes the tab out.
remove_at-index_of :
    (a : String) (l : List String) (n : ℕ)
    → Distinct l
    → index_of a l ≡ some n
    → remove_at n l ≡ others a l
unfolding index_of remove_at filter
remove_at-index_of a [] n d h = absurd (ground arith)
remove_at-index_of a (x ∷ l) n d h = elim (Bool-cases (x == a)) [
  | inl e ↦
      let first : some 0 ≡ some n = rw e at h in
      let z : n ≡ 0 = ground arith in
      rw (z, e) (sym (filter_absent a l (subst (λ y. contains y l ≡ false) ((eq_iff x a).0 e) d.0)))
  | inr ne ↦
      let (m, e, s) = shift-some (index_of a l) n (rw ne at h) in
      rw (s, ne) (ap (λ t. x ∷ t) (remove_at-index_of a l m d.1 e))
]

contains-insert_at :
    (n : ℕ) (a x : String) (l : List String)
    → contains x (insert_at n a l) ≡ (contains x l || a == x)
unfolding insert_at contains
contains-insert_at zero a x l = ground arith
contains-insert_at (suc n) a x [] = ground arith
contains-insert_at (suc n) a x (y ∷ l) = ground (arith, contains-insert_at n a x l)

insert_at-Distinct :
    (n : ℕ) (a : String) (l : List String)
    → contains a l ≡ false
    → Distinct l
    → Distinct (insert_at n a l)
unfolding insert_at contains
insert_at-Distinct zero a l new d = (new, d)
insert_at-Distinct (suc n) a [] new d = (refl, tt)
insert_at-Distinct (suc n) a (y ∷ l) new d = (
  contains-insert_at n a y l ∙ ground (arith, d.0, eq_iff a y, eq_iff y a),
  insert_at-Distinct n a l (ground arith) d.1,
)

others-insert_at :
    (n : ℕ) (a : String) (l : List String) → contains a l ≡ false → others a (insert_at n a l) ≡ l
unfolding insert_at filter contains
others-insert_at zero a l new = ground (arith, filter_absent a l new, eq_iff a a)
others-insert_at (suc n) a [] new = ground (arith, eq_iff a a)
others-insert_at (suc n) a (y ∷ l) new = ground (arith, others-insert_at n a l, eq_iff y a)

others-contains_self : (a : String) (l : List String) → contains a (others a l) ≡ false
others-contains_self a l = contains-filter_ne a a l ∙ ground (arith, eq_iff a a)

index_of-insert_at :
    (n : ℕ) (a : String) (l : List String)
    → contains a l ≡ false
    → n ≤ length l
    → index_of a (insert_at n a l) ≡ some n
unfolding insert_at index_of contains
index_of-insert_at zero a l new b = ground (arith, eq_iff a a)
index_of-insert_at (suc n) a [] new b = absurd (omega arith)
index_of-insert_at (suc n) a (y ∷ l) new b =
    let other : (y == a) ≡ false = ground arith in
    rw (other, index_of-insert_at n a l (ground arith) (omega arith))

index_of-length : (a : String) (l : List String) (n : ℕ) → index_of a l ≡ some n → suc n ≤ length l
unfolding index_of
index_of-length a [] n h = absurd (ground arith)
index_of-length a (x ∷ l) n h = elim (Bool-cases (x == a)) [
  | inl e ↦ let first : some 0 ≡ some n = rw e at h in let z : n ≡ 0 = ground arith in omega arith
  | inr ne ↦
      let (m, e, s) = shift-some (index_of a l) n (rw ne at h) in
      omega (arith, index_of-length a l m e)
]

others-length :
    (a : String) (l : List String)
    → Distinct l
    → contains a l ≡ true
    → length l ≡ suc (length (others a l))
unfolding filter contains
others-length a [] d h = absurd (ground arith)
others-length a (x ∷ l) d h = elim (Bool-cases (x == a)) [
  | inl e ↦ rw (e, filter_absent a l (subst (λ y. contains y l ≡ false) ((eq_iff x a).0 e) d.0))
  | inr ne ↦ rw ne (omega (arith, others-length a l d.1 (rw ne at h)))
]

module _ (source target : String) (l : List String) (n m : ℕ) (d : Distinct l)
    (from : index_of source l ≡ some n) (to : index_of target l ≡ some m) where
  abbrev moved : List String
  moved = move_tab source (index_of source l) (index_of target l) l

  moved_is : moved ≡ insert_at m source (others source l)
  unfolding move_tab
  moved_is = rw (from, to) (ap (insert_at m source) (remove_at-index_of source l n d from))

  moved-order : others source moved ≡ others source l
  moved-order =
      rw moved_is (others-insert_at m source (others source l) (others-contains_self source l))

  moved-place : index_of source moved ≡ some m
  moved-place = rw moved_is (
      index_of-insert_at m source (others source l) (others-contains_self source l) (
        omega (
          arith,
          index_of-length target l m to,
          others-length source l d (index_of-contains source l n from),
        )))

  moved-contains : (x : String) → contains x moved ≡ contains x l
  moved-contains x = rw moved_is (
      contains-insert_at m source x (others source l)
      ∙ rw (contains-filter_ne x source l) (
          ground
            (arith, eq_iff source x, ap (λ y. contains y l), index_of-contains source l n from)))

  moved-Distinct : Distinct moved
  moved-Distinct = rw moved_is (
      insert_at-Distinct m source (others source l) (others-contains_self source l)
        (filter-Distinct source l d))

-- Tabs that are not both there stay where they are.
move_tab-HasTabs :
    (source target : String) (panels : Dict WorkspacePanel) (l : List String)
    → HasTabs panels l
    → HasTabs panels (move_tab source (index_of source l) (index_of target l) l)
unfolding move_tab
move_tab-HasTabs source target panels l h = elim (Option-cases (index_of source l)) [
  | inl e ↦ rw e h
  | inr (n, e) ↦ elim (Option-cases (index_of target l)) [
    | inl f ↦ rw (e, f) h
    | inr (m, f) ↦ record {
      keyed = h.keyed;
      named = h.named;
      same = λ k. moved-contains source target l n m h.distinct e f k ∙ h.same k;
      distinct = moved-Distinct source target l n m h.distinct e f;
    }
  ]
]

-- Moving one tab onto another keeps the workspace valid and what it shows.
pub reorder_tabs-IsValid :
    (source target : String) (w : ServerWorkspace)
    → IsValid w
    → IsValid (reorder_tabs source target w) × (IsShown w → IsShown (reorder_tabs source target w))
unfolding reorder_tabs IsShown
reorder_tabs-IsValid source target w v = elim (Bool-cases (source == target)) [
  | inl e ↦ rw e (v, λ s. s)
  | inr n ↦ rw n (
    record {
      tabs = move_tab-HasTabs source target w.panels w.tab_order v.tabs;
      layout = v.layout;
      focus = v.focus;
      rooted = v.rooted;
    },
    λ s. s,
  )
]

-- In a valid workspace with both tabs, moving one onto another leaves the order of the others as
-- it was, and puts the tab where the other one stood.
pub reorder_tabs_lem :
    (source target : String) (w : ServerWorkspace) (n m : ℕ)
    → IsValid w
    → (source == target) ≡ false
    → index_of source w.tab_order ≡ some n
    → index_of target w.tab_order ≡ some m
    → (others source (reorder_tabs source target w).tab_order ≡ others source w.tab_order)
      × (index_of source (reorder_tabs source target w).tab_order ≡ some m)
unfolding reorder_tabs
reorder_tabs_lem source target w n m v ne e f =
    let order = moved-order source target w.tab_order n m v.tabs.distinct e f in
    let place = moved-place source target w.tab_order n m v.tabs.distinct e f in
    rw ne (order, place)
