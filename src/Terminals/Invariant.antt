-- ===== src/Terminals/Invariant.antt =====
-- The tabs of a panel: never none of them, each with an id of its own, and one of them active.
use mathlib.Core.Path.{subst}
use zvia.Prelude.{
  String, true, false, not, ◌≡◌, refl, sym, ap, ◌∙◌, inl, inr, none, some, List, [], ◌∷◌, ◌++◌, map,
  ◌==◌, string_eq, if◌then◌else◌, any, any-append, filter, get_last?, bind, contains, arith, eq_iff,
  Bool-cases, Option-cases,
}
use zvia.Prelude.Dict.{lookup, insert, remove, lookup-insert, lookup-remove}
use zvia.Prelude.Distinct.{Distinct, Distinct-concat, filter-Distinct}
use zvia.Terminals.{
  TerminalTab, ClosedSession, PanelTerminalState, Sessions, get_panel_state, create_tab, add_tab,
  without, next_active, keep_tabs, close_tab, has_tab, set_active_tab, end_tab, mark_ended,
  close_all_for_panel,
}

abbrev ids : List TerminalTab → List String
ids tabs = map (λ tab. tab.id) tabs

has_tab-ids : (id : String) (tabs : List TerminalTab) → has_tab id tabs ≡ contains id (ids tabs)
unfolding any contains
has_tab-ids id [] = refl
has_tab-ids id (t ∷ tabs) = ground (arith, has_tab-ids id tabs)

-- The active tab is there, which makes the tabs not empty, and no id stands twice.
pub record IsSound (st : PanelTerminalState) : Type 0 where
  pub active : String
  pub is_active : st.active_tab_id ≡ some active
  pub has_active : has_tab active st.tabs ≡ true
  pub distinct : Distinct (ids st.tabs)

-- Every panel that the store holds is so.
pub AllSound : Sessions → Type 0
AllSound s = (k : String) (st : PanelTerminalState) → lookup k s.panels ≡ some st → IsSound st

some_inj : {st u : PanelTerminalState} → some st ≡ some u → st ≡ u
some_inj h = ground arith

pub empty-AllSound : (c : List ClosedSession) → AllSound (record { panels = []; closed = c })
unfolding AllSound lookup
empty-AllSound c k st h = absurd (ground arith)

insert-AllSound :
    (s t : Sessions) (p : String) (st : PanelTerminalState)
    → t.panels ≡ insert p st s.panels
    → AllSound s
    → IsSound st
    → AllSound t
unfolding AllSound
insert-AllSound s t p st e h i j u found =
    let found' : (if p == j then some st else lookup j s.panels) ≡ some u =
      sym (ap (lookup j) e ∙ lookup-insert p j st s.panels) ∙ found in
    elim (Bool-cases (p == j)) [
      | inl same ↦ subst IsSound (some_inj (rw same at found')) i
      | inr n ↦ h j u (rw n at found')
    ]

same-AllSound : (s t : Sessions) → t.panels ≡ s.panels → AllSound s → AllSound t
unfolding AllSound
same-AllSound s t e h k st found = h k st (ap (lookup k) (sym e) ∙ found)

remove-AllSound :
    (s t : Sessions) (p : String) → t.panels ≡ remove p s.panels → AllSound s → AllSound t
unfolding AllSound
remove-AllSound s t p e h k st found =
    let found' : (if p == k then none else lookup k s.panels) ≡ some st =
      sym (ap (lookup k) e ∙ lookup-remove p k s.panels) ∙ found in
    elim (Bool-cases (p == k)) [
      | inl same ↦ let found'' : none ≡ some st = rw same at found' in absurd (ground arith)
      | inr n ↦ h k st (rw n at found')
    ]

ids-concat :
    (tabs : List TerminalTab) (t : TerminalTab) → ids (tabs ++ t ∷ []) ≡ ids tabs ++ t.id ∷ []
ids-concat [] t = refl
ids-concat (x ∷ tabs) t = ap (λ l. x.id ∷ l) (ids-concat tabs t)

ids-without :
    (id : String) (tabs : List TerminalTab)
    → ids (without id tabs) ≡ filter (λ x. not (x == id)) (ids tabs)
unfolding filter
ids-without id [] = refl
ids-without id (x ∷ tabs) = elim (Bool-cases (x.id == id)) [
  | inl e ↦ rw e (ids-without id tabs)
  | inr n ↦ rw n (ap (λ l. x.id ∷ l) (ids-without id tabs))
]

ids-end_tab : (id : String) (tabs : List TerminalTab) → ids (map (end_tab id) tabs) ≡ ids tabs
unfolding end_tab
ids-end_tab id [] = refl
ids-end_tab id (x ∷ tabs) = elim (Bool-cases (x.id == id)) [
  | inl e ↦ rw e (ap (λ l. x.id ∷ l) (ids-end_tab id tabs))
  | inr n ↦ rw n (ap (λ l. x.id ∷ l) (ids-end_tab id tabs))
]

current-Distinct :
    (p : String) (s : Sessions) → AllSound s → Distinct (ids (get_panel_state p s).tabs)
unfolding AllSound
current-Distinct p s h = elim (Option-cases (lookup p s.panels)) [
  | inl e ↦ rw e tt
  | inr (st, e) ↦ rw e ((h p st e).distinct)
]

pub add_tab-AllSound :
    (p fresh : String) (s : Sessions)
    → has_tab fresh (get_panel_state p s).tabs ≡ false
    → AllSound s
    → AllSound (add_tab p fresh s)
unfolding add_tab create_tab
add_tab-AllSound p fresh s new h =
    let tabs = (get_panel_state p s).tabs in
    insert-AllSound s (add_tab p fresh s) p _ refl h (record {
      active = fresh;
      is_active = refl;
      has_active =
          any-append (λ tab. tab.id == fresh) tabs _
          ∙ unfold any in ground (arith, eq_iff fresh fresh);
      distinct = subst Distinct (sym (ids-concat tabs _)) (
          Distinct-concat (ids tabs) fresh (sym (has_tab-ids fresh tabs) ∙ new)
            (current-Distinct p s h));
    })

last_of :
    (x : TerminalTab) (l : List TerminalTab)
    → (t : TerminalTab) × (get_last? (x ∷ l) ≡ some t) × (has_tab t.id (x ∷ l) ≡ true)
unfolding any
last_of x [] = (x, refl, ground (arith, eq_iff x.id x.id))
last_of x (y ∷ l) = let (t, e, m) = last_of y l in (t, e, ground arith)

has_tab-without :
    (a id : String) (tabs : List TerminalTab)
    → (a == id) ≡ false
    → has_tab a tabs ≡ true
    → has_tab a (without id tabs) ≡ true
unfolding any filter
has_tab-without a id [] ne h = absurd (ground arith)
has_tab-without a id (x ∷ tabs) ne h = elim (Bool-cases (x.id == id)) [
  | inl e ↦
      rw e
        (has_tab-without a id tabs ne (ground (arith, eq_iff x.id a, eq_iff x.id id, eq_iff a id)))
  | inr n ↦ rw n (ground (arith, has_tab-without a id tabs ne))
]

-- The tabs that are left, if any.
left-IsSound :
    (id : String) (st : PanelTerminalState) (x : TerminalTab) (l : List TerminalTab)
    → without id st.tabs ≡ x ∷ l
    → IsSound st
    → IsSound (record { tabs = x ∷ l; active_tab_id = next_active id (x ∷ l) st.active_tab_id })
left-IsSound id st x l e h =
    let distinct : Distinct (ids (x ∷ l)) =
      subst (λ t. Distinct (ids t)) e
        (subst Distinct (sym (ids-without id st.tabs))
          (filter-Distinct id (ids st.tabs) h.distinct)) in
    elim (Bool-cases (h.active == id)) [
      | inl gone ↦
          let (t, last, there) = last_of x l in
          record {
            active = t.id;
            is_active =
                ap (next_active id (x ∷ l)) h.is_active
                ∙ rw gone (ap (λ o. bind o (λ tab. some tab.id)) last);
            has_active = there;
            distinct = distinct;
          }
      | inr stays ↦ record {
        active = h.active;
        is_active = ap (next_active id (x ∷ l)) h.is_active ∙ rw stays;
        has_active =
            subst (λ t. has_tab h.active t ≡ true) e
              (has_tab-without h.active id st.tabs stays h.has_active);
        distinct = distinct;
      }
    ]

keep_tabs-AllSound :
    (p id : String) (s t : Sessions) (st : PanelTerminalState) (left : List TerminalTab)
    → without id st.tabs ≡ left
    → t.panels ≡ keep_tabs p left (next_active id left st.active_tab_id) s.panels
    → IsSound st
    → AllSound s
    → AllSound t
unfolding keep_tabs
keep_tabs-AllSound p id s t st [] e q i h = remove-AllSound s t p q h
keep_tabs-AllSound p id s t st (x ∷ l) e q i h =
    insert-AllSound s t p _ q h (left-IsSound id st x l e i)

pub close_tab-AllSound :
    (p id server : String) (s : Sessions) → AllSound s → AllSound (close_tab p id server s)
unfolding close_tab AllSound
close_tab-AllSound p id server s h = elim (Option-cases (lookup p s.panels)) [
  | inl e ↦ same-AllSound s (close_tab p id server s) (rw (e, close_tab)) h
  | inr (st, e) ↦
      keep_tabs-AllSound p id s (close_tab p id server s) st (without id st.tabs) refl
        (rw (e, close_tab)) (h p st e) h
]

pub set_active_tab-AllSound :
    (p id : String) (s : Sessions) → AllSound s → AllSound (set_active_tab p id s)
unfolding set_active_tab AllSound
set_active_tab-AllSound p id s h = elim (Option-cases (lookup p s.panels)) [
  | inl e ↦ same-AllSound s (set_active_tab p id s) (rw (e, set_active_tab)) h
  | inr (st, e) ↦ elim (Bool-cases (has_tab id st.tabs)) [
    | inr n ↦ same-AllSound s (set_active_tab p id s) (rw (e, set_active_tab, n)) h
    | inl there ↦
        insert-AllSound s (set_active_tab p id s) p (record st { active_tab_id = some id })
          (rw (e, set_active_tab, there)) h
          (record {
            active = id;
            is_active = refl;
            has_active = there;
            distinct = (h p st e).distinct;
          })
  ]
]

pub mark_ended-AllSound : (p id : String) (s : Sessions) → AllSound s → AllSound (mark_ended p id s)
unfolding mark_ended AllSound
mark_ended-AllSound p id s h = elim (Option-cases (lookup p s.panels)) [
  | inl e ↦ same-AllSound s (mark_ended p id s) (rw (e, mark_ended)) h
  | inr (st, e) ↦
      let i = h p st e in
      insert-AllSound s (mark_ended p id s) p (record st { tabs = map (end_tab id) st.tabs })
        (rw (e, mark_ended)) h
        (record {
          active = i.active;
          is_active = i.is_active;
          has_active =
              has_tab-ids i.active _
              ∙ ap (contains i.active) (ids-end_tab id st.tabs)
              ∙ sym (has_tab-ids i.active st.tabs)
              ∙ i.has_active;
          distinct = subst Distinct (sym (ids-end_tab id st.tabs)) i.distinct;
        })
]

pub close_all_for_panel-AllSound :
    (p server : String) (s : Sessions) → AllSound s → AllSound (close_all_for_panel p server s)
unfolding close_all_for_panel
close_all_for_panel-AllSound p server s h = elim (Option-cases (lookup p s.panels)) [
  | inl e ↦ same-AllSound s (close_all_for_panel p server s) (rw (e, close_all_for_panel)) h
  | inr (st, e) ↦
      remove-AllSound s (close_all_for_panel p server s) p (rw (e, close_all_for_panel)) h
]
