-- ===== src/Terminals/Tests.antt =====
-- Tests of the terminal tabs.
use zvia.Prelude.{◌≡◌, refl, some, [], ◌∷◌, map}
use zvia.Terminals.{
  terminal_methods, Sessions, get_panel_state, add_tab, close_tab, set_active_tab, mark_ended,
  close_all_for_panel,
}

abbrev start : Sessions
start = record { panels = []; closed = [] }

abbrev two_tabs : Sessions
two_tabs = add_tab "p" "t2" (add_tab "p" "t1" start)

-- The tab before a closed one becomes active, and a title counts the tabs that are open.
titles_test :
    map
      (λ t. t.title)
      (get_panel_state "p"
        (mark_ended "p" "t3" (add_tab "p" "t3" (close_tab "p" "t2" "s1" two_tabs)))).tabs
    ≡ "Terminal 1" ∷ "Terminal 2 (ended)" ∷ []
unfolding terminal_methods
titles_test = refl

active_test : (get_panel_state "p" (close_tab "p" "t2" "s1" two_tabs)).active_tab_id ≡ some "t1"
unfolding terminal_methods
active_test = refl

switch_test : (get_panel_state "p" (set_active_tab "p" "t1" two_tabs)).active_tab_id ≡ some "t1"
unfolding terminal_methods
switch_test = refl

closed_test :
    map (λ c. c.session_id) (close_all_for_panel "p" "s1" two_tabs).closed ≡ "t1" ∷ "t2" ∷ []
unfolding terminal_methods
closed_test = refl
