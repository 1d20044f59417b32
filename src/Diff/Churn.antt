-- ===== src/Diff/Churn.antt =====
-- What the removal of process churn keeps.
use zvia.Prelude.{
  String, Bool, true, false, not, ◌&&◌, ◌||◌, ◌≡◌, refl, sym, ap, ◌∙◌, inl, inr, Option, none, some,
  List, [], ◌∷◌, ◌==◌, string_eq, nat_eq, any, filter, filter-all, filter_congr, mem_of_mem-filter,
  length, arith, eq_iff, Bool-cases, if◌then◌else◌, contains, contains-add, any_of_mem, mem_of_any,
}
use zvia.Topology.{TopologyChangeKind, TopologyChange}
use zvia.Topology.Enums.{change_kind_eq}
use zvia.Diff.{
  is_process, state_comm, added_comms, removed_comms, add_some, not_churn, survives, churn_comms,
  filter_process_churn,
}

abbrev pub is_comm : Option String → String → Bool
is_comm none comm = false
is_comm (some c) comm = c == comm

-- A process of the runtime was added, or removed.
abbrev pub adds : String → TopologyChange → Bool
adds comm c =
    is_process c && c.kind == TopologyChangeKind.entity_added && is_comm (state_comm c.after) comm

abbrev pub removes : String → TopologyChange → Bool
removes comm c =
    is_process c
    && c.kind == TopologyChangeKind.entity_removed
    && is_comm (state_comm c.before) comm

-- The runtime restarted: a process of it was added and one was removed.
abbrev pub restarted : List TopologyChange → String → Bool
restarted changes comm = any (adds comm) changes && any (removes comm) changes

abbrev pub restarted_in : List TopologyChange → Option String → Bool
restarted_in changes none = false
restarted_in changes (some comm) = restarted changes comm

-- The runtime whose process the change adds or removes.
abbrev pub comm_of : TopologyChange → Option String
comm_of c =
    if not (is_process c)
    then none
    else if c.kind == TopologyChangeKind.entity_added
    then state_comm c.after
    else if c.kind == TopologyChangeKind.entity_removed
    then state_comm c.before
    else none

contains-add_some :
    (comm : String) (s : List String) (o : Option String)
    → contains comm (add_some s o) ≡ (contains comm s || is_comm o comm)
unfolding add_some
contains-add_some comm s none = ground arith
contains-add_some comm s (some c) = contains-add comm s c

contains-added_comms :
    (comm : String) (s : List String) (changes : List TopologyChange)
    → contains comm (added_comms s changes) ≡ (contains comm s || any (adds comm) changes)
unfolding added_comms any
contains-added_comms comm s [] = ground arith
contains-added_comms comm s (c ∷ rest) =
    elim (Bool-cases (is_process c && c.kind == TopologyChangeKind.entity_added)) [
      | inl e ↦ rw e (
          contains-added_comms comm (add_some s (state_comm c.after)) rest
          ∙ rw contains-add_some (ground arith))
      | inr e ↦ rw e (contains-added_comms comm s rest ∙ ground arith)
    ]

contains-removed_comms :
    (comm : String) (s : List String) (changes : List TopologyChange)
    → contains comm (removed_comms s changes) ≡ (contains comm s || any (removes comm) changes)
unfolding removed_comms any
contains-removed_comms comm s [] = ground arith
contains-removed_comms comm s (c ∷ rest) =
    elim (Bool-cases (is_process c && c.kind == TopologyChangeKind.entity_removed)) [
      | inl e ↦ rw e (
          contains-removed_comms comm (add_some s (state_comm c.before)) rest
          ∙ rw contains-add_some (ground arith))
      | inr e ↦ rw e (contains-removed_comms comm s rest ∙ ground arith)
    ]

contains-filter :
    (comm : String) (p : String → Bool) (s : List String)
    → contains comm (filter p s) ≡ (contains comm s && p comm)
unfolding contains filter
contains-filter comm p [] = refl
contains-filter comm p (c ∷ s) = ground (arith, contains-filter comm p s, eq_iff c comm)

contains-churn_comms :
    (comm : String) (changes : List TopologyChange)
    → contains comm (churn_comms changes) ≡ restarted changes comm
unfolding churn_comms
contains-churn_comms comm changes =
    rw (contains-filter, contains-added_comms, contains-removed_comms) (unfold contains in refl)

abbrev kept : List TopologyChange → TopologyChange → Bool
kept changes c = not (restarted_in changes (comm_of c))

not_churn_lem :
    (changes : List TopologyChange) (o : Option String)
    → not_churn (churn_comms changes) o ≡ not (restarted_in changes o)
unfolding not_churn
not_churn_lem changes none = refl
not_churn_lem changes (some comm) = rw (contains-churn_comms comm changes)

survives_lem :
    (changes : List TopologyChange) (c : TopologyChange)
    → survives (churn_comms changes) c ≡ kept changes c
unfolding survives
survives_lem changes c =
    ground (
      arith,
      not_churn_lem changes (state_comm c.after),
      not_churn_lem changes (state_comm c.before),
    )

not_churn-nil : (o : Option String) → not_churn [] o ≡ true
unfolding not_churn contains
not_churn-nil none = refl
not_churn-nil (some comm) = refl

survives-nil : (c : TopologyChange) → survives [] c ≡ true
unfolding survives
survives-nil c =
    ground (arith, not_churn-nil (state_comm c.after), not_churn-nil (state_comm c.before))

nil_of_length : (s : List String) → (length s == 0) ≡ true → s ≡ []
nil_of_length [] h = refl
nil_of_length (x ∷ s) h = absurd (ground arith)

-- Exactly the changes go that add or remove a process of a runtime of which one process was
-- added and one removed; the others stay, in their order.
pub filter_process_churn_iff :
    (changes : List TopologyChange)
    → filter_process_churn changes ≡ filter (λ c. not (restarted_in changes (comm_of c))) changes
unfolding filter_process_churn
filter_process_churn_iff changes = elim (Bool-cases (length (churn_comms changes) == 0)) [
  | inl e ↦
      let empty = nil_of_length (churn_comms changes) e in
      rw e (
        sym (
          filter-all (kept changes) changes
            (λ c m. sym (survives_lem changes c) ∙ ap (λ s. survives s c) empty ∙ survives-nil c)))
  | inr e ↦ rw e (filter_congr _ _ changes (λ c m. survives_lem changes c))
]

-- A restart among the changes that are kept is one among all of them.
restarted_of_kept :
    (changes : List TopologyChange) (comm : String)
    → restarted (filter (kept changes) changes) comm ≡ true
    → restarted changes comm ≡ true
restarted_of_kept changes comm h =
    let (a, ma, ha) = mem_of_any (adds comm) (filter (kept changes) changes) (ground arith) in
    let (b, mb, hb) = mem_of_any (removes comm) (filter (kept changes) changes) (ground arith) in
    let p = any_of_mem (adds comm) changes (mem_of_mem-filter (kept changes) changes ma).0 ha in
    let q = any_of_mem (removes comm) changes (mem_of_mem-filter (kept changes) changes mb).0 hb in
    rw (p, q)

kept_of_kept :
    (changes : List TopologyChange) (o : Option String)
    → not (restarted_in changes o) ≡ true
    → not (restarted_in (filter (kept changes) changes) o) ≡ true
kept_of_kept changes none h = refl
kept_of_kept changes (some comm) h =
    elim (Bool-cases (restarted (filter (kept changes) changes) comm)) [
      | inl e ↦ let again = restarted_of_kept changes comm e in absurd (ground arith)
      | inr e ↦ rw e
    ]

-- Removing the churn a second time removes nothing.
pub filter_process_churn_idem :
    (changes : List TopologyChange)
    → filter_process_churn (filter_process_churn changes) ≡ filter_process_churn changes
filter_process_churn_idem changes = rw filter_process_churn_iff (
    rw (filter_process_churn_iff changes) (
      filter-all (kept (filter (kept changes) changes)) (filter (kept changes) changes)
        (λ c m. kept_of_kept changes (comm_of c) (mem_of_mem-filter (kept changes) changes m).1)))

pub filter_process_churn-nil : filter_process_churn [] ≡ []
unfolding filter_process_churn churn_comms added_comms removed_comms filter survives
filter_process_churn-nil = refl
