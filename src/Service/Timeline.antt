-- ===== src/Service/Timeline.antt =====
-- `deploymentHistory`: what the timeline of a deployment shows.
use mathlib.Core.List.{reverse, reverse_aux, reverse-reverse, append_assoc}
use mathlib.Core.List.Memᴰ
use mathlib.Core.Path.{subst}
use zvia.Prelude.{
  ◌+◌, ◌≤◌, String, true, false, ◌&&◌, ◌≡◌, refl, inl, inr, Option, none, some, List, [], ◌∷◌, ◌==◌,
  nat_eq, ◌++◌, get_last?, sym, ◌∙◌, length, Memᴰ, arith, Bool-cases, All, All-append,
}
use zvia.History.{PersistedSnapshot, Store, snapshots_of, list, tags_in, nonempty}
use zvia.Service.{
  DeploymentHistoryEntry, changes_since, history_entry, history_entries, deployment_history,
}

module _ {A : Type 0} {x : A} where
  reverse_aux_right : (l acc : List A) → Memᴰ x acc → Memᴰ x (reverse_aux l acc)
  reverse_aux_right [] acc m = m
  reverse_aux_right (y ∷ l) acc m = reverse_aux_right l (y ∷ acc) (Memᴰ.tail m)

  reverse_aux_left : (l acc : List A) → Memᴰ x l → Memᴰ x (reverse_aux l acc)
  reverse_aux_left [] acc m = elim m [ ]
  reverse_aux_left (y ∷ l) acc (Memᴰ.head e) = reverse_aux_right l (y ∷ acc) (Memᴰ.head e)
  reverse_aux_left (y ∷ l) acc (Memᴰ.tail m) = reverse_aux_left l (y ∷ acc) m

  mem_reverse : (l : List A) → Memᴰ x l → Memᴰ x (reverse l)
  mem_reverse l m = reverse_aux_left l [] m

All-reverse_aux :
    (P : DeploymentHistoryEntry → Type 0) (l acc : List DeploymentHistoryEntry)
    → All P l
    → All P acc
    → All P (reverse_aux l acc)
All-reverse_aux P [] acc h k = k
All-reverse_aux P (y ∷ l) acc h k = All-reverse_aux P l (y ∷ acc) h.1 (h.0, k)

-- The entry of a snapshot, with its id and its tags.
pub record Shows (d : String) (e : PersistedSnapshot) (l : List DeploymentHistoryEntry)
    : Type 0 where
  pub shown : DeploymentHistoryEntry
  pub in_list : Memᴰ shown l
  pub same_id : shown.id ≡ e.id
  pub same_tags : shown.tags ≡ tags_in d e

history_entry-Shows :
    (d : String) (previous : Option PersistedSnapshot) (e : PersistedSnapshot)
    → nonempty (tags_in d e) ≡ true
    → Shows d e (history_entry previous e d)
unfolding history_entry
history_entry-Shows d previous e h =
    let some_tag : (length (tags_in d e) == 0) ≡ false = tag_length (tags_in d e) h in
    elim (Bool-cases (length (changes_since previous e d) == 0)) [
      | inl z ↦
          rw (z, some_tag)
            (record { shown = _; in_list = Memᴰ.head refl; same_id = refl; same_tags = refl })
      | inr z ↦
          rw (z) (record { shown = _; in_list = Memᴰ.head refl; same_id = refl; same_tags = refl })
    ]
  where
    tag_length : (l : List String) → nonempty l ≡ true → (length l == 0) ≡ false
    tag_length [] h = absurd (ground arith)
    tag_length (x ∷ l) h = ground arith

history_entries-Shows :
    (d : String) (previous : Option PersistedSnapshot) (e : PersistedSnapshot)
    (l : List PersistedSnapshot)
    → Memᴰ e l
    → nonempty (tags_in d e) ≡ true
    → Shows d e (history_entries previous l d)
unfolding history_entries
history_entries-Shows d previous e [] m h = elim m [ ]
history_entries-Shows d previous e (x ∷ l) (Memᴰ.head same) h =
    let first = history_entry-Shows d previous e h in
    record {
      shown = first.shown;
      in_list =
          Memᴰ.append_left _
            (subst (λ y. Memᴰ first.shown (history_entry previous y d)) same first.in_list);
      same_id = first.same_id;
      same_tags = first.same_tags;
    }
history_entries-Shows d previous e (x ∷ l) (Memᴰ.tail m) h =
    let later = history_entries-Shows d (some x) e l m h in
    record {
      shown = later.shown;
      in_list = Memᴰ.append_right _ later.in_list;
      same_id = later.same_id;
      same_tags = later.same_tags;
    }

-- Every snapshot of the server in which the deployment has a tag is in the deployment's history,
-- under its id and with the deployment's tags.
pub deployment_history-Shows :
    (server d : String) (e : PersistedSnapshot) (s : Store)
    → Memᴰ e (snapshots_of server s)
    → nonempty (tags_in d e) ≡ true
    → Shows d e (deployment_history server d s)
unfolding deployment_history list
deployment_history-Shows server d e s m h =
    let there =
      history_entries-Shows d none e (reverse (reverse (snapshots_of server s)))
        (mem_reverse _ (mem_reverse _ m)) h in
    record {
      shown = there.shown;
      in_list = mem_reverse _ there.in_list;
      same_id = there.same_id;
      same_tags = there.same_tags;
    }

-- What an entry of the history of a deployment tells of a snapshot, of those from the oldest on:
-- its id, the deployment's tags in it and how many changes of the deployment there are since the
-- snapshot before it; and there is a tag or a change.
pub record IsEvent (d : String) (snapshots : List PersistedSnapshot) (h : DeploymentHistoryEntry)
    : Type 0 where
  pub earlier : List PersistedSnapshot
  pub entry : PersistedSnapshot
  pub later : List PersistedSnapshot
  pub placed : snapshots ≡ earlier ++ entry ∷ later
  pub same_id : h.id ≡ entry.id
  pub same_tags : h.tags ≡ tags_in d entry
  pub counted : h.change_count ≡ length (changes_since (get_last? earlier) entry d)
  pub happened : 1 ≤ length h.tags + h.change_count

get_last?-concat :
    (l : List PersistedSnapshot) (e : PersistedSnapshot) → get_last? (l ++ e ∷ []) ≡ some e
get_last?-concat [] e = refl
get_last?-concat (x ∷ []) e = refl
get_last?-concat (x ∷ y ∷ l) e = get_last?-concat (y ∷ l) e

module _ (d : String) (snapshots : List PersistedSnapshot) where
  history_entry-IsEvent :
      (earlier : List PersistedSnapshot) (e : PersistedSnapshot) (later : List PersistedSnapshot)
      → snapshots ≡ earlier ++ e ∷ later
      → All (IsEvent d snapshots) (history_entry (get_last? earlier) e d)
  unfolding history_entry
  history_entry-IsEvent earlier e later placed =
      let count = length (changes_since (get_last? earlier) e d) in
      elim (Bool-cases (count == 0 && length (tags_in d e) == 0)) [
        | inl quiet ↦ rw quiet tt
        | inr loud ↦ rw loud (
          record {
            earlier = earlier;
            entry = e;
            later = later;
            placed = placed;
            same_id = refl;
            same_tags = refl;
            counted = refl;
            happened = ground arith;
          },
          tt,
        )
      ]

  history_entries-IsEvent :
      (earlier rest : List PersistedSnapshot) (previous : Option PersistedSnapshot)
      → snapshots ≡ earlier ++ rest
      → previous ≡ get_last? earlier
      → All (IsEvent d snapshots) (history_entries previous rest d)
  unfolding history_entries
  history_entries-IsEvent earlier [] previous placed last = tt
  history_entries-IsEvent earlier (x ∷ rest) previous placed last =
      All-append (IsEvent d snapshots) (history_entry previous x d) _
        (rw last (history_entry-IsEvent earlier x rest placed))
        (history_entries-IsEvent (earlier ++ x ∷ []) rest (some x)
          (placed ∙ sym (append_assoc earlier (x ∷ []) rest)) (sym (get_last?-concat earlier x)))

-- Every entry of a deployment's history is of a snapshot of the server: it has the snapshot's id,
-- the deployment's tags in it and the number of the deployment's changes since the snapshot
-- before, none for the first, and there is at least one tag or one change.
pub deployment_history-IsEvent :
    (server d : String) (s : Store)
    → All (IsEvent d (snapshots_of server s)) (deployment_history server d s)
unfolding deployment_history list
deployment_history-IsEvent server d s =
    let snapshots = snapshots_of server s in
    rw (reverse-reverse snapshots) (
      All-reverse_aux (IsEvent d snapshots) (history_entries none snapshots d) []
        (history_entries-IsEvent d snapshots [] snapshots none refl refl) tt)
