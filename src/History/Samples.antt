-- ===== src/History/Samples.antt =====
-- Stores for the tests: ten snapshots with the first one tagged, and ten that are all tagged.
use zvia.Prelude.{
  String, ◌≤◌, ◌<◌, ◌≡◌, false, refl, List, [], ◌∷◌, string_eq, length, any, filter, All, arith,
}
use zvia.Topology.Samples.{before, entities, snapshot}
use zvia.History.{
  history, PersistedSnapshot, Store, version_3, history_per_server_limit, has_id, is_tagged,
  snapshots_of, fresh_entry,
}
use zvia.History.Eviction.{IsTagged}

abbrev pub entry : String → PersistedSnapshot
entry id = fresh_entry (snapshot id entities [])

abbrev pub tagged_entry : String → PersistedSnapshot
tagged_entry id = record {
  id = id;
  scanned_at = id;
  snapshot = snapshot id entities [];
  deployment_tags = ("d", "v1" ∷ []) ∷ [];
}

abbrev pub store : List PersistedSnapshot → Store
store l =
    let by_server = ("s1", record { snapshots = l }) ∷ [] in
    record { by_server = by_server; file = version_3 by_server }

-- ten snapshots: the first is tagged
abbrev pub full : Store
full = store (
    tagged_entry "a0"
    ∷ entry "a1"
    ∷ entry "a2"
    ∷ entry "a3"
    ∷ entry "a4"
    ∷ entry "a5"
    ∷ entry "a6"
    ∷ entry "a7"
    ∷ entry "a8"
    ∷ entry "a9"
    ∷ [])

abbrev pub all_tagged : Store
all_tagged = store (
    tagged_entry "a0"
    ∷ tagged_entry "a1"
    ∷ tagged_entry "a2"
    ∷ tagged_entry "a3"
    ∷ tagged_entry "a4"
    ∷ tagged_entry "a5"
    ∷ tagged_entry "a6"
    ∷ tagged_entry "a7"
    ∷ tagged_entry "a8"
    ∷ tagged_entry "a9"
    ∷ [])

pub full-new : any (has_id before.scanned_at) (snapshots_of "s1" full) ≡ false
unfolding history
full-new = refl

pub full-few : length (filter is_tagged (snapshots_of "s1" full)) < history_per_server_limit
unfolding history
full-few = omega arith

pub all_tagged-new : any (has_id before.scanned_at) (snapshots_of "s1" all_tagged) ≡ false
unfolding history
all_tagged-new = refl

pub all_tagged-many : history_per_server_limit ≤ length (snapshots_of "s1" all_tagged)
unfolding history
all_tagged-many = omega arith

pub all_tagged-IsTagged : All IsTagged (snapshots_of "s1" all_tagged)
unfolding history
all_tagged-IsTagged =
    (refl, (refl, (refl, (refl, (refl, (refl, (refl, (refl, (refl, (refl, tt))))))))))
