-- ===== src/History/Eviction.antt =====
-- Recording a snapshot and dropping old ones.
use zvia.Prelude.{
  ℕ, zero, suc, ◌≤◌, ◌<◌, String, Bool, true, false, ◌≡◌, refl, ap, ◌∙◌, ◌⊎◌, inl, inr, none, some,
  List, [], ◌∷◌, ◌++◌, ◌==◌, string_eq, length, length-append, any, filter, filter-append, find,
  get_last?, All, arith, beq_self, ltb, Bool-cases, Option-cases,
}
use mathlib.Core.List.{append-nil}
use zvia.Prelude.Dict.{lookup, lookup-insert}
use zvia.Topology.{TopologySnapshot}
use zvia.History.{
  PersistedSnapshot, Store, history_per_server_limit, has_id, is_tagged, drop_untagged, evict,
  fresh_entry, push_snapshot, record_snapshot, save, snapshots_of, latest, get,
}

abbrev Snapshots : Type 0
Snapshots = List PersistedSnapshot

abbrev pub IsTagged : PersistedSnapshot → Type 0
IsTagged entry = is_tagged entry ≡ true

-- What `drop_untagged` answers.
drop_cases :
    (l : Snapshots)
    → ((drop_untagged l ≡ none) × All IsTagged l)
      ⊎ ((r : Snapshots) × (drop_untagged l ≡ some r)
          × (length l ≡ suc (length r))
          × (filter is_tagged r ≡ filter is_tagged l)
          × ((p : PersistedSnapshot → Bool) → any p l ≡ false → any p r ≡ false))
unfolding drop_untagged filter any
drop_cases [] = inl (refl, tt)
drop_cases (e ∷ l) = elim (Bool-cases (is_tagged e)) [
  | inr no_tag ↦ inr (l, rw no_tag, refl, rw no_tag, λ p h. ground arith)
  | inl tag ↦ elim (drop_cases l) [
    | inl (n, all) ↦ inl (rw (tag, n), (tag, all))
    | inr (r, s, len, same, less) ↦
        inr (e ∷ r, rw (tag, s), ap suc len, rw (tag, same), λ p h. ground (arith, less p))
  ]
]

-- Eviction drops no tagged snapshot.
filter-evict : (f : ℕ) (l : Snapshots) → filter is_tagged (evict f l) ≡ filter is_tagged l
unfolding evict
filter-evict zero l = refl
filter-evict (suc f) l = elim (Bool-cases (ltb 10 (length l))) [
  | inr small ↦ rw small
  | inl big ↦ elim (drop_cases l) [
    | inl (n, _) ↦ rw (big, n)
    | inr (r, s, _, same, _) ↦ rw (big, s) (filter-evict f r ∙ same)
  ]
]

evict_bound :
    (f : ℕ) (l : Snapshots)
    → length l ≤ f
    → (length (evict f l) ≤ history_per_server_limit) ⊎ All IsTagged (evict f l)
unfolding evict
evict_bound zero l h = inl (omega arith)
evict_bound (suc f) l h = elim (Bool-cases (ltb 10 (length l))) [
  | inr small ↦ inl (rw small (ground arith))
  | inl big ↦ elim (drop_cases l) [
    | inl (n, all) ↦ inr (rw (big, n) all)
    | inr (r, s, len, _, _) ↦ rw (big, s) (evict_bound f r (omega arith))
  ]
]

module _ (e : PersistedSnapshot) (untagged : is_tagged e ≡ false) where
  drop-last_tagged : (l : Snapshots) → All IsTagged l → drop_untagged (l ++ e ∷ []) ≡ some l
  unfolding drop_untagged
  drop-last_tagged [] h = rw untagged
  drop-last_tagged (x ∷ l) h = rw (h.0, drop-last_tagged l h.1)

  drop-last_untagged :
      (l r : Snapshots)
      → drop_untagged l ≡ some r
      → drop_untagged (l ++ e ∷ []) ≡ some (r ++ e ∷ [])
  unfolding drop_untagged
  drop-last_untagged [] r h = absurd (ground arith)
  drop-last_untagged (x ∷ l) r h = elim (Bool-cases (is_tagged x)) [
    | inr no_tag ↦ let h' : some l ≡ some r = rw no_tag at h in rw no_tag (cc)
    | inl tag ↦ elim (Option-cases (drop_untagged l)) [
      | inl n ↦ let h' : none ≡ some r = rw (tag, n) at h in absurd (ground arith)
      | inr (r', s) ↦
          let h' : some (x ∷ r') ≡ some r = rw (tag, s) at h in
          rw (tag, drop-last_untagged l r' s) (cc)
    ]
  ]

length-filter-All : (l : Snapshots) → All IsTagged l → length (filter is_tagged l) ≡ length l
unfolding filter
length-filter-All [] h = refl
length-filter-All (x ∷ l) h = rw h.0 (ap suc (length-filter-All l h.1))

drop-All_tagged : (l : Snapshots) → All IsTagged l → drop_untagged l ≡ none
unfolding drop_untagged
drop-All_tagged [] h = refl
drop-All_tagged (x ∷ l) h = rw (h.0, drop-All_tagged l h.1)

evict-All_tagged : (f : ℕ) (l : Snapshots) → All IsTagged l → evict f l ≡ l
unfolding evict
evict-All_tagged zero l h = refl
evict-All_tagged (suc f) l h = elim (Bool-cases (ltb 10 (length l))) [
  | inr small ↦ rw small
  | inl big ↦ rw (big, drop-All_tagged l h)
]

-- While fewer than ten snapshots are tagged, the newest one stays.
evict-keeps_last :
    (e : PersistedSnapshot)
    → is_tagged e ≡ false
    → (p : PersistedSnapshot → Bool) (f : ℕ) (l : Snapshots)
    → length (filter is_tagged l) < history_per_server_limit
    → any p l ≡ false
    → (r : Snapshots) × (evict f (l ++ e ∷ []) ≡ r ++ e ∷ []) × (any p r ≡ false)
unfolding evict
evict-keeps_last e u p zero l few h = (l, refl, h)
evict-keeps_last e u p (suc f) l few h = elim (Bool-cases (ltb 10 (length (l ++ e ∷ [])))) [
  | inr small ↦ (l, rw small, h)
  | inl big ↦ elim (drop_cases l) [
    | inl (n, all) ↦ absurd (ground (arith, length-filter-All l all, length-append l (e ∷ [])))
    | inr (r, s, len, same, less) ↦
        let (r', t, q) = evict-keeps_last e u p f r (rw same few) (less p h) in
        (r', rw (big, drop-last_untagged e u l r s) t, q)
  ]
]

pub fresh_entry_untagged : (x : TopologySnapshot) → is_tagged (fresh_entry x) ≡ false
unfolding is_tagged fresh_entry any
fresh_entry_untagged x = refl

filter-push_snapshot :
    (x : TopologySnapshot) (l : Snapshots)
    → filter is_tagged (push_snapshot x l) ≡ filter is_tagged l
unfolding push_snapshot
filter-push_snapshot x l = elim (Bool-cases (any (has_id x.scanned_at) l)) [
  | inl old ↦ rw old
  | inr new ↦ rw new (
      filter-evict (length (l ++ fresh_entry x ∷ [])) (l ++ fresh_entry x ∷ [])
      ∙ filter-append is_tagged l (fresh_entry x ∷ [])
      ∙ rw append-nil-filter)
]
  where
    append-nil-filter :
        filter is_tagged l ++ filter is_tagged (fresh_entry x ∷ []) ≡ filter is_tagged l
    append-nil-filter =
        unfold filter in rw (fresh_entry_untagged x) (append-nil (filter is_tagged l))

snapshots_of-record_self :
    (server : String) (x : TopologySnapshot) (s : Store)
    → snapshots_of server (record_snapshot server x s) ≡ push_snapshot x (snapshots_of server s)
unfolding record_snapshot save
snapshots_of-record_self server x s = rw lookup-insert (rw (beq_self server))

-- Recording a snapshot keeps every tagged snapshot of the server, in order and with its tags, and
-- leaves another server alone.
pub record_snapshot-keeps_tagged :
    (server other : String) (x : TopologySnapshot) (s : Store)
    → (server == other) ≡ false
    → (filter is_tagged (snapshots_of server (record_snapshot server x s))
        ≡ filter is_tagged (snapshots_of server s))
      × (lookup other (record_snapshot server x s).by_server ≡ lookup other s.by_server)
unfolding record_snapshot save
record_snapshot-keeps_tagged server other x s ne = (
  ap (filter is_tagged) (snapshots_of-record_self server x s)
      ∙ filter-push_snapshot x (snapshots_of server s),
  rw lookup-insert (rw ne),
)

-- After a new snapshot is recorded, the server has at most ten, or has tagged ones alone.
pub record_snapshot_bound :
    (server : String) (x : TopologySnapshot) (s : Store)
    → any (has_id x.scanned_at) (snapshots_of server s) ≡ false
    → (length (snapshots_of server (record_snapshot server x s)) ≤ history_per_server_limit)
      ⊎ All IsTagged (snapshots_of server (record_snapshot server x s))
unfolding push_snapshot
record_snapshot_bound server x s new =
    rw (snapshots_of-record_self server x s)
      (rw new (evict_bound _ (snapshots_of server s ++ fresh_entry x ∷ []) (omega arith)))

get_last?-append : (l : Snapshots) (e : PersistedSnapshot) → get_last? (l ++ e ∷ []) ≡ some e
get_last?-append [] e = refl
get_last?-append (x ∷ []) e = refl
get_last?-append (x ∷ y ∷ l) e = get_last?-append (y ∷ l) e

pub find-append :
    (p : PersistedSnapshot → Bool) (l : Snapshots) (e : PersistedSnapshot)
    → any p l ≡ false
    → p e ≡ true
    → find p (l ++ e ∷ []) ≡ some e
unfolding find any
find-append p [] e h k = rw k
find-append p (x ∷ l) e h k =
    let first : p x ≡ false = ground arith in rw first (find-append p l e (ground arith) k)

-- A new snapshot is the latest one and is found under its id, if fewer than ten of the server's
-- snapshots are tagged.
pub record_snapshot-latest :
    (server : String) (x : TopologySnapshot) (s : Store)
    → any (has_id x.scanned_at) (snapshots_of server s) ≡ false
    → length (filter is_tagged (snapshots_of server s)) < history_per_server_limit
    → (latest server (record_snapshot server x s) ≡ some (fresh_entry x))
      × (get server x.scanned_at (record_snapshot server x s) ≡ some (fresh_entry x))
unfolding latest get push_snapshot
record_snapshot-latest server x s new few =
    let l = snapshots_of server s in
    let (r, e, q) =
      evict-keeps_last (fresh_entry x) (fresh_entry_untagged x) (has_id x.scanned_at)
        (length (l ++ fresh_entry x ∷ [])) l few new in
    (
      rw (snapshots_of-record_self server x s) (rw (new, e) (get_last?-append r (fresh_entry x))),
      rw (snapshots_of-record_self server x s) (
          rw (new, e)
            (find-append (has_id x.scanned_at) r (fresh_entry x) q
              (unfold fresh_entry in beq_self x.scanned_at))),
    )

pub find-none : (p : PersistedSnapshot → Bool) (l : Snapshots) → any p l ≡ false → find p l ≡ none
unfolding find any
find-none p [] h = refl
find-none p (x ∷ l) h =
    let first : p x ≡ false = ground arith in rw first (find-none p l (ground arith))

evict-drops_last :
    (e : PersistedSnapshot)
    → is_tagged e ≡ false
    → (f : ℕ) (l : Snapshots) → All IsTagged l
    → 10 ≤ length l
    → evict (suc f) (l ++ e ∷ []) ≡ l
unfolding evict
evict-drops_last e u f l all many =
    let big : ltb 10 (length (l ++ e ∷ [])) ≡ true = ground (arith, length-append l (e ∷ [])) in
    rw (big, drop-last_tagged e u l all) (evict-All_tagged f l all)

-- A new snapshot is dropped at once if the server has ten snapshots or more and all are tagged:
-- nothing is found under the id that `record` returns.
pub record_snapshot-dropped :
    (server : String) (x : TopologySnapshot) (s : Store)
    → any (has_id x.scanned_at) (snapshots_of server s) ≡ false
    → history_per_server_limit ≤ length (snapshots_of server s)
    → All IsTagged (snapshots_of server s)
    → (snapshots_of server (record_snapshot server x s) ≡ snapshots_of server s)
      × (get server x.scanned_at (record_snapshot server x s) ≡ none)
unfolding get push_snapshot
record_snapshot-dropped server x s new many all =
    let l = snapshots_of server s in
    let n : length (l ++ fresh_entry x ∷ []) ≡ suc (length l) =
      omega (arith, length-append l (fresh_entry x ∷ [])) in
    let kept : push_snapshot x l ≡ l =
      rw (new, n)
        (evict-drops_last (fresh_entry x) (fresh_entry_untagged x) (length l) l all many) in
    (
      snapshots_of-record_self server x s ∙ kept,
      rw (snapshots_of-record_self server x s) (rw kept (find-none (has_id x.scanned_at) l new)),
    )
