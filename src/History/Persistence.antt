-- ===== src/History/Persistence.antt =====
-- What the file holds, and the well-formedness that the operations keep.
use zvia.Prelude.{
  String, ◌≡◌, refl, inl, inr, [], ◌∷◌, ◌++◌, ◌==◌, string_eq, contains, arith, Bool-cases,
  Option-cases, bind,
}
use zvia.Prelude.Dict.{lookup}
use mathlib.Core.Path.{subst}
use zvia.Topology.{TopologySnapshot}
use zvia.History.{
  Store, Result, ok, err, HistoryFile, version_3, missing, invalid, version_1, version_2, save,
  load_file, load, get, record_snapshot, add_to, add_deployment_tag, remove_deployment_tag,
  remove_server, modify_snapshot, tags_in, set_tags, erase, reset,
}

-- The file holds what the store holds.
abbrev pub IsSaved : Store → Type 0
IsSaved s = s.file ≡ version_3 s.by_server

abbrev pub OkSaved : Result Store → Type 0
OkSaved (ok s) = IsSaved s
OkSaved (err e) = Unit

save-IsSaved : (s : Store) → IsSaved (save s)
unfolding save
save-IsSaved s = refl

record_snapshot-IsSaved :
    (server : String) (x : TopologySnapshot) (s : Store) → IsSaved (record_snapshot server x s)
unfolding record_snapshot
record_snapshot-IsSaved server x s = save-IsSaved _

modify_snapshot-IsSaved :
    (server id : String) (f : _) (s : Store) → IsSaved (modify_snapshot server id f s)
unfolding modify_snapshot
modify_snapshot-IsSaved server id f s = save-IsSaved _

add_deployment_tag-OkSaved :
    (server id d tag : String) (s : Store)
    → IsSaved s
    → OkSaved (add_deployment_tag server id d tag s)
unfolding add_deployment_tag add_to
add_deployment_tag-OkSaved server id d tag s h = elim (Option-cases (lookup server s.by_server)) [
  | inl n ↦ rw (n, add_deployment_tag) h
  | inr (x, e) ↦ elim (Bool-cases (tag == "latest")) [
    | inl l ↦ rw (e, add_deployment_tag, l) tt
    | inr o ↦ elim (Option-cases (get server id s)) [
      | inl n ↦ rw (e, add_deployment_tag, o, n) h
      | inr (a, f) ↦
          rw (e, add_deployment_tag, o, f)
            (elim (Bool-cases (contains tag (tags_in d a))) [
              | inl old ↦ rw old h
              | inr new ↦
                  rw new
                    (modify_snapshot-IsSaved server id (set_tags d (tags_in d a ++ tag ∷ [])) s)
            ])
    ]
  ]
]

remove_deployment_tag-IsSaved :
    (server id d tag : String) (s : Store)
    → IsSaved s
    → IsSaved (remove_deployment_tag server id d tag s)
unfolding remove_deployment_tag
remove_deployment_tag-IsSaved server id d tag s h =
    elim (Option-cases (bind (get server id s) (λ entry. lookup d entry.deployment_tags))) [
      | inl n ↦ rw (n, remove_deployment_tag) h
      | inr (tags, e) ↦
          rw (e, remove_deployment_tag)
            (elim (Bool-cases (contains tag tags)) [
              | inl old ↦ rw old (modify_snapshot-IsSaved server id (set_tags d (erase tag tags)) s)
              | inr new ↦ rw new h
            ])
    ]

remove_server-IsSaved : (server : String) (s : Store) → IsSaved s → IsSaved (remove_server server s)
unfolding remove_server
remove_server-IsSaved server s h = elim (Option-cases (lookup server s.by_server)) [
  | inl n ↦ rw (n, remove_server) h
  | inr (x, e) ↦ rw (e, remove_server) (save-IsSaved _)
]

load_file-OkSaved : (s : Store) (f : HistoryFile) → OkSaved (load_file s f)
unfolding load_file save
load_file-OkSaved s missing = refl
load_file-OkSaved s invalid = tt
load_file-OkSaved s (version_1 old) = refl
load_file-OkSaved s (version_2 old) = refl
load_file-OkSaved s (version_3 now) = refl

load-OkSaved : (s : Store) → OkSaved (load s)
unfolding load
load-OkSaved s = load_file-OkSaved s s.file

-- A store whose file holds it is read back whole.
load_saved : (s : Store) → IsSaved s → load s ≡ ok s
unfolding load save
load_saved s h = rw (h, load) (ground arith)

-- After a restart, where the store is empty and the file as it was, the file is read back whole.
load-reset : (s : Store) → IsSaved s → load (reset s) ≡ ok s
unfolding load reset save
load-reset s h = rw (h, load) (ground arith)

-- The steps of a run of the program on the store, from any load on. A restart is a `reset` and
-- then a load.
pub data Step : Store → Store → Type 0 where
  loaded : {s t : Store} → load s ≡ ok t → Step s t
  restarted : {s t : Store} → load (reset s) ≡ ok t → Step s t
  recorded :
      {s t : Store} (server : String) (x : TopologySnapshot)
      → t ≡ record_snapshot server x s
      → Step s t
  tagged :
      {s t : Store} (server id d tag : String)
      → add_deployment_tag server id d tag s ≡ ok t
      → Step s t
  untagged :
      {s t : Store} (server id d tag : String)
      → t ≡ remove_deployment_tag server id d tag s
      → Step s t
  removed : {s t : Store} (server : String) → t ≡ remove_server server s → Step s t

pub data Run (s : Store) : Store → Type 0 where
  here : Run s s
  next : {t u : Store} → Run s t → Step t u → Run s u

Step-IsSaved : {s t : Store} → Step s t → IsSaved s → IsSaved t
Step-IsSaved (loaded {s} e) h = subst OkSaved e (load-OkSaved s)
Step-IsSaved (restarted {s} e) h = subst OkSaved e (load-OkSaved (reset s))
Step-IsSaved (recorded {s} server x e) h = rw e (record_snapshot-IsSaved server x s)
Step-IsSaved (tagged {s} server id d tag e) h =
    subst OkSaved e (add_deployment_tag-OkSaved server id d tag s h)
Step-IsSaved (untagged {s} server id d tag e) h =
    rw e (remove_deployment_tag-IsSaved server id d tag s h)
Step-IsSaved (removed {s} server e) h = rw e (remove_server-IsSaved server s h)

-- Whatever loads, records of snapshots, additions and removals of tags, removals of servers and
-- restarts follow one another on a store that its file holds: the file holds the store afterwards,
-- and a load reads the same store back, also after a reset has emptied it.
pub Run-load :
    {s t : Store} → IsSaved s → Run s t → IsSaved t × (load t ≡ ok t) × (load (reset t) ≡ ok t)
Run-load h here = (h, load_saved _ h, load-reset _ h)
Run-load h (next r step) =
    let saved = Step-IsSaved step (Run-load h r).0 in
    (saved, load_saved _ saved, load-reset _ saved)
