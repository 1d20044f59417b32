-- ===== src/History/Tags.antt =====
-- Tagging: what a tag operation changes, and the invariant of the tags.
use zvia.Prelude.{
  String, true, false, not, ◌&&◌, ◌||◌, ◌≡◌, refl, sym, ap, ◌∙◌, inl, inr, none, some, List, [],
  ◌∷◌, ◌++◌, ◌==◌, string_eq, find, contains, contains-append, arith, eq_iff, beq_self,
  if◌then◌else◌, Bool-cases, Option-cases,
}
use zvia.Prelude.Distinct.{Distinct}
use zvia.Prelude.Dict.{lookup, lookup-insert}
use mathlib.Core.Path.{subst}
use zvia.History.{
  PersistedSnapshot, ServerHistory, Store, ok, err, reserved, has_id, tags_in, snapshots_of, get,
  get_deployment_tags, save, modify, set_tags, modify_snapshot, add_to, add_deployment_tag, erase,
  remove_deployment_tag,
}

abbrev Snapshots : Type 0
Snapshots = List PersistedSnapshot

find-modify :
    (id : String) (f : PersistedSnapshot → PersistedSnapshot) (l : Snapshots)
    (a : PersistedSnapshot)
    → ((x : PersistedSnapshot) → (f x).id ≡ x.id)
    → find (has_id id) l ≡ some a
    → find (has_id id) (modify id f l) ≡ some (f a)
unfolding find modify
find-modify id f [] a same h = absurd (ground arith)
find-modify id f (x ∷ l) a same h = elim (Bool-cases (x.id == id)) [
  | inl e ↦
      let h' : some x ≡ some a = rw e at h in
      let e' : ((f x).id == id) ≡ true = rw (same x) e in rw e (rw e' (cc))
  | inr n ↦
      let h' : find (has_id id) l ≡ some a = rw n at h in rw n (rw n (find-modify id f l a same h'))
]

get-modify_snapshot :
    (server id : String) (f : PersistedSnapshot → PersistedSnapshot) (s : Store)
    (a : PersistedSnapshot)
    → ((x : PersistedSnapshot) → (f x).id ≡ x.id)
    → get server id s ≡ some a
    → get server id (modify_snapshot server id f s) ≡ some (f a)
unfolding get modify_snapshot save
get-modify_snapshot server id f s a same h =
    rw lookup-insert (rw (beq_self server) (find-modify id f (snapshots_of server s) a same h))

-- What the tags of a snapshot are after they were set.
tags_in-set_tags :
    (d d' : String) (tags : List String) (a : PersistedSnapshot)
    → tags_in d' (set_tags d tags a) ≡ (if d == d' then tags else tags_in d' a)
unfolding set_tags
tags_in-set_tags d d' tags a =
    rw lookup-insert (elim (Bool-cases (d == d')) [ inl e ↦ rw e | inr n ↦ rw n ])

contains-concat : (t : String) (ts : List String) → contains t (ts ++ t ∷ []) ≡ true
contains-concat t ts = rw contains-append (unfold contains in rw (beq_self t) (ground arith))

pub tags_of_get :
    (server id d : String) (s : Store) (a : PersistedSnapshot)
    → get server id s ≡ some a
    → get_deployment_tags server id d s ≡ tags_in d a
unfolding get_deployment_tags
tags_of_get server id d s a h = rw h

server_of_get :
    (server id : String) (s : Store) (a : PersistedSnapshot)
    → get server id s ≡ some a
    → (h : ServerHistory) × (lookup server s.by_server ≡ some h)
unfolding get find
server_of_get server id s a h = elim (Option-cases (lookup server s.by_server)) [
  | inr (x, e) ↦ (x, e)
  | inl n ↦ let h' : none ≡ some a = rw n at h in absurd (ground arith)
]

-- A tag for a snapshot that is not there goes nowhere, without an error.
pub add_deployment_tag-missing :
    (server id d tag : String) (s : Store)
    → get server id s ≡ none
    → (tag == "latest") ≡ false
    → add_deployment_tag server id d tag s ≡ ok s
unfolding add_deployment_tag
add_deployment_tag-missing server id d tag s gone other =
    elim (Option-cases (lookup server s.by_server)) [
      | inl n ↦ rw (n, add_deployment_tag)
      | inr (h, e) ↦ rw (e, add_deployment_tag, other, gone)
    ]

abbrev pub added : String → List String → List String
added tag tags = if contains tag tags then tags else tags ++ tag ∷ []

module _ (server id d tag : String) (s : Store) (a : PersistedSnapshot)
    (found : get server id s ≡ some a) where
  tags-add_to :
      (d' : String)
      → get_deployment_tags server id d' (add_to server id d tag s a)
        ≡ (if d == d' then added tag (tags_in d a) else tags_in d' a)
  unfolding add_to
  tags-add_to d' = elim (Bool-cases (contains tag (tags_in d a))) [
    | inl old ↦ rw old (
        tags_of_get server id d' s a found ∙ elim (Bool-cases (d == d')) [
          | inl e ↦ rw e (ap (λ k. tags_in k a) (sym ((eq_iff d d').0 e)))
          | inr n ↦ rw n
        ])
    | inr new ↦
        let after =
          get-modify_snapshot server id (set_tags d (tags_in d a ++ tag ∷ [])) s a
            (λ x. unfold set_tags in refl) found in
        rw new
          (tags_of_get server id d' _ _ after ∙ tags_in-set_tags d d' (tags_in d a ++ tag ∷ []) a)
  ]

  -- The snapshot after its tag was added.
  pub get-add_to :
      get server id (add_to server id d tag s a)
      ≡ some (if contains tag (tags_in d a) then a else set_tags d (tags_in d a ++ tag ∷ []) a)
  unfolding add_to
  get-add_to = elim (Bool-cases (contains tag (tags_in d a))) [
    | inl old ↦ rw old found
    | inr new ↦ rw new (
        get-modify_snapshot server id (set_tags d (tags_in d a ++ tag ∷ [])) s a
          (λ x. unfold set_tags in refl) found)
  ]

  add_latest : (tag == "latest") ≡ true → add_deployment_tag server id d tag s ≡ err reserved
  unfolding add_deployment_tag
  add_latest e =
      let (h, there) = server_of_get server id s a found in rw (there, add_deployment_tag, e)

  add_other :
      (tag == "latest") ≡ false
      → add_deployment_tag server id d tag s ≡ ok (add_to server id d tag s a)
  unfolding add_deployment_tag
  add_other e =
      let (h, there) = server_of_get server id s a found in rw (there, add_deployment_tag, e, found)

  -- Adding a tag to a snapshot that is there: "latest" is refused; otherwise the deployment has
  -- the tags it had and, behind them unless it was among them, the new one, and every other
  -- deployment has the tags it had.
  pub add_deployment_tag_lem :
      (d' : String)
      → (add_deployment_tag server id d tag s
          ≡ (if tag == "latest" then err reserved else ok (add_to server id d tag s a)))
        × (get_deployment_tags server id d' (add_to server id d tag s a) ≡ (
            if d == d'
            then added tag (get_deployment_tags server id d s)
            else get_deployment_tags server id d' s))
  add_deployment_tag_lem d' = (
    elim (Bool-cases (tag == "latest")) [
      | inl e ↦ rw e (add_latest e)
      | inr e ↦ rw e (add_other e)
    ],
    rw (tags_of_get server id d s a found, tags_of_get server id d' s a found) (tags-add_to d'),
  )

-- Without the tag that is erased once, a list with distinct tags does not hold it.
contains-erase_self :
    (t : String) (ts : List String) → Distinct ts → contains t (erase t ts) ≡ false
unfolding contains erase
contains-erase_self t [] h = refl
contains-erase_self t (u ∷ ts) h = elim (Bool-cases (u == t)) [
  | inl e ↦ rw e (subst (λ x. contains x ts ≡ false) ((eq_iff u t).0 e) h.0)
  | inr n ↦ rw n (rw n (contains-erase_self t ts h.1))
]

contains-erase_ne :
    (t v : String) (ts : List String) → (t == v) ≡ false → contains v (erase t ts) ≡ contains v ts
unfolding contains erase
contains-erase_ne t v [] h = refl
contains-erase_ne t v (u ∷ ts) h = elim (Bool-cases (u == t)) [
  | inl e ↦ rw e (ground (arith, eq_iff u t, eq_iff u v, eq_iff t v))
  | inr n ↦ rw n (ap (λ r. u == v || r) (contains-erase_ne t v ts h))
]

erase-absent : (t : String) (ts : List String) → contains t ts ≡ false → erase t ts ≡ ts
unfolding contains erase
erase-absent t [] h = refl
erase-absent t (u ∷ ts) h =
    let n : (u == t) ≡ false = ground arith in
    rw n (ap (λ r. u ∷ r) (erase-absent t ts (ground arith)))

module _ (server id d tag : String) (s : Store) (a : PersistedSnapshot)
    (found : get server id s ≡ some a) where
  tags-unchanged :
      (d' : String)
      → erase tag (tags_in d a) ≡ tags_in d a
      → get_deployment_tags server id d' s
        ≡ (if d == d' then erase tag (tags_in d a) else tags_in d' a)
  tags-unchanged d' same = tags_of_get server id d' s a found ∙ elim (Bool-cases (d == d')) [
    | inl e ↦ rw e (ap (λ k. tags_in k a) (sym ((eq_iff d d').0 e)) ∙ sym same)
    | inr n ↦ rw n
  ]

  tags-remove :
      (d' : String)
      → get_deployment_tags server id d' (remove_deployment_tag server id d tag s)
        ≡ (if d == d' then erase tag (tags_in d a) else tags_in d' a)
  unfolding remove_deployment_tag
  tags-remove d' = elim (Option-cases (lookup d a.deployment_tags)) [
    | inl n ↦
        let held : tags_in d a ≡ [] = rw n in
        rw (found, remove_deployment_tag, n)
          (tags-unchanged d' (rw held (unfold erase in refl)) ∙ rw held)
    | inr (tags, e) ↦
        let held : tags_in d a ≡ tags = rw e in
        elim (Bool-cases (contains tag tags)) [
          | inl old ↦
              let after =
                get-modify_snapshot server id (set_tags d (erase tag tags)) s a
                  (λ x. unfold set_tags in refl) found in
              rw (found, remove_deployment_tag, e, old)
                (tags_of_get server id d' _ _ after ∙ tags_in-set_tags d d' (erase tag tags) a)
          | inr new ↦
              rw (found, remove_deployment_tag, e, new)
                (tags-unchanged d' (rw held (erase-absent tag tags new)) ∙ rw held)
        ]
  ]

  contains-remove :
      (other : String)
      → Distinct (tags_in d a)
      → contains other (erase tag (tags_in d a))
        ≡ (contains other (tags_in d a) && not (tag == other))
  contains-remove other distinct = elim (Bool-cases (tag == other)) [
    | inl e ↦
        let gone : contains other (erase tag (tags_in d a)) ≡ false =
          subst (λ x. contains x (erase tag (tags_in d a)) ≡ false) ((eq_iff tag other).0 e)
            (contains-erase_self tag (tags_in d a) distinct) in
        rw (e, gone) (ground arith)
    | inr n ↦ rw (n, contains-erase_ne tag other (tags_in d a) n) (ground arith)
  ]

  -- Removing a tag from a snapshot that is there, where the deployment's tags are distinct: the
  -- deployment has the tags it had but this one, and every other deployment has those it had.
  pub remove_deployment_tag_lem :
      (d' other : String)
      → Distinct (get_deployment_tags server id d s)
      → contains other (get_deployment_tags server id d' (remove_deployment_tag server id d tag s))
        ≡ (contains other (get_deployment_tags server id d' s) && not (d == d' && tag == other))
  remove_deployment_tag_lem d' other distinct =
      let before = tags_of_get server id d s a found in
      let before' = tags_of_get server id d' s a found in
      elim (Bool-cases (d == d')) [
        | inl e ↦
            let same : tags_in d a ≡ tags_in d' a = ap (λ k. tags_in k a) ((eq_iff d d').0 e) in
            rw (tags-remove d', before', e)
              (contains-remove other (subst Distinct before distinct) ∙ rw same)
        | inr n ↦ rw (tags-remove d', before', n) (ground arith)
      ]
