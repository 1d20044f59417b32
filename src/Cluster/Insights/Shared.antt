-- ===== src/Cluster/Insights/Shared.antt =====
-- What an insight on a shared backend says.
use zvia.Prelude.{
  ℕ, ◌≤◌, String, Bool, true, ◌≡◌, refl, inl, inr, List, [], ◌∷◌, ◌==◌, string_eq, length, any,
  filter, contains, contains-add, get_or, ltb, arith, eq_iff, Bool-cases, Option-cases, All,
  any_of_mem, beq_self, Memᴰ, suc,
}
use zvia.Prelude.Distinct.{Distinct, add-Distinct}
use zvia.Prelude.Dict.{Dict, lookup, insert}
use zvia.Topology.{Relationship, Deployment, TopologyEntity, TopologyInsight}
use zvia.Cluster.Insights.{
  BackendEntry, no_entry, add_relationship, note_backend, note_backends, backends_of, touches,
  insight_of, insights_of, detect_shared_backends, backend_key_from_relationship,
}

module _ (deployments : List Deployment) where
  -- The id of one of the deployments.
  abbrev pub is_id : String → Bool
  is_id id = any (λ d. d.id == id) deployments

  record IsSound (entry : BackendEntry) : Type 0 where
    differ : Distinct entry.deployment_ids
    ids : (id : String) → contains id entry.deployment_ids ≡ true → is_id id ≡ true

  Entries : Dict BackendEntry → Type 0
  Entries d = All (λ e. IsSound e.1) d

  add_relationship-IsSound :
      (id : String) (rel : Relationship) (entry : BackendEntry)
      → is_id id ≡ true
      → IsSound entry
      → IsSound (add_relationship id rel entry)
  unfolding add_relationship
  add_relationship-IsSound id rel entry known h = record {
    differ = add-Distinct entry.deployment_ids id h.differ;
    ids = λ x m. elim (Bool-cases (contains x entry.deployment_ids)) [
      | inl old ↦ h.ids x old
      | inr new ↦
          let same : id ≡ x = ground (arith, contains-add x entry.deployment_ids id, eq_iff id x) in
          rw (← same) known
    ];
  }

  lookup-IsSound :
      (key : String) (d : Dict BackendEntry) → Entries d → IsSound (get_or (lookup key d) no_entry)
  unfolding lookup no_entry Entries
  lookup-IsSound key [] h = record {
    differ = tt;
    ids = λ id m. absurd (unfold contains in ground arith);
  }
  lookup-IsSound key ((k, e) ∷ d) h = elim (Bool-cases (k == key)) [
    | inl s ↦ rw s h.0
    | inr n ↦ rw n (lookup-IsSound key d h.1)
  ]

  insert-IsSound :
      (key : String) (e : BackendEntry) (d : Dict BackendEntry)
      → IsSound e
      → Entries d
      → Entries (insert key e d)
  unfolding insert Entries
  insert-IsSound key e [] s h = (s, tt)
  insert-IsSound key e ((k, f) ∷ d) s h = elim (Bool-cases (k == key)) [
    | inl same ↦ rw same (s, h.1)
    | inr n ↦ rw n (h.0, insert-IsSound key e d s h.1)
  ]

  note_backend-IsSound :
      (entities : Dict TopologyEntity) (id : String) (d : Dict BackendEntry) (rel : Relationship)
      → is_id id ≡ true
      → Entries d
      → Entries (note_backend entities id d rel)
  unfolding note_backend
  note_backend-IsSound entities id d rel known h =
      elim (Option-cases (backend_key_from_relationship rel entities)) [
        | inl e ↦ rw (e, note_backend) h
        | inr (key, e) ↦
            rw (e, note_backend)
              (insert-IsSound key (add_relationship id rel (get_or (lookup key d) no_entry)) d
                (add_relationship-IsSound id rel (get_or (lookup key d) no_entry) known
                  (lookup-IsSound key d h))
                h)
      ]

  note_backends-IsSound :
      (entities : Dict TopologyEntity) (id : String) (d : Dict BackendEntry)
      (rels : List Relationship)
      → is_id id ≡ true
      → Entries d
      → Entries (note_backends entities id d rels)
  unfolding note_backends
  note_backends-IsSound entities id d [] known h = h
  note_backends-IsSound entities id d (rel ∷ rels) known h =
      note_backends-IsSound entities id (note_backend entities id d rel) rels known
        (note_backend-IsSound entities id d rel known h)

  backends_of-IsSound :
      (rels : List Relationship) (entities : Dict TopologyEntity) (d : Dict BackendEntry)
      (l : List Deployment)
      → ((e : Deployment) → Memᴰ e l → is_id e.id ≡ true)
      → Entries d
      → Entries (backends_of rels entities d l)
  unfolding backends_of
  backends_of-IsSound rels entities d [] known h = h
  backends_of-IsSound rels entities d (x ∷ l) known h =
      let noted = note_backends entities x.id d (filter (touches x) rels) in
      backends_of-IsSound rels entities noted l (λ e m. known e (Memᴰ.tail m))
        (note_backends-IsSound entities x.id d (filter (touches x) rels) (known x (Memᴰ.head refl))
          h)

  -- Two or more ids, all different, each of one of the deployments.
  pub record IsShared (i : TopologyInsight) : Type 0 where
    pub several : 2 ≤ length i.deployment_ids
    pub differ : Distinct i.deployment_ids
    pub ids : (id : String) → contains id i.deployment_ids ≡ true → is_id id ≡ true

  insights_of-IsShared :
      (counter : ℕ) (d : Dict BackendEntry) → Entries d → All IsShared (insights_of counter d)
  unfolding insights_of insight_of Entries
  insights_of-IsShared counter [] h = tt
  insights_of-IsShared counter ((key, entry) ∷ d) h =
      elim (Bool-cases (ltb (length entry.deployment_ids) 2)) [
        | inl few ↦ rw (few, insights_of) (insights_of-IsShared counter d h.1)
        | inr more ↦
            rw (more, insights_of)
              (
                record { several = ground arith; differ = h.0.differ; ids = h.0.ids },
                insights_of-IsShared (suc counter) d h.1,
              )
      ]

  -- Every insight names two or more deployments, each once, and all of them among those given.
  pub detect_shared_backends-IsShared :
      (rels : List Relationship) (entities : Dict TopologyEntity)
      → All IsShared (detect_shared_backends deployments rels entities)
  unfolding detect_shared_backends Entries
  detect_shared_backends-IsShared rels entities = insights_of-IsShared 0 _ (
      backends_of-IsSound rels entities [] deployments
        (λ e m. any_of_mem (λ d. d.id == e.id) deployments m (beq_self e.id)) tt)
