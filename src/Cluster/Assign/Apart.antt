-- ===== src/Cluster/Assign/Apart.antt =====
-- The deployments of containers share no resource, and each has an id of its own.
use zvia.Prelude.{
  String, true, false, ◌&&◌, ◌||◌, ◌≡◌, ap, ◌∙◌, inl, inr, List, [], ◌∷◌, ◌++◌, ◌==◌, string_eq,
  any, contains, contains_iff, contains-add, contains-add_all, add, add_all, any_of_mem, All,
  All-append, arith, eq_iff, Bool-cases,
}
use zvia.Prelude.Dict.{Dict}
use zvia.Topology.{Relationship, Deployment, TopologyEntity}
use zvia.Cluster.Containers.{ContainerCluster, collect_container_deployment_entities}
use zvia.Cluster.Containers.Names.{unique_deployment_id-fresh}
use zvia.Cluster.Assign.{
  Claims, is_footprint, footprint_overlaps, cluster_deployment, new_deployment, assign, assign_all,
  clusters, cluster_container_deployments,
}

abbrev pub Pairwise : (Deployment → Deployment → Type 0) → List Deployment → Type 0
Pairwise R [] = Unit {0}
Pairwise R (d ∷ ds) = All (R d) ds × Pairwise R ds

Pairwise-concat :
    (R : Deployment → Deployment → Type 0) (ds : List Deployment) (e : Deployment)
    → Pairwise R ds
    → All (λ d. R d e) ds
    → Pairwise R (ds ++ e ∷ [])
Pairwise-concat R [] e p a = (tt, tt)
Pairwise-concat R (d ∷ ds) e p a =
    (All-append (R d) ds (e ∷ []) p.0 (a.0, tt), Pairwise-concat R ds e p.1 a.1)

All-map :
    (P Q : Deployment → Type 0)
    → ((d : Deployment) → P d → Q d)
    → (ds : List Deployment) → All P ds
    → All Q ds
All-map P Q f [] a = tt
All-map P Q f (d ∷ ds) a = (f d a.0, All-map P Q f ds a.1)

module _ (relationships : List Relationship) (entities : Dict TopologyEntity) where
  -- The deployment has an id and resources that are not among these.
  pub record IsApart (taken : List String) (d : Deployment) : Type 0 where
    pub id_free : contains d.id taken ≡ false
    pub resources_free :
        (id : String)
        → contains id taken ≡ true
        → contains id d.entity_ids ≡ true
        → is_footprint relationships entities id ≡ false

  -- No two deployments have one id, or a container, port or compose project in common.
  pub record Separate (d e : Deployment) : Type 0 where
    pub ids_differ : (d.id == e.id) ≡ false
    pub no_shared :
        (id : String)
        → contains id d.entity_ids ≡ true
        → contains id e.entity_ids ≡ true
        → is_footprint relationships entities id ≡ false

  record IsClaimed (taken : List String) (d : Deployment) : Type 0 where
    id_taken : contains d.id taken ≡ true
    entities_taken : (id : String) → contains id d.entity_ids ≡ true → contains id taken ≡ true

  record Invariant (start : List String) (s : Claims) : Type 0 where
    start_claimed : (id : String) → contains id start ≡ true → contains id s.claimed_ids ≡ true
    claimed : All (IsClaimed s.claimed_ids) s.deployments
    apart : All (IsApart start) s.deployments
    separate : Pairwise Separate s.deployments

  no_overlap :
      (entity_ids taken : List String)
      → footprint_overlaps relationships entities entity_ids taken ≡ false
      → (id : String) → contains id taken ≡ true
      → contains id entity_ids ≡ true
      → is_footprint relationships entities id ≡ false
  unfolding footprint_overlaps
  no_overlap ids taken h id t m = ground (
    arith,
    any_of_mem (λ x. is_footprint relationships entities x && contains x taken) ids
        ((contains_iff id ids).0 m),
  )

  IsClaimed-grows :
      (t u : List String)
      → ((id : String) → contains id t ≡ true → contains id u ≡ true)
      → (d : Deployment) → IsClaimed t d
      → IsClaimed u d
  IsClaimed-grows t u g d c = record {
    id_taken = g d.id c.id_taken;
    entities_taken = λ id m. g id (c.entities_taken id m);
  }

  add_deployment : Claims → Deployment → Claims
  add_deployment s d = record {
    deployments = s.deployments ++ d ∷ [];
    claimed_ids = add_all (add s.claimed_ids d.id) d.entity_ids;
  }

  add_deployment-Invariant :
      (start : List String) (s : Claims) (d : Deployment)
      → IsApart s.claimed_ids d
      → Invariant start s
      → Invariant start (add_deployment s d)
  unfolding add_deployment
  add_deployment-Invariant start s d free i = record {
    start_claimed = λ id m. grows id (i.start_claimed id m);
    claimed =
        All-append (IsClaimed new) s.deployments (d ∷ [])
          (All-map (IsClaimed s.claimed_ids) (IsClaimed new)
            (IsClaimed-grows s.claimed_ids new grows) s.deployments i.claimed)
          (own, tt);
    apart = All-append (IsApart start) s.deployments (d ∷ []) i.apart (from_start, tt);
    separate =
        Pairwise-concat Separate s.deployments d i.separate (
          All-map (IsClaimed s.claimed_ids) (λ e. Separate e d) apart_from s.deployments i.claimed);
  }
    where
      new : List String
      new = add_all (add s.claimed_ids d.id) d.entity_ids

      in_new :
          (id : String)
          → contains id new
            ≡ ((contains id s.claimed_ids || d.id == id) || contains id d.entity_ids)
      in_new id =
          contains-add_all id (add s.claimed_ids d.id) d.entity_ids
          ∙ ap (λ b. b || contains id d.entity_ids) (contains-add id s.claimed_ids d.id)

      grows : (id : String) → contains id s.claimed_ids ≡ true → contains id new ≡ true
      grows id m = ground (arith, in_new id)

      own : IsClaimed new d
      own = record {
        id_taken = ground (arith, in_new d.id, eq_iff d.id d.id);
        entities_taken = λ id m. ground (arith, in_new id);
      }

      from_start : IsApart start d
      from_start = record {
        id_free = elim (Bool-cases (contains d.id start)) [
          | inl m ↦ absurd (ground (arith, i.start_claimed d.id m, free.id_free))
          | inr n ↦ n
        ];
        resources_free = λ id m. free.resources_free id (i.start_claimed id m);
      }

      apart_from : (e : Deployment) → IsClaimed s.claimed_ids e → Separate e d
      apart_from e c = record {
        ids_differ = elim (Bool-cases (e.id == d.id)) [
          | inl same ↦ absurd (ground (arith, eq_iff e.id d.id, c.id_taken, free.id_free))
          | inr n ↦ n
        ];
        no_shared = λ id m n. free.resources_free id (c.entities_taken id m) n;
      }

  assign-Invariant :
      (start : List String) (s : Claims) (cluster : ContainerCluster)
      → Invariant start s
      → Invariant start (assign relationships entities s cluster)
  unfolding assign add_deployment cluster_deployment new_deployment
  assign-Invariant start s cluster i =
      let ids = collect_container_deployment_entities relationships entities cluster.members in
      elim (Bool-cases (any (λ id. contains id s.claimed_ids) cluster.members)) [
        | inl c ↦ rw c i
        | inr n ↦ elim (Bool-cases (footprint_overlaps relationships entities ids s.claimed_ids)) [
          | inl o ↦ rw (n, o) i
          | inr clear ↦
              rw (n, clear)
                (add_deployment-Invariant start s
                  (cluster_deployment relationships entities cluster s.claimed_ids)
                  (record {
                    id_free = unique_deployment_id-fresh _ s.claimed_ids;
                    resources_free = no_overlap ids s.claimed_ids clear;
                  })
                  i)
        ]
      ]

  assign_all-Invariant :
      (start : List String) (s : Claims) (l : List ContainerCluster)
      → Invariant start s
      → Invariant start (assign_all relationships entities s l)
  unfolding assign_all
  assign_all-Invariant start s [] i = i
  assign_all-Invariant start s (c ∷ l) i =
      assign_all-Invariant start (assign relationships entities s c) l
        (assign-Invariant start s c i)

  final :
      (start : List String)
      → Invariant start (
          assign_all relationships entities
            (record { deployments = []; claimed_ids = start })
            (clusters relationships entities))
  final start =
      assign_all-Invariant start _ (clusters relationships entities)
        (record { start_claimed = λ id m. m; claimed = tt; apart = tt; separate = tt })

  -- No two deployments made of containers have the same id, or share a container, a port or a
  -- compose project.
  pub cluster_container_deployments-Separate :
      (claimed : List String)
      → Pairwise Separate (cluster_container_deployments relationships entities claimed)
  unfolding cluster_container_deployments
  cluster_container_deployments-Separate claimed = (final claimed).separate

  -- No deployment made of containers has an id that was claimed before, or takes in a container,
  -- a port or a compose project that a domain claimed.
  pub cluster_container_deployments-IsApart :
      (claimed : List String)
      → All (IsApart claimed) (cluster_container_deployments relationships entities claimed)
  unfolding cluster_container_deployments
  cluster_container_deployments-IsApart claimed = (final claimed).apart
