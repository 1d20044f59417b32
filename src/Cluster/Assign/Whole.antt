-- ===== src/Cluster/Assign/Whole.antt =====
-- All deployments together: those of the domains, then those of the containers.
use zvia.Prelude.{
  String, true, false, ◌≡◌, refl, sym, ap, ◌∙◌, List, [], ◌∷◌, ◌++◌, map, string_eq, contains,
  contains-add_all, All, arith,
}
use zvia.Topology.{Deployment}
use zvia.Cluster.{ClusterInput}
use zvia.Cluster.Domains.{primary_domains}
use zvia.Cluster.Assign.{
  Claims, is_footprint, domain_deployment, claim_domain, claim_domains,
  cluster_container_deployments, cluster_deployments,
}
use zvia.Cluster.Assign.Apart.{IsApart, cluster_container_deployments-IsApart}

append_assoc : (xs ys zs : List Deployment) → (xs ++ ys) ++ zs ≡ xs ++ (ys ++ zs)
append_assoc [] ys zs = refl
append_assoc (x ∷ xs) ys zs = ap (λ l. x ∷ l) (append_assoc xs ys zs)

append_nil : (xs : List Deployment) → xs ++ [] ≡ xs
append_nil [] = refl
append_nil (x ∷ xs) = ap (λ l. x ∷ l) (append_nil xs)

claim_domains-deployments :
    (input : ClusterInput) (s : Claims) (names : List String)
    → (claim_domains input s names).deployments
      ≡ s.deployments ++ map (domain_deployment input) names
unfolding claim_domains claim_domain
claim_domains-deployments input s [] = sym (append_nil s.deployments)
claim_domains-deployments input s (name ∷ names) =
    claim_domains-deployments input (claim_domain input s name) names
    ∙ append_assoc s.deployments (domain_deployment input name ∷ [])
        (map (domain_deployment input) names)

claim_domains-keeps :
    (input : ClusterInput) (s : Claims) (names : List String) (id : String)
    → contains id s.claimed_ids ≡ true
    → contains id (claim_domains input s names).claimed_ids ≡ true
unfolding claim_domains claim_domain
claim_domains-keeps input s [] id h = h
claim_domains-keeps input s (name ∷ names) id h =
    claim_domains-keeps input (claim_domain input s name) names id
      (ground (arith, contains-add_all id s.claimed_ids (domain_deployment input name).entity_ids))

-- The entities of a deployment are all claimed.
IsClaimed : List String → Deployment → Type 0
IsClaimed claimed d = (id : String) → contains id d.entity_ids ≡ true → contains id claimed ≡ true

claim_domains-IsClaimed :
    (input : ClusterInput) (s : Claims) (names : List String)
    → All
        (IsClaimed (claim_domains input s names).claimed_ids)
        (map (domain_deployment input) names)
unfolding claim_domains claim_domain IsClaimed
claim_domains-IsClaimed input s [] = tt
claim_domains-IsClaimed input s (name ∷ names) = (
  λ id h.
      claim_domains-keeps input (claim_domain input s name) names id (
        ground
          (arith, contains-add_all id s.claimed_ids (domain_deployment input name).entity_ids)),
  claim_domains-IsClaimed input (claim_domain input s name) names,
)

-- The two have no container, port or compose project in common.
pub IsDisjoint : ClusterInput → Deployment → Deployment → Type 0
IsDisjoint input d e =
    (id : String)
    → contains id d.entity_ids ≡ true
    → contains id e.entity_ids ≡ true
    → is_footprint input.relationships input.entities id ≡ false

-- A deployment for each domain, and others that share no resource with those.
pub record Split (input : ClusterInput) (all : List Deployment) : Type 0 where
  pub containers : List Deployment
  pub parts :
      all ≡ map (domain_deployment input) (primary_domains input.server_blocks) ++ containers
  pub disjoint :
      All
        (λ d. All (IsDisjoint input d) containers)
        (map (domain_deployment input) (primary_domains input.server_blocks))

IsDisjoint-lists :
    (input : ClusterInput) (claimed : List String) (ds es : List Deployment)
    → All (IsClaimed claimed) ds
    → All (IsApart input.relationships input.entities claimed) es
    → All (λ d. All (IsDisjoint input d) es) ds
unfolding IsDisjoint IsClaimed
IsDisjoint-lists input claimed [] es hd he = tt
IsDisjoint-lists input claimed (d ∷ ds) es hd he =
    (row es he, IsDisjoint-lists input claimed ds es hd.1 he)
  where
    row :
        (es : List Deployment)
        → All (IsApart input.relationships input.entities claimed) es
        → All (IsDisjoint input d) es
    row [] h = tt
    row (e ∷ es) h = (λ id m n. h.0.resources_free id (hd.0 id m) n, row es h.1)

-- The deployments are one for each primary domain, in order, and then those of containers, none
-- of which has a container, a port or a compose project in common with the deployment of a domain.
pub cluster_deployments-Split :
    (input : ClusterInput) → Split input (cluster_deployments input).deployments
unfolding cluster_deployments
cluster_deployments-Split input =
    let start : Claims = record { deployments = []; claimed_ids = [] } in
    let names = primary_domains input.server_blocks in
    let claimed = (claim_domains input start names).claimed_ids in
    let made = cluster_container_deployments input.relationships input.entities claimed in
    record {
      containers = made;
      parts = ap (λ l. l ++ made) (claim_domains-deployments input start names);
      disjoint =
          IsDisjoint-lists input claimed (map (domain_deployment input) names) made
            (claim_domains-IsClaimed input start names)
            (cluster_container_deployments-IsApart input.relationships input.entities claimed);
    }
