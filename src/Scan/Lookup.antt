-- ===== src/Scan/Lookup.antt =====
-- The lookup answers with a deployment that has the entity.
use mathlib.Core.Path.{subst}
use zvia.Prelude.{
  String, true, false, refl, any, eq_iff, nat_eq, ◌≡◌, inl, inr, Option, none, some, Memᴰ, contains,
  find_cases, bind, truthy, string_eq, Bool-cases, ◌==◌,
}
use zvia.Prelude.Dict.{lookup}
use zvia.Topology.{TopologySnapshot, Deployment}
use zvia.Topology.Enums.{kind_eq}
use zvia.Scan.{
  CacheEntry, Service, DeploymentLookupQuery, DeploymentLookupResult, entity_id_of, owner_of,
  lookup_deployment,
}
use zvia.Scan.Naming.{IsNamed, entity_id_of-IsNamed, entity_id_of-unnamed}

-- A deployment of the snapshot has the id and the entity that were answered.
pub record IsOwner (snapshot : TopologySnapshot) (r : DeploymentLookupResult) : Type 0 where
  pub owner : Deployment
  pub in_snapshot : Memᴰ owner snapshot.deployments
  pub same_id : owner.id ≡ r.deployment_id
  pub owns : contains r.entity_id owner.entity_ids ≡ true

-- What a lookup is to answer: a deployment that has an entity which the query names; or none, for
-- a query that names no entity, one that no deployment has, or one with an empty id.
pub data IsLookup (snapshot : TopologySnapshot) (query : DeploymentLookupQuery)
    : Option DeploymentLookupResult → Type 0 where
  answered :
      {r : DeploymentLookupResult}
      → IsOwner snapshot r
      → IsNamed snapshot query r.entity_id
      → IsLookup snapshot query (some r)
  unnamed : ((id : String) → ¬ IsNamed snapshot query id) → IsLookup snapshot query none
  unowned :
      (id : String)
      → IsNamed snapshot query id
      → any (λ d. contains id d.entity_ids) snapshot.deployments ≡ false
      → IsLookup snapshot query none
  empty : IsNamed snapshot query "" → IsLookup snapshot query none

owner_of-IsLookup :
    (snapshot : TopologySnapshot) (query : DeploymentLookupQuery) (id : String)
    → IsNamed snapshot query id
    → IsLookup snapshot query (owner_of snapshot id)
unfolding owner_of
owner_of-IsLookup snapshot query id named =
    elim (find_cases (λ entry. contains id entry.entity_ids) snapshot.deployments) [
      | inl (e, no_owner) ↦ rw e (IsLookup.unowned id named no_owner)
      | inr (d, e, m, c) ↦ rw e (
          IsLookup.answered (record { owner = d; in_snapshot = m; same_id = refl; owns = c }) named)
    ]

found-IsLookup :
    (snapshot : TopologySnapshot) (query : DeploymentLookupQuery) (o : Option String)
    → entity_id_of snapshot query ≡ o
    → IsLookup snapshot query (bind (truthy o) (owner_of snapshot))
found-IsLookup snapshot query none e =
    IsLookup.unnamed (λ id. entity_id_of-unnamed snapshot query id e)
found-IsLookup snapshot query (some id) e =
    let named = entity_id_of-IsNamed snapshot query id e in
    elim (Bool-cases (id == "")) [
      | inl blank ↦
          rw blank
            (IsLookup.empty (subst (λ x. IsNamed snapshot query x) ((eq_iff id "").0 blank) named))
      | inr full ↦ rw full (owner_of-IsLookup snapshot query id named)
    ]

-- Where a snapshot is cached, a lookup answers with a deployment of the snapshot that has an entity
-- which the query names, and with that entity; or it answers none, and the query names no entity,
-- or one that no deployment has, or one whose id is the empty text. A port query names a port
-- entity with that number, or else with that label, or else the one with the local address; a
-- query for a container, a domain or a site names the entity with its id.
pub lookup_deployment-IsLookup :
    (server : String) (query : DeploymentLookupQuery) (s : Service) (c : CacheEntry)
    → lookup server s.cache ≡ some c
    → IsLookup c.snapshot query (lookup_deployment server query s)
unfolding lookup_deployment
lookup_deployment-IsLookup server query s c cached =
    rw cached (found-IsLookup c.snapshot query (entity_id_of c.snapshot query) refl)
