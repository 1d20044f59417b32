-- ===== src/Scan/Naming.antt =====
-- `entityId` of a lookup: which entity a query stands for.
use mathlib.Core.Path.{subst}
use Prim.Native.String.{◌++◌ as concat}
use zvia.Prelude.{
  ℕ, String, Bool, true, false, ◌&&◌, ◌↔◌, refl, List, map, any, any_of_mem, nat_eq, eq_iff, ◌≡◌,
  ap, ◌∙◌, inl, inr, none, some, Memᴰ, find, find_cases, string_eq, arith, Option-cases, Bool-cases,
  ◌==◌,
}
use zvia.Prelude.Decimal.{show}
use zvia.Prelude.Dict.{has}
use zvia.Topology.{EntityKind, TopologyEntity, TopologySnapshot}
use zvia.Topology.Enums.{kind_eq}
use zvia.Topology.Ids.{container_entity_id, domain_entity_id, nginx_site_entity_id, port_entity_id}
use zvia.Health.{source_field, as_number}
use zvia.Scan.{DeploymentLookupQuery, is_port, or_search, known, find_port_entity_id, entity_id_of}

abbrev entities_of : TopologySnapshot → List TopologyEntity
entities_of snapshot = map (λ entry. entry.1) snapshot.entities

-- A port entity whose source gives the number, or whose label does.
pub record IsNumbered (n : ℕ) (e : TopologyEntity) : Type 0 where
  pub kind : e.kind ≡ EntityKind.port
  pub number : as_number (source_field "port" e) ≡ some n

pub record IsLabelled (n : ℕ) (e : TopologyEntity) : Type 0 where
  pub kind : e.kind ≡ EntityKind.port
  pub label : e.label ≡ concat ":" (show n)

-- The entity ids that a query stands for: a port is the entity with its number, or else with its
-- label, or else the one of the local address; the others are known by their id.
pub data IsNamed (snapshot : TopologySnapshot) : DeploymentLookupQuery → String → Type 0 where
  by_number :
      {n : ℕ} {e : TopologyEntity}
      → Memᴰ e (entities_of snapshot)
      → IsNumbered n e
      → IsNamed snapshot (DeploymentLookupQuery.port n) e.id
  by_label :
      {n : ℕ} {e : TopologyEntity}
      → ((x : TopologyEntity) → Memᴰ x (entities_of snapshot) → ¬ IsNumbered n x)
      → Memᴰ e (entities_of snapshot)
      → IsLabelled n e
      → IsNamed snapshot (DeploymentLookupQuery.port n) e.id
  by_address :
      {n : ℕ}
      → ((x : TopologyEntity) → Memᴰ x (entities_of snapshot) → ¬ IsNumbered n x)
      → ((x : TopologyEntity) → Memᴰ x (entities_of snapshot) → ¬ IsLabelled n x)
      → has (port_entity_id "tcp" "127.0.0.1" n) snapshot.entities ≡ true
      → IsNamed snapshot (DeploymentLookupQuery.port n) (port_entity_id "tcp" "127.0.0.1" n)
  by_container :
      {c : String}
      → has (container_entity_id c) snapshot.entities ≡ true
      → IsNamed snapshot (DeploymentLookupQuery.container c) (container_entity_id c)
  by_domain :
      {name : String}
      → has (domain_entity_id name) snapshot.entities ≡ true
      → IsNamed snapshot (DeploymentLookupQuery.domain name) (domain_entity_id name)
  by_site :
      {path : String} {line : ℕ}
      → has (nginx_site_entity_id path line) snapshot.entities ≡ true
      → IsNamed snapshot
          (DeploymentLookupQuery.nginx_site path line)
          (nginx_site_entity_id path line)

known_cases :
    (id : String) (snapshot : TopologySnapshot) (x : String)
    → known id snapshot ≡ some x
    → (id ≡ x) × (has id snapshot.entities ≡ true)
unfolding known
known_cases id snapshot x h = elim (Bool-cases (has id snapshot.entities)) [
  | inl e ↦ let h' : some id ≡ some x = rw e at h in (ground arith, e)
  | inr n ↦ absurd (ground (arith, rw n at h))
]

module _ (n : ℕ) (e : TopologyEntity) where
  IsNumbered-iff :
      ((e.kind == EntityKind.port && is_port n (as_number (source_field "port" e))) ≡ true)
      ↔ IsNumbered n e
  unfolding is_port
  IsNumbered-iff = (
    λ h. record {
      kind = (kind_eq.same_iff e.kind EntityKind.port).0 (ground arith);
      number = elim (Option-cases (as_number (source_field "port" e))) [
        | inl m ↦ absurd (ground (arith, rw m at h))
        | inr (k, m) ↦
            let h' : (e.kind == EntityKind.port && k == n) ≡ true = rw m at h in
            m ∙ ap some ((nat_eq.same_iff k n).0 (ground arith))
      ];
    },
    λ k. rw (k.number) (
        ground (
          arith,
          (kind_eq.same_iff e.kind EntityKind.port).1 k.kind,
          (nat_eq.same_iff n n).1 refl,
        )),
  )

  IsLabelled-iff :
      ((e.kind == EntityKind.port && e.label == concat ":" (show n)) ≡ true) ↔ IsLabelled n e
  IsLabelled-iff = (
    λ h. record {
      kind = (kind_eq.same_iff e.kind EntityKind.port).0 (ground arith);
      label = (eq_iff e.label (concat ":" (show n))).0 (ground arith);
    },
    λ k. ground (
      arith,
      (kind_eq.same_iff e.kind EntityKind.port).1 k.kind,
      (eq_iff e.label (concat ":" (show n))).1 k.label,
    ),
  )

absent :
    {P : TopologyEntity → Type 0} (p : TopologyEntity → Bool) (l : List TopologyEntity)
    → any p l ≡ false
    → ((x : TopologyEntity) → P x → p x ≡ true)
    → (x : TopologyEntity) → Memᴰ x l
    → ¬ P x
absent p l none_passes test x m k =
    let passes = any_of_mem p l m (test x k) in absurd (ground arith)

find_port_entity_id-IsNamed :
    (snapshot : TopologySnapshot) (n : ℕ) (id : String)
    → find_port_entity_id snapshot n ≡ some id
    → IsNamed snapshot (DeploymentLookupQuery.port n) id
unfolding find_port_entity_id or_search
find_port_entity_id-IsNamed snapshot n id h =
    let values = entities_of snapshot in
    let p : TopologyEntity → Bool =
      λ e. e.kind == EntityKind.port && is_port n (as_number (source_field "port" e)) in
    let q : TopologyEntity → Bool =
      λ e. e.kind == EntityKind.port && e.label == concat ":" (show n) in
    let name : String → Type 0 = λ x. IsNamed snapshot (DeploymentLookupQuery.port n) x in
    elim (find_cases p values) [
      | inr (e, found, m, pass) ↦
          let h' : some e.id ≡ some id = rw found at h in
          let same : e.id ≡ id = ground arith in
          subst name same (IsNamed.by_number m ((IsNumbered-iff n e).0 pass))
      | inl (nothing, none_has) ↦
          let h1 : or_search (find q values) (known (port_entity_id "tcp" "127.0.0.1" n) snapshot)
              ≡ some id =
            rw nothing at h in
          let unnumbered = absent p values none_has (λ x. (IsNumbered-iff n x).1) in
          elim (find_cases q values) [
            | inr (e, found, m, pass) ↦
                let h' : some e.id ≡ some id = rw found at h1 in
                let same : e.id ≡ id = ground arith in
                subst name same (IsNamed.by_label unnumbered m ((IsLabelled-iff n e).0 pass))
            | inl (nothing', none_has') ↦
                let h2 : known (port_entity_id "tcp" "127.0.0.1" n) snapshot ≡ some id =
                  rw nothing' at h1 in
                let (same, there) = known_cases _ snapshot id h2 in
                subst name same (
                  IsNamed.by_address unnumbered
                    (absent q values none_has' (λ x. (IsLabelled-iff n x).1)) there)
          ]
    ]

pub entity_id_of-IsNamed :
    (snapshot : TopologySnapshot) (query : DeploymentLookupQuery) (id : String)
    → entity_id_of snapshot query ≡ some id
    → IsNamed snapshot query id
unfolding entity_id_of
entity_id_of-IsNamed snapshot (DeploymentLookupQuery.port n) id h =
    find_port_entity_id-IsNamed snapshot n id h
entity_id_of-IsNamed snapshot (DeploymentLookupQuery.container c) id h =
    let (same, there) = known_cases _ snapshot id h in
    subst (λ x. IsNamed snapshot (DeploymentLookupQuery.container c) x) same
      (IsNamed.by_container there)
entity_id_of-IsNamed snapshot (DeploymentLookupQuery.domain name) id h =
    let (same, there) = known_cases _ snapshot id h in
    subst (λ x. IsNamed snapshot (DeploymentLookupQuery.domain name) x) same
      (IsNamed.by_domain there)
entity_id_of-IsNamed snapshot (DeploymentLookupQuery.nginx_site path line) id h =
    let (same, there) = known_cases _ snapshot id h in
    subst (λ x. IsNamed snapshot (DeploymentLookupQuery.nginx_site path line) x) same
      (IsNamed.by_site there)

known-none :
    (id : String) (snapshot : TopologySnapshot)
    → known id snapshot ≡ none
    → ¬ (has id snapshot.entities ≡ true)
unfolding known
known-none id snapshot h there = absurd (ground (arith, rw there at h))

find_port_entity_id-unnamed :
    (snapshot : TopologySnapshot) (n : ℕ)
    → find_port_entity_id snapshot n ≡ none
    → ((x : TopologyEntity) → Memᴰ x (entities_of snapshot) → ¬ IsNumbered n x)
      × ((x : TopologyEntity) → Memᴰ x (entities_of snapshot) → ¬ IsLabelled n x)
      × ¬ (has (port_entity_id "tcp" "127.0.0.1" n) snapshot.entities ≡ true)
unfolding find_port_entity_id or_search
find_port_entity_id-unnamed snapshot n h =
    let values = entities_of snapshot in
    let p : TopologyEntity → Bool =
      λ e. e.kind == EntityKind.port && is_port n (as_number (source_field "port" e)) in
    let q : TopologyEntity → Bool =
      λ e. e.kind == EntityKind.port && e.label == concat ":" (show n) in
    elim (find_cases p values) [
      | inr (e, found, m, pass) ↦ absurd (ground (arith, rw found at h))
      | inl (nothing, none_has) ↦
          let h1 : or_search (find q values) (known (port_entity_id "tcp" "127.0.0.1" n) snapshot)
              ≡ none =
            rw nothing at h in
          elim (find_cases q values) [
            | inr (e, found, m, pass) ↦ absurd (ground (arith, rw found at h1))
            | inl (nothing', none_has') ↦ (
              absent p values none_has (λ x. (IsNumbered-iff n x).1),
              absent q values none_has' (λ x. (IsLabelled-iff n x).1),
              known-none _ snapshot (rw nothing' at h1),
            )
          ]
    ]

-- Where no entity is found, the query names none.
pub entity_id_of-unnamed :
    (snapshot : TopologySnapshot) (query : DeploymentLookupQuery) (id : String)
    → entity_id_of snapshot query ≡ none
    → ¬ IsNamed snapshot query id
unfolding entity_id_of
entity_id_of-unnamed snapshot _ _ h (IsNamed.by_number {n} {e} m k) =
    (find_port_entity_id-unnamed snapshot n h).0 e m k
entity_id_of-unnamed snapshot _ _ h (IsNamed.by_label {n} {e} no_number m k) =
    (find_port_entity_id-unnamed snapshot n h).1 e m k
entity_id_of-unnamed snapshot _ _ h (IsNamed.by_address {n} no_number no_label there) =
    (find_port_entity_id-unnamed snapshot n h).2 there
entity_id_of-unnamed snapshot _ _ h (IsNamed.by_container there) = known-none _ snapshot h there
entity_id_of-unnamed snapshot _ _ h (IsNamed.by_domain there) = known-none _ snapshot h there
entity_id_of-unnamed snapshot _ _ h (IsNamed.by_site there) = known-none _ snapshot h there
