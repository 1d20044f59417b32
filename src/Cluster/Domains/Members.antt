-- ===== src/Cluster/Domains/Members.antt =====
-- What a deployment of a domain takes in.
use zvia.Prelude.{String, true, ◌≡◌, ◌⊎◌, List, string_eq, contains, is_some}
use zvia.Prelude.Dict.{Dict}
use zvia.Topology.{EntityKind, Relationship, TopologyEntity}
use zvia.Cluster.{is_kind}
use zvia.Cluster.Domains.{nginx_sites_for_domain, kind_of}

module _ (relationships : List Relationship) (entities : Dict TopologyEntity) where
  -- The domain itself, or an entity of a known kind, not another domain, and no foreign site.
  pub record IsMember (start x : String) : Type 0 where
    pub known : (x ≡ start) ⊎ (is_some (kind_of relationships entities x) ≡ true)
    pub no_other_domain :
        is_kind EntityKind.domain (kind_of relationships entities x) ≡ true → x ≡ start
    pub own_site :
        is_kind EntityKind.nginx_site (kind_of relationships entities x) ≡ true
        → (x ≡ start) ⊎ (contains x (nginx_sites_for_domain start relationships) ≡ true)
