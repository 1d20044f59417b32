-- ===== src/Diff/Tests.antt =====
-- Tests of the diff, and its theorems at a concrete input.
use zvia.Prelude.{not, ◌&&◌, ◌≡◌, refl, List, [], ◌∷◌, map, filter, contains, string_eq}
use zvia.Prelude.Dict.{lookup, has, IsDict}
use zvia.Topology.{TopologyChange, TopologyChangeKind}
use zvia.Topology.Samples.{before, after}
use zvia.Diff.{diff_topology, diff_topology_for_deployment, filter_process_churn, diff}
use zvia.Diff.Entities.{reports, changed_between, diff_topology-reports, diff_topology_self}
use zvia.Diff.Relationships.{diff_topology-reports_relationships}
use zvia.Diff.Churn.{filter_process_churn_iff, restarted_in, comm_of}
use zvia.Diff.Owned.{owned, diff_topology_for_deployment_lem}

after-IsDict : IsDict after.entities
unfolding lookup
after-IsDict = (refl, (refl, (refl, (refl, tt))))

diff_test :
    map (λ c. c.entity_id) (diff_topology before after)
    ≡ "port:tcp:127.0.0.1:3000" ∷ "process:9" ∷ "container:c1" ∷ "process:7" ∷ "rel:published" ∷ []
unfolding diff
diff_test = refl

churn_test :
    map (λ c. c.entity_id) (filter_process_churn (diff_topology before after))
    ≡ "port:tcp:127.0.0.1:3000" ∷ "container:c1" ∷ "rel:published" ∷ []
unfolding diff
churn_test = refl

-- The entity that only the first snapshot holds, and the one whose status changed.
diff_topology-reports_example :
    (reports TopologyChangeKind.entity_added "container:c1" (diff_topology before after)
      ≡ (has "container:c1" after.entities && not (has "container:c1" before.entities)))
    × (reports TopologyChangeKind.entity_removed "container:c1" (diff_topology before after)
        ≡ (has "container:c1" before.entities && not (has "container:c1" after.entities)))
    × (reports TopologyChangeKind.entity_modified "container:c1" (diff_topology before after)
        ≡ changed_between
            (lookup "container:c1" before.entities)
            (lookup "container:c1" after.entities))
diff_topology-reports_example = diff_topology-reports before after "container:c1" after-IsDict

diff_topology_self_example : diff_topology after after ≡ []
diff_topology_self_example = diff_topology_self after after-IsDict

diff_topology-reports_relationships_example :
    (reports TopologyChangeKind.relationship_added "rel:published" (diff_topology before after) ≡ (
      contains "rel:published" (map (λ r. r.id) after.relationships)
      && not (contains "rel:published" (map (λ r. r.id) before.relationships))))
    × (reports TopologyChangeKind.relationship_removed "rel:published" (diff_topology before after)
        ≡ (contains "rel:published" (map (λ r. r.id) before.relationships)
            && not (contains "rel:published" (map (λ r. r.id) after.relationships))))
diff_topology-reports_relationships_example =
    diff_topology-reports_relationships before after "rel:published"

abbrev changes : List TopologyChange
changes = diff_topology before after

filter_process_churn_iff_example :
    filter_process_churn changes ≡ filter (λ c. not (restarted_in changes (comm_of c))) changes
filter_process_churn_iff_example = filter_process_churn_iff changes

deployment_test :
    map (λ c. c.entity_id) (diff_topology_for_deployment before after "deployment:a.com")
    ≡ "port:tcp:127.0.0.1:3000" ∷ "container:c1" ∷ "rel:published" ∷ []
unfolding diff
deployment_test = refl

diff_topology_for_deployment_lem_example :
    diff_topology_for_deployment before after "deployment:a.com"
    ≡ filter
        (λ c.
          not (restarted_in (filter (owned before after "deployment:a.com") changes) (comm_of c)))
        (filter (owned before after "deployment:a.com") changes)
diff_topology_for_deployment_lem_example =
    diff_topology_for_deployment_lem before after "deployment:a.com"
