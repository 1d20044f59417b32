-- ===== src/Health/Failures.antt =====
-- Which entities have failed after `applyEntityHealth`.
use zvia.Prelude.{
  String, Bool, true, false, not, ◌&&◌, ◌||◌, ◌≡◌, sym, ap, ◌∙◌, inl, inr, Option, none, some, List,
  [], ◌∷◌, ◌==◌, string_eq, Memᴰ, arith, beq_self, Bool-cases,
}
use mathlib.Core.Path.{subst}
use zvia.Prelude.Dict.{Dict, lookup, update, lookup-update, map_some}
use zvia.Topology.{
  EntityKind, Confidence, HealthStatus, RelationshipType, Relationship, TopologyEntity,
}
use zvia.Topology.Enums.{kind_eq, status_eq, type_eq, confidence_eq}
use zvia.Health.{
  PortListener, has_active_listener, source_field, has_text, set_status, fail_unheard,
  pass_listeners, fail_reported, pass_reported, pass_downstream, pass_containers,
  apply_entity_health,
}
use zvia.Health.Apply.{
  SameOrFailed, SameOrFailedAt, lookup-pass_reported, pass_listeners-SameOrFailed,
  pass_reported-SameOrFailed, pass_downstream-SameOrFailed, pass_containers-SameOrFailed,
  update-SameOrFailed, fail_unheard-SameOrFailed,
}

-- The entity is there, and it has failed.
abbrev pub FailedAt : Option TopologyEntity → Type 0
FailedAt o = (b : TopologyEntity) × (o ≡ some b) × (b.status ≡ HealthStatus.failed)

failed_stays : (o p : Option TopologyEntity) → SameOrFailedAt o p → FailedAt o → FailedAt p
unfolding set_status
failed_stays none p h (b, e, s) = absurd (ground arith)
failed_stays (some a) p (b, e, inl q) (b', e', s) = (b, e, ground arith)
failed_stays (some a) p (b, e, inr q) (b', e', s) = (b, e, ap (λ x. x.status) q)

-- the two last passes keep a failure
failed_to_end :
    (j : String) (rels : List Relationship) (m : Dict TopologyEntity)
    → FailedAt (lookup j m)
    → FailedAt (lookup j (pass_containers rels (pass_downstream rels m)))
failed_to_end j rels m h =
    failed_stays _ _ (pass_containers-SameOrFailed j rels (pass_downstream rels m))
      (failed_stays _ _ (pass_downstream-SameOrFailed j rels m) h)

-- What systemd or docker itself reports as failed.
abbrev pub reported_failed : TopologyEntity → Bool
reported_failed a =
    (a.kind == EntityKind.systemd_unit && has_text (source_field "activeState" a) "failed")
    || (a.kind == EntityKind.docker_container && has_text (source_field "state" a) "exited")

fail_reported-failed :
    (a b : TopologyEntity)
    → SameOrFailed a b
    → reported_failed a ≡ true
    → (fail_reported b).status ≡ HealthStatus.failed
unfolding fail_reported set_status
fail_reported-failed a b (inl e) h =
    let h' : reported_failed b ≡ true = subst (λ x. reported_failed x ≡ true) (sym e) h in rw h'
fail_reported-failed a b (inr e) h =
    let h' : reported_failed b ≡ true = subst (λ x. reported_failed x ≡ true) (sym e) h in rw h'

-- A unit that systemd reports as failed, and a container that docker reports as exited, have
-- failed after the health pass.
pub apply_entity_health-reported :
    (id : String) (m : Dict TopologyEntity) (rels : List Relationship) (ls : List PortListener)
    (a : TopologyEntity)
    → lookup id m ≡ some a
    → reported_failed a ≡ true
    → FailedAt (lookup id (apply_entity_health m rels ls))
unfolding apply_entity_health
apply_entity_health-reported id m rels ls a found h =
    let kept : SameOrFailedAt (some a) (lookup id (pass_listeners ls rels m)) =
      subst (λ o. SameOrFailedAt o (lookup id (pass_listeners ls rels m))) found
        (pass_listeners-SameOrFailed id ls rels m) in
    failed_to_end id rels (pass_reported (pass_listeners ls rels m)) (
      fail_reported kept.0,
      lookup-pass_reported id (pass_listeners ls rels m) ∙ ap (map_some fail_reported) kept.1,
      fail_reported-failed a kept.0 kept.2 h,
    )

-- Nothing listens where the port says; the port's address and number do not change.
abbrev pub unheard : List PortListener → TopologyEntity → Bool
unheard ls a = a.kind == EntityKind.port && not (has_active_listener a ls)

unheard_stays :
    (ls : List PortListener) (a b : TopologyEntity)
    → SameOrFailed a b
    → unheard ls a ≡ true
    → unheard ls b ≡ true
unfolding set_status has_active_listener
unheard_stays ls a b (inl e) h = subst (λ x. unheard ls x ≡ true) (sym e) h
unheard_stays ls a b (inr e) h = subst (λ x. unheard ls x ≡ true) (sym e) h

fail_unheard-failed :
    (ls : List PortListener) (a : TopologyEntity)
    → unheard ls a ≡ true
    → (fail_unheard ls a).status ≡ HealthStatus.failed
unfolding fail_unheard set_status
fail_unheard-failed ls a h = rw h

pass_listeners-failed :
    (ls : List PortListener) (rels : List Relationship) (m : Dict TopologyEntity) (r : Relationship)
    (a : TopologyEntity)
    → Memᴰ r rels
    → r.type ≡ RelationshipType.proxies_to
    → (r.confidence == Confidence.conflicting) ≡ false
    → lookup r.to.id m ≡ some a
    → unheard ls a ≡ true
    → FailedAt (lookup r.to.id (pass_listeners ls rels m))
unfolding pass_listeners
pass_listeners-failed ls [] m r a mem t c found h = elim mem [ ]
pass_listeners-failed ls (q ∷ rels) m r a (Memᴰ.head e) t c found h =
    let enters : (not (q.type == RelationshipType.proxies_to)
          || q.confidence == Confidence.conflicting)
        ≡ false =
      ground arith in
    let same : q.to.id ≡ r.to.id = ap (λ x. x.to.id) (sym e) in
    let after : lookup r.to.id (update q.to.id (fail_unheard ls) m) ≡ some (fail_unheard ls a) =
      rw lookup-update (rw (same, beq_self r.to.id, found)) in
    rw enters (
      failed_stays _ _
        (pass_listeners-SameOrFailed r.to.id ls rels (update q.to.id (fail_unheard ls) m))
        (fail_unheard ls a, after, fail_unheard-failed ls a h))
pass_listeners-failed ls (q ∷ rels) m r a (Memᴰ.tail mem) t c found h =
    elim (Bool-cases
      (not (q.type == RelationshipType.proxies_to) || q.confidence == Confidence.conflicting)) [
        | inl e ↦ rw e (pass_listeners-failed ls rels m r a mem t c found h)
        | inr e ↦
            let m' = update q.to.id (fail_unheard ls) m in
            let kept : SameOrFailedAt (some a) (lookup r.to.id m') =
              subst (λ o. SameOrFailedAt o (lookup r.to.id m')) found
                (update-SameOrFailed (fail_unheard ls) (fail_unheard-SameOrFailed ls) q.to.id
                  r.to.id m) in
            rw e (
              pass_listeners-failed ls rels m' r kept.0 mem t c kept.1
                (unheard_stays ls a kept.0 kept.2 h))
      ]

-- A port that a site proxies to, unambiguously, has failed after the health pass if nothing
-- listens on it.
pub apply_entity_health-unheard :
    (m : Dict TopologyEntity) (rels : List Relationship) (ls : List PortListener) (r : Relationship)
    (a : TopologyEntity)
    → Memᴰ r rels
    → r.type ≡ RelationshipType.proxies_to
    → (r.confidence == Confidence.conflicting) ≡ false
    → lookup r.to.id m ≡ some a
    → unheard ls a ≡ true
    → FailedAt (lookup r.to.id (apply_entity_health m rels ls))
unfolding apply_entity_health
apply_entity_health-unheard m rels ls r a mem t c found h = failed_to_end r.to.id rels _ (
    failed_stays _ _ (pass_reported-SameOrFailed r.to.id (pass_listeners ls rels m))
      (pass_listeners-failed ls rels m r a mem t c found h))
