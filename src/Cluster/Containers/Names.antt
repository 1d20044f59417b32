-- ===== src/Cluster/Containers/Names.antt =====
-- The id that a deployment of containers gets is free.
use Prim.Native.String.{count, ◌++◌ as concat}
use text.Mathlib.TextLemmas.{length-append, append_cancel_left}
use zvia.Prelude.{
  ℕ, zero, suc, ◌+◌, ◌≤◌, ◌<◌, String, true, false, not, ◌≡◌, ◌≢◌, refl, sym, ap, ◌∙◌, inl, inr,
  List, [], ◌∷◌, ◌==◌, string_eq, length, contains, filter, length-filter-le, arith, eq_iff,
  Bool-cases,
}
use zvia.Prelude.Decimal.{show, show_inj, lower, lower-append, lower-show}
use zvia.Topology.Ids.{deployment_entity_id}
use zvia.Cluster.Containers.{next_free, unique_deployment_id}

-- the name with a number, as an id
abbrev numbered : String → ℕ → String
numbered base k = deployment_entity_id (concat base (concat "-" (show k)))

drop : String → List String → List String
drop c t = filter (λ x. not (x == c)) t

drop-contains : (c x : String) (t : List String) → c ≢ x → contains x (drop c t) ≡ contains x t
unfolding drop filter contains
drop-contains c x [] ne = refl
drop-contains c x (y ∷ t) ne =
    ground (arith, drop-contains c x t ne, eq_iff y c, eq_iff y x, eq_iff c x)

drop-length : (c : String) (t : List String) → contains c t ≡ true → length (drop c t) < length t
unfolding drop filter contains
drop-length c [] h = absurd (ground arith)
drop-length c (y ∷ t) h = elim (Bool-cases (y == c)) [
  | inl e ↦ rw e (omega (arith, length-filter-le (λ x. not (x == c)) t))
  | inr n ↦ rw n (omega (arith, drop-length c t (rw n at h)))
]

-- The ids that can still come up occur in the same way in a list that gets shorter each round.
next_free_lem :
    (fuel : ℕ) (base : String) (taken t : List String) (c : String) (k : ℕ)
    → ((i j : ℕ) → numbered base i ≡ numbered base j → i ≡ j)
    → ((i : ℕ) → k ≤ i → c ≢ numbered base i)
    → contains c taken ≡ contains c t
    → ((i : ℕ) → k ≤ i → contains (numbered base i) taken ≡ contains (numbered base i) t)
    → length t ≤ fuel
    → contains (next_free fuel base taken c k) taken ≡ false
unfolding next_free
next_free_lem zero base taken [] c k inj new hc hs le = unfold contains in hc
next_free_lem zero base taken (x ∷ t) c k inj new hc hs le = absurd (omega arith)
next_free_lem (suc f) base taken t c k inj new hc hs le = elim (Bool-cases (contains c taken)) [
  | inr free ↦ rw (free, free)
  | inl hit ↦
      let shorter = drop-length c t (sym hc ∙ hit) in
      rw hit (
        next_free_lem f base taken (drop c t) (numbered base k) (suc k) inj
          (λ i h e. absurd (omega (arith, inj k i e)))
          (hs k (omega arith) ∙ sym (drop-contains c (numbered base k) t (new k (omega arith))))
          (λ i h.
            hs i (omega arith) ∙ sym (drop-contains c (numbered base i) t (new i (omega arith))))
          (omega arith))
]

lower-dash : (s : String) → lower (concat "-" s) ≡ concat "-" (lower s)
unfolding lower
lower-dash s = lower-append "-" s

numbered_form :
    (base : String) (k : ℕ)
    → numbered base k ≡ concat "deployment:" (concat (lower base) (concat "-" (show k)))
unfolding deployment_entity_id
numbered_form base k = ap (concat "deployment:") (
    lower-append base (concat "-" (show k))
    ∙ ap (concat (lower base)) (lower-dash (show k) ∙ ap (concat "-") (lower-show k)))

numbered_inj : (base : String) (i j : ℕ) → numbered base i ≡ numbered base j → i ≡ j
numbered_inj base i j e =
    let same = sym (numbered_form base i) ∙ e ∙ numbered_form base j in
    let texts = append_cancel_left "deployment:" _ _ same in
    let dashes = append_cancel_left (lower base) _ _ texts in
    show_inj i j (append_cancel_left "-" (show i) (show j) dashes)

plain_ne_numbered : (base : String) (k : ℕ) → deployment_entity_id base ≢ numbered base k
unfolding deployment_entity_id
plain_ne_numbered base k e =
    let texts : lower base ≡ concat (lower base) (concat "-" (show k)) =
      append_cancel_left "deployment:" _ _ (e ∙ numbered_form base k) in
    let total : count (lower base) ≡ count (lower base) + (count "-" + count (show k)) =
      ap count texts
      ∙ length-append (lower base) (concat "-" (show k))
      ∙ ap (λ n. count (lower base) + n) (length-append "-" (show k)) in
    absurd (omega (arith, total, dash_count))
  where
    dash_count : count "-" ≡ 1
    dash_count = refl

-- The id that a deployment of containers is given is not taken, whatever its name and the ids
-- that are taken: the search for a number ends.
pub unique_deployment_id-fresh :
    (base : String) (taken : List String) → contains (unique_deployment_id base taken) taken ≡ false
unfolding unique_deployment_id
unique_deployment_id-fresh base taken =
    next_free_lem (length taken) base taken taken (deployment_entity_id base) 2 (numbered_inj base)
      (λ i h. plain_ne_numbered base i) refl (λ i h. refl) (omega arith)
