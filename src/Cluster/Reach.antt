-- ===== src/Cluster/Reach.antt =====
-- The search visits exactly the entities that can be reached from its seeds.
use mathlib.Core.Path.{subst}
use zvia.Prelude.{
  ℕ, zero, suc, ◌+◌, ◌≤◌, String, Bool, true, false, not, ◌≡◌, ◌↔◌, ◌⊎◌, refl, inl, inr, List, [],
  ◌∷◌, ◌++◌, ◌==◌, string_eq, length, contains, contains-append, contains-add_all, add_all,
  length-filter-le, Memᴰ, arith, eq_iff, Bool-cases,
}
use zvia.Topology.{Relationship}
use zvia.Cluster.{neighbors, ends, Frontier, visit, visit_all, expand, loop, search}
use zvia.Cluster.Search.{
  measure, expand-measure, Grows, Grows-refl, visit_all-Grows, visit_all-admits,
}

module _ (rels : List Relationship) (barrier admit : String → Bool) where
  contains_later :
      (x c : String) (q : List String) → contains x q ≡ true → contains x (c ∷ q) ≡ true
  unfolding contains
  contains_later x c q h = ground arith

  contains_first : (c : String) (q : List String) → contains c (c ∷ q) ≡ true
  unfolding contains
  contains_first c q = ground (arith, eq_iff c c)

  -- From the seeds, over relationships in either direction, from entities that are no barrier
  -- to entities that are admitted.
  pub data Reached (seeds : List String) : String → Type 0 where
    seed : {x : String} → contains x seeds ≡ true → Reached seeds x
    step :
        {a b : String}
        → Reached seeds a
        → barrier a ≡ false
        → Memᴰ b (neighbors a rels)
        → admit b ≡ true
        → Reached seeds b

  contains-tail :
      (a c : String) (rest : List String)
      → (c == a) ≡ false
      → contains a (c ∷ rest) ≡ true
      → contains a rest ≡ true
  unfolding contains
  contains-tail a c rest n h = ground arith

  -- All admitted neighbours of the entity were visited, unless it is a barrier.
  IsDone : String → List String → Type 0
  IsDone a visited =
      barrier a ≡ false
      → (b : String) → Memᴰ b (neighbors a rels)
      → admit b ≡ true
      → contains b visited ≡ true

  record IsClosed (s : Frontier) : Type 0 where
    open_or_done :
        (a : String)
        → contains a s.visited ≡ true
        → (contains a s.queue ≡ true) ⊎ IsDone a s.visited

  pop : Frontier → List String → Frontier
  pop s rest = record s { queue = rest }

  expand-Grows :
      (s : Frontier) (c : String) → Grows rels barrier admit s (expand rels barrier admit s c)
  unfolding expand
  expand-Grows s c = elim (Bool-cases (barrier c)) [
    | inl e ↦ rw e (Grows-refl rels barrier admit s)
    | inr e ↦ rw e (visit_all-Grows rels barrier admit s (neighbors c rels))
  ]

  expand-IsDone : (s : Frontier) (c : String) → IsDone c (expand rels barrier admit s c).visited
  unfolding expand IsDone
  expand-IsDone s c free b m a =
      rw free (visit_all-admits rels barrier admit s (neighbors c rels) b m a)

  IsDone-Grows :
      (a : String) (s t : Frontier)
      → Grows rels barrier admit s t
      → IsDone a s.visited
      → IsDone a t.visited
  unfolding IsDone
  IsDone-Grows a s t g d free b m ad = g.keeps b (d free b m ad)

  expand-IsClosed :
      (v rest : List String) (c : String)
      → IsClosed (record { visited = v; queue = c ∷ rest })
      → IsClosed (expand rels barrier admit (record { visited = v; queue = rest }) c)
  expand-IsClosed v rest c closed =
      let s : Frontier = record { visited = v; queue = rest } in
      let t = expand rels barrier admit s c in
      let g = expand-Grows s c in
      record {
        open_or_done = λ a m. elim (g.queued a m) [
          | inr q ↦ inl q
          | inl old ↦ elim (closed.open_or_done a old) [
            | inr d ↦ inr (IsDone-Grows a s t g d)
            | inl q ↦ elim (Bool-cases (c == a)) [
              | inl e ↦ inr (rw (← (eq_iff c a).0 e) (expand-IsDone s c))
              | inr n ↦ inl (g.keeps_queue a (contains-tail a c rest n q))
            ]
          ]
        ];
      }

  -- With fuel for the measure, the loop ends with an empty queue, and every entity visited is done.
  loop-IsDone :
      (fuel : ℕ) (v q : List String)
      → measure rels barrier admit (record { visited = v; queue = q }) ≤ fuel
      → IsClosed (record { visited = v; queue = q })
      → (a : String)
      → contains a (loop rels barrier admit fuel (record { visited = v; queue = q })) ≡ true
      → IsDone a (loop rels barrier admit fuel (record { visited = v; queue = q }))
  unfolding loop contains
  loop-IsDone zero v [] m closed a h = elim (closed.open_or_done a h) [
    | inl q ↦ absurd (ground arith)
    | inr d ↦ d
  ]
  loop-IsDone zero v (c ∷ q) m closed a h = absurd (omega arith)
  loop-IsDone (suc f) v [] m closed a h = elim (closed.open_or_done a h) [
    | inl q ↦ absurd (ground arith)
    | inr d ↦ d
  ]
  loop-IsDone (suc f) v (c ∷ q) m closed a h =
      let t = expand rels barrier admit (record { visited = v; queue = q }) c in
      loop-IsDone f t.visited t.queue
        (omega (arith, expand-measure rels barrier admit (record { visited = v; queue = q }) c))
        (expand-IsClosed v q c closed) a h

  loop-keeps :
      (fuel : ℕ) (v q : List String) (x : String)
      → contains x v ≡ true
      → contains x (loop rels barrier admit fuel (record { visited = v; queue = q })) ≡ true
  unfolding loop
  loop-keeps zero v q x h = h
  loop-keeps (suc f) v [] x h = h
  loop-keeps (suc f) v (c ∷ q) x h =
      let t = expand rels barrier admit (record { visited = v; queue = q }) c in
      loop-keeps f t.visited t.queue x
        ((expand-Grows (record { visited = v; queue = q }) c).keeps x h)

  -- everything visited or queued can be reached
  abbrev AllReached : List String → List String → Type 0
  AllReached seeds l = (x : String) → contains x l ≡ true → Reached seeds x

  AllReached-concat :
      (seeds l : List String) (n : String)
      → AllReached seeds l
      → Reached seeds n
      → AllReached seeds (l ++ n ∷ [])
  AllReached-concat seeds l n h r x m = elim (Bool-cases (contains x l)) [
    | inl old ↦ h x old
    | inr no_old ↦ subst (Reached seeds) (last x n (rw (contains-append, no_old) at m)) r
  ]
    where
      last : (x n : String) → contains x (n ∷ []) ≡ true → n ≡ x
      last x n h = unfold contains in ground (arith, eq_iff n x)

  visit-AllReached :
      (seeds : List String) (s : Frontier) (n : String)
      → AllReached seeds s.visited
      → AllReached seeds s.queue
      → (admit n ≡ true → Reached seeds n)
      → AllReached seeds (visit rels barrier admit s n).visited
        × AllReached seeds (visit rels barrier admit s n).queue
  unfolding visit
  visit-AllReached seeds s n hv hq r = elim (Bool-cases (contains n s.visited)) [
    | inl old ↦ rw old (hv, hq)
    | inr new ↦ elim (Bool-cases (admit n)) [
      | inr out ↦ rw (new, out) (hv, hq)
      | inl let_in ↦
          rw (new, let_in)
            (
              AllReached-concat seeds s.visited n hv (r let_in),
              AllReached-concat seeds s.queue n hq (r let_in),
            )
    ]
  ]

  visit_all-AllReached :
      (seeds : List String) (s : Frontier) (ns : List String)
      → AllReached seeds s.visited
      → AllReached seeds s.queue
      → ((n : String) → Memᴰ n ns → admit n ≡ true → Reached seeds n)
      → AllReached seeds (visit_all rels barrier admit s ns).visited
        × AllReached seeds (visit_all rels barrier admit s ns).queue
  unfolding visit_all
  visit_all-AllReached seeds s [] hv hq hn = (hv, hq)
  visit_all-AllReached seeds s (n ∷ ns) hv hq hn =
      let (tv, tq) = visit-AllReached seeds s n hv hq (hn n (Memᴰ.head refl)) in
      visit_all-AllReached seeds (visit rels barrier admit s n) ns tv tq (λ x m. hn x (Memᴰ.tail m))

  expand-AllReached :
      (seeds : List String) (s : Frontier) (c : String)
      → AllReached seeds s.visited
      → AllReached seeds s.queue
      → Reached seeds c
      → AllReached seeds (expand rels barrier admit s c).visited
        × AllReached seeds (expand rels barrier admit s c).queue
  unfolding expand
  expand-AllReached seeds s c hv hq r = elim (Bool-cases (barrier c)) [
    | inl e ↦ rw e (hv, hq)
    | inr free ↦
        rw free (visit_all-AllReached seeds s (neighbors c rels) hv hq (λ n m a. step r free m a))
  ]

  loop-AllReached :
      (seeds : List String) (fuel : ℕ) (v q : List String)
      → AllReached seeds v
      → AllReached seeds q
      → AllReached seeds (loop rels barrier admit fuel (record { visited = v; queue = q }))
  unfolding loop
  loop-AllReached seeds zero v q hv hq = hv
  loop-AllReached seeds (suc f) v [] hv hq = hv
  loop-AllReached seeds (suc f) v (c ∷ q) hv hq =
      let s : Frontier = record { visited = v; queue = q } in
      let t = expand rels barrier admit s c in
      let (tv, tq) =
        expand-AllReached seeds s c hv (λ x m. hq x (contains_later x c q m))
          (hq c (contains_first c q)) in
      loop-AllReached seeds f t.visited t.queue tv tq

  search-start :
      (v seeds : List String)
      → measure rels barrier admit (record { visited = v; queue = seeds })
        ≤ length seeds + length (ends rels)
  search-start v seeds = omega (arith, length-filter-le (λ x. not (contains x v)) (ends rels))

  contains-set :
      (x : String) (seeds : List String) → contains x (add_all [] seeds) ≡ contains x seeds
  unfolding contains
  contains-set x seeds = contains-add_all x [] seeds

  -- The search visits exactly the entities that can be reached from its seeds: the seeds, and
  -- what a relationship of either direction leads to from a reached entity that is no barrier
  -- and that is admitted. The rounds given to it are enough for all of them.
  pub search_iff :
      (seeds : List String) (x : String)
      → (contains x (search rels barrier admit seeds) ≡ true) ↔ Reached seeds x
  unfolding search IsDone
  search_iff seeds x = (
    loop-AllReached seeds (length seeds + length (ends rels)) (add_all [] seeds) seeds
        (λ y h. seed (rw contains-set at h)) (λ y h. seed h) x,
    complete,
  )
    where
      result : List String
      result =
          loop rels barrier admit (length seeds + length (ends rels))
            (record { visited = add_all [] seeds; queue = seeds })

      complete : {y : String} → Reached seeds y → contains y result ≡ true
      complete (seed h) =
          loop-keeps (length seeds + length (ends rels)) (add_all [] seeds) seeds _
            (rw (contains-set, h))
      complete (step {a} {b} r free m ad) =
          loop-IsDone (length seeds + length (ends rels)) (add_all [] seeds) seeds
            (search-start (add_all [] seeds) seeds)
            (record { open_or_done = λ y h. inl (rw contains-set at h) }) a (complete r) free b m ad
