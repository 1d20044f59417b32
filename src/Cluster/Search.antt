-- ===== src/Cluster/Search.antt =====
-- The breadth-first search visits exactly the entities that can be reached.
use mathlib.Core.List.Memᴰ
use zvia.Prelude.{
  ℕ, ◌+◌, ◌≤◌, ◌<◌, String, Bool, true, false, not, ◌≡◌, ◌⊎◌, refl, inl, inr, List, [], ◌∷◌, ◌++◌,
  ◌==◌, string_eq, if◌then◌else◌, length, length-append, contains, contains-append, filter, Memᴰ,
  arith, eq_iff, Bool-cases,
}
use zvia.Topology.{Relationship}
use zvia.Cluster.{neighbors, ends, Frontier, visit, visit_all, expand}

-- How many ends have not been visited.
abbrev pub unvisited : List String → List String → ℕ
unvisited visited u = length (filter (λ x. not (contains x visited)) u)

unvisited-append_le :
    (v : List String) (n : String) (u : List String) → unvisited (v ++ n ∷ []) u ≤ unvisited v u
unfolding filter
unvisited-append_le v n [] = omega arith
unvisited-append_le v n (x ∷ u) =
    ground (arith, unvisited-append_le v n u, contains-append x v (n ∷ []))

-- A visit of an end leaves one fewer.
unvisited-append_lt :
    (v : List String) (n : String) (u : List String)
    → contains n v ≡ false
    → Memᴰ n u
    → unvisited (v ++ n ∷ []) u < unvisited v u
unfolding filter
unvisited-append_lt v n [] new m = elim m [ ]
unvisited-append_lt v n (x ∷ u) new (Memᴰ.head e) =
    let old : contains x v ≡ false = rw (← e) new in
    let now : contains x (v ++ n ∷ []) ≡ true =
      rw contains-append (unfold contains in ground (arith, eq_iff n x)) in
    rw (old, now) (omega (arith, unvisited-append_le v n u))
unvisited-append_lt v n (x ∷ u) new (Memᴰ.tail m) =
    ground (arith, unvisited-append_lt v n u new m, contains-append x v (n ∷ []))

neighbors_in_ends :
    (a b : String) (rels : List Relationship) → Memᴰ b (neighbors a rels) → Memᴰ b (ends rels)
unfolding neighbors ends
neighbors_in_ends a b [] m = m
neighbors_in_ends a b (r ∷ rels) m =
    elim (Memᴰ.append_cases (if r.from.id == a then r.to.id ∷ [] else []) m) [
      | inl first ↦ Memᴰ.tail (Memᴰ.head (one (r.from.id == a) first))
      | inr later ↦ elim (Memᴰ.append_cases (if r.to.id == a then r.from.id ∷ [] else []) later) [
        | inl second ↦ Memᴰ.head (one (r.to.id == a) second)
        | inr rest ↦ Memᴰ.tail (Memᴰ.tail (neighbors_in_ends a b rels rest))
      ]
    ]
  where
    one : {c : String} (t : Bool) → Memᴰ b (if t then c ∷ [] else []) → b ≡ c
    one true m = Memᴰ.eq_of_singleton m
    one false m = absurd (Memᴰ.not-nil m)

module _ (rels : List Relationship) (barrier admit : String → Bool) where
  abbrev pub measure : Frontier → ℕ
  measure s = length s.queue + unvisited s.visited (ends rels)

  visit-measure :
      (s : Frontier) (n : String)
      → Memᴰ n (ends rels)
      → measure (visit rels barrier admit s n) ≤ measure s
  unfolding visit
  visit-measure s n m = elim (Bool-cases (contains n s.visited)) [
    | inl old ↦ rw old (omega arith)
    | inr new ↦ elim (Bool-cases (admit n)) [
      | inl let_in ↦
          rw (new, let_in)
            (omega (
              arith,
              unvisited-append_lt s.visited n (ends rels) new m,
              length-append s.queue (n ∷ []),
            ))
      | inr out ↦ rw (new, out) (omega arith)
    ]
  ]

  visit_all-measure :
      (s : Frontier) (ns : List String)
      → ((n : String) → Memᴰ n ns → Memᴰ n (ends rels))
      → measure (visit_all rels barrier admit s ns) ≤ measure s
  unfolding visit_all
  visit_all-measure s [] h = omega arith
  visit_all-measure s (n ∷ ns) h = omega (
    arith,
    visit-measure s n (h n (Memᴰ.head refl)),
    visit_all-measure (visit rels barrier admit s n) ns (λ x m. h x (Memᴰ.tail m)),
  )

  pub expand-measure :
      (s : Frontier) (c : String) → measure (expand rels barrier admit s c) ≤ measure s
  unfolding expand
  expand-measure s c = elim (Bool-cases (barrier c)) [
    | inl e ↦ rw e (omega arith)
    | inr e ↦ rw e (visit_all-measure s (neighbors c rels) (λ n m. neighbors_in_ends c n rels m))
  ]

  -- What a visit leaves and what it adds.
  pub record Grows (s t : Frontier) : Type 0 where
    pub keeps : (x : String) → contains x s.visited ≡ true → contains x t.visited ≡ true
    pub keeps_queue : (x : String) → contains x s.queue ≡ true → contains x t.queue ≡ true
    pub queued :
        (x : String)
        → contains x t.visited ≡ true
        → (contains x s.visited ≡ true) ⊎ (contains x t.queue ≡ true)

  pub Grows-refl : (s : Frontier) → Grows s s
  Grows-refl s = record { keeps = λ x h. h; keeps_queue = λ x h. h; queued = λ x h. inl h }

  Grows-trans : (s t u : Frontier) → Grows s t → Grows t u → Grows s u
  Grows-trans s t u g h = record {
    keeps = λ x m. h.keeps x (g.keeps x m);
    keeps_queue = λ x m. h.keeps_queue x (g.keeps_queue x m);
    queued = λ x m. elim (h.queued x m) [
      | inl old ↦ elim (g.queued x old) [ inl older ↦ inl older | inr q ↦ inr (h.keeps_queue x q) ]
      | inr q ↦ inr q
    ];
  }

  contains-concat_left :
      (x n : String) (l : List String) → contains x l ≡ true → contains x (l ++ n ∷ []) ≡ true
  contains-concat_left x n l h = rw (contains-append, h)

  pub visit-Grows : (s : Frontier) (n : String) → Grows s (visit rels barrier admit s n)
  unfolding visit
  visit-Grows s n = elim (Bool-cases (contains n s.visited)) [
    | inl old ↦ rw old (Grows-refl s)
    | inr new ↦ elim (Bool-cases (admit n)) [
      | inr out ↦ rw (new, out) (Grows-refl s)
      | inl let_in ↦
          rw (new, let_in)
            (record {
              keeps = λ x h. contains-concat_left x n s.visited h;
              keeps_queue = λ x h. contains-concat_left x n s.queue h;
              queued = λ x h. elim (Bool-cases (contains x s.visited)) [
                | inl old ↦ inl old
                | inr no_old ↦
                    let last : contains x (n ∷ []) ≡ true =
                      ground (arith, contains-append x s.visited (n ∷ [])) in
                    inr (rw contains-append (ground arith))
              ];
            })
    ]
  ]

  pub visit_all-Grows :
      (s : Frontier) (ns : List String) → Grows s (visit_all rels barrier admit s ns)
  unfolding visit_all
  visit_all-Grows s [] = Grows-refl s
  visit_all-Grows s (n ∷ ns) =
      Grows-trans _ _ _ (visit-Grows s n) (visit_all-Grows (visit rels barrier admit s n) ns)

  visit-admits :
      (s : Frontier) (n : String)
      → admit n ≡ true
      → contains n (visit rels barrier admit s n).visited ≡ true
  unfolding visit
  visit-admits s n a = elim (Bool-cases (contains n s.visited)) [
    | inl old ↦ rw old old
    | inr new ↦ rw (new, a) (rw contains-append (unfold contains in ground (arith, eq_iff n n)))
  ]

  pub visit_all-admits :
      (s : Frontier) (ns : List String) (n : String)
      → Memᴰ n ns
      → admit n ≡ true
      → contains n (visit_all rels barrier admit s ns).visited ≡ true
  unfolding visit_all
  visit_all-admits s [] n m a = elim m [ ]
  visit_all-admits s (x ∷ ns) n (Memᴰ.head e) a =
      (visit_all-Grows (visit rels barrier admit s x) ns).keeps n
        (rw e (visit-admits s x (rw (← e) a)))
  visit_all-admits s (x ∷ ns) n (Memᴰ.tail m) a =
      visit_all-admits (visit rels barrier admit s x) ns n m a
