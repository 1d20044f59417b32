-- ===== src/Health/Worst.antt =====
-- The worst of several statuses: the health of a deployment from those of its components.
use zvia.Prelude.{◌≤◌, ◌≡◌, refl, ◌∙◌, List, [], ◌∷◌, ◌⊎◌, inl, inr, All, Memᴰ, arith}
use zvia.Topology.{HealthStatus}
use zvia.Health.{health_rank, worse, worst_from, worst_status}

worst_from-ge :
    (w : HealthStatus) (l : List HealthStatus) → health_rank w ≤ health_rank (worst_from w l)
unfolding worst_from worse
worst_from-ge w [] = omega arith
worst_from-ge w (s ∷ l) = ground (arith, worst_from-ge (worse w s) l)

worst_from_bound :
    (w : HealthStatus) (l : List HealthStatus)
    → All (λ s. health_rank s ≤ health_rank (worst_from w l)) l
unfolding worst_from
worst_from_bound w [] = tt
worst_from_bound w (s ∷ l) = (first, worst_from_bound (worse w s) l)
  where
    first : health_rank s ≤ health_rank (worst_from (worse w s) l)
    first = unfold worse in ground (arith, worst_from-ge (worse w s) l)

worse_cases : (w s : HealthStatus) → (worse w s ≡ w) ⊎ (worse w s ≡ s)
unfolding worse
worse_cases w s = ground arith

worst_from_attained :
    (w : HealthStatus) (l : List HealthStatus) → (worst_from w l ≡ w) ⊎ Memᴰ (worst_from w l) l
unfolding worst_from
worst_from_attained w [] = inl refl
worst_from_attained w (s ∷ l) = elim (worst_from_attained (worse w s) l) [
  | inl e ↦ elim (worse_cases w s) [ inl old ↦ inl (e ∙ old) | inr new ↦ inr (Memᴰ.head (e ∙ new)) ]
  | inr m ↦ inr (Memᴰ.tail m)
]

-- The worst status is one of those given, or `healthy`, and none of those given is worse.
pub worst_status-IsWorst :
    (l : List HealthStatus)
    → ((worst_status l ≡ HealthStatus.healthy) ⊎ Memᴰ (worst_status l) l)
      × All (λ s. health_rank s ≤ health_rank (worst_status l)) l
unfolding worst_status
worst_status-IsWorst l =
    (worst_from_attained HealthStatus.healthy l, worst_from_bound HealthStatus.healthy l)

worse-healthy : (s : HealthStatus) → worse HealthStatus.healthy s ≡ s
unfolding worse health_rank
worse-healthy HealthStatus.healthy = refl
worse-healthy _ = refl

-- Of one or more statuses the worst is one of them.
pub worst_status-cons :
    (s : HealthStatus) (l : List HealthStatus) → Memᴰ (worst_status (s ∷ l)) (s ∷ l)
unfolding worst_status worst_from
worst_status-cons s l =
    rw (worse-healthy s)
      (elim (worst_from_attained s l) [ inl e ↦ Memᴰ.head e | inr m ↦ Memᴰ.tail m ])
