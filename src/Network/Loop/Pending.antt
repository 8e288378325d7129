-- ===== src/Network/Loop/Pending.antt =====
-- How often a responder waits in a table.
use kinetic_atlas.Base.{
  ℕ, ◌+◌, ◌≡◌, Option, none, some, [], ◌∷◌, arith, nat_eq, nat_eq_iff, if◌then◌else◌, ℕ_eq,
  Bool-cases, inl, inr, subst,
}
use kinetic_atlas.Base.Map
use kinetic_atlas.Base.Map.{Map}
use kinetic_atlas.Base.Map.Keys.{Lacks, IsFunctional, remove-Lacks}

-- 1 where the two responders are the same.
abbrev pub hit : ℕ → ℕ → ℕ
hit r s = if nat_eq r s then 1 else 0

abbrev pub hit_some : ℕ → Option ℕ → ℕ
hit_some r none = 0
hit_some r (some s) = hit r s

abbrev pub waiting : ℕ → Map ℕ ℕ → ℕ
waiting r [] = 0
waiting r ((k, s) ∷ m) = hit r s + waiting r m

-- Taking an entry out of a table takes its responder out, and no other.
pub waiting-remove :
    (r k : ℕ) (m : Map ℕ ℕ)
    → IsFunctional m
    → waiting r (Map.remove m k) + hit_some r (Map.get m k) ≡ waiting r m
unfolding Map.remove Map.get
waiting-remove r k [] h = omega arith
waiting-remove r k ((j, s) ∷ m) (l, h) = elim (Bool-cases (nat_eq j k)) [
  | inl e ↦
      let same : j ≡ k = (nat_eq_iff j k).0 e in
      rw e (rw (remove-Lacks k m (subst (λ x. Lacks x m) same l)) (omega arith))
  | inr e ↦ rw e (omega (arith, waiting-remove r k m h))
]

pub waiting-insert :
    (r k s : ℕ) (m : Map ℕ ℕ)
    → IsFunctional m
    → waiting r (Map.insert m k s) + hit_some r (Map.get m k) ≡ waiting r m + hit r s
unfolding Map.insert
waiting-insert r k s m h = omega (arith, waiting-remove r k m h)
