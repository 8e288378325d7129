-- ===== src/Text/Prefix.antt =====
-- What `strip_prefix`, `starts_with` and `ends_with` decide.
use kinetic_atlas.Base.{
  ◌≡◌, refl, ap, sym, true, false, ◌∙◌, none, some, [], ◌∷◌, ◌++◌, reverse, arith, nat_eq_iff,
  Option-cases, inl, inr,
}
use kinetic_atlas.Text.{Str, strip_prefix, starts_with, ends_with}
use mathlib.Core.List.{reverse-append, reverse-reverse}

pub strip_prefix-append : (p s : Str) → strip_prefix p (p ++ s) ≡ some s
unfolding strip_prefix
strip_prefix-append [] s = refl
strip_prefix-append (c ∷ p) s = ground (arith, strip_prefix-append p s, nat_eq_iff c c)

pub eq_of_strip_prefix : (p s r : Str) → strip_prefix p s ≡ some r → s ≡ p ++ r
unfolding strip_prefix
eq_of_strip_prefix [] s r h = cc
eq_of_strip_prefix (c ∷ p) [] r h = cc
eq_of_strip_prefix (c ∷ p) (d ∷ s) r h = ground (arith, eq_of_strip_prefix p s r)

pub starts_with-append : (p s : Str) → starts_with p (p ++ s) ≡ true
unfolding starts_with
starts_with-append p s = rw (starts_with, strip_prefix-append p s)

pub eq_of_starts_with : (p s : Str) → starts_with p s ≡ true → (r : Str) × (s ≡ p ++ r)
unfolding starts_with
eq_of_starts_with p s h = elim (Option-cases (strip_prefix p s)) [
  | inl e ↦ ground arith
  | inr (r, e) ↦ (r, eq_of_strip_prefix p s r e)
]

-- Doing without a prefix that is not there.
pub strip_prefix-none : (p s : Str) → starts_with p s ≡ false → strip_prefix p s ≡ none
unfolding starts_with
strip_prefix-none p s h = ground arith

-- A text ends with `p` when it is some text followed by `p`.
pub eq_of_ends_with : (p s : Str) → ends_with p s ≡ true → (r : Str) × (s ≡ r ++ p)
unfolding ends_with
eq_of_ends_with p s h =
    let (r, e) = eq_of_starts_with (reverse p) (reverse s) h in
    (
      reverse r,
      sym (reverse-reverse s)
          ∙ ap reverse e
          ∙ reverse-append (reverse p) r
          ∙ ap (λ (q : Str). reverse r ++ q) (reverse-reverse p),
    )
