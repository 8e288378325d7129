-- ===== src/Text/Split.antt =====
-- Splitting at a character and joining again.
use kinetic_atlas.Base.{
  ℕ, suc, ◌≡◌, ◌≢◌, refl, ap, none, some, List, [], ◌∷◌, ◌++◌, arith, nat_eq, All, length, drop,
  inl, inr, Option-cases, Bool-cases,
}
use kinetic_atlas.Text.{Str, split, join, rfind, onto_first}

-- The character does not occur in the text.
abbrev pub Free : ℕ → Str → Type 0
Free c s = All (λ x. x ≢ c) s

module _ (c : ℕ) where
  pub split-ne-nil : (s : Str) → split c s ≢ []
  unfolding split
  split-ne-nil [] = ground arith
  split-ne-nil (x ∷ s) = ground arith

  pub split-Free : (s : Str) → Free c s → split c s ≡ s ∷ []
  unfolding split
  split-Free [] h = refl
  split-Free (x ∷ s) (p, h) = ground (arith, split-Free s h)

  pub split-append : (p s : Str) → Free c p → split c (p ++ c ∷ s) ≡ p ∷ split c s
  unfolding split
  split-append [] s h = ground arith
  split-append (x ∷ p) s (q, h) = ground (arith, split-append p s h)

  -- No piece holds the character.
  pub split-All-Free : (s : Str) → All (Free c) (split c s)
  unfolding split
  split-All-Free [] = (tt, tt)
  split-All-Free (x ∷ s) = ground (arith, split-All-Free s, split-ne-nil s)

  -- Joining pieces free of the character and splitting gives the pieces back.
  pub split-join :
      (p : Str) (ps : List Str) → All (Free c) (p ∷ ps) → split c (join (c ∷ []) (p ∷ ps)) ≡ p ∷ ps
  unfolding join
  split-join p [] (h, _) = split-Free p h
  split-join p (q ∷ ps) (h, hs) = rw (split-append p (join (c ∷ []) (q ∷ ps)) h, split-join q ps hs)

  join-onto_first :
      (x : ℕ) (ps : List Str) → ps ≢ [] → join (c ∷ []) (onto_first x ps) ≡ x ∷ join (c ∷ []) ps
  unfolding join
  join-onto_first x [] h = absurd (h refl)
  join-onto_first x (p ∷ []) h = refl
  join-onto_first x (p ∷ q ∷ ps) h = refl

  join-nil : (ps : List Str) → ps ≢ [] → join (c ∷ []) ([] ∷ ps) ≡ c ∷ join (c ∷ []) ps
  unfolding join
  join-nil [] h = absurd (h refl)
  join-nil (p ∷ ps) h = refl

  -- Splitting loses nothing.
  pub join-split : (s : Str) → join (c ∷ []) (split c s) ≡ s
  unfolding split
  join-split [] = unfold join in refl
  join-split (x ∷ s) = ground (
    arith,
    join-split s,
    join-nil (split c s) (split-ne-nil s),
    join-onto_first x (split c s) (split-ne-nil s),
  )

  rfind-Free : (s : Str) → Free c s → rfind c s ≡ none
  unfolding rfind
  rfind-Free [] h = refl
  rfind-Free (x ∷ s) (p, h) = ground (arith, rfind-Free s h)

  -- The last occurrence.
  pub rfind-append : (p s : Str) → Free c s → rfind c (p ++ c ∷ s) ≡ some (length p)
  unfolding rfind
  rfind-append [] s h = ground (arith, rfind-Free s h)
  rfind-append (x ∷ p) s h = ground (arith, rfind-append p s h)

  Free-of_rfind : (s : Str) → rfind c s ≡ none → Free c s
  unfolding rfind
  Free-of_rfind [] h = tt
  Free-of_rfind (x ∷ s) h = ground (arith, Free-of_rfind s)

  -- The text cut at the index that `rfind` returns.
  pub record CutAt (s : Str) (i : ℕ) : Type 0 where
    pub front : Str
    pub back : Str
    pub whole : s ≡ front ++ c ∷ back
    pub free : Free c back
    pub dropped : drop i s ≡ c ∷ back

  CutAt-cons : (x : ℕ) {s : Str} {i : ℕ} → CutAt s i → CutAt (x ∷ s) (suc i)
  CutAt-cons x k = record {
    front = x ∷ k.front;
    back = k.back;
    whole = ap (λ (l : Str). x ∷ l) k.whole;
    free = k.free;
    dropped = k.dropped;
  }

  CutAt-head : (x : ℕ) (s : Str) → x ≡ c → Free c s → CutAt (x ∷ s) 0
  CutAt-head x s e h = record {
    front = [];
    back = s;
    whole = ap (λ (y : ℕ). y ∷ s) e;
    free = h;
    dropped = ap (λ (y : ℕ). y ∷ s) e;
  }

  pub rfind-CutAt : (s : Str) (i : ℕ) → rfind c s ≡ some i → CutAt s i
  unfolding rfind
  rfind-CutAt [] i h = cc
  rfind-CutAt (x ∷ s) i h = elim (Option-cases (rfind c s)) [
    | inl e ↦
        let z : i ≡ 0 = ground arith in
        let h' : x ≡ c = ground arith in rw z (CutAt-head x s h' (Free-of_rfind s e))
    | inr (j, e) ↦ let z : i ≡ suc j = ground arith in rw z (CutAt-cons x (rfind-CutAt s j e))
  ]

  -- Splitting at any place where the character stands.
  pub split-append_any : (p s : Str) → split c (p ++ c ∷ s) ≡ split c p ++ split c s
  unfolding split
  split-append_any [] s = ground arith
  split-append_any (x ∷ p) s = elim (Bool-cases (nat_eq x c)) [
    | inl e ↦ rw (e, split-append_any p s)
    | inr e ↦
        rw (e, split-append_any p s) (onto_first-append x (split c p) (split c s) (split-ne-nil p))
  ]
    where
      onto_first-append :
          (y : ℕ) (ps qs : List Str) → ps ≢ [] → onto_first y (ps ++ qs) ≡ onto_first y ps ++ qs
      onto_first-append y [] qs h = absurd (h refl)
      onto_first-append y (q ∷ ps) qs h = refl

  pub split-join_ne : (ps : List Str) → ps ≢ [] → All (Free c) ps → split c (join (c ∷ []) ps) ≡ ps
  split-join_ne [] h k = absurd (h refl)
  split-join_ne (p ∷ ps) h k = split-join p ps k
