-- ===== src/Text/Trim.antt =====
-- Trimming: the result, that fuel is enough, and what repeated copies do.
use kinetic_atlas.Base.{
  ℕ, zero, suc, ◌+◌, ◌≤◌, ◌≡◌, ◌≢◌, refl, ap, sym, ◌∙◌, false, none, some, [], ◌∷◌, ◌++◌, arith,
  reverse, length, length-append, append_assoc, append-nil, Option-cases, inl, inr,
}
use kinetic_atlas.Text.{
  Str, strip_prefix, starts_with, ends_with, trim_rounds, trim_start_matches, trim_end_matches,
  trim_start_char,
}
use kinetic_atlas.Text.Prefix.{strip_prefix-append, eq_of_strip_prefix, strip_prefix-none}
use mathlib.Core.List.{reverse-append, reverse-reverse}

module _ (c : ℕ) (p : Str) where
  strip-shorter : (s r : Str) → strip_prefix (c ∷ p) s ≡ some r → length r + 1 ≤ length s
  strip-shorter s r h =
      let e : s ≡ c ∷ (p ++ r) = eq_of_strip_prefix (c ∷ p) s r h in
      omega (arith, ap (length {A = ℕ}) e, length-append {0} p r)

  trim_rounds-none : (n : ℕ) (s : Str) → strip_prefix (c ∷ p) s ≡ none → trim_rounds n (c ∷ p) s ≡ s
  unfolding trim_rounds
  trim_rounds-none zero s e = refl
  trim_rounds-none (suc n) s e = ground arith

  trim_rounds-some :
      (n : ℕ) (s r : Str)
      → strip_prefix (c ∷ p) s ≡ some r
      → trim_rounds (suc n) (c ∷ p) s ≡ trim_rounds n (c ∷ p) r
  unfolding trim_rounds
  trim_rounds-some n s r e = ground arith

  strip-nil : strip_prefix (c ∷ p) [] ≡ none
  unfolding strip_prefix
  strip-nil = refl

  -- More rounds than the text is long change nothing.
  trim_rounds-enough :
      (n m : ℕ) (s : Str)
      → length s ≤ n
      → length s ≤ m
      → trim_rounds n (c ∷ p) s ≡ trim_rounds m (c ∷ p) s
  trim_rounds-enough zero m [] h k = unfold trim_rounds in sym (trim_rounds-none m [] strip-nil)
  trim_rounds-enough zero m (x ∷ s) h k = absurd (omega arith)
  trim_rounds-enough (suc n) zero [] h k =
      unfold trim_rounds in trim_rounds-none (suc n) [] strip-nil
  trim_rounds-enough (suc n) zero (x ∷ s) h k = absurd (omega arith)
  trim_rounds-enough (suc n) (suc m) s h k = elim (Option-cases (strip_prefix (c ∷ p) s)) [
    | inl e ↦ trim_rounds-none (suc n) s e ∙ sym (trim_rounds-none (suc m) s e)
    | inr (r, e) ↦
        let shorter = strip-shorter s r e in
        trim_rounds-some n s r e
        ∙ trim_rounds-enough n m r (omega arith) (omega arith)
        ∙ sym (trim_rounds-some m s r e)
  ]

  -- The result has no further copy in front.
  trim_rounds-trimmed :
      (n : ℕ) (s : Str) → length s ≤ n → strip_prefix (c ∷ p) (trim_rounds n (c ∷ p) s) ≡ none
  trim_rounds-trimmed zero [] h = unfold trim_rounds in strip-nil
  trim_rounds-trimmed zero (x ∷ s) h = absurd (omega arith)
  trim_rounds-trimmed (suc n) s h = elim (Option-cases (strip_prefix (c ∷ p) s)) [
    | inl e ↦ rw (trim_rounds-none (suc n) s e) e
    | inr (r, e) ↦
        let shorter = strip-shorter s r e in
        rw (trim_rounds-some n s r e) (trim_rounds-trimmed n r (omega arith))
  ]

  -- One copy in front of a text makes no difference to the result.
  pub trim_start-append :
      (s : Str) → trim_start_matches (c ∷ p) ((c ∷ p) ++ s) ≡ trim_start_matches (c ∷ p) s
  unfolding trim_start_matches
  trim_start-append s =
      let longer = length-append {0} p s in
      trim_rounds-some (length (p ++ s)) ((c ∷ p) ++ s) s (strip_prefix-append (c ∷ p) s)
      ∙ trim_rounds-enough (length (p ++ s)) (length s) s (omega arith) (omega arith)

  pub trim_start-none : (s : Str) → starts_with (c ∷ p) s ≡ false → trim_start_matches (c ∷ p) s ≡ s
  unfolding trim_start_matches
  trim_start-none s h = trim_rounds-none (length s) s (strip_prefix-none (c ∷ p) s h)

  pub trim_start-trimmed : (s : Str) → starts_with (c ∷ p) (trim_start_matches (c ∷ p) s) ≡ false
  unfolding trim_start_matches starts_with
  trim_start-trimmed s = rw (starts_with, trim_rounds-trimmed (length s) s (omega arith))

-- A pattern that is not empty, read from its end, is not empty.
reverse-cons_form : (p : Str) → p ≢ [] → (c : ℕ) × (q : Str) × (reverse p ≡ c ∷ q)
reverse-cons_form p h = go (reverse p) refl
  where
    go : (r : Str) → reverse p ≡ r → (c : ℕ) × (q : Str) × (reverse p ≡ c ∷ q)
    go [] e = absurd (h (sym (reverse-reverse p) ∙ ap reverse e))
    go (c ∷ q) e = (c, q, e)

module _ (p : Str) (filled : p ≢ []) where
  -- One copy behind a text makes no difference to the result.
  pub trim_end-append : (s : Str) → trim_end_matches p (s ++ p) ≡ trim_end_matches p s
  unfolding trim_end_matches
  trim_end-append s =
      let (c, q, e) = reverse-cons_form p filled in
      rw (reverse-append s p, e) (ap reverse (trim_start-append c q (reverse s)))

  pub trim_end-none : (s : Str) → ends_with p s ≡ false → trim_end_matches p s ≡ s
  unfolding trim_end_matches ends_with
  trim_end-none s h =
      let (c, q, e) = reverse-cons_form p filled in
      let h' : starts_with (c ∷ q) (reverse s) ≡ false = rw (← e) h in
      rw e (rw (trim_start-none c q (reverse s) h') (reverse-reverse s))

  pub trim_end-trimmed : (s : Str) → ends_with p (trim_end_matches p s) ≡ false
  unfolding trim_end_matches ends_with
  trim_end-trimmed s =
      let (c, q, e) = reverse-cons_form p filled in
      rw (reverse-reverse, e) (trim_start-trimmed c q (reverse s))

-- Leading copies of one character, all of them.
abbrev pub HeadIsNot : ℕ → Str → Type 0
HeadIsNot c [] = Unit
HeadIsNot c (x ∷ s) = x ≢ c

pub trim_start_char-HeadIsNot : (c : ℕ) (s : Str) → HeadIsNot c (trim_start_char c s)
unfolding trim_start_char
trim_start_char-HeadIsNot c [] = tt
trim_start_char-HeadIsNot c (x ∷ s) = ground (arith, trim_start_char-HeadIsNot c s)

pub trim_start_char-none : (c : ℕ) (s : Str) → HeadIsNot c s → trim_start_char c s ≡ s
unfolding trim_start_char
trim_start_char-none c [] h = refl
trim_start_char-none c (x ∷ s) h = ground arith

abbrev pub copies : ℕ → Str → Str
copies zero p = []
copies (suc n) p = p ++ copies n p

copies_comm : (n : ℕ) (p : Str) → copies n p ++ p ≡ p ++ copies n p
copies_comm zero p = sym (append-nil p)
copies_comm (suc n) p = append_assoc p (copies n p) p ∙ ap (λ (l : Str). p ++ l) (copies_comm n p)

reverse-copies : (n : ℕ) (p : Str) → reverse (copies n p) ≡ copies n (reverse p)
reverse-copies zero p = refl
reverse-copies (suc n) p =
    reverse-append p (copies n p)
    ∙ ap (λ (l : Str). l ++ reverse p) (reverse-copies n p)
    ∙ copies_comm n (reverse p)

-- What trimming takes off is a number of copies.
trim_rounds-copies :
    (n : ℕ) (c : ℕ) (p s : Str) → (k : ℕ) × (s ≡ copies k (c ∷ p) ++ trim_rounds n (c ∷ p) s)
trim_rounds-copies zero c p s = (0, unfold trim_rounds in refl)
trim_rounds-copies (suc n) c p s = elim (Option-cases (strip_prefix (c ∷ p) s)) [
  | inl e ↦ (0, sym (trim_rounds-none c p (suc n) s e))
  | inr (r, e) ↦
      let (k, rest) = trim_rounds-copies n c p r in
      (
        suc k,
        eq_of_strip_prefix (c ∷ p) s r e
            ∙ ap (λ (l : Str). (c ∷ p) ++ l)
                (rest
                  ∙ ap (λ (l : Str). copies k (c ∷ p) ++ l) (sym (trim_rounds-some c p n s r e)))
            ∙ sym (append_assoc (c ∷ p) (copies k (c ∷ p)) (trim_rounds (suc n) (c ∷ p) s)),
      )
]

trim_start-copies : (p s : Str) → (k : ℕ) × (s ≡ copies k p ++ trim_start_matches p s)
unfolding trim_start_matches
trim_start-copies [] s = (0, refl)
trim_start-copies (c ∷ p) s = trim_rounds-copies (length s) c p s

pub trim_end-copies : (p s : Str) → (k : ℕ) × (s ≡ trim_end_matches p s ++ copies k p)
unfolding trim_end_matches
trim_end-copies p s =
    let (k, e) = trim_start-copies (reverse p) (reverse s) in
    let t : Str = trim_start_matches (reverse p) (reverse s) in
    (
      k,
      sym (reverse-reverse s)
          ∙ ap reverse e
          ∙ reverse-append (copies k (reverse p)) t
          ∙ ap (λ (l : Str). reverse t ++ l)
              (reverse-copies k (reverse p) ∙ ap (copies k) (reverse-reverse p)),
    )
