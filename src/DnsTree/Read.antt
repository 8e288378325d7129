-- ===== src/DnsTree/Read.antt =====
-- What reading the texts of an answer puts on the stack and among the addresses.
use kinetic_atlas.Base.{
  ◌+◌, ◌≤◌, ◌≡◌, ◌≢◌, inl, inr, refl, true, false, Option, some, List, [], ◌∷◌, length,
  length-append, In, In-append_left, In-append_right, All, All-append, arith, Bool-cases,
  Option-cases, subst,
}
use kinetic_atlas.Text.{Str, starts_with, strip_prefix, trim_start_matches}
use kinetic_atlas.Text.Prefix.{eq_of_starts_with}
use kinetic_atlas.DnsTree.{
  Branches, branch_hashes, branch_prefix, leaf_prefix, push_hashes, push_parsed, read_text,
  read_texts,
}

abbrev pub IsBranch : Str → Type 0
IsBranch txt = starts_with branch_prefix txt ≡ true

-- The text names the branch `hash`.
abbrev pub Names : Str → Str → Type 0
Names txt hash = IsBranch txt × In hash (branch_hashes txt) × (hash ≢ [])

-- A leaf text is no branch text.
leaf-not_branch :
    (txt : Str) → starts_with leaf_prefix txt ≡ true → starts_with branch_prefix txt ≡ false
leaf-not_branch txt h =
    let (r, e) = eq_of_starts_with leaf_prefix txt h in
    rw e (unfold starts_with strip_prefix in refl)

module _ (Q : Str → Type 0) where
  push_hashes-All :
      (hs stack : List Str)
      → All Q stack
      → ((k : Str) → In k hs → k ≢ [] → Q k)
      → All Q (push_hashes hs stack)
  unfolding push_hashes
  push_hashes-All [] stack h f = h
  push_hashes-All ([] ∷ hs) stack h f = push_hashes-All hs stack h (λ k i. f k (inr i))
  push_hashes-All ((c ∷ p) ∷ hs) stack h f =
      push_hashes-All hs ((c ∷ p) ∷ stack) (f (c ∷ p) (inl refl) (ground arith), h)
        (λ k i. f k (inr i))

In-push_old : (x : Str) (hs stack : List Str) → In x stack → In x (push_hashes hs stack)
unfolding push_hashes
In-push_old x [] stack h = h
In-push_old x ([] ∷ hs) stack h = In-push_old x hs stack h
In-push_old x ((c ∷ p) ∷ hs) stack h = In-push_old x hs ((c ∷ p) ∷ stack) (inr h)

In-push_new : (x : Str) (hs stack : List Str) → In x hs → x ≢ [] → In x (push_hashes hs stack)
unfolding push_hashes
In-push_new x [] stack h f = absurd h.lower
In-push_new x ([] ∷ hs) stack (inl e) f = absurd (f e)
In-push_new x ([] ∷ hs) stack (inr h) f = In-push_new x hs stack h f
In-push_new x ((c ∷ p) ∷ hs) stack (inl e) f = In-push_old x hs ((c ∷ p) ∷ stack) (inl e)
In-push_new x ((c ∷ p) ∷ hs) stack (inr h) f = In-push_new x hs ((c ∷ p) ∷ stack) h f

module _ {Multiaddr : Type 0} (parse : Str → Option Multiaddr) where
  -- The text gives the address `ma`.
  abbrev pub Gives : Str → Multiaddr → Type 0
  Gives txt ma =
      (starts_with leaf_prefix txt ≡ true) × (parse (trim_start_matches leaf_prefix txt) ≡ some ma)

  pub length-push_parsed :
      (txt : Str) (addrs : List Multiaddr) → length (push_parsed parse txt addrs) ≤ length addrs + 1
  length-push_parsed txt addrs = elim (Option-cases (parse txt)) [
    | inl e ↦ rw (e, push_parsed) (omega arith)
    | inr (ma, e) ↦ rw (e, push_parsed) (omega (arith, length-append addrs (ma ∷ [])))
  ]

  pub In-push_parsed :
      (a : Multiaddr) (txt : Str) (addrs : List Multiaddr)
      → In a addrs
      → In a (push_parsed parse txt addrs)
  In-push_parsed a txt addrs h = elim (Option-cases (parse txt)) [
    | inl e ↦ rw (e, push_parsed) h
    | inr (ma, e) ↦ rw (e, push_parsed) (In-append_left a addrs (ma ∷ []) h)
  ]

  pub In-push_parsed_new :
      (a : Multiaddr) (txt : Str) (addrs : List Multiaddr)
      → parse txt ≡ some a
      → In a (push_parsed parse txt addrs)
  In-push_parsed_new a txt addrs e =
      rw (e, push_parsed) (In-append_right a addrs (a ∷ []) (inl refl))

  length-read_text :
      (txt : Str) (b : Branches parse) → length (read_text parse txt b).addrs ≤ length b.addrs + 1
  unfolding read_text
  length-read_text txt b =
      ground (arith, length-push_parsed (trim_start_matches leaf_prefix txt) b.addrs)

  pub length-read_texts :
      (txts : List Str) (b : Branches parse)
      → length (read_texts parse txts b).addrs ≤ length b.addrs + length txts
  unfolding read_texts
  length-read_texts [] b = omega arith
  length-read_texts (txt ∷ txts) b =
      omega (arith, length-read_text txt b, length-read_texts txts (read_text parse txt b))

  -- What holds of the old addresses and of every address that a text gives, holds of the new ones.
  module _ (Q : Str → Type 0) (R : Multiaddr → Type 0) where
    push_parsed-All :
        (txt : Str) (addrs : List Multiaddr)
        → All R addrs
        → ((ma : Multiaddr) → parse txt ≡ some ma → R ma)
        → All R (push_parsed parse txt addrs)
    push_parsed-All txt addrs h f = elim (Option-cases (parse txt)) [
      | inl e ↦ rw (e, push_parsed) h
      | inr (ma, e) ↦ rw (e, push_parsed) (All-append R addrs (ma ∷ []) h (f ma e, tt))
    ]

    read_text-All :
        (txt : Str) (b : Branches parse)
        → All Q b.stack × All R b.addrs
        → ((k : Str) → Names txt k → Q k)
        → ((ma : Multiaddr) → Gives txt ma → R ma)
        → All Q (read_text parse txt b).stack × All R (read_text parse txt b).addrs
    unfolding read_text
    read_text-All txt b (hq, hr) f g = elim (Bool-cases (starts_with branch_prefix txt)) [
      | inl e ↦
          rw (e, read_text)
            (
              push_hashes-All Q (branch_hashes txt) b.stack hq (λ k i filled. f k (e, i, filled)),
              hr,
            )
      | inr e ↦ elim (Bool-cases (starts_with leaf_prefix txt)) [
        | inl l ↦
            rw (e, l, read_text)
              (
                hq,
                push_parsed-All (trim_start_matches leaf_prefix txt) b.addrs hr
                    (λ ma p. g ma (l, p)),
              )
        | inr l ↦ rw (e, l, read_text) (hq, hr)
      ]
    ]

    pub read_texts-All :
        (txts : List Str) (b : Branches parse)
        → All Q b.stack
        → All R b.addrs
        → ((txt k : Str) → In txt txts → Names txt k → Q k)
        → ((txt : Str) (ma : Multiaddr) → In txt txts → Gives txt ma → R ma)
        → All Q (read_texts parse txts b).stack × All R (read_texts parse txts b).addrs
    unfolding read_texts
    read_texts-All [] b hq hr f g = (hq, hr)
    read_texts-All (txt ∷ txts) b hq hr f g =
        let (hq', hr') =
          read_text-All txt b (hq, hr) (λ k. f txt k (inl refl)) (λ ma. g txt ma (inl refl)) in
        read_texts-All txts (read_text parse txt b) hq' hr' (λ t k i. f t k (inr i))
          (λ t ma i. g t ma (inr i))

  -- Nothing on the stack or among the addresses gets lost.
  read_text-keeps :
      (txt : Str) (b : Branches parse)
      → ((x : Str) → In x b.stack → In x (read_text parse txt b).stack)
        × ((a : Multiaddr) → In a b.addrs → In a (read_text parse txt b).addrs)
  unfolding read_text
  read_text-keeps txt b = elim (Bool-cases (starts_with branch_prefix txt)) [
    | inl e ↦ rw (e, read_text) (λ x. In-push_old x (branch_hashes txt) b.stack, λ a h. h)
    | inr e ↦ elim (Bool-cases (starts_with leaf_prefix txt)) [
      | inl l ↦
          rw (e, l, read_text)
            (λ x h. h, λ a. In-push_parsed a (trim_start_matches leaf_prefix txt) b.addrs)
      | inr l ↦ rw (e, l, read_text) (λ x h. h, λ a h. h)
    ]
  ]

  pub read_texts-keeps :
      (txts : List Str) (b : Branches parse)
      → ((x : Str) → In x b.stack → In x (read_texts parse txts b).stack)
        × ((a : Multiaddr) → In a b.addrs → In a (read_texts parse txts b).addrs)
  unfolding read_texts
  read_texts-keeps [] b = (λ x h. h, λ a h. h)
  read_texts-keeps (txt ∷ txts) b =
      let (f, g) = read_text-keeps txt b in
      let (f', g') = read_texts-keeps txts (read_text parse txt b) in
      (λ x h. f' x (f x h), λ a h. g' a (g a h))

  -- Every branch that a text names gets on the stack, and every address that one gives gets in.
  read_text-Names :
      (txt k : Str) (b : Branches parse) → Names txt k → In k (read_text parse txt b).stack
  unfolding read_text
  read_text-Names txt k b (e, i, filled) =
      rw (e, read_text) (In-push_new k (branch_hashes txt) b.stack i filled)

  read_text-Gives :
      (txt : Str) (ma : Multiaddr) (b : Branches parse)
      → Gives txt ma
      → In ma (read_text parse txt b).addrs
  unfolding read_text
  read_text-Gives txt ma b (l, p) =
      rw (leaf-not_branch txt l, l, read_text)
        (In-push_parsed_new ma (trim_start_matches leaf_prefix txt) b.addrs p)

  pub read_texts-Names :
      (txts : List Str) (txt k : Str) (b : Branches parse)
      → In txt txts
      → Names txt k
      → In k (read_texts parse txts b).stack
  unfolding read_texts
  read_texts-Names [] txt k b i n = absurd i.lower
  read_texts-Names (t ∷ txts) txt k b (inl e) n =
      (read_texts-keeps txts (read_text parse t b)).0 k
        (read_text-Names t k b (subst (λ s. Names s k) e n))
  read_texts-Names (t ∷ txts) txt k b (inr i) n =
      read_texts-Names txts txt k (read_text parse t b) i n

  pub read_texts-Gives :
      (txts : List Str) (txt : Str) (ma : Multiaddr) (b : Branches parse)
      → In txt txts
      → Gives txt ma
      → In ma (read_texts parse txts b).addrs
  unfolding read_texts
  read_texts-Gives [] txt ma b i g = absurd i.lower
  read_texts-Gives (t ∷ txts) txt ma b (inl e) g =
      (read_texts-keeps txts (read_text parse t b)).1 ma
        (read_text-Gives t ma b (subst (λ s. Gives s ma) e g))
  read_texts-Gives (t ∷ txts) txt ma b (inr i) g =
      read_texts-Gives txts txt ma (read_text parse t b) i g
