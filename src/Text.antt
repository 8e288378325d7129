-- ===== src/Text.antt =====
-- The operations of Rust's `str` and `String` that the program uses. A text is the list of its code
-- points; an index that the program takes from `rfind` and slices at is a count of code points here
-- and of bytes there, which denotes the same place.
pub mod Prefix
pub mod Split
pub mod Trim
pub mod Utf8
use Prim.Native.Char.{code}
use Prim.Native.String.{String}
use kinetic_atlas.Base.{
  ℕ, zero, suc, ◌+◌, Bool, true, false, ◌||◌, ◌&&◌, Option, none, some, List, [], ◌∷◌, ◌++◌,
  reverse, leb, nat_eq, if◌then◌else◌, ◌==◌, length, Eq, ℕ_eq, list_eq, list_eq_iff,
}

abbrev pub Str : Type 0
Str = List ℕ

instance abbrev pub Str_eq : Eq Str
Str_eq = record { equal = list_eq; equal_iff = list_eq_iff }

abbrev pub Bytes : Type 0
Bytes = List ℕ

-- A literal of the source.
abbrev pub str : String → Str
str String.[] = []
str (String.◌∷◌ c s) = code c ∷ str s

-- `s.strip_prefix(p)`
unfoldable pub strip_prefix : Str → Str → Option Str
strip_prefix [] s = some s
strip_prefix (c ∷ p) [] = none
strip_prefix (c ∷ p) (d ∷ s) = if nat_eq c d then strip_prefix p s else none

-- `s.starts_with(p)`
unfoldable pub starts_with : Str → Str → Bool
unfolding strip_prefix
starts_with p s = elim (strip_prefix p s) [ none ↦ false | some _ ↦ true ]

-- `s.ends_with(p)`
unfoldable pub ends_with : Str → Str → Bool
unfolding starts_with
ends_with p s = starts_with (reverse p) (reverse s)

-- Each round takes one copy of `p` off; a text of `n` code points holds at most `n` of them.
unfoldable pub trim_rounds : ℕ → Str → Str → Str
trim_rounds zero p s = s
trim_rounds (suc n) p s = elim (strip_prefix p s) [ none ↦ s | some rest ↦ trim_rounds n p rest ]

-- `s.trim_start_matches(p)` for a text `p`: it removes every leading copy, not only one. The empty
-- pattern matches nothing to remove.
unfoldable pub trim_start_matches : Str → Str → Str
unfolding trim_rounds strip_prefix
trim_start_matches [] s = s
trim_start_matches (c ∷ p) s = trim_rounds (length s) (c ∷ p) s

-- `s.trim_end_matches(p)`
unfoldable pub trim_end_matches : Str → Str → Str
unfolding trim_start_matches
trim_end_matches p s = reverse (trim_start_matches (reverse p) (reverse s))

-- `s.trim_start_matches(c)` for one character.
unfoldable pub trim_start_char : ℕ → Str → Str
trim_start_char c [] = []
trim_start_char c (x ∷ s) = if nat_eq x c then trim_start_char c s else x ∷ s

-- Puts a character in front of the first piece.
abbrev pub onto_first : ℕ → List Str → List Str
onto_first x [] = (x ∷ []) ∷ []
onto_first x (p ∷ ps) = (x ∷ p) ∷ ps

-- `s.split(c)` for one character: never without a piece.
unfoldable pub split : ℕ → Str → List Str
split c [] = [] ∷ []
split c (x ∷ s) = let rest = split c s in if nat_eq x c then [] ∷ rest else onto_first x rest

-- `parts.join(sep)`
unfoldable pub join : Str → List Str → Str
join sep [] = []
join sep (p ∷ []) = p
join sep (p ∷ q ∷ ps) = p ++ (sep ++ join sep (q ∷ ps))

-- `s.rfind(c)`
unfoldable pub rfind : ℕ → Str → Option ℕ
rfind c [] = none
rfind c (x ∷ s) = elim (rfind c s) [
  | some i ↦ some (suc i)
  | none ↦ if nat_eq x c then some 0 else none
]

-- `s.split(sep).nth(1)` for a text `sep`: what stands between its first two copies.
unfoldable pub before : Str → Str → Str
before sep [] = []
before sep (x ∷ s) = let rest = before sep s in if starts_with sep (x ∷ s) then [] else x ∷ rest

unfoldable pub second_piece : Str → Str → Option Str
unfolding strip_prefix before starts_with
second_piece sep [] = none
second_piece sep (x ∷ s) =
    let later = second_piece sep s in
    elim (strip_prefix sep (x ∷ s)) [ some rest ↦ some (before sep rest) | none ↦ later ]

-- `char::is_whitespace`: the code points with the property White_Space.
unfoldable pub is_whitespace : ℕ → Bool
is_whitespace c =
    (leb 9 c && leb c 13)
    || (nat_eq c 0x20
        || (nat_eq c 0x85
            || (nat_eq c 0xA0
                || (nat_eq c 0x1680
                    || ((leb 0x2000 c && leb c 0x200A)
                        || (nat_eq c 0x2028
                            || (nat_eq c 0x2029
                                || (nat_eq c 0x202F || (nat_eq c 0x205F || nat_eq c 0x3000)))))))))

unfoldable pub trim_start : Str → Str
unfolding is_whitespace
trim_start [] = []
trim_start (x ∷ s) = if is_whitespace x then trim_start s else x ∷ s

-- `s.trim()`
unfoldable pub trim : Str → Str
unfolding trim_start
trim s = reverse (trim_start (reverse (trim_start s)))

unfoldable pub until_whitespace : Str → Str
unfolding is_whitespace
until_whitespace [] = []
until_whitespace (x ∷ s) = if is_whitespace x then [] else x ∷ until_whitespace s

abbrev pub non_empty : Str → Option Str
non_empty [] = none
non_empty (x ∷ s) = some (x ∷ s)

-- `s.split_whitespace().next()`
unfoldable pub first_word : Str → Option Str
unfolding trim_start until_whitespace
first_word s = non_empty (until_whitespace (trim_start s))

-- `c.to_ascii_lowercase()`
unfoldable pub lower_char : ℕ → ℕ
lower_char c = if leb b'A' c && leb c b'Z' then c + 32 else c

-- `s.to_lowercase()` on a text of ASCII characters.
unfoldable pub to_lowercase : Str → Str
unfolding lower_char
to_lowercase [] = []
to_lowercase (c ∷ s) = lower_char c ∷ to_lowercase s
