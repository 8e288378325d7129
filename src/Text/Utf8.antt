-- ===== src/Text/Utf8.antt =====
-- `std::str::from_utf8`: the well-formed byte sequences of the Unicode standard, without surrogates,
-- overlong forms and code points above 0x10FFFF.
use kinetic_atlas.Base.{
  ℕ, ◌+◌, ◌-◌, ◌*◌, ◌<◌, ◌≡◌, refl, ◌&&◌, Option, none, some, [], ◌∷◌, arith, leb, ltb, nat_eq,
  if◌then◌else◌, All,
}
use kinetic_atlas.Text.{Str, Bytes}

-- What has still to come of a code point: how many bytes, the range of the next one, and the bits read.
pub record Pending : Type 0 where
  pub need : ℕ
  pub low : ℕ
  pub high : ℕ
  pub bits : ℕ

abbrev pending : ℕ → ℕ → ℕ → ℕ → Option Pending
pending n l h b = some (record { need = n; low = l; high = h; bits = b })

-- The first byte of a code point of more than one byte.
lead : ℕ → Option Pending
lead b =
    if leb 0xC2 b && leb b 0xDF
    then pending 1 0x80 0xBF (b - 0xC0)
    else if nat_eq b 0xE0
    then pending 2 0xA0 0xBF 0
    else if nat_eq b 0xED
    then pending 2 0x80 0x9F 13
    else if leb 0xE1 b && leb b 0xEF
    then pending 2 0x80 0xBF (b - 0xE0)
    else if nat_eq b 0xF0
    then pending 3 0x90 0xBF 0
    else if leb 0xF1 b && leb b 0xF3
    then pending 3 0x80 0xBF (b - 0xF0)
    else if nat_eq b 0xF4
    then pending 3 0x80 0x8F 4
    else none

abbrev cons_some : ℕ → Option Str → Option Str
cons_some c none = none
cons_some c (some s) = some (c ∷ s)

decode : Option Pending → Bytes → Option Str
decode none [] = some []
decode (some p) [] = none
decode none (b ∷ bs) =
    let plain = cons_some b (decode none bs) in
    let longer : Option Str = elim (lead b) [ none ↦ none | some p ↦ decode (some p) bs ] in
    if ltb b 0x80 then plain else longer
decode (some p) (b ∷ bs) =
    let bits = p.bits * 64 + (b - 0x80) in
    let done = cons_some bits (decode none bs) in
    let more = decode (pending (p.need - 1) 0x80 0xBF bits) bs in
    if leb p.low b && leb b p.high then (if leb p.need 1 then done else more) else none

unfoldable pub from_utf8 : Bytes → Option Str
unfolding decode lead
from_utf8 bs = decode none bs

decode-ascii : (bs : Bytes) → All (λ b. b < 0x80) bs → decode none bs ≡ some bs
unfolding decode
decode-ascii [] h = refl
decode-ascii (b ∷ bs) (p, h) = ground (arith, decode-ascii bs h)

-- ASCII bytes are their own code points.
pub from_utf8-ascii : (bs : Bytes) → All (λ b. b < 0x80) bs → from_utf8 bs ≡ some bs
unfolding from_utf8
from_utf8-ascii bs h = decode-ascii bs h

euro : from_utf8 (0xE2 ∷ 0x82 ∷ 0xAC ∷ []) ≡ some (0x20AC ∷ [])
unfolding from_utf8
euro = refl

surrogate : from_utf8 (0xED ∷ 0xA0 ∷ 0x80 ∷ []) ≡ none
unfolding from_utf8
surrogate = refl
