-- ===== src/Net/Utf8.antt =====
-- `String::from_utf8` and `str::from_utf8`: the well-formed byte sequences of the Unicode standard
-- (its table 3-7).
use newghost.Prelude.{
  ℕ, zero, suc, ◌<◌, ◌≡◌, refl, arith, Bool, true, false, Option, none, some, List, [], ◌∷◌, ltb,
  leb, ◌==◌, if◌then◌else◌,
}

-- After a lead byte: how many continuation bytes follow, and the range of the first of them.
abbrev lead : ℕ → Option (ℕ × ℕ × ℕ)
lead b =
    if ltb b 0x80
    then some (0, 0x80, 0xbf)
    else if ltb b 0xc2
    then none
    else if leb b 0xdf
    then some (1, 0x80, 0xbf)
    else if b == 0xe0
    then some (2, 0xa0, 0xbf)
    else if b == 0xed
    then some (2, 0x80, 0x9f)
    else if leb b 0xef
    then some (2, 0x80, 0xbf)
    else if b == 0xf0
    then some (3, 0x90, 0xbf)
    else if leb b 0xf3
    then some (3, 0x80, 0xbf)
    else if b == 0xf4
    then some (3, 0x80, 0x8f)
    else none

-- The rest of a text from which `pending` continuation bytes are due, the first in `low` to `high`.
continues : ℕ → ℕ → ℕ → List ℕ → Bool
continues pending low high [] = pending == 0
continues zero low high (b ∷ bs) = elim (lead b) [
  | none ↦ false
  | some (pending, low', high') ↦ continues pending low' high' bs
]
continues (suc pending) low high (b ∷ bs) =
    let rest = continues pending 0x80 0xbf bs in
    if leb low b then (if leb b high then rest else false) else false

unfoldable pub is_utf8 : List ℕ → Bool
unfolding continues
is_utf8 bytes = continues 0 0x80 0xbf bytes

abbrev pub from_utf8 : List ℕ → Option (List ℕ)
from_utf8 bytes = if is_utf8 bytes then some bytes else none

abbrev pub IsAscii : List ℕ → Type 0
IsAscii [] = Unit {0}
IsAscii (b ∷ bs) = (b < 0x80) × IsAscii bs

pub is_utf8-ascii : (bytes : List ℕ) → IsAscii bytes → is_utf8 bytes ≡ true
unfolding is_utf8
is_utf8-ascii [] h = refl
is_utf8-ascii (b ∷ bs) h = ground (arith, is_utf8-ascii bs h.1)

-- "é", a surrogate and an overlong form.
utf8_accepts : is_utf8 (0x61 ∷ 0xc3 ∷ 0xa9 ∷ []) ≡ true
unfolding is_utf8
utf8_accepts = refl

utf8_rejects_surrogate : is_utf8 (0xed ∷ 0xa0 ∷ 0x80 ∷ []) ≡ false
unfolding is_utf8
utf8_rejects_surrogate = refl

utf8_rejects_overlong : is_utf8 (0xc0 ∷ 0xaf ∷ []) ≡ false
unfolding is_utf8
utf8_rejects_overlong = refl
