-- ===== src/Net/Blank.antt =====
-- `text.trim().is_empty()`: a text, in UTF-8, of characters with the property White_Space only.
use newghost.Prelude.{
  ℕ, ◌≡◌, refl, arith, Bool, true, false, ◌||◌, ◌&&◌, List, [], ◌∷◌, leb, ◌==◌, if◌then◌else◌,
}

-- The bytes of a white space character that were read.
pub data Pending : Type 0 where
  at_start after_c2 after_e1 after_e2 after_e2_80 after_e2_81 after_e3 last_80 : Pending

abbrev is_ascii_space : ℕ → Bool
is_ascii_space b = (leb 9 b && leb b 13) || b == 32

-- U+2000 to U+200A, U+2028, U+2029 and U+202F.
abbrev is_general_space : ℕ → Bool
is_general_space b = (leb 0x80 b && leb b 0x8a) || b == 0xa8 || b == 0xa9 || b == 0xaf

unfoldable pub blank_from : Pending → List ℕ → Bool
blank_from at_start [] = true
blank_from _ [] = false
blank_from at_start (b ∷ bs) =
    let next = blank_from at_start bs in
    let next_c2 = blank_from after_c2 bs in
    let next_e1 = blank_from after_e1 bs in
    let next_e2 = blank_from after_e2 bs in
    let next_e3 = blank_from after_e3 bs in
    if is_ascii_space b
    then next
    else if b == 0xc2
    then next_c2
    else if b == 0xe1
    then next_e1
    else if b == 0xe2
    then next_e2
    else if b == 0xe3
    then next_e3
    else false
blank_from after_c2 (b ∷ bs) =
    let next = blank_from at_start bs in if b == 0x85 || b == 0xa0 then next else false
blank_from after_e1 (b ∷ bs) = let next = blank_from last_80 bs in if b == 0x9a then next else false
blank_from after_e2 (b ∷ bs) =
    let next_80 = blank_from after_e2_80 bs in
    let next_81 = blank_from after_e2_81 bs in
    if b == 0x80 then next_80 else if b == 0x81 then next_81 else false
blank_from after_e2_80 (b ∷ bs) =
    let next = blank_from at_start bs in if is_general_space b then next else false
blank_from after_e2_81 (b ∷ bs) =
    let next = blank_from at_start bs in if b == 0x9f then next else false
blank_from after_e3 (b ∷ bs) = let next = blank_from last_80 bs in if b == 0x80 then next else false
blank_from last_80 (b ∷ bs) = let next = blank_from at_start bs in if b == 0x80 then next else false

unfoldable pub is_blank : List ℕ → Bool
unfolding blank_from
is_blank text = blank_from at_start text

pub is_blank-digit :
    (b : ℕ) (bs : List ℕ) → (leb 48 b && leb b 57) ≡ true → is_blank (b ∷ bs) ≡ false
unfolding is_blank
is_blank-digit b bs h = ground arith

-- A tab and an ideographic space are blank, a letter is not.
blank_spaces : is_blank (0x09 ∷ 0xe3 ∷ 0x80 ∷ 0x80 ∷ []) ≡ true
unfolding is_blank
blank_spaces = refl

not_blank_letter : is_blank (0x20 ∷ 0x61 ∷ []) ≡ false
unfolding is_blank
not_blank_letter = refl
