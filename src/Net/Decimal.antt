-- ===== src/Net/Decimal.antt =====
-- `Display` and `FromStr` of the unsigned integers.
use native.Mathlib.Nat.{pow-suc}
use newghost.Prelude.{
  ℕ, zero, suc, ◌+◌, ◌-◌, ◌*◌, ◌/◌, ◌%◌, ◌^◌, ◌≤◌, ◌<◌, ◌≡◌, refl, arith, ◌∙◌, ap, sym, inl, inr,
  Bool-cases, Bool, true, false, ◌&&◌, Option, none, some, List, [], ◌∷◌, ltb, leb, ◌==◌,
  if◌then◌else◌,
}
use newghost.Net.Blank.{is_blank, is_blank-digit}

-- The decimal digits of `n` before `rest`, `k + 1` of them at most.
abbrev decimal_onto : ℕ → ℕ → List ℕ → List ℕ
decimal_onto zero n rest = (48 + n % 10) ∷ rest
decimal_onto (suc k) n rest =
    let more = decimal_onto k (n / 10) ((48 + n % 10) ∷ rest) in
    if ltb n 10 then (48 + n) ∷ rest else more

-- `n.to_string()`, of an integer of 64 bits at most.
unfoldable pub to_decimal : ℕ → List ℕ
to_decimal n = decimal_onto 20 n []

abbrev is_digit : ℕ → Bool
is_digit b = leb 48 b && leb b 57

-- The digits behind those that make `acc`; what exceeds `top` is an overflow.
unfoldable digits : ℕ → ℕ → List ℕ → Option ℕ
digits top acc [] = some acc
digits top acc (b ∷ bs) =
    let n = acc * 10 + (b - 48) in
    let rest = digits top n bs in if is_digit b then (if leb n top then rest else none) else none

abbrev signed_digits : ℕ → ℕ → List ℕ → Option ℕ
signed_digits top b [] = if is_digit b then digits top 0 (b ∷ []) else none
signed_digits top b (c ∷ cs) = if b == 43 then digits top 0 (c ∷ cs) else digits top 0 (b ∷ c ∷ cs)

-- `parse` into the integers up to `top`: digits, after a plus sign or none.
unfoldable pub parse_decimal : ℕ → List ℕ → Option ℕ
unfolding digits
parse_decimal top [] = none
parse_decimal top (b ∷ bs) = signed_digits top b bs

digits-decimal_onto :
    (k top n : ℕ) (rest : List ℕ)
    → n < 10 ^ suc k
    → n ≤ top
    → digits top 0 (decimal_onto k n rest) ≡ digits top n rest
unfolding digits
digits-decimal_onto zero top n rest small fits = ground arith
digits-decimal_onto (suc k) top n rest small fits =
    let grows = pow-suc 10 (suc k) in
    let more = digits-decimal_onto k top (n / 10) ((48 + n % 10) ∷ rest) in
    ground (arith, grows, more)

decimal_onto-head :
    (k n : ℕ) (rest : List ℕ)
    → (d : ℕ) × (ds : List ℕ) × (decimal_onto k n rest ≡ d ∷ ds) × (is_digit d ≡ true)
decimal_onto-head zero n rest = (_, _, refl, ground arith)
decimal_onto-head (suc k) n rest =
    let more = decimal_onto-head k (n / 10) ((48 + n % 10) ∷ rest) in
    elim (Bool-cases (ltb n 10)) [
      | inl one ↦ rw one (_, _, refl, ground (arith, one))
      | inr many ↦ rw many more
    ]

signed_digits-digit :
    (top b : ℕ) (bs : List ℕ) → is_digit b ≡ true → signed_digits top b bs ≡ digits top 0 (b ∷ bs)
signed_digits-digit top b [] h = rw h refl
signed_digits-digit top b (c ∷ cs) h =
    let no_sign : (b == 43) ≡ false = ground (arith, h) in rw no_sign refl

-- A number that the type holds is read back from its text.
pub parse_decimal-to_decimal :
    (top n : ℕ) → n ≤ top → n < 10 ^ 21 → parse_decimal top (to_decimal n) ≡ some n
unfolding parse_decimal to_decimal
parse_decimal-to_decimal top n fits small =
    let (d, ds, e, digit) = decimal_onto-head 20 n [] in
    let read = digits-decimal_onto 20 top n [] small fits in
    rw e (signed_digits-digit top d ds digit ∙ sym (ap (digits top 0) e) ∙ read)

pub is_blank-to_decimal : (n : ℕ) → is_blank (to_decimal n) ≡ false
unfolding to_decimal
is_blank-to_decimal n =
    let (d, ds, e, digit) = decimal_onto-head 20 n [] in rw e (is_blank-digit d ds digit)
