-- ===== src/Net/BigEndian.antt =====
-- `to_be_bytes` and `from_be_bytes` of the unsigned integers.
use native.Mathlib.Nat.{pow-suc}
use newghost.Prelude.{
  ℕ, zero, suc, ◌+◌, ◌*◌, ◌/◌, ◌%◌, ◌^◌, ◌<◌, ◌≡◌, arith, ◌∙◌, ap, List, [], ◌∷◌, length,
}

-- The `k` low bytes of `n`, the highest first, before `rest`.
abbrev be_onto : ℕ → ℕ → List ℕ → List ℕ
be_onto zero n rest = rest
be_onto (suc k) n rest = be_onto k (n / 256) (n % 256 ∷ rest)

-- `n.to_be_bytes()` of an integer of `k` bytes.
abbrev pub to_be_bytes : ℕ → ℕ → List ℕ
to_be_bytes k n = be_onto k n []

abbrev be_value : ℕ → List ℕ → ℕ
be_value acc [] = acc
be_value acc (b ∷ bs) = be_value (acc * 256 + b) bs

abbrev pub from_be_bytes : List ℕ → ℕ
from_be_bytes bytes = be_value 0 bytes

be_value-be_onto :
    (k n acc : ℕ) (rest : List ℕ)
    → n < 256 ^ k
    → be_value acc (be_onto k n rest) ≡ be_value (acc * 256 ^ k + n) rest
be_value-be_onto zero n acc rest h = ap (λ (t : ℕ). be_value t rest) (omega arith)
be_value-be_onto (suc k) n acc rest h =
    let grows = pow-suc 256 k in
    be_value-be_onto k (n / 256) acc (n % 256 ∷ rest) (omega (arith, grows))
    ∙ ap (λ (t : ℕ). be_value t rest) (omega (arith, ap (λ (t : ℕ). acc * t) grows))

pub from_be_bytes-to_be_bytes : (k n : ℕ) → n < 256 ^ k → from_be_bytes (to_be_bytes k n) ≡ n
from_be_bytes-to_be_bytes k n h = be_value-be_onto k n 0 [] h ∙ omega arith

length-be_onto : (k n : ℕ) (rest : List ℕ) → length (be_onto k n rest) ≡ k + length rest
length-be_onto zero n rest = omega arith
length-be_onto (suc k) n rest = omega (arith, length-be_onto k (n / 256) (n % 256 ∷ rest))

length-to_be_bytes : (k n : ℕ) → length (to_be_bytes k n) ≡ k
length-to_be_bytes k n = omega (arith, length-be_onto k n [])
