-- ===== src/Net/Hex.antt =====
-- A text of IP addresses that has the properties which the packets rely on: fixed-width hexadecimal
-- digits, with the sixteen characters from `0`.
use native.Mathlib.Nat.{pow-suc}
use newghost.Prelude.{
  ℕ, zero, suc, ◌+◌, ◌-◌, ◌*◌, ◌/◌, ◌%◌, ◌^◌, ◌≤◌, ◌<◌, ◌≡◌, refl, arith, ◌∙◌, ap, true, Option,
  none, some, List, [], ◌∷◌, length, ◌==◌, if◌then◌else◌,
}
use newghost.Net.Address.{IpAddr, v4, v6, IsIp, IpText}
use newghost.Net.Utf8.{is_utf8, IsAscii, is_utf8-ascii}

abbrev digits_onto : ℕ → ℕ → List ℕ → List ℕ
digits_onto zero n rest = rest
digits_onto (suc k) n rest = digits_onto k (n / 16) ((48 + n % 16) ∷ rest)

abbrev value : ℕ → List ℕ → ℕ
value acc [] = acc
value acc (b ∷ bs) = value (acc * 16 + (b - 48)) bs

value-digits_onto :
    (k n acc : ℕ) (rest : List ℕ)
    → n < 16 ^ k
    → value acc (digits_onto k n rest) ≡ value (acc * 16 ^ k + n) rest
value-digits_onto zero n acc rest h = ap (λ (t : ℕ). value t rest) (omega arith)
value-digits_onto (suc k) n acc rest h =
    let grows = pow-suc 16 k in
    value-digits_onto k (n / 16) acc ((48 + n % 16) ∷ rest) (omega (arith, grows))
    ∙ ap (λ (t : ℕ). value t rest) (omega (arith, ap (λ (t : ℕ). acc * t) grows))

length-digits_onto : (k n : ℕ) (rest : List ℕ) → length (digits_onto k n rest) ≡ k + length rest
length-digits_onto zero n rest = omega arith
length-digits_onto (suc k) n rest =
    omega (arith, length-digits_onto k (n / 16) ((48 + n % 16) ∷ rest))

digits_onto-IsAscii : (k n : ℕ) (rest : List ℕ) → IsAscii rest → IsAscii (digits_onto k n rest)
digits_onto-IsAscii zero n rest h = h
digits_onto-IsAscii (suc k) n rest h =
    digits_onto-IsAscii k (n / 16) ((48 + n % 16) ∷ rest) (omega arith, h)

abbrev as_number : ℕ → ℕ → ℕ → ℕ → ℕ
as_number a b c d = ((a * 256 + b) * 256 + c) * 256 + d

abbrev pub hex_text : IpAddr → List ℕ
hex_text (v4 a b c d) = digits_onto 8 (as_number a b c d) []
hex_text (v6 n) = digits_onto 32 n []

abbrev octets : ℕ → IpAddr
octets n = v4 (n / 16_777_216) (n / 65_536 % 256) (n / 256 % 256) (n % 256)

abbrev pub hex_parse : List ℕ → Option IpAddr
hex_parse bytes =
    if length bytes == 8
    then some (octets (value 0 bytes))
    else if length bytes == 32
    then some (v6 (value 0 bytes))
    else none

octets-as_number :
    (a b c d : ℕ) → a < 256 → b < 256 → c < 256 → d < 256 → octets (as_number a b c d) ≡ v4 a b c d
octets-as_number a b c d ha hb hc hd = ground arith

pub hex_parse-hex_text : (ip : IpAddr) → IsIp ip → hex_parse (hex_text ip) ≡ some ip
hex_parse-hex_text (v4 a b c d) h =
    let n = as_number a b c d in
    let back : value 0 (digits_onto 8 n []) ≡ n =
      value-digits_onto 8 n 0 [] (omega arith) ∙ omega arith in
    rw back (ap some (octets-as_number a b c d h.0 h.1 h.2 h.3))
hex_parse-hex_text (v6 n) h =
    let back : value 0 (digits_onto 32 n []) ≡ n = value-digits_onto 32 n 0 [] h ∙ omega arith in
    rw back refl

pub is_utf8-hex_text : (ip : IpAddr) → IsIp ip → is_utf8 (hex_text ip) ≡ true
is_utf8-hex_text (v4 a b c d) h =
    is_utf8-ascii (hex_text (v4 a b c d)) (digits_onto-IsAscii 8 (as_number a b c d) [] tt)
is_utf8-hex_text (v6 n) h = is_utf8-ascii (hex_text (v6 n)) (digits_onto-IsAscii 32 n [] tt)

pub length-hex_text : (ip : IpAddr) → IsIp ip → length (hex_text ip) ≤ 45
length-hex_text (v4 a b c d) h = omega (arith, length-digits_onto 8 (as_number a b c d) [])
length-hex_text (v6 n) h = omega (arith, length-digits_onto 32 n [])

abbrev pub hex : IpText
hex = record {
  to_text = hex_text;
  parse = hex_parse;
  parse-to_text = hex_parse-hex_text;
  is_utf8-to_text = is_utf8-hex_text;
  length-to_text = length-hex_text;
}
