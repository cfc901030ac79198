-- ===== src/Obs/Redact.antt =====
-- src/obs/mod.rs: `redact_secret`.
use newghost.Prelude.{
  ℕ, suc, ◌-◌, ◌≡◌, refl, arith, Bool, true, false, ◌&&◌, List, [], ◌∷◌, ◌++◌, length,
  length-append, take, drop, drop-append, leb, if◌then◌else◌,
}

abbrev continuation_next : List ℕ → Bool
continuation_next [] = false
continuation_next (b ∷ bs) = leb 0x80 b && leb b 0xbf

abbrev joined : ℕ → Bool → List (List ℕ) → List (List ℕ)
joined b true (c ∷ cs) = (b ∷ c) ∷ cs
joined b true [] = (b ∷ []) ∷ []
joined b false cs = (b ∷ []) ∷ cs

-- `text.chars()`, each character as its bytes.
unfoldable pub chars : List ℕ → List (List ℕ)
chars [] = []
chars (b ∷ bs) = joined b (continuation_next bs) (chars bs)

abbrev pub concat : List (List ℕ) → List ℕ
concat [] = []
concat (c ∷ cs) = c ++ concat cs

-- `rev().take(n)`, back in order.
abbrev pub last : ℕ → List (List ℕ) → List (List ℕ)
last n cs = drop (length cs - n) cs

abbrev pub stars : List ℕ
stars = 0x2a ∷ 0x2a ∷ 0x2a ∷ []

unfoldable pub redact_chars : List (List ℕ) → List ℕ
redact_chars cs =
    if leb (length cs) 4 then stars else concat (take 2 cs) ++ stars ++ concat (last 2 cs)

unfoldable pub redact_secret : List ℕ → List ℕ
unfolding chars redact_chars
redact_secret secret = redact_chars (chars secret)

last-append : (xs : List (List ℕ)) (y z : List ℕ) → last 2 (xs ++ y ∷ z ∷ []) ≡ y ∷ z ∷ []
last-append xs y z =
    let n : length (xs ++ y ∷ z ∷ []) - 2 ≡ length xs =
      omega (arith, length-append xs (y ∷ z ∷ [])) in
    rw n (drop-append xs (y ∷ z ∷ []))

-- Of a secret of more than four characters, the redaction keeps the first two and the last two:
-- what stands between them has no influence on it. A shorter secret leaves no trace at all.
pub redact_secret-chars :
    (secret a b : List ℕ) (hidden : List (List ℕ)) (y z : List ℕ)
    → chars secret ≡ a ∷ b ∷ (hidden ++ y ∷ z ∷ [])
    → redact_secret secret ≡ (
        if leb 1 (length hidden)
        then concat (a ∷ b ∷ []) ++ stars ++ concat (y ∷ z ∷ [])
        else stars)
unfolding redact_secret redact_chars
redact_secret-chars secret a b [] y z split = rw split refl
redact_secret-chars secret a b (h ∷ hidden) y z split =
    let long : leb (length (a ∷ b ∷ ((h ∷ hidden) ++ y ∷ z ∷ []))) 4 ≡ false =
      ground (arith, length-append (h ∷ hidden) (y ∷ z ∷ [])) in
    let some_hidden : leb 1 (suc (length hidden)) ≡ true = ground arith in
    rw (split, long, some_hidden, last-append (a ∷ b ∷ h ∷ hidden) y z) refl
