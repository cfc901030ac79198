-- ===== src/Prelude/Outcome.antt =====
-- What a fallible Rust function can do: return a value, return an error, or panic (an index or a
-- slice out of bounds). A property of the code proves that the panic does not happen.
use mathlib.Core.Path.{◌≡◌, refl}
use mathlib.Core.Logic.{◌≢◌, ◌⊎◌, inl, inr}
use native.Mathlib.Omega.{arith}
use mathlib.Core.Bool.{Bool, true, false}
use mathlib.Core.Option.{Option, none, some}
use mathlib.Core.List.{List}
use Prim.Native.Nat.{ℕ, ◌-◌, ◌≤◌, ◌<◌}
use newghost.Prelude.Tests.{leb, ltb, if◌then◌else◌}
use newghost.Prelude.Lists.{get_elem?, get_elem?-some, take, drop, length}

pub data Outcome {ℓ κ} (E : Type ℓ) (A : Type κ) : Type (ℓ ⊔ κ) where
  ok : A → Outcome E A
  err : E → Outcome E A
  panic : Outcome E A

-- The operator `?`: what is not a value ends the chain.
infixl 5 ◌>>=◌
abbrev pub ◌>>=◌ {ℓ κ μ} :
    {E : Type ℓ} {A : Type κ} {B : Type μ} (first : Outcome E A) (next : A → Outcome E B)
    → Outcome E B
panic >>= next = panic
err why >>= next = err why
ok value >>= next = next value

infixl 5 ◌>>◌
abbrev pub ◌>>◌ {ℓ κ} :
    {E : Type ℓ} {B : Type κ} (first : Outcome E (Unit {0})) (second : Outcome E B) → Outcome E B
first >> second = first >>= (λ done. second)

-- `if bad { return Err(e) }`
abbrev pub reject_if {ℓ} : {E : Type ℓ} → Bool → E → Outcome E (Unit {0})
reject_if bad why = if bad then err why else ok tt

-- `option.ok_or(e)?`
abbrev pub ok_or {ℓ κ} : {E : Type ℓ} {A : Type κ} → Option A → E → Outcome E A
ok_or (some a) e = ok a
ok_or none e = err e

-- `value[i]`
abbrev pub index {ℓ κ} : {E : Type ℓ} {A : Type κ} → List A → ℕ → Outcome E A
index xs i = elim (get_elem? xs i) [ some x ↦ ok x | none ↦ panic ]

-- `value[a..b]`
abbrev pub slice {ℓ κ} : {E : Type ℓ} {A : Type κ} → List A → ℕ → ℕ → Outcome E (List A)
slice xs a b =
    if leb a b then (if leb b (length xs) then ok (take (b - a) (drop a xs)) else panic) else panic

-- What a chain that returned a value went through.
pub >>=-eq-ok {ℓ κ μ} :
    {E : Type ℓ} {A : Type κ} {B : Type μ} (first : Outcome E A) (next : A → Outcome E B) {end : B}
    → (first >>= next) ≡ ok end
    → (value : A) × (first ≡ ok value) × (next value ≡ ok end)
>>=-eq-ok panic next reached = cc
>>=-eq-ok (err why) next reached = cc
>>=-eq-ok (ok value) next reached = (value, refl, reached)

-- Rules for chains that do not panic.
pub >>=-ne-panic {ℓ κ μ} :
    {E : Type ℓ} {A : Type κ} {B : Type μ} (m : Outcome E A) (f : A → Outcome E B)
    → m ≢ panic
    → ((a : A) → m ≡ ok a → f a ≢ panic)
    → (m >>= f) ≢ panic
>>=-ne-panic (ok a) f safe rest = rest a refl
>>=-ne-panic (err e) f safe rest = λ p. cc p
>>=-ne-panic panic f safe rest = absurd (safe refl)

pub reject_if-ne-panic {ℓ} : {E : Type ℓ} (b : Bool) (e : E) → reject_if b e ≢ panic
reject_if-ne-panic true e = λ p. cc p
reject_if-ne-panic false e = λ p. cc p

pub ok_or-ne-panic {ℓ κ} : {E : Type ℓ} {A : Type κ} (o : Option A) (e : E) → ok_or o e ≢ panic
ok_or-ne-panic (some a) e = λ p. cc p
ok_or-ne-panic none e = λ p. cc p

-- A length check that passes.
pub reject_if-le {ℓ} :
    {E : Type ℓ} (len n : ℕ) (e : E) {u : Unit {0}} → reject_if (ltb len n) e ≡ ok u → n ≤ len
reject_if-le len n e h = ground arith

pub index-ne-panic {ℓ} :
    {E : Type ℓ} (xs : List ℕ) (i : ℕ) → i < length xs → index {E = E} xs i ≢ panic
index-ne-panic xs i h = let (x, e) = get_elem?-some xs i h in rw (e, index) (λ p. cc p)

pub slice-ne-panic {ℓ} :
    {E : Type ℓ} (xs : List ℕ) (a b : ℕ) → a ≤ b → b ≤ length xs → slice {E = E} xs a b ≢ panic
slice-ne-panic xs a b h k = ground arith

-- Which of the three an outcome is.
pub Outcome-cases {ℓ κ} :
    {E : Type ℓ} {A : Type κ} (m : Outcome E A)
    → ((a : A) × (m ≡ ok a)) ⊎ (((e : E) × (m ≡ err e)) ⊎ (m ≡ panic))
Outcome-cases (ok a) = inl (a, refl)
Outcome-cases (err e) = inr (inl (e, refl))
Outcome-cases panic = inr (inr refl)
