-- ===== src/Prelude/Program.antt =====
-- A fallible `async fn` that works on a socket: it runs on the state of the socket and returns a
-- value or an error, in both cases with the state that it leaves.
use mathlib.Core.Path.{◌≡◌, refl}
use mathlib.Core.Logic.{◌⊎◌, inl, inr}
use mathlib.Core.Bool.{Bool, true, false}
use mathlib.Core.Option.{Option, none, some}

pub data Run {ℓ κ μ} (S : Type ℓ) (E : Type κ) (A : Type μ) : Type (ℓ ⊔ κ ⊔ μ) where
  done : A → S → Run S E A
  failed : E → S → Run S E A

abbrev pub Program {ℓ κ μ} : (S : Type ℓ) (E : Type κ) (A : Type μ) → Type (ℓ ⊔ κ ⊔ μ)
Program S E A = S → Run S E A

abbrev pub continue_with {ℓ κ μ ν} :
    {S : Type ℓ} {E : Type κ} {A : Type μ} {B : Type ν}
    → Run S E A
    → (A → Program S E B)
    → Run S E B
continue_with (done a s) next = next a s
continue_with (failed e s) next = failed e s

-- The operator `?`.
infixl 5 ◌>>=◌
abbrev pub ◌>>=◌ {ℓ κ μ ν} :
    {S : Type ℓ} {E : Type κ} {A : Type μ} {B : Type ν} (first : Program S E A)
    (next : A → Program S E B)
    → Program S E B
(first >>= next) s = continue_with (first s) next

infixl 5 ◌>>◌
abbrev pub ◌>>◌ {ℓ κ ν} :
    {S : Type ℓ} {E : Type κ} {B : Type ν} (first : Program S E (Unit {0})) (second : Program S E B)
    → Program S E B
(first >> second) s = continue_with (first s) (λ u. second)

abbrev pub returns {ℓ κ μ} : {S : Type ℓ} {E : Type κ} {A : Type μ} → A → Program S E A
returns a s = done a s

abbrev pub fails {ℓ κ μ} : {S : Type ℓ} {E : Type κ} {A : Type μ} → E → Program S E A
fails e s = failed e s

-- `if bad { return Err(e) }`
abbrev pub fail_if {ℓ κ} : {S : Type ℓ} {E : Type κ} → Bool → E → Program S E (Unit {0})
fail_if true e s = failed e s
fail_if false e s = done tt s

-- `option.ok_or(e)?`
abbrev pub some_or {ℓ κ μ} : {S : Type ℓ} {E : Type κ} {A : Type μ} → Option A → E → Program S E A
some_or (some a) e s = done a s
some_or none e s = failed e s

abbrev pub left_in {ℓ κ μ} : {S : Type ℓ} {E : Type κ} {A : Type μ} → Run S E A → S
left_in (done a s) = s
left_in (failed e s) = s

-- What a chain that returned a value went through.
pub done-split {ℓ κ μ ν} :
    {S : Type ℓ} {E : Type κ} {A : Type μ} {B : Type ν} (run : Run S E A) (next : A → Program S E B)
    {end : B} {t : S}
    → continue_with run next ≡ done end t
    → (value : A) × (s : S) × (run ≡ done value s) × (next value s ≡ done end t)
done-split (failed e s) next reached = cc
done-split (done a s) next reached = (a, s, refl, reached)

-- What holds of both ends of the first step and is kept by the second holds of the chain.
pub continue_with-ind {ℓ κ μ ν ρ} :
    {S : Type ℓ} {E : Type κ} {A : Type μ} {B : Type ν} (P : Run S E B → Type ρ) (run : Run S E A)
    (next : A → Program S E B)
    → ((a : A) → (s : S) → run ≡ done a s → P (next a s))
    → ((e : E) → (s : S) → run ≡ failed e s → P (failed e s))
    → P (continue_with run next)
continue_with-ind P (done a s) next rest stop = rest a s refl
continue_with-ind P (failed e s) next rest stop = stop e s refl

pub Run-cases {ℓ κ μ} :
    {S : Type ℓ} {E : Type κ} {A : Type μ} (run : Run S E A)
    → ((a : A) × (s : S) × (run ≡ done a s)) ⊎ ((e : E) × (s : S) × (run ≡ failed e s))
Run-cases (done a s) = inl (a, s, refl)
Run-cases (failed e s) = inr (e, s, refl)
