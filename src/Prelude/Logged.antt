-- ===== src/Prelude/Logged.antt =====
-- A fallible `async fn` that sends: it runs on the log of what was sent before, and returns with the
-- log that it leaves, whether it ends with a value, an error or a panic.
use mathlib.Core.Path.{◌≡◌, refl}
use mathlib.Core.List.{List, [], ◌∷◌, ◌++◌}
use newghost.Prelude.Outcome.{Outcome, ok, err, panic}

abbrev pub Logged {ℓ κ μ} : (S : Type ℓ) (E : Type κ) (A : Type μ) → Type (ℓ ⊔ κ ⊔ μ)
Logged S E A = List S → Outcome E A × List S

abbrev pub continue_logged {ℓ κ μ ν} :
    {S : Type ℓ} {E : Type κ} {A : Type μ} {B : Type ν}
    → Outcome E A × List S
    → (A → Logged S E B)
    → Outcome E B × List S
continue_logged (ok a, log) next = next a log
continue_logged (err e, log) next = (err e, log)
continue_logged (panic, log) next = (panic, log)

-- The operator `?`.
infixl 5 ◌>>=◌
abbrev pub ◌>>=◌ {ℓ κ μ ν} :
    {S : Type ℓ} {E : Type κ} {A : Type μ} {B : Type ν} (first : Logged S E A)
    (next : A → Logged S E B)
    → Logged S E B
(first >>= next) log = continue_logged (first log) next

infixl 5 ◌>>◌
abbrev pub ◌>>◌ {ℓ κ ν} :
    {S : Type ℓ} {E : Type κ} {B : Type ν} (first : Logged S E (Unit {0})) (second : Logged S E B)
    → Logged S E B
(first >> second) log = continue_logged (first log) (λ u. second)

-- What sends nothing.
abbrev pub silent {ℓ κ μ} : {S : Type ℓ} {E : Type κ} {A : Type μ} → Outcome E A → Logged S E A
silent outcome log = (outcome, log)

-- What sends, and logs what it returns.
abbrev pub logs {ℓ κ} : {S : Type ℓ} {E : Type κ} → Outcome E S → Logged S E S
logs (ok s) log = (ok s, log ++ s ∷ [])
logs (err e) log = (err e, log)
logs panic log = (panic, log)

-- What holds of the log of the first step, and is kept by the second, holds of the chain's log.
pub logged-ind {ℓ κ μ ν ρ} :
    {S : Type ℓ} {E : Type κ} {A : Type μ} {B : Type ν} (P : List S → Type ρ)
    (run : Outcome E A × List S) (next : A → Logged S E B)
    → P run.1
    → ((a : A) → (log : List S) → run.0 ≡ ok a → P log → P (next a log).1)
    → P (continue_logged run next).1
logged-ind P (ok a, log) next held rest = rest a log refl held
logged-ind P (err e, log) next held rest = held
logged-ind P (panic, log) next held rest = held
