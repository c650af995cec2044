-- ===== src/Prelude/Effect.antt =====
-- A method on `&mut self`: it leaves a state behind whether it returns, fails or panics, so what a
-- refused call has already written is not lost.
use deterministic_exchange_r.Prelude.{Bool, true, false}
use deterministic_exchange_r.Prelude.Outcome.{Outcome, ok, err, panic}

abbrev pub Effect {ℓ κ μ} : Type ℓ → Type κ → Type μ → Type (ℓ ⊔ κ ⊔ μ)
Effect S E A = S → Outcome E A × S

abbrev pub resume {ℓ κ μ ν} :
    {S : Type ℓ} {E : Type κ} {A : Type μ} {B : Type ν}
    → Outcome E A
    → (A → Effect S E B)
    → S
    → Outcome E B × S
resume (ok a) f s = f a s
resume (err e) f s = (err e, s)
resume panic f s = (panic, s)

infixl 5 ◌>>=◌ ◌>>◌
abbrev pub ◌>>=◌ {ℓ κ μ ν} :
    {S : Type ℓ} {E : Type κ} {A : Type μ} {B : Type ν}
    → Effect S E A
    → (A → Effect S E B)
    → Effect S E B
◌>>=◌ m f s = let r = m s in resume r.0 f r.1

abbrev pub ◌>>◌ {ℓ κ μ} :
    {S : Type ℓ} {E : Type κ} {B : Type μ} → Effect S E (Unit {0}) → Effect S E B → Effect S E B
m >> k = m >>= λ _. k

abbrev pub return {ℓ κ μ} : {S : Type ℓ} {E : Type κ} {A : Type μ} → A → Effect S E A
return a s = (ok a, s)

-- a computation that reads no state
abbrev pub lift {ℓ κ μ} : {S : Type ℓ} {E : Type κ} {A : Type μ} → Outcome E A → Effect S E A
lift r s = (r, s)

abbrev pub fail {ℓ κ μ} : {S : Type ℓ} {E : Type κ} {A : Type μ} → E → Effect S E A
fail e s = (err e, s)

abbrev pub get {ℓ κ} : {S : Type ℓ} {E : Type κ} → Effect S E S
get s = (ok s, s)

abbrev pub put {ℓ κ} : {S : Type ℓ} {E : Type κ} → S → Effect S E (Unit {0})
put s' s = (ok tt, s')

abbrev pub guard {ℓ κ} : {S : Type ℓ} {E : Type κ} → Bool → E → Effect S E (Unit {0})
guard true e s = (ok tt, s)
guard false e s = (err e, s)
