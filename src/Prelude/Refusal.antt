-- ===== src/Prelude/Refusal.antt =====
-- Calls that give no error, and calls that change nothing when they do.
use deterministic_exchange_r.Prelude.{◌≡◌, ◌≢◌, refl, inl, inr, Bool, true, false, if◌then◌else◌}
use deterministic_exchange_r.Prelude.Outcome.{Outcome, ok, err, panic, outcome-cases}
use deterministic_exchange_r.Prelude.Effect.{Effect, ◌>>=◌, ◌>>◌, lift, guard}

abbrev pub IsSure {ℓ κ μ} : {E : Type κ} {A : Type μ} → Outcome E A → Type (κ ⊔ μ)
IsSure {E = E} r = (why : E) → r ≢ err why

module _ {ℓ κ μ} {S : Type ℓ} {E : Type κ} {A : Type μ} where
  abbrev pub NoError : Effect S E A → Type (ℓ ⊔ κ ⊔ μ)
  NoError m = (s : S) (why : E) → (m s).0 ≢ err why

  -- Started in the state, an error leaves that state.
  abbrev pub KeepsOnError : Effect S E A → S → Type (ℓ ⊔ κ ⊔ μ)
  KeepsOnError m s = (why : E) → (m s).0 ≡ err why → (m s).1 ≡ s

  pub NoError-keeps : (m : Effect S E A) (s : S) → NoError m → KeepsOnError m s
  NoError-keeps m s sure why refused = absurd (sure s why refused)

  pub NoError-if :
      (c : Bool) (m n : Effect S E A) → NoError m → NoError n → NoError (if c then m else n)
  NoError-if true m n sure_m sure_n = sure_m
  NoError-if false m n sure_m sure_n = sure_n

  pub keeps-if :
      (c : Bool) (m n : Effect S E A) (s : S)
      → KeepsOnError m s
      → KeepsOnError n s
      → KeepsOnError (if c then m else n) s
  keeps-if true m n s keep_m keep_n = keep_m
  keeps-if false m n s keep_m keep_n = keep_n

module _ {ℓ κ μ ν} {S : Type ℓ} {E : Type κ} {A : Type μ} {B : Type ν} where
  pub NoError-bind :
      (m : Effect S E A) (f : A → Effect S E B)
      → NoError m
      → ((a : A) → NoError (f a))
      → NoError (m >>= f)
  NoError-bind m f sure after s why refused = elim (outcome-cases (m s).0) [
    | inl (a, done) ↦ let refused' = rw done at refused in after a (m s).1 why refused'
    | inr (inl (e, failed)) ↦ sure s e failed
    | inr (inr stuck) ↦ let clash = rw stuck at refused in cc
  ]

  pub keeps-bind_lift :
      (r : Outcome E A) (f : A → Effect S E B) (s : S)
      → ((a : A) → KeepsOnError (f a) s)
      → KeepsOnError (lift r >>= f) s
  keeps-bind_lift (ok a) f s after why refused = after a why refused
  keeps-bind_lift (err e) f s after why refused = refl
  keeps-bind_lift panic f s after why refused = refl

module _ {ℓ κ ν} {S : Type ℓ} {E : Type κ} {B : Type ν} where
  pub keeps-guard :
      (c : Bool) (e : E) (m : Effect S E B) (s : S)
      → KeepsOnError m s
      → KeepsOnError (guard c e >> m) s
  keeps-guard true e m s after why refused = after why refused
  keeps-guard false e m s after why refused = refl
