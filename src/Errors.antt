-- ===== src/Errors.antt =====
-- include/fac_lpr/application/error.hpp: the exceptions of the engine, as values.
-- An `EngineError` is modelled by its code; the message text is not.
use fac_lpr_engine.Prelude.{◌≡◌, refl, Bool, true, false, ◌⊎◌, inl, inr}

pub data EngineErrorCode : Type 0 where
  configuration : EngineErrorCode
  model_load : EngineErrorCode
  inference : EngineErrorCode
  invalid_image : EngineErrorCode
  provider : EngineErrorCode
  cancelled : EngineErrorCode
  timeout : EngineErrorCode
  resource_exhausted : EngineErrorCode
  internal : EngineErrorCode

-- The outcome of code that may throw an `EngineError`.
pub data Result {ℓ} (A : Type ℓ) : Type ℓ where
  ok : A → Result A
  err : EngineErrorCode → Result A

-- What follows a throw is not run.
module _ {ℓ κ} {A : Type ℓ} {B : Type κ} where
  infixl 5 ◌>>=◌
  abbrev pub ◌>>=◌ : Result A → (A → Result B) → Result B
  err code >>= next = err code
  ok value >>= next = next value

  pub >>=-eq-ok :
      (action : Result A) (next : A → Result B) {out : B}
      → (action >>= next) ≡ ok out
      → (value : A) × (action ≡ ok value) × (next value ≡ ok out)
  >>=-eq-ok (err code) next h = cc
  >>=-eq-ok (ok value) next h = (value, refl, h)

-- `if (test) throw Error(code);`
abbrev pub throw_if : Bool → EngineErrorCode → Result (Unit {0})
throw_if false code = ok tt
throw_if true code = err code

module _ {ℓ} {A : Type ℓ} where
  infixl 5 ◌>>◌
  abbrev pub ◌>>◌ : Result (Unit {0}) → Result A → Result A
  check >> rest = check >>= λ passed. rest

  pub Result-cases :
      (outcome : Result A)
      → ((code : EngineErrorCode) × (outcome ≡ err code)) ⊎ ((value : A) × (outcome ≡ ok value))
  Result-cases (err code) = inl (code, refl)
  Result-cases (ok value) = inr (value, refl)
