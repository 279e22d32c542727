-- ===== src/Core/Error.antt =====
-- backend/crates/core/src/error.rs: the application's error and its result, with `?` as bind.
use coin_listener.Prelude.{true, false, if◌then◌else◌, ◌≡◌, refl, Bool, ◌++◌, true}
use coin_listener.Prelude.Text.{Text, codes}

pub data AppError : Type 0 where
  config : Text → AppError
  database : Text → AppError
  redis : Text → AppError
  external_notification : Text → AppError
  not_found : Text → AppError
  validation : Text → AppError
  unauthorized : AppError
  forbidden : AppError

-- `to_string`, by the `#[error(...)]` attributes.
unfoldable pub error_text : AppError → Text
error_text (config m) = codes "configuration error: " ++ m
error_text (database m) = codes "database error: " ++ m
error_text (redis m) = codes "redis error: " ++ m
error_text (external_notification m) = codes "external notification error: " ++ m
error_text (not_found m) = codes "not found: " ++ m
error_text (validation m) = codes "validation error: " ++ m
error_text unauthorized = codes "unauthorized"
error_text forbidden = codes "forbidden"

pub data AppResult {ℓ} (T : Type ℓ) : Type ℓ where
  err : AppError → AppResult T
  ok : T → AppResult T

pub err-ne-ok {ℓ} : {T : Type ℓ} {e : AppError} {t : T} → err e ≡ ok t → ⊥
err-ne-ok h = cc

-- `if !test { return Err(e) }`.
abbrev pub ensure : Bool → AppError → AppResult (Unit {0})
ensure test e = if test then ok tt else err e

-- The operator `?`: the rest of the body is run on the value, and an error is returned.
infixl 10 ◌>>=◌ ◌>>◌
abbrev pub ◌>>=◌ {ℓ κ} :
    {T : Type ℓ} {U : Type κ} (tried : AppResult T) (rest : T → AppResult U) → AppResult U
err e >>= rest = err e
ok value >>= rest = rest value

abbrev pub ◌>>◌ {ℓ} : {U : Type ℓ} (tried : AppResult (Unit {0})) (rest : AppResult U) → AppResult U
err e >> rest = err e
ok done >> rest = rest

-- A body that returns a value got one from what it tried first.
pub >>=-eq-ok {ℓ κ} :
    {T : Type ℓ} {U : Type κ} (tried : AppResult T) (rest : T → AppResult U) {out : U}
    → (tried >>= rest) ≡ ok out
    → (value : T) × (tried ≡ ok value) × (rest value ≡ ok out)
>>=-eq-ok (err e) rest returns = absurd (err-ne-ok returns)
>>=-eq-ok (ok value) rest returns = (value, refl, returns)

pub >>-eq-ok {ℓ} :
    {U : Type ℓ} (tried : AppResult (Unit {0})) (rest : AppResult U) {out : U}
    → (tried >> rest) ≡ ok out
    → (tried ≡ ok tt) × (rest ≡ ok out)
>>-eq-ok (err e) rest returns = absurd (err-ne-ok returns)
>>-eq-ok (ok done) rest returns = (refl, returns)

pub ensure-eq-ok : (test : Bool) (e : AppError) → ensure test e ≡ ok tt → test ≡ true
ensure-eq-ok true e h = refl
ensure-eq-ok false e h = absurd (err-ne-ok h)

pub eq_of_ok {ℓ} : {T : Type ℓ} {t u : T} → ok t ≡ ok u → t ≡ u
eq_of_ok h = cc

abbrev pub IsOk {ℓ} : {A : Type ℓ} → AppResult A → Type 0
IsOk (err e) = ⊥
IsOk (ok a) = Unit
