-- ===== src/Base/Outcomes.antt =====
-- What a Go function comes back with: a value, an error, or a panic.
use mathlib.Core.List.{◌++◌}
use jfrog_registry_operator.Base.Texts.{str, Text}
use Prim.Native.Nat.{ℕ}
use mathlib.Core.Path.{◌≡◌, refl}
use mathlib.Core.Bool.{Bool}
use mathlib.Core.Logic.{◌⊎◌, inl, inr}

-- An `error`. `api` is one that a package or a service outside the code made; its flag is what
-- `apierrors.IsNotFound` says of it. `plain` is `errors.New`, `wrap` is `fmt.Errorf` with `%w`.
-- The last two are a `*ReconcileError`: `RetryIn` in seconds, `Message`, and `Cause` if not nil.
pub data GoError : Type 0 where
  api : Bool → Text → GoError
  plain : Text → GoError
  wrap : Text → GoError → GoError
  reconcile : ℕ → Text → GoError
  reconcile_by : ℕ → Text → GoError → GoError

pub data Outcome {ℓ} (A : Type ℓ) : Type ℓ where
  ok : A → Outcome A
  err : GoError → Outcome A
  panic : Outcome A

infixl 5 ◌>>=◌
-- The rest runs on a value only.
abbrev pub ◌>>=◌ {ℓ₁ ℓ₂} : {V : Type ℓ₁} {W : Type ℓ₂} → Outcome V → (V → Outcome W) → Outcome W
panic >>= rest = panic
err problem >>= rest = err problem
ok value >>= rest = rest value

-- What comes back from two steps with a value has come through both.
pub >>=-eq-ok {ℓ₁ ℓ₂} :
    {V : Type ℓ₁} {W : Type ℓ₂} (first : Outcome V) (rest : V → Outcome W) {w : W}
    → (first >>= rest) ≡ ok w
    → (v : V) × (first ≡ ok v) × (rest v ≡ ok w)
>>=-eq-ok panic rest done = cc
>>=-eq-ok (err problem) rest done = cc
>>=-eq-ok (ok value) rest done = (value, refl, done)

-- An error of two steps is that of the first, or of the second on the value of the first.
pub >>=-eq-err {ℓ₁ ℓ₂} :
    {V : Type ℓ₁} {W : Type ℓ₂} (first : Outcome V) (rest : V → Outcome W) {e : GoError}
    → (first >>= rest) ≡ err e
    → (first ≡ err e) ⊎ ((v : V) × (first ≡ ok v) × (rest v ≡ err e))
>>=-eq-err panic rest done = cc
>>=-eq-err (err problem) rest done = inl cc
>>=-eq-err (ok value) rest done = inr (value, refl, done)

-- The result of a function that only reports an error.
abbrev pub Done : Type 0
Done = Unit

-- `Error()`. Every format with `%w` ends in `: %w`.
unfoldable pub error_text : GoError → Text
unfolding str
error_text (api not_found message) = message
error_text (plain message) = message
error_text (wrap message cause) = message ++ (str ": " ++ error_text cause)
error_text (reconcile retry message) = message
error_text (reconcile_by retry message cause) = message
