-- ===== src/Base/Exec/Raising.antt =====
-- Which errors an action may end in, one rule for each way to build an action.
use mathlib.Core.Path.{◌≡◌, refl, subst}
use mathlib.Core.Bool.{Bool, true, false}
use jfrog_registry_operator.Base.Tests.{if◌then◌else◌}
use jfrog_registry_operator.Base.Outcomes.{GoError, Outcome, ok, err, panic}
use jfrog_registry_operator.Base.Exec.Monad.{Exec, pure, raise, crash, settle, handle, ◌>>=◌, ◌>>◌}

err-injective {ℓ} : {A : Type ℓ} (d e : GoError) → ◌≡◌ {A = Outcome A} (err d) (err e) → d ≡ e
err-injective d e h = cc

-- Every error of an action satisfies `Q`.
pub record Raises {ℓ κ} {S : Type 0} {A : Type ℓ} (Q : GoError → Type κ) (m : Exec S A)
    : Type (ℓ ⊔ κ) where
  pub at : (s : S) (e : GoError) → (m s).0 ≡ err e → Q e

module _ {ℓ κ} {S : Type 0} {A : Type ℓ} {Q : GoError → Type κ} where
  pub Raises-pure : (a : A) → Raises {S = S} Q (pure a)
  unfolding pure
  Raises-pure a = record { at = λ s e h. cc }

  pub Raises-raise : (e : GoError) → Q e → Raises {S = S} {A = A} Q (raise e)
  unfolding raise
  Raises-raise e q = record { at = λ s d h. subst Q (err-injective e d h) q }

  pub Raises-crash : Raises {S = S} {A = A} Q crash
  unfolding crash
  Raises-crash = record { at = λ s e h. cc }

  pub Raises-if :
      (b : Bool) (m n : Exec S A) → Raises Q m → Raises Q n → Raises Q (if b then m else n)
  Raises-if true m n raised_m raised_n = raised_m
  Raises-if false m n raised_m raised_n = raised_n

module _ {ℓ₁ ℓ₂ κ₁ κ₂} {S : Type 0} {A : Type ℓ₁} {B : Type ℓ₂} {R : GoError → Type κ₁}
    {Q : GoError → Type κ₂} where
  Raises-settle :
      (r : Outcome A) (f : A → Exec S B) (g : GoError → Exec S B) (s : S) (e : GoError)
      → ((d : GoError) → r ≡ err d → R d)
      → ((a : A) → Raises Q (f a))
      → ((d : GoError) → R d → Raises Q (g d))
      → (settle r f g s).0 ≡ err e
      → Q e
  Raises-settle (ok a) f g s e rm rf rg h = (rf a).at s e h
  Raises-settle (err d) f g s e rm rf rg h = (rg d (rm d refl)).at s e h
  Raises-settle panic f g s e rm rf rg h = cc

  pub Raises-handle :
      (m : Exec S A) (f : A → Exec S B) (g : GoError → Exec S B)
      → Raises R m
      → ((a : A) → Raises Q (f a))
      → ((d : GoError) → R d → Raises Q (g d))
      → Raises Q (handle m f g)
  unfolding handle
  Raises-handle m f g rm rf rg = record {
    at = λ s e h. Raises-settle (m s).0 f g (m s).1 e (rm.at s) rf rg h;
  }

module _ {ℓ₁ ℓ₂ κ} {S : Type 0} {A : Type ℓ₁} {B : Type ℓ₂} {Q : GoError → Type κ} where
  pub Raises-bind :
      (m : Exec S A) (f : A → Exec S B)
      → Raises Q m
      → ((a : A) → Raises Q (f a))
      → Raises Q (m >>= f)
  unfolding ◌>>=◌
  Raises-bind m f rm rf = Raises-handle m f _ rm rf (λ d q. Raises-raise d q)

  pub Raises-then : (m : Exec S A) (n : Exec S B) → Raises Q m → Raises Q n → Raises Q (m >> n)
  unfolding ◌>>◌
  Raises-then m n rm rn = Raises-bind m _ rm (λ _. rn)

-- What may be said of every action.
pub Raises-any {ℓ} : {S : Type 0} {A : Type ℓ} (m : Exec S A) → Raises (λ e. Unit {0}) m
Raises-any m = record { at = λ s e h. tt }
