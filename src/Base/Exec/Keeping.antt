-- ===== src/Base/Exec/Keeping.antt =====
-- What an action leaves true of the state: a rule for each action of Base.Exec.Monad.
use mathlib.Core.Path.{◌≡◌, refl}
use mathlib.Core.Bool.{Bool, true, false}
use jfrog_registry_operator.Base.Tests.{if◌then◌else◌}
use jfrog_registry_operator.Base.Outcomes.{GoError, Outcome, ok, err, panic}
use jfrog_registry_operator.Base.Exec.Monad.{
  Exec, pure, raise, crash, settle, handle, deferred, ◌>>=◌, ◌>>◌,
}

-- An action keeps what holds of the state, whatever it ends in.
pub record Keeps {ℓ κ} {S : Type 0} {A : Type ℓ} (P : S → Type κ) (m : Exec S A) : Type κ where
  pub at : (s : S) → P s → P (m s).1

module _ {κ ℓ} {S : Type 0} {P : S → Type κ} {A : Type ℓ} where
  pub Keeps-crash : Keeps P (crash {A = A})
  unfolding crash
  Keeps-crash = record { at = λ before kept. kept }

  pub Keeps-raise : (problem : GoError) → Keeps P (raise {A = A} problem)
  unfolding raise
  Keeps-raise problem = record { at = λ before kept. kept }

  -- With the test in the branches, and without it.
  pub Keeps-if_on :
      (test : Bool) (yes_way no_way : Exec S A)
      → (test ≡ true → Keeps P yes_way)
      → (test ≡ false → Keeps P no_way)
      → Keeps P (if test then yes_way else no_way)
  Keeps-if_on false yes_way no_way kept_yes kept_no = kept_no refl
  Keeps-if_on true yes_way no_way kept_yes kept_no = kept_yes refl

  pub Keeps-if :
      (test : Bool) (yes_way no_way : Exec S A)
      → Keeps P yes_way
      → Keeps P no_way
      → Keeps P (if test then yes_way else no_way)
  Keeps-if test yes_way no_way kept_yes kept_no =
      Keeps-if_on test yes_way no_way (λ _. kept_yes) (λ _. kept_no)

  pub Keeps-pure : (value : A) → Keeps P (pure value)
  unfolding pure
  Keeps-pure value = record { at = λ before kept. kept }

module _ {κ ℓ₁ ℓ₂} {S : Type 0} {P : S → Type κ} {A : Type ℓ₁} {B : Type ℓ₂} where
  Keeps-settle :
      (r : Outcome A) (f : A → Exec S B) (g : GoError → Exec S B)
      → ((a : A) → Keeps P (f a))
      → ((e : GoError) → Keeps P (g e))
      → Keeps P (settle r f g)
  Keeps-settle (ok a) f g kf kg = kf a
  Keeps-settle (err e) f g kf kg = kg e
  Keeps-settle panic f g kf kg = record { at = λ s h. h }

  Keeps-settle_on :
      (R : A → Type κ) (r : Outcome A) (f : A → Exec S B) (g : GoError → Exec S B)
      → ((a : A) → r ≡ ok a → R a)
      → ((a : A) → R a → Keeps P (f a))
      → ((e : GoError) → Keeps P (g e))
      → Keeps P (settle r f g)
  Keeps-settle_on R (ok a) f g rel kf kg = kf a (rel a refl)
  Keeps-settle_on R (err e) f g rel kf kg = kg e
  Keeps-settle_on R panic f g rel kf kg = record { at = λ s h. h }

  -- The continuation may use what holds of the value in a state with `P`.
  pub Keeps-handle_on :
      (R : A → Type κ) (m : Exec S A) (f : A → Exec S B) (g : GoError → Exec S B)
      → ((s : S) (a : A) → P s → (m s).0 ≡ ok a → R a)
      → Keeps P m
      → ((a : A) → R a → Keeps P (f a))
      → ((e : GoError) → Keeps P (g e))
      → Keeps P (handle m f g)
  unfolding handle
  Keeps-handle_on R m f g rel km kf kg = record {
    at = λ s h. (Keeps-settle_on R (m s).0 f g (λ a e. rel s a h e) kf kg).at (m s).1 (km.at s h);
  }

  pub Keeps-handle :
      (m : Exec S A) (f : A → Exec S B) (g : GoError → Exec S B)
      → Keeps P m
      → ((a : A) → Keeps P (f a))
      → ((e : GoError) → Keeps P (g e))
      → Keeps P (handle m f g)
  unfolding handle
  Keeps-handle m f g km kf kg = record {
    at = λ s h. let (r, s') = m s in (Keeps-settle r f g kf kg).at s' (km.at s h);
  }

module _ {κ ℓ₁ ℓ₂} {S : Type 0} {P : S → Type κ} {A : Type ℓ₁} {B : Type ℓ₂} where
  pub Keeps-bind :
      (first : Exec S A) (rest : A → Exec S B)
      → Keeps P first
      → ((value : A) → Keeps P (rest value))
      → Keeps P (first >>= rest)
  unfolding ◌>>=◌
  Keeps-bind first rest kept kept_rest =
      Keeps-handle first rest _ kept kept_rest (λ e. Keeps-raise e)

  pub Keeps-bind_on :
      (R : A → Type κ) (m : Exec S A) (f : A → Exec S B)
      → ((s : S) (a : A) → P s → (m s).0 ≡ ok a → R a)
      → Keeps P m
      → ((a : A) → R a → Keeps P (f a))
      → Keeps P (m >>= f)
  unfolding ◌>>=◌
  Keeps-bind_on R m f rel km kf = Keeps-handle_on R m f _ rel km kf (λ e. Keeps-raise e)

  pub Keeps-then : (m : Exec S A) (n : Exec S B) → Keeps P m → Keeps P n → Keeps P (m >> n)
  unfolding ◌>>◌
  Keeps-then m n km kn = Keeps-bind m _ km (λ _. kn)

module _ {κ ℓ₁ ℓ₂} {S : Type 0} {P : S → Type κ} {A : Type ℓ₁} {B : Type ℓ₂} where
  pub Keeps-deferred :
      (m : Exec S A) (d : Exec S B) → Keeps P m → Keeps P d → Keeps P (deferred m d)
  unfolding deferred
  Keeps-deferred m d km kd = record { at = λ s h. kd.at (m s).1 (km.at s h) }

pub ruleset keeps_rules =
    (Keeps-pure, Keeps-raise, Keeps-crash, Keeps-if, Keeps-handle, Keeps-bind, Keeps-then)
