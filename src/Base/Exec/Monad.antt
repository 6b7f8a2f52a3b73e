-- ===== src/Base/Exec/Monad.antt =====
-- Go functions that read and write a state beside their result: what was written before an error
-- stays written.
use jfrog_registry_operator.Base.Outcomes.{GoError, Outcome, ok, err, panic}

abbrev pub Exec {ℓ} : Type 0 → Type ℓ → Type ℓ
Exec S A = S → Outcome A × S

module _ {ℓ} {S : Type 0} {A : Type ℓ} where
  unfoldable pub pure : A → Exec S A
  pure a s = (ok a, s)

  unfoldable pub raise : GoError → Exec S A
  raise e s = (err e, s)

  unfoldable pub crash : Exec S A
  crash s = (panic, s)

module _ {ℓ κ} {S : Type 0} {A : Type ℓ} {B : Type κ} where
  abbrev pub settle : Outcome A → (A → Exec S B) → (GoError → Exec S B) → Exec S B
  settle (ok a) f g s = f a s
  settle (err e) f g s = g e s
  settle panic f g s = (panic, s)

  -- `a, err := m; if err != nil { g } else { f }`: a panic goes on to the caller.
  unfoldable pub handle : Exec S A → (A → Exec S B) → (GoError → Exec S B) → Exec S B
  handle m f g s = let (r, s') = m s in settle r f g s'

  infixl 10 ◌>>=◌ ◌>>◌
  unfoldable pub ◌>>=◌ : Exec S A → (A → Exec S B) → Exec S B
  unfolding handle raise pure
  m >>= f = handle m f raise

  unfoldable pub ◌>>◌ : Exec S A → Exec S B → Exec S B
  unfolding ◌>>=◌
  m >> n = m >>= λ _. n

-- A pure step within the stateful ones.
unfoldable pub lift {ℓ} : {S : Type 0} {A : Type ℓ} → Outcome A → Exec S A
lift (ok a) = pure a
lift (err e) = raise e
lift panic = crash

-- The value of `m` with that of a deferred call, which has the last word.
abbrev pub both {ℓ κ} : {A : Type ℓ} {B : Type κ} → Outcome A → Outcome B → Outcome (A × B)
both (ok a) (ok b) = ok (a, b)
both (err e) (ok b) = err e
both panic (ok b) = panic
both r (err e) = err e
both r panic = panic

-- `defer d()`: `d` runs at the end of `m`, whatever `m` ends in.
unfoldable pub deferred {ℓ κ} :
    {S : Type 0} {A : Type ℓ} {B : Type κ} → Exec S A → Exec S B → Exec S (A × B)
deferred m d s = let (r, s') = m s in let (v, s'') = d s' in (both r v, s'')
