-- ===== src/Base/Exec/Results.antt =====
-- What the results of actions satisfy, one rule for each way to build an action.
use mathlib.Core.Logic.{◌⊎◌, inl, inr}
use mathlib.Core.Path.{◌≡◌, refl, subst, sym, ap, ◌∙◌}
use mathlib.Core.Bool.{Bool, true, false}
use jfrog_registry_operator.Base.Tests.{if◌then◌else◌}
use jfrog_registry_operator.Base.Outcomes.{GoError, Outcome, Done, ok, err, panic}
use jfrog_registry_operator.Base.Exec.Monad.{
  Exec, pure, raise, crash, lift, settle, handle, both, deferred, ◌>>=◌, ◌>>◌,
}

-- Inversion of a step that succeeded.
module _ {ℓ κ} {S : Type 0} {A : Type ℓ} {B : Type κ} where
  settle-ok :
      (r : Outcome A) (f : A → Exec S B) (s : S) {b : B}
      → (settle r f raise s).0 ≡ ok b
      → (a : A) × (r ≡ ok a) × (settle r f raise s ≡ f a s)
  unfolding raise
  settle-ok (ok a) f s h = (a, refl, refl)
  settle-ok (err e) f s h = cc
  settle-ok panic f s h = cc

  pub bind-ok :
      (m : Exec S A) (f : A → Exec S B) (s : S) {b : B}
      → ((m >>= f) s).0 ≡ ok b
      → (a : A) × ((m s).0 ≡ ok a) × ((m >>= f) s ≡ f a (m s).1)
  unfolding ◌>>=◌
  bind-ok m f s h = settle-ok (m s).0 f (m s).1 h

module _ {ℓ} {S : Type 0} {B : Type ℓ} where
  pub then-ok :
      (m : Exec S Done) (n : Exec S B) (s : S) {b : B}
      → ((m >> n) s).0 ≡ ok b
      → ((m s).0 ≡ ok tt) × ((m >> n) s ≡ n (m s).1)
  unfolding ◌>>◌
  then-ok m n s h = let (a, done, next) = bind-ok m (λ _. n) s h in (done, next)

ok-injective {ℓ} : {A : Type ℓ} (a b : A) → ok a ≡ ok b → a ≡ b
ok-injective a b h = cc

-- Every value that an action returns satisfies `Q`.
pub record Gives {ℓ κ} {S : Type 0} {A : Type ℓ} (Q : A → Type κ) (m : Exec S A)
    : Type (ℓ ⊔ κ) where
  pub at : (s : S) (a : A) → (m s).0 ≡ ok a → Q a

module _ {ℓ κ} {S : Type 0} {A : Type ℓ} {Q : A → Type κ} where
  pub Gives-pure : (a : A) → Q a → Gives {S = S} Q (pure a)
  unfolding pure
  Gives-pure a q = record { at = λ s b h. subst Q (ok-injective a b h) q }

  pub Gives-raise : (e : GoError) → Gives {S = S} Q (raise e)
  unfolding raise
  Gives-raise e = record { at = λ s b h. cc }

  pub Gives-crash : Gives {S = S} {A = A} Q crash
  unfolding crash
  Gives-crash = record { at = λ s b h. cc }

  pub Gives-lift : (r : Outcome A) → ((a : A) → r ≡ ok a → Q a) → Gives {S = S} Q (lift r)
  unfolding lift pure raise crash
  Gives-lift (ok a) q = record { at = λ s b h. q b h }
  Gives-lift (err e) q = record { at = λ s b h. cc }
  Gives-lift panic q = record { at = λ s b h. cc }

  pub Gives-if :
      (b : Bool) (m n : Exec S A)
      → (b ≡ true → Gives Q m)
      → (b ≡ false → Gives Q n)
      → Gives Q (if b then m else n)
  Gives-if true m n gm gn = gm refl
  Gives-if false m n gm gn = gn refl

module _ {ℓ₁ ℓ₂ κ₁ κ₂} {S : Type 0} {A : Type ℓ₁} {B : Type ℓ₂} {R : A → Type κ₁}
    {Q : B → Type κ₂} where
  Gives-settle :
      (r : Outcome A) (f : A → Exec S B) (g : GoError → Exec S B) (s : S) (b : B)
      → ((a : A) → r ≡ ok a → R a)
      → ((a : A) → R a → Gives Q (f a))
      → ((e : GoError) → Gives Q (g e))
      → (settle r f g s).0 ≡ ok b
      → Q b
  Gives-settle (ok a) f g s b gm gf gg h = (gf a (gm a refl)).at s b h
  Gives-settle (err e) f g s b gm gf gg h = (gg e).at s b h
  Gives-settle panic f g s b gm gf gg h = cc

  pub Gives-handle :
      (m : Exec S A) (f : A → Exec S B) (g : GoError → Exec S B)
      → Gives R m
      → ((a : A) → R a → Gives Q (f a))
      → ((e : GoError) → Gives Q (g e))
      → Gives Q (handle m f g)
  unfolding handle
  Gives-handle m f g gm gf gg = record {
    at = λ s b h. Gives-settle (m s).0 f g (m s).1 b (gm.at s) gf gg h;
  }

module _ {ℓ₁ ℓ₂ κ₁ κ₂} {S : Type 0} {A : Type ℓ₁} {B : Type ℓ₂} {R : A → Type κ₁}
    {Q : B → Type κ₂} where
  pub Gives-bind :
      (m : Exec S A) (f : A → Exec S B)
      → Gives R m
      → ((a : A) → R a → Gives Q (f a))
      → Gives Q (m >>= f)
  unfolding ◌>>=◌
  Gives-bind m f gm gf = Gives-handle m f _ gm gf (λ e. Gives-raise e)

both-ok {ℓ κ} :
    {A : Type ℓ} {B : Type κ} (r : Outcome A) (v : Outcome B) (p : A × B)
    → both r v ≡ ok p
    → (r ≡ ok p.0) × (v ≡ ok p.1)
both-ok (ok a) (ok b) p h = (cc, cc)
both-ok (err e) (ok b) p h = absurd (cc)
both-ok panic (ok b) p h = absurd (cc)
both-ok r (err e) p h = absurd (cc)
both-ok r panic p h = absurd (cc)

module _ {ℓ₁ ℓ₂ κ} {S : Type 0} {A : Type ℓ₁} {B : Type ℓ₂} {Q : A → Type κ} where
  pub Gives-deferred : (m : Exec S A) (d : Exec S B) → Gives Q m → Gives (λ p. Q p.0) (deferred m d)
  unfolding deferred
  Gives-deferred m d g = record { at = λ s p h. g.at s p.0 (both-ok (m s).0 (d (m s).1).0 p h).0 }

-- What may be said of every action.
pub Gives-any {ℓ} : {S : Type 0} {A : Type ℓ} (m : Exec S A) → Gives (λ a. Unit {0}) m
Gives-any m = record { at = λ s a h. tt }

module _ {ℓ₁ ℓ₂ κ₁ κ₂} {S : Type 0} {A : Type ℓ₁} {B : Type ℓ₂} {R : A → Type κ₁}
    {Q : B → Type κ₂} where
  pub Gives-then :
      (m : Exec S A) (n : Exec S B) → Gives R m → ((a : A) → R a → Gives Q n) → Gives Q (m >> n)
  unfolding ◌>>◌
  Gives-then m n gm gn = Gives-bind m _ gm gn

-- The three ways in which a handled step ends.
module _ {ℓ κ} {S : Type 0} {A : Type ℓ} {B : Type κ} where
  settle-cases :
      (r : Outcome A) (f : A → Exec S B) (g : GoError → Exec S B) (s : S)
      → ((a : A) × (r ≡ ok a) × (settle r f g s ≡ f a s))
        ⊎ (((e : GoError) × (r ≡ err e) × (settle r f g s ≡ g e s))
            ⊎ ((r ≡ panic) × (settle r f g s ≡ (panic, s))))
  settle-cases (ok a) f g s = inl (a, refl, refl)
  settle-cases (err e) f g s = inr (inl (e, refl, refl))
  settle-cases panic f g s = inr (inr (refl, refl))

  pub handle-cases :
      (m : Exec S A) (f : A → Exec S B) (g : GoError → Exec S B) (s : S)
      → ((a : A) × ((m s).0 ≡ ok a) × (handle m f g s ≡ f a (m s).1))
        ⊎ (((e : GoError) × ((m s).0 ≡ err e) × (handle m f g s ≡ g e (m s).1))
            ⊎ (((m s).0 ≡ panic) × (handle m f g s ≡ (panic, (m s).1))))
  unfolding handle
  handle-cases m f g s = settle-cases (m s).0 f g (m s).1

  pub handle-first :
      (m : Exec S A) (f : A → Exec S B) (g : GoError → Exec S B) (s : S) (a : A)
      → (m s).0 ≡ ok a
      → handle m f g s ≡ f a (m s).1
  unfolding handle
  handle-first m f g s a h = rw h refl

-- What holds after a handled step, from each way in which it ends.
module _ {ℓ κ ι} {S : Type 0} {A : Type ℓ} {B : Type κ} (Q : S → Type ι) where
  after-settle :
      (r : Outcome A) (f : A → Exec S B) (g : GoError → Exec S B) (s : S)
      → ((a : A) → r ≡ ok a → Q (f a s).1)
      → ((e : GoError) → r ≡ err e → Q (g e s).1)
      → Q s
      → Q (settle r f g s).1
  after-settle (ok a) f g s qf qg q = qf a refl
  after-settle (err e) f g s qf qg q = qg e refl
  after-settle panic f g s qf qg q = q

  pub after-handle :
      (m : Exec S A) (f : A → Exec S B) (g : GoError → Exec S B) (s : S)
      → ((a : A) → (m s).0 ≡ ok a → Q (f a (m s).1).1)
      → ((e : GoError) → (m s).0 ≡ err e → Q (g e (m s).1).1)
      → Q (m s).1
      → Q (handle m f g s).1
  unfolding handle
  after-handle m f g s = after-settle (m s).0 f g (m s).1

-- From a state with `P`, a value that an action returns and the state that it leaves satisfy `Q`.
pub record Ends {ℓ κ ι} {S : Type 0} {A : Type ℓ} (P : S → Type κ) (Q : A → S → Type ι)
    (m : Exec S A) : Type (ℓ ⊔ κ ⊔ ι) where
  pub at : (s : S) → P s → (a : A) → (m s).0 ≡ ok a → Q a (m s).1

module _ {ℓ κ ι} {S : Type 0} {A : Type ℓ} {P : S → Type κ} {Q : A → S → Type ι} where
  pub Ends-pure : (a : A) → ((s : S) → P s → Q a s) → Ends P Q (pure a)
  unfolding pure
  Ends-pure a q = record { at = λ s p b h. subst (λ c. Q c s) (ok-injective a b h) (q s p) }

  pub Ends-if :
      (b : Bool) (m n : Exec S A) → Ends P Q m → Ends P Q n → Ends P Q (if b then m else n)
  Ends-if true m n em en = em
  Ends-if false m n em en = en

module _ {ℓ₁ ℓ₂ κ ι ρ} {S : Type 0} {A : Type ℓ₁} {B : Type ℓ₂} {P : S → Type κ}
    {R : A → S → Type ρ} {Q : B → S → Type ι} where
  pub Ends-bind :
      (m : Exec S A) (f : A → Exec S B)
      → Ends P R m
      → ((a : A) → Ends (R a) Q (f a))
      → Ends P Q (m >>= f)
  Ends-bind m f em ef = record {
    at = λ s p b done.
        let (a, ran, eq) = bind-ok m f s done in
        subst (λ t. Q b t.1) (sym eq)
          ((ef a).at (m s).1 (em.at s p a ran) b (ap (λ t. t.0) (sym eq) ∙ done));
  }
