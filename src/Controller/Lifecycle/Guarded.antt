-- ===== src/Controller/Lifecycle/Guarded.antt =====
-- What `HandleFinalizers` gives.
use jfrog_registry_operator.Base.{ℕ, Text, List, true, not, ◌≡◌, ◌∙◌, ok, arith}
use jfrog_registry_operator.Base.Exec.{Gives, Gives-pure, Gives-raise, Gives-if, Gives-handle}
use jfrog_registry_operator.Api.{SecretRotator, Condition}
use jfrog_registry_operator.Cluster.Objects.{RotatorStore, Finalizers}
use jfrog_registry_operator.Operations.{secret_rotator_finalizer}
use jfrog_registry_operator.Controller.Lifecycle.{or_fail, handle_finalizers}

module _ {S : Type 0} (rotators : RotatorStore S) (finalizers : Finalizers) where
  open finalizers use {contains_finalizer, add_finalizer}

  -- A finalizer that is added is there, and the server keeps it.
  pub record KeepsFinalizers : Type 0 where
    pub add-contains :
        (r : SecretRotator) (f : Text)
        → (add_finalizer r f).1 ≡ true
        → contains_finalizer (add_finalizer r f).0 f ≡ true
    pub update-contains :
        (r r' : SecretRotator) (f : Text) (s : S)
        → (rotators.update r s).0 ≡ ok r'
        → contains_finalizer r' f ≡ contains_finalizer r f

  module _ (set_status_condition : List Condition → Condition → List Condition)
      (keeps : KeepsFinalizers) where
    abbrev IsGuarded : SecretRotator → Type 0
    IsGuarded r = contains_finalizer r secret_rotator_finalizer ≡ true

    update-IsGuarded :
        (r : SecretRotator) (retry : ℕ) (message : Text)
        → IsGuarded r
        → Gives IsGuarded
            (or_fail rotators set_status_condition finalizers (rotators.update r) retry message)
    unfolding or_fail
    update-IsGuarded r retry message guarded =
        Gives-handle _ _ _
          (record {
            at = λ s r' done. keeps.update-contains r r' secret_rotator_finalizer s done ∙ guarded;
          })
          (λ r' guarded'. Gives-pure r' guarded') (λ e. Gives-raise _)

    handle_finalizers-Gives :
        (r : SecretRotator)
        → Gives IsGuarded (handle_finalizers rotators set_status_condition finalizers r)
    unfolding handle_finalizers
    handle_finalizers-Gives r =
        Gives-if (contains_finalizer r secret_rotator_finalizer) _ _ (λ there. Gives-pure r there)
          (λ _.
            Gives-if (not (add_finalizer r secret_rotator_finalizer).1) _ _ (λ _. Gives-raise _)
              (λ added.
                update-IsGuarded _ 60 _
                  (keeps.add-contains r secret_rotator_finalizer (ground arith))))

    -- Where the finalizers have been handled without an error, the rotator that the reconciliation
    -- goes on with has the finalizer; a finalizer that is added is taken to be there, and the
    -- server to keep it.
    pub handle_finalizers-contains :
        (r r' : SecretRotator) (s : S)
        → (handle_finalizers rotators set_status_condition finalizers r s).0 ≡ ok r'
        → contains_finalizer r' secret_rotator_finalizer ≡ true
    handle_finalizers-contains r r' s done = (handle_finalizers-Gives r).at s r' done
