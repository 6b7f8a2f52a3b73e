-- ===== src/Controller/Reconcile/Next.antt =====
-- When the run after one that has succeeded comes.
use jfrog_registry_operator.Base.{
  ℕ, ◌*◌, ◌≤◌, Text, List, false, Option, none, some, Outcome, ok, ◌≡◌, inl, refl, ap, ◌∙◌, arith,
}
use jfrog_registry_operator.Base.Int.{ℤ, pos}
use jfrog_registry_operator.Base.Exec.{pure, handle-first}
use jfrog_registry_operator.Api.{SecretRotator, SecretRotatorSpec, Condition}
use jfrog_registry_operator.Cluster.Secrets.{SecretStore, Secret}
use jfrog_registry_operator.Cluster.Objects.{
  RotatorStore, Finalizers, NamespaceStore, ClientSet, Files,
}
use jfrog_registry_operator.Operations.{TokenDetails}
use jfrog_registry_operator.Controller.Managing.{TokenHandler}
use jfrog_registry_operator.Controller.Managing.Lifetime.{
  InRange, GivesLasting, managing_secrets-Lasts,
}
use jfrog_registry_operator.Controller.Reconcile.{
  second, requeue_interval_of, answer, complete, manage, reconcile_request,
}
use jfrog_registry_operator.Controller.Reconcile.Prepared.{initialize_resource-Prepared}
use jfrog_registry_operator.Controller.Reconcile.Answers.{Plain, run, Completes}

-- From 45 minutes to nine hours, unless an interval is configured.
abbrev pub IsDue : Option ℤ → ℤ → Type 0
IsDue none after = (n : ℕ) × (after ≡ pos n) × (2700 * second ≤ n) × (n ≤ 32400 * second)
IsDue (some interval) after = after ≡ interval

requeue_interval_of-IsDue :
    (spec : SecretRotatorSpec) (details : TokenDetails) (refresh : Option ℤ)
    → spec.refresh_interval ≡ refresh
    → InRange details.ttl_in_seconds
    → IsDue refresh (requeue_interval_of spec details)
unfolding requeue_interval_of
requeue_interval_of-IsDue spec details none unset (low, high) =
    rw unset (_, refl, omega arith, omega arith)
requeue_interval_of-IsDue spec details (some n) set h = rw set refl

module _ {S : Type 0} (store : SecretStore S) (rotators : RotatorStore S)
    (namespaces : NamespaceStore S) (clients : ClientSet S) (files : Files S)
    (finalizers : Finalizers) (set_status_condition : List Condition → Condition → List Condition)
    (set_controller_reference : SecretRotator → Secret → Outcome Secret)
    (handling_token : TokenHandler S) (gives : GivesLasting InRange handling_token) (interval : ℤ)
    (ns name : Text) where
  abbrev IsComplete : SecretRotator → S → TokenDetails → SecretRotator → Type 0
  IsComplete =
      Completes store rotators namespaces clients files finalizers set_status_condition
        set_controller_reference handling_token interval ns name

  completes-InRange :
      (r : SecretRotator) (s : S) (d : TokenDetails) (updated : SecretRotator)
      → IsComplete r s d updated
      → InRange d.ttl_in_seconds
  completes-InRange r s d updated c =
      let (some_namespace, fresh) =
        (initialize_resource-Prepared store rotators namespaces clients files finalizers
            set_status_condition set_controller_reference handling_token r ns name).at
          s c.prepared c.prepares in
      (managing_secrets-Lasts InRange store set_controller_reference handling_token gives interval
          c.prepared.0 c.prepared.1 some_namespace (inl fresh)).at
        _ (c.managed, d) c.manages

  run-completes :
      (r : SecretRotator) (s : S) (d : TokenDetails) (updated : SecretRotator)
      → IsComplete r s d updated
      → (run store rotators namespaces clients files finalizers set_status_condition
          set_controller_reference handling_token interval ns name r s).0
        ≡ ok (Plain false (requeue_interval_of updated.spec d) (requeue_interval_of updated.spec d))
  unfolding manage complete answer pure
  run-completes r s d updated c =
      ap (λ p. p.0)
        (handle-first _ _ _ s c.prepared c.prepares
          ∙ handle-first _ _ _ _ (c.managed, d) c.manages
          ∙ handle-first _ _ _ _ updated c.reports)

  -- The same for every handler whose tokens live as long.
  pub reconcile_request-IsDue :
      (s s' : S) (r : SecretRotator) (d : TokenDetails) (updated : SecretRotator)
      → rotators.get ns name s ≡ (ok r, s')
      → IsComplete r s' d updated
      → (after : ℤ) × ((reconcile_request store rotators namespaces clients files finalizers
            set_status_condition set_controller_reference handling_token interval ns name s).0
          ≡ ok (Plain false after after))
        × IsDue updated.spec.refresh_interval after
  unfolding reconcile_request
  reconcile_request-IsDue s s' r d updated read c = (
    requeue_interval_of updated.spec d,
    ap (λ p. p.0) (handle-first (rotators.get ns name) _ _ s r (ap (λ p. p.0) read))
        ∙ rw read (run-completes r s' d updated c),
    requeue_interval_of-IsDue updated.spec d _ refl (completes-InRange r s' d updated c),
  )
