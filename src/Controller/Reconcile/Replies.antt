-- ===== src/Controller/Reconcile/Replies.antt =====
-- What a run of `Reconcile` ends in.
use jfrog_registry_operator.Base.{Text, List, GoError, Outcome, ok, err, panic, ◌≡◌, ◌≢◌, refl}
use jfrog_registry_operator.Base.Int.{ℤ}
use jfrog_registry_operator.Base.Exec.{Raises, Raises-pure, Raises-if, Raises-handle, Raises-any}
use jfrog_registry_operator.Api.{SecretRotator, Condition}
use jfrog_registry_operator.Cluster.Secrets.{SecretStore, Secret, is_not_found}
use jfrog_registry_operator.Cluster.Objects.{
  RotatorStore, Finalizers, NamespaceStore, ClientSet, Files,
}
use jfrog_registry_operator.Operations.{TokenDetails}
use jfrog_registry_operator.Controller.Managing.{TokenHandler}
use jfrog_registry_operator.Controller.Reconcile.{
  Answer, complete, manage, unread, reconcile_request,
}
use jfrog_registry_operator.Controller.Reconcile.Answers.{IsAnswer, reconcile_request-IsAnswer}

module _ {S : Type 0} (store : SecretStore S) (rotators : RotatorStore S)
    (namespaces : NamespaceStore S) (clients : ClientSet S) (files : Files S)
    (finalizers : Finalizers) (set_status_condition : List Condition → Condition → List Condition)
    (set_controller_reference : SecretRotator → Secret → Outcome Secret)
    (handling_token : TokenHandler S) (interval : ℤ) (ns name : Text) where
  -- By what reading the rotator gave.
  abbrev pub IsReply : Outcome SecretRotator × S → Outcome Answer → Type 0
  IsReply read (ok a) =
      IsAnswer store rotators namespaces clients files finalizers set_status_condition
        set_controller_reference handling_token interval ns name read a
  IsReply read (err e) = ⊥
  IsReply read panic = Unit

  complete-Raises :
      (now : SecretRotator × TokenDetails)
      → Raises
          (λ e. ⊥)
          (complete store rotators namespaces clients files finalizers set_status_condition
            set_controller_reference handling_token interval now)
  unfolding complete
  complete-Raises (r, d) =
      Raises-handle _ _ _ (Raises-any _) (λ updated. Raises-pure _) (λ e _. Raises-pure _)

  manage-Raises :
      (now : SecretRotator × TokenDetails)
      → Raises
          (λ e. ⊥)
          (manage store rotators namespaces clients files finalizers set_status_condition
            set_controller_reference handling_token interval now)
  unfolding manage
  manage-Raises (r, d) = Raises-handle _ _ _ (Raises-any _) complete-Raises (λ e _. Raises-pure _)

  unread-Raises :
      (e : GoError)
      → Raises
          (λ e. ⊥)
          (unread store rotators namespaces clients files finalizers set_status_condition
            set_controller_reference handling_token interval e)
  unfolding unread
  unread-Raises e = Raises-if (is_not_found e) _ _ (Raises-pure _) (Raises-pure _)

  reconcile_request-Raises :
      Raises
        (λ e. ⊥)
        (reconcile_request store rotators namespaces clients files finalizers set_status_condition
          set_controller_reference handling_token interval ns name)
  unfolding reconcile_request
  reconcile_request-Raises =
      Raises-handle _ _ _ (Raises-any _)
        (λ r. Raises-handle _ _ _ (Raises-any _) manage-Raises (λ e _. Raises-pure _))
        (λ e _. unread-Raises e)

  reply :
      (read : Outcome SecretRotator × S) (o : Outcome Answer)
      → ((a : Answer) → o ≡ ok a → IsReply read (ok a))
      → ((e : GoError) → o ≢ err e)
      → IsReply read o
  reply read (ok a) answers none_raised = answers a refl
  reply read (err e) answers none_raised = none_raised e refl
  reply read panic answers none_raised = tt

  -- A reconciliation that does not panic answers, and without an error. Where the rotator is not there
  -- it asks for no other run, and where it cannot be read for one after ten minutes. Where it was read,
  -- the run comes back after a second exactly where the preparation, the management of the secrets or
  -- the status update ended in an error after the steps before it succeeded. Otherwise all three have
  -- succeeded, and the next run is asked for after the interval of the rotator that the status update
  -- gave back, or, where it has none, after three quarters of the lifetime of the token; this is what
  -- the reconciler then keeps.
  pub reconcile_request-IsReply :
      (s : S)
      → IsReply
          (rotators.get ns name s)
          (reconcile_request store rotators namespaces clients files finalizers set_status_condition
            set_controller_reference handling_token interval ns name s).0
  reconcile_request-IsReply s =
      reply (rotators.get ns name s) _
        (reconcile_request-IsAnswer store rotators namespaces clients files finalizers
          set_status_condition set_controller_reference handling_token interval ns name s)
        (reconcile_request-Raises.at s)
