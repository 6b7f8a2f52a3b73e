-- ===== src/Controller/Reconcile/Foreign.antt =====
-- When a whole reconciliation leaves a secret of another owner as it is.
use jfrog_registry_operator.Controller.Reconcile.{
  Answer, complete, manage, unread, reconcile_request,
}
use jfrog_registry_operator.Base.Exec.{
  Exec, pure, after-handle, Keeps, Keeps-pure, Keeps-raise, Keeps-if, Keeps-handle,
}
use jfrog_registry_operator.Base.Int.{ℤ}
use jfrog_registry_operator.Base.{Text, List, false, Distinct, some, GoError, Outcome, ok, ◌≡◌}
use jfrog_registry_operator.Base.Dict.{keys}
use jfrog_registry_operator.Api.{SecretRotator, Condition}
use jfrog_registry_operator.Cluster.Secrets.{SecretStore, Secret, Holds, IsLawful, is_not_found}
use jfrog_registry_operator.Cluster.Objects.{
  RotatorStore, Finalizers, NamespaceStore, ClientSet, Files,
}
use jfrog_registry_operator.Operations.{TokenDetails, no_details}
use jfrog_registry_operator.Operations.Differences.{listed}
use jfrog_registry_operator.Resource.Ownership.{is_secret_owned_by}
use jfrog_registry_operator.Resource.Writing.Effect.{SetsController}
use jfrog_registry_operator.Controller.Managing.{TokenHandler}
use jfrog_registry_operator.Controller.Managing.Foreign.{LeavesSecrets, managing_secrets_foreign}
use jfrog_registry_operator.Controller.Status.{update_status}
use jfrog_registry_operator.Controller.Reconcile.Calls.{StepsKeep, initialize_resource-Keeps}
use jfrog_registry_operator.Controller.Reconcile.Answers.{preparing, run}

-- The rotator does not own the secret, and its status, which lists no namespace twice, does not list
-- its name in its namespace.
abbrev pub IsForeign : Text → Text → Secret → SecretRotator → Type 0
IsForeign j k x r =
    (is_secret_owned_by x r.name ≡ false)
    × Distinct (keys r.status.secret_managed_by_namespaces)
    × (listed r.status.secret_managed_by_namespaces j k ≡ false)

module _ {S : Type 0} (store : SecretStore S) (lawful : IsLawful store)
    (set_controller_reference : SecretRotator → Secret → Outcome Secret)
    (sets : SetsController set_controller_reference) (handling_token : TokenHandler S)
    (leaves : LeavesSecrets store handling_token) (rotators : RotatorStore S)
    (namespaces : NamespaceStore S) (clients : ClientSet S) (files : Files S)
    (finalizers : Finalizers) (set_status_condition : List Condition → Condition → List Condition)
    (j k : Text) (x : Secret)
    (calls : StepsKeep store rotators namespaces clients files (Holds store j k (some x)))
    (interval : ℤ) (ns name : Text) where
  abbrev There : S → Type 0
  There = Holds store j k (some x)

  update_status-Keeps :
      (d : TokenDetails) (r : SecretRotator)
      → Keeps There (update_status set_status_condition rotators d r)
  unfolding update_status
  update_status-Keeps d r =
      Keeps-handle _ _ _ (calls.update_status-Keeps _) Keeps-pure (λ e. Keeps-raise _)

  complete-Keeps :
      (now : SecretRotator × TokenDetails)
      → Keeps There (
          complete store rotators namespaces clients files finalizers set_status_condition
            set_controller_reference handling_token interval now)
  unfolding complete
  complete-Keeps (r, d) =
      Keeps-handle _ _ _ (update_status-Keeps d r) (λ _. Keeps-pure _) (λ e. Keeps-pure _)

  manage-Keeps :
      (now : SecretRotator × TokenDetails)
      → IsForeign j k x now.0
      → Keeps There (
          manage store rotators namespaces clients files finalizers set_status_condition
            set_controller_reference handling_token interval now)
  unfolding manage
  manage-Keeps (r, d) (foreign, distinct, unlisted) =
      Keeps-handle _ _ _
        (record {
          at = λ s there.
              managing_secrets_foreign store lawful set_controller_reference sets handling_token
                leaves j k x r foreign (distinct, unlisted) interval d s there;
        })
        complete-Keeps (λ e. Keeps-pure _)

  unread-Keeps :
      (e : GoError)
      → Keeps There (
          unread store rotators namespaces clients files finalizers set_status_condition
            set_controller_reference handling_token interval e)
  unfolding unread
  unread-Keeps e = Keeps-if (is_not_found e) _ _ (Keeps-pure _) (Keeps-pure _)

  abbrev prepares : SecretRotator → Exec S (SecretRotator × TokenDetails)
  prepares =
      preparing store rotators namespaces clients files finalizers set_status_condition
        set_controller_reference handling_token interval ns name

  abbrev runs : SecretRotator → Exec S Answer
  runs =
      run store rotators namespaces clients files finalizers set_status_condition
        set_controller_reference handling_token interval ns name

  run-There :
      (r : SecretRotator) (s : S)
      → ((prepared : SecretRotator × TokenDetails)
          → (prepares r s).0 ≡ ok prepared
          → IsForeign j k x prepared.0)
      → There s
      → There (runs r s).1
  unfolding pure
  run-There r s foreign there =
      let kept =
        (initialize_resource-Keeps store rotators namespaces clients files There calls finalizers
            set_status_condition set_controller_reference handling_token no_details r ns name).at
          s there in
      after-handle There (prepares r) _ _ s
        (λ prepared done. (manage-Keeps prepared (foreign prepared done)).at _ kept)
        (λ e done. kept) kept

  -- The same for every handler of the token that writes no secret.
  pub reconcile_request_foreign :
      (s : S)
      → ((r : SecretRotator) (prepared : SecretRotator × TokenDetails)
          → (rotators.get ns name s).0 ≡ ok r
          → (prepares r (rotators.get ns name s).1).0 ≡ ok prepared
          → IsForeign j k x prepared.0)
      → store.stored j k s ≡ some x
      → store.stored j k
          (reconcile_request store rotators namespaces clients files finalizers set_status_condition
            set_controller_reference handling_token interval ns name s).1
        ≡ some x
  unfolding reconcile_request
  reconcile_request_foreign s foreign there =
      let kept = (calls.get-Keeps ns name).at s there in
      after-handle There (rotators.get ns name) runs _ s
        (λ r read. run-There r _ (λ prepared. foreign r prepared read) kept)
        (λ e read. (unread-Keeps e).at _ kept) kept
