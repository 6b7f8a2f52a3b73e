-- ===== src/Controller/Reconcile.antt =====
-- controllers/secretrotator_controller.go, `Reconcile`, with `InitializeResource` and `handleError` of
-- secretrotator_operations.go.
pub mod Answers
pub mod Replies
pub mod Next
pub mod Calls
pub mod Prepared
pub mod Foreign
use jfrog_registry_operator.Base.Int.{ℤ, pos}
use jfrog_registry_operator.Base.{
  ℕ, ◌*◌, ◌/◌, Text, str, List, Bool, true, false, not, ◌&&◌, ◌==◌, Option, none, some, Done,
  GoError, api, plain, wrap, reconcile, reconcile_by, Outcome, if◌then◌else◌,
}
use jfrog_registry_operator.Base.Exec.{Exec, pure, handle, deferred, ◌>>=◌, ◌>>◌}
use jfrog_registry_operator.Api.{SecretRotator, SecretRotatorSpec, Condition}
use jfrog_registry_operator.Cluster.Secrets.{SecretStore, Secret, is_not_found}
use jfrog_registry_operator.Cluster.Objects.{
  RotatorStore, Finalizers, NamespaceStore, ClientSet, Files,
}
use jfrog_registry_operator.Operations.{TokenDetails, no_details}
use jfrog_registry_operator.Operations.Validate.{validate_object_spec}
use jfrog_registry_operator.Resource.Certs.{handle_certs}
use jfrog_registry_operator.Controller.Managing.{TokenHandler, managing_secrets}
use jfrog_registry_operator.Controller.Status.{update_status}
use jfrog_registry_operator.Controller.Lifecycle.{
  handle_conditions, handle_finalizers, secret_rotator_checker,
}

-- `ctrl.Result`, in nanoseconds. Where there is no `Requeue`, controller-runtime takes a `RequeueAfter`
-- that is not positive to ask for no other run.
pub record Result : Type 0 where
  pub requeue : Bool
  pub requeue_after : ℤ

-- `time.Second`
abbrev pub second : ℕ
second = 1000000000

-- `errors.As`: the first `*ReconcileError` of the chain, which unwraps no further, with its `RetryIn`.
unfoldable pub as_reconcile_error : GoError → Option ℕ
as_reconcile_error (api not_found message) = none
as_reconcile_error (plain message) = none
as_reconcile_error (wrap message cause) = as_reconcile_error cause
as_reconcile_error (reconcile retry message) = some retry
as_reconcile_error (reconcile_by retry message cause) = some retry

-- `RequeueAfter` is left at zero where the error says so.
unfoldable pub handle_error : GoError → Result × Option GoError
handle_error e = elim (as_reconcile_error e) [
  | none ↦ (
    record { requeue = false; requeue_after = pos 0 },
    some (reconcile_by 10 (str "Unexpected error during reconciliation, wait for 10 seconds") e),
  )
  | some retry ↦ (record { requeue = false; requeue_after = pos (retry * second) }, none)
]

-- Three quarters of the token's lifetime, unless the interval is configured. The product of floats is
-- exact for every lifetime that AWS allows.
unfoldable pub requeue_interval_of : SecretRotatorSpec → TokenDetails → ℤ
requeue_interval_of spec details = elim spec.refresh_interval [
  | none ↦ pos (details.ttl_in_seconds * second * 3 / 4)
  | some interval ↦ interval
]

-- What `Reconcile` returns, and the interval that the reconciler keeps for the next run.
pub record Answer : Type 0 where
  pub result : Result
  pub error : Option GoError
  pub requeue_interval : ℤ

unfoldable pub answer : Result × Option GoError → ℤ → Answer
answer (result, error) interval = record {
  result = result;
  error = error;
  requeue_interval = interval;
}

-- After a failed step the next run comes after a second.
unfoldable pub again : ℤ → Answer
again interval = record {
  result = record { requeue = true; requeue_after = pos second };
  error = none;
  requeue_interval = interval;
}

module _ {S : Type 0} (store : SecretStore S) (rotators : RotatorStore S)
    (namespaces : NamespaceStore S) (clients : ClientSet S) (files : Files S)
    (finalizers : Finalizers) (set_status_condition : List Condition → Condition → List Condition)
    (set_controller_reference : SecretRotator → Secret → Outcome Secret)
    (handling_token : TokenHandler S) where
  -- The certificates, where they are asked for.
  unfoldable pub copy_certificates : SecretRotator → Exec S Done
  copy_certificates rotator =
      let security = rotator.spec.security in
      if security.enabled && not security.insecure_skip_verify
      then handle_certs files store security.secret_namespace security.certificate_secret_name
          rotator.name
      else pure tt

  -- The patch of the status gives the rotator as the server has it then; its failure is only logged.
  unfoldable pub defer_patch : SecretRotator → Exec S SecretRotator
  defer_patch rotator = handle (rotators.patch_status rotator rotator) pure (λ _. pure rotator)

  -- The status is patched at the end, also after an error. The run goes on with the rotator that this
  -- gives.
  unfoldable pub validate_resource :
      TokenDetails → SecretRotator → Exec S (SecretRotator × TokenDetails)
  validate_resource details rotator =
      deferred
        (validate_object_spec namespaces clients details rotator >>= λ complete.
          copy_certificates rotator >> pure complete)
        (defer_patch rotator)
      >>= λ (complete, patched). pure (patched, complete)

  unfoldable pub initialize_resource :
      TokenDetails → SecretRotator → Text → Text → Exec S (SecretRotator × TokenDetails)
  initialize_resource details rotator namespace name =
      handle_conditions rotators set_status_condition finalizers rotator namespace name >>= λ known.
      handle_finalizers rotators set_status_condition finalizers known >>= λ guarded.
      secret_rotator_checker rotators set_status_condition finalizers guarded namespace name
      >>= validate_resource details

  -- The status, and when to come back, by the rotator that the server gives back.
  unfoldable pub complete : ℤ → SecretRotator × TokenDetails → Exec S Answer
  complete interval (rotator, details) =
      handle (update_status set_status_condition rotators details rotator)
        (λ updated.
          let next = requeue_interval_of updated.spec details in
          pure (answer (record { requeue = false; requeue_after = next }, none) next))
        (λ _. pure (again interval))

  unfoldable pub manage : ℤ → SecretRotator × TokenDetails → Exec S Answer
  manage interval (rotator, details) =
      handle
        (managing_secrets store set_controller_reference handling_token interval rotator details)
        (complete interval) (λ _. pure (again interval))

  unfoldable pub unread : ℤ → GoError → Exec S Answer
  unread interval e =
      if is_not_found e
      then pure (
          answer (handle_error (reconcile_by 0 (str "Secret rotator object not found") e)) interval)
      else pure
          (answer (handle_error (reconcile_by 600 (str "Failed to get SecretRotator") e)) interval)

  -- `interval` is what the last run left in the reconciler.
  unfoldable pub reconcile_request : ℤ → Text → Text → Exec S Answer
  reconcile_request interval namespace name =
      handle (rotators.get namespace name)
        (λ rotator.
          handle (initialize_resource no_details rotator namespace name) (manage interval)
            (λ _. pure (again interval)))
        (unread interval)
