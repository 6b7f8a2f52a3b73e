-- ===== src/Controller/Lifecycle.antt =====
-- controllers/secretrotator_operations.go: the conditions, the finalizer and the removal of a rotator.
-- Events and logs are not kept.
pub mod Guarded
use jfrog_registry_operator.Base.{
  ℕ, Text, str, List, [], ◌∷◌, ◌++◌, is_empty, Bool, not, GoError, reconcile, reconcile_by,
  if◌then◌else◌,
}
use jfrog_registry_operator.Base.Exec.{Exec, pure, raise, handle, ◌>>=◌}
use jfrog_registry_operator.Api.{SecretRotator, SecretRotatorStatus, Condition}
use jfrog_registry_operator.Cluster.Objects.{RotatorStore, Finalizers}
use jfrog_registry_operator.Operations.{secret_rotator_finalizer}

module _ {S : Type 0} (rotators : RotatorStore S)
    (set_status_condition : List Condition → Condition → List Condition)
    (finalizers : Finalizers) where
  open finalizers use {contains_finalizer, add_finalizer, remove_finalizer}

  -- The rotator with one condition set.
  unfoldable pub with_condition : SecretRotator → Condition → SecretRotator
  with_condition rotator c = record rotator {
    status = record rotator.status {
      conditions = set_status_condition rotator.status.conditions c;
    };
  }

  -- A write or a read, with the message of its failure and after how many seconds to try again.
  unfoldable pub or_fail : Exec S SecretRotator → ℕ → Text → Exec S SecretRotator
  or_fail m retry message = handle m pure (λ e. raise (reconcile_by retry message e))

  -- Where there is no condition yet, the first is written and the rotator read again.
  unfoldable pub handle_conditions : SecretRotator → Text → Text → Exec S SecretRotator
  handle_conditions rotator namespace name =
      if is_empty rotator.status.conditions
      then (or_fail
            (rotators.update_status (
              with_condition rotator (record {
                condition_type = str "Available";
                status = str "Unknown";
                reason = str "Reconciling";
                message = str "Starting reconciliation";
              })))
            0
            (str "Failed to update secretRotator status, exiting reconciliation. secret rotator: `"
              ++ (rotator.name ++ str "`"))
          >>= λ _.
              or_fail (rotators.get namespace name) 0
                (str "Failed to re-fetch secretRotator, the reconciliation will not run"))
      else pure rotator

  unfoldable pub handle_finalizers : SecretRotator → Exec S SecretRotator
  handle_finalizers rotator =
      if contains_finalizer rotator secret_rotator_finalizer
      then pure rotator
      else let (added, changed) = add_finalizer rotator secret_rotator_finalizer in
        if not changed
        then raise
            (reconcile 60 (str "Failed to add finalizer into the custom resource, requeuing"))
        else or_fail (rotators.update added) 60
            (str "Failed to update custom resource to add finalizer, requeuing")

  -- The condition of a rotator that is going away.
  unfoldable pub degraded : SecretRotator → Text → Text → SecretRotator
  degraded rotator status message = with_condition rotator (record {
    condition_type = str "Degraded";
    status = status;
    reason = str "Finalizing";
    message = message;
  })

  unfoldable pub write_degraded : SecretRotator → Exec S SecretRotator
  write_degraded rotator =
      or_fail (rotators.update_status rotator) 0 (str "Failed to update SecretRotator status")

  unfoldable pub drop_finalizer : SecretRotator → Exec S SecretRotator
  drop_finalizer rotator =
      let (dropped, changed) = remove_finalizer rotator secret_rotator_finalizer in
      if not changed
      then raise (reconcile 0 (str "Failed to remove finalizer for SecretRotator"))
      else or_fail (rotators.update dropped) 0
          (str "Failed to update - remove finalizer for secretRotator")

  -- The finalizer operations themselves only send an event.
  unfoldable pub finalize : SecretRotator → Text → Text → Exec S SecretRotator
  finalize rotator namespace name =
      write_degraded (
        degraded rotator (str "Unknown") (
          str "Performing finalizer operations for the custom resource: "
          ++ (rotator.name ++ str " ")))
      >>= λ _.
          or_fail (rotators.get namespace name) 0 (str "Failed to re-fetch secretRotator")
          >>= λ fetched.
              write_degraded (
                degraded fetched (str "True") (
                  str "Finalizer operations for custom resource "
                  ++ (fetched.name ++ str " name were successfully accomplished")))
              >>= drop_finalizer

  -- There is no error once the finalizer is gone: the caller goes on.
  unfoldable pub secret_rotator_checker : SecretRotator → Text → Text → Exec S SecretRotator
  secret_rotator_checker rotator namespace name =
      if rotator.is_deleted
      then if contains_finalizer rotator secret_rotator_finalizer
        then finalize rotator namespace name
        else pure rotator
      else pure rotator
