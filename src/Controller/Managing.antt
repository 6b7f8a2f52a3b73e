-- ===== src/Controller/Managing.antt =====
-- controllers/secretrotator_operations.go, `ManagingSecrets`: the secrets of every selected namespace.
-- `SetControllerReference` and the handler of the token are parameters of the loops.
pub mod Notes
pub mod Scanned
pub mod Foreign
pub mod Provisioned
pub mod Lifetime
pub mod Truthful
use jfrog_registry_operator.Base.Int.{ℤ}
use jfrog_registry_operator.Base.{
  ℕ, Text, str, eqb, join, List, [], ◌∷◌, ◌++◌, is_empty, Bool, true, false, not, ◌||◌, Option,
  none, some, Done, GoError, plain, Outcome, if◌then◌else◌,
}
use jfrog_registry_operator.Base.Dict.{Dict, lookup, insert, get_or}
use jfrog_registry_operator.Base.Exec.{Exec, pure, raise, handle, ◌>>=◌, ◌>>◌}
use jfrog_registry_operator.Api.{GeneratedSecret, SecretRotator, ServiceAccountDetails}
use jfrog_registry_operator.Cluster.Secrets.{SecretStore, Secret, is_not_found}
use jfrog_registry_operator.Cluster.Objects.{Namespace}
use jfrog_registry_operator.Operations.{TokenDetails}
use jfrog_registry_operator.Operations.Outdated.{delete_outdated_generated_secrets}
use jfrog_registry_operator.Resource.Ownership.{is_secret_owned_by}
use jfrog_registry_operator.Resource.Removal.{delete_outdated_secrets}
use jfrog_registry_operator.Resource.Writing.{WriteResult, create_or_update_secrets}

-- `name (type) Reason: ...`
abbrev pub reason : GeneratedSecret → Text → Text
reason g why = g.secret_name ++ (str " (" ++ (g.secret_type ++ (str ") Reason: " ++ why)))

-- `failedSecrets` and `skippedSecrets`.
abbrev pub Scan : Type 0
Scan = List Text × Dict Text

unfoldable pub skip : Text → GeneratedSecret → Text → Scan → Scan
skip namespace g why (failed, skipped) =
    (failed ++ (reason g why ∷ []), insert g.secret_name namespace skipped)

module _ {S : Type 0} (store : SecretStore S) where
  -- A secret that cannot be read, or that another owner has, is to be skipped.
  unfoldable pub scan_one : Text → Text → GeneratedSecret → Scan → Exec S Scan
  scan_one rotator_name namespace g found =
      handle (store.get namespace g.secret_name)
        (λ existing.
          if not (is_secret_owned_by existing rotator_name)
          then pure (skip namespace g (str "not owned by secretrotator, ") found)
          else pure found)
        (λ e.
          if not (is_not_found e)
          then pure (skip namespace g (str "not found, ") found)
          else pure found)

  unfoldable pub scan : Text → Text → List GeneratedSecret → Scan → Exec S Scan
  scan rotator_name namespace [] found = pure found
  scan rotator_name namespace (g ∷ rest) found =
      scan_one rotator_name namespace g found >>= scan rotator_name namespace rest

-- `value, isExist := skippedSecrets[name]; isExist || value == namespace`
unfoldable pub is_skipped : Dict Text → Text → Text → Bool
is_skipped skipped namespace secret_name = elim (lookup secret_name skipped) [
  | none ↦ eqb [] namespace
  | some value ↦ true
]

-- What is noted of a write: the details and `failedSecrets`.
abbrev pub Progress : Type 0
Progress = TokenDetails × List Text

unfoldable pub noted : Text → GeneratedSecret → Progress → WriteResult → Progress
noted namespace g (details, failed) (none, conflict) =
    let managed = details.secret_managed_by_namespaces in
    (
      record details {
        secret_managed_by_namespaces =
            insert namespace (get_or [] namespace managed ++ (g.secret_name ∷ [])) managed;
      },
      failed,
    )
noted namespace g (details, failed) (some e, true) = (
  details,
  failed
      ++ ((str " Skipping secret "
            ++ (g.secret_name
                ++ str
                    ": namespace is out of scope. Verify the installation scope and namespace selectors"))
          ∷ []),
)
noted namespace g (details, failed) (some e, false) =
    (details, failed ++ (reason g (str "failed in create/update") ∷ []))

-- The text has a warning sign, in UTF-8.
unfoldable pub unable_message : List Text → Text → Text
unable_message failed namespace =
    str "Unable to manage secrets "
    ++ ((226 ∷ 154 ∷ 160 ∷ 239 ∷ 184 ∷ 143 ∷ [])
        ++ (str " " ++ (join failed (str ", ") ++ (str " in namespace " ++ namespace))))

unfoldable pub note_failures : Text → Progress → TokenDetails
note_failures namespace (details, failed) = if is_empty failed then details else record details {
  failed_namespaces =
      insert namespace (plain (unable_message failed namespace)) details.failed_namespaces;
}

-- The handler may fill in the service account of the specification.
abbrev pub TokenHandler : Type 0 → Type 0
TokenHandler S = SecretRotator → TokenDetails → Exec S (ServiceAccountDetails × TokenDetails)

-- The rotator, with another service account.
unfoldable pub with_account : SecretRotator → ServiceAccountDetails → SecretRotator
with_account rotator account = record rotator {
  spec = record rotator.spec { service_account = account };
}

module _ {S : Type 0} (store : SecretStore S)
    (set_controller_reference : SecretRotator → Secret → Outcome Secret)
    (handling_token : TokenHandler S) where
  unfoldable pub write_one :
      SecretRotator → Text → Dict Text → GeneratedSecret → Progress → Exec S Progress
  write_one rotator namespace skipped g progress =
      if is_skipped skipped namespace g.secret_name
      then pure progress
      else create_or_update_secrets store set_controller_reference progress.0 rotator namespace
          g.secret_name g.secret_type
        >>= λ result. pure (noted namespace g progress result)

  unfoldable pub write_all :
      SecretRotator → Text → Dict Text → List GeneratedSecret → Progress → Exec S Progress
  write_all rotator namespace skipped [] progress = pure progress
  write_all rotator namespace skipped (g ∷ rest) progress =
      write_one rotator namespace skipped g progress >>= write_all rotator namespace skipped rest

  -- The deletion, where the status lists anything.
  unfoldable pub delete_unlisted : SecretRotator → TokenDetails → Exec S Done
  delete_unlisted rotator details =
      if is_empty rotator.status.secret_managed_by_namespaces
      then pure tt
      else delete_outdated_generated_secrets store details.secret_managed_by_namespaces
          rotator.status.secret_managed_by_namespaces

  -- The end of one turn: the deletion, and the namespace is provisioned.
  unfoldable pub finish :
      SecretRotator → Text → TokenDetails → Exec S (SecretRotator × TokenDetails)
  finish rotator namespace details =
      delete_unlisted rotator details
      >> pure (
        rotator,
        record details {
          provisioned_namespaces = details.provisioned_namespaces ++ (namespace ∷ []);
        },
      )

  -- One turn of the loop over the namespaces.
  unfoldable pub manage_namespace :
      Namespace → SecretRotator × TokenDetails → Exec S (SecretRotator × TokenDetails)
  manage_namespace namespace (rotator, details) =
      scan store rotator.name namespace.name details.generated_secrets ([], []) >>= λ found.
      handling_token rotator details >>= λ handled.
      write_all (with_account rotator handled.0) namespace.name found.1 handled.1.generated_secrets
        (handled.1, found.0)
      >>= λ progress.
          finish (with_account rotator handled.0) namespace.name
            (note_failures namespace.name progress)

  unfoldable pub manage_namespaces :
      List Namespace → SecretRotator × TokenDetails → Exec S (SecretRotator × TokenDetails)
  manage_namespaces [] now = pure now
  manage_namespaces (namespace ∷ rest) now =
      manage_namespace namespace now >>= manage_namespaces rest

  -- The details at the end, and the rotator with the service account that was used.
  unfoldable pub managing_secrets :
      ℤ → SecretRotator → TokenDetails → Exec S (SecretRotator × TokenDetails)
  managing_secrets requeue_interval rotator details =
      delete_outdated_secrets store details rotator.name rotator.status.provisioned_namespaces
      >>= λ failed. manage_namespaces details.namespace_list (
        rotator,
        record details {
          failed_namespaces = failed;
          requeue_interval = requeue_interval;
          secret_managed_by_namespaces = [];
        },
      )
