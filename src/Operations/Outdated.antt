-- ===== src/Operations/Outdated.antt =====
-- internal/operations/operations.go, `DeleteOutdatedGeneratedSecrets`, and the loops that it consists of.
pub mod Effect
use jfrog_registry_operator.Base.{
  Text, str, List, [], ◌∷◌, ◌++◌, Bool, true, false, Done, GoError, wrap, ok, err, if◌then◌else◌,
}
use jfrog_registry_operator.Base.Dict.{Dict}
use jfrog_registry_operator.Base.Exec.{Exec, pure, raise, handle, ◌>>◌}
use jfrog_registry_operator.Cluster.Secrets.{SecretStore, is_not_found}
use jfrog_registry_operator.Operations.Differences.{find_secret_differences}

module _ {S : Type 0} (store : SecretStore S) where
  -- One deletion. A secret that is gone already is skipped.
  unfoldable pub delete_one : Text → Text → Exec S Done
  delete_one namespace secret_name = handle (store.delete namespace secret_name) pure λ e.
      if is_not_found e
      then pure tt
      else raise (
          wrap
            (str "error deleting secret " ++ (secret_name ++ (str " in namespace " ++ namespace)))
            e)

  unfoldable pub delete_names : Text → List Text → Exec S Done
  delete_names namespace [] = pure tt
  delete_names namespace (secret_name ∷ rest) =
      delete_one namespace secret_name >> delete_names namespace rest

  -- The ranges over the namespaces and over their names, up to the first error.
  unfoldable pub delete_all : Dict (List Text) → Exec S Done
  delete_all [] = pure tt
  delete_all ((namespace, secret_names) ∷ rest) =
      delete_names namespace secret_names >> delete_all rest

  -- `managed` is what this reconciliation has written so far, `status` what the last one had.
  unfoldable pub delete_outdated_generated_secrets :
      Dict (List Text) → Dict (List Text) → Exec S Done
  delete_outdated_generated_secrets managed status =
      let (changes, changed) = find_secret_differences managed status in
      if changed then delete_all changes else pure tt
