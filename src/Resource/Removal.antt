-- ===== src/Resource/Removal.antt =====
-- internal/resource/secret.go: the secrets in namespaces that are no longer selected.
pub mod Effect
use jfrog_registry_operator.Base.{
  Text, str, eqb, elem, List, [], ◌∷◌, ◌++◌, Bool, not, keep, Done, GoError, wrap, if◌then◌else◌,
}
use jfrog_registry_operator.Base.Dict.{Dict, insert}
use jfrog_registry_operator.Base.Exec.{Exec, pure, raise, handle, ◌>>=◌}
use jfrog_registry_operator.Api.{GeneratedSecret}
use jfrog_registry_operator.Cluster.Secrets.{SecretStore, is_not_found}
use jfrog_registry_operator.Cluster.Objects.{Namespace}
use jfrog_registry_operator.Operations.{TokenDetails}
use jfrog_registry_operator.Resource.Ownership.{is_secret_owned_by}

unfoldable pub namespace_names : List Namespace → List Text
namespace_names [] = []
namespace_names (n ∷ rest) = n.name ∷ namespace_names rest

-- The provisioned namespaces that are not selected now.
unfoldable pub get_removed_namespaces : List Namespace → List Text → List Text
unfolding namespace_names
get_removed_namespaces current provisioned =
    keep (λ ns. not (elem ns (namespace_names current))) provisioned

module _ {S : Type 0} (store : SecretStore S) where
  -- Deletes a secret if the rotator owns it.
  unfoldable pub delete_secret : Text → Text → Text → Text → Exec S Done
  delete_secret secret_name secret_rotator_name namespace secret_type =
      handle (store.get namespace secret_name)
        (λ existing.
          if not (is_secret_owned_by existing secret_rotator_name)
          then pure tt
          else handle (store.delete existing.namespace existing.name) pure λ e. raise (
              wrap
                (secret_type
                  ++ (str " secret "
                      ++ (secret_name
                          ++ (str " in namespace " ++ (namespace ++ str " could not be deleted")))))
                e))
        (λ e.
          if is_not_found e
          then pure tt
          else raise
              (wrap (str "failed to get " ++ (secret_type ++ (str " secret " ++ secret_name))) e))

  -- One entry of the inner loop; a failure is noted for the namespace.
  unfoldable pub delete_noted : Text → Text → GeneratedSecret → Dict GoError → Exec S (Dict GoError)
  delete_noted secret_rotator_name namespace g failed =
      if eqb g.secret_name []
      then pure failed
      else handle (delete_secret g.secret_name secret_rotator_name namespace g.secret_type)
          (λ _. pure failed)
          (λ e. pure (
            insert namespace
              (wrap
                (str "failed to delete " ++ (g.secret_type ++ (str " secret " ++ g.secret_name))) e)
              failed))

  unfoldable pub delete_in_namespace :
      Text → Text → List GeneratedSecret → Dict GoError → Exec S (Dict GoError)
  delete_in_namespace secret_rotator_name namespace [] failed = pure failed
  delete_in_namespace secret_rotator_name namespace (g ∷ rest) failed =
      delete_noted secret_rotator_name namespace g failed
      >>= delete_in_namespace secret_rotator_name namespace rest

  unfoldable pub delete_in_namespaces :
      Text → List GeneratedSecret → List Text → Dict GoError → Exec S (Dict GoError)
  delete_in_namespaces secret_rotator_name secrets [] failed = pure failed
  delete_in_namespaces secret_rotator_name secrets (ns ∷ rest) failed =
      delete_in_namespace secret_rotator_name ns secrets failed
      >>= delete_in_namespaces secret_rotator_name secrets rest

  -- The failures by namespace; there is no error beside them.
  unfoldable pub delete_outdated_secrets : TokenDetails → Text → List Text → Exec S (Dict GoError)
  delete_outdated_secrets details secret_rotator_name provisioned =
      delete_in_namespaces secret_rotator_name details.generated_secrets
        (get_removed_namespaces details.namespace_list provisioned) []
