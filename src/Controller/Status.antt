-- ===== src/Controller/Status.antt =====
-- controllers/secretrotator_operations.go, `UpdateStatus`: what one reconciliation reports.
-- `meta.SetStatusCondition` is a parameter.
use mathlib.Core.List.{Perm}
use jfrog_registry_operator.Base.{
  Text, str, eqb, join, text_le, text_le_total, text_le_trans, text_le_antisymm, text_set, sort,
  sort_of_perm, List, [], ◌∷◌, ◌++◌, is_empty, reconcile_by, ◌≡◌, refl, if◌then◌else◌,
}
use jfrog_registry_operator.Base.Exec.{Exec, pure, raise, handle}
use jfrog_registry_operator.Api.{GeneratedSecret, SecretRotator, Condition}
use jfrog_registry_operator.Cluster.Objects.{RotatorStore}
use jfrog_registry_operator.Operations.{TokenDetails, secret_type_docker, secret_type_generic}
use jfrog_registry_operator.Resource.Failures.{to_namespace_failures}

-- The names of the secrets of one type.
unfoldable pub names_of_type : Text → List GeneratedSecret → List Text
names_of_type secret_type [] = []
names_of_type secret_type (g ∷ rest) =
    let later = names_of_type secret_type rest in
    if eqb g.secret_type secret_type then g.secret_name ∷ later else later

-- `%s` of a slice, and the type after it, if there is a name.
unfoldable pub group : List Text → Text → List Text
group secret_names suffix =
    if is_empty secret_names
    then []
    else (str "[" ++ (join secret_names (str " ") ++ (str "]" ++ suffix))) ∷ []

unfoldable pub status_message : TokenDetails → Text
status_message details =
    let docker =
      group (names_of_type secret_type_docker details.generated_secrets) (str " (docker)") in
    let generic =
      group (names_of_type secret_type_generic details.generated_secrets) (str " (generic)") in
    str "Secrets "
    ++ (join (docker ++ generic) (str " and ")
        ++ (str " in namespaces with label "
            ++ (details.namespace_selector
                ++ str
                    " managed successfully, Please check if any failed namespaces are visible, in order to evaluate individual secret failures, if any.")))

module _ (set_status_condition : List Condition → Condition → List Condition) where
  -- The rotator with the status that is written.
  unfoldable pub reported : TokenDetails → SecretRotator → SecretRotator
  reported details rotator = record rotator {
    status = record {
      conditions = set_status_condition rotator.status.conditions (record {
        condition_type = str "Available";
        status = str "True";
        reason = str "Reconciling";
        message = status_message details;
      });
      failed_namespaces = to_namespace_failures details.failed_namespaces;
      provisioned_namespaces = sort text_le details.provisioned_namespaces;
      secret_managed_by_namespaces = details.secret_managed_by_namespaces;
      auth_type = details.auth_type;
    };
  }

  module _ {S : Type 0} (rotators : RotatorStore S) where
    -- The rotator as the server has it then.
    unfoldable pub update_status : TokenDetails → SecretRotator → Exec S SecretRotator
    update_status details rotator =
        handle (rotators.update_status (reported details rotator)) pure
          (λ e. raise (reconcile_by 60 (str "Failed to update SecretRotator status") e))

    -- The order in which the namespaces were provisioned, which is that of the server's list, makes no
    -- difference to what is written.
    pub update_status_of_perm :
        (details : TokenDetails) (rotator : SecretRotator) (namespaces : List Text) (s : S)
        → Perm details.provisioned_namespaces namespaces
        → update_status details rotator s
          ≡ update_status (record details { provisioned_namespaces = namespaces }) rotator s
    unfolding update_status reported status_message
    update_status_of_perm details rotator namespaces s p =
        rw (sort_of_perm text_le text_le_total text_le_trans text_le_antisymm text_set p) refl
