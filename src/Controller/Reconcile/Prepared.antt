-- ===== src/Controller/Reconcile/Prepared.antt =====
-- What a reconciliation knows once the rotator is prepared.
use jfrog_registry_operator.Base.{Text, List, [], Outcome, ◌≡◌, ◌≢◌}
use jfrog_registry_operator.Base.Exec.{
  Gives, Gives-pure, Gives-bind, Gives-then, Gives-any, Gives-deferred,
}
use jfrog_registry_operator.Api.{SecretRotator, Condition}
use jfrog_registry_operator.Cluster.Secrets.{SecretStore, Secret}
use jfrog_registry_operator.Cluster.Objects.{
  RotatorStore, Finalizers, NamespaceStore, ClientSet, Files,
}
use jfrog_registry_operator.Operations.{TokenDetails, no_details}
use jfrog_registry_operator.Operations.Validate.Accepted.{validate_object_spec-Gives}
use jfrog_registry_operator.Controller.Managing.{TokenHandler}
use jfrog_registry_operator.Controller.Reconcile.{validate_resource, initialize_resource}

-- There is a namespace, and no token yet.
abbrev pub Prepared : SecretRotator × TokenDetails → Type 0
Prepared (r, d) = (d.namespace_list ≢ []) × (d.token ≡ [])

module _ {S : Type 0} (store : SecretStore S) (rotators : RotatorStore S)
    (namespaces : NamespaceStore S) (clients : ClientSet S) (files : Files S)
    (finalizers : Finalizers) (set_status_condition : List Condition → Condition → List Condition)
    (set_controller_reference : SecretRotator → Secret → Outcome Secret)
    (handling_token : TokenHandler S) where
  validate_resource-Prepared :
      (r : SecretRotator)
      → Gives Prepared (
          validate_resource store rotators namespaces clients files finalizers set_status_condition
            set_controller_reference handling_token no_details r)
  unfolding validate_resource
  validate_resource-Prepared r =
      Gives-bind _ _
        (Gives-deferred _ _ (
          Gives-bind _ _ (validate_object_spec-Gives namespaces clients no_details r)
            (λ d h. Gives-then _ _ (Gives-any _) (λ _ _. Gives-pure d h))))
        (λ end (valid, same). Gives-pure _ (valid.some_namespace, same))

  pub initialize_resource-Prepared :
      (r : SecretRotator) (ns name : Text)
      → Gives Prepared (
          initialize_resource store rotators namespaces clients files finalizers
            set_status_condition set_controller_reference handling_token no_details r ns name)
  unfolding initialize_resource
  initialize_resource-Prepared r ns name = Gives-bind _ _ (Gives-any _) (λ known _.
      Gives-bind _ _ (Gives-any _) (λ guarded _.
        Gives-bind _ _ (Gives-any _) (λ checked _. validate_resource-Prepared checked)))
