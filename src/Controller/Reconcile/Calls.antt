-- ===== src/Controller/Reconcile/Calls.antt =====
-- What one reconciliation keeps of the cluster, besides the management of the secrets.
use jfrog_registry_operator.Base.{Text, List, Outcome, ok, err, panic, ℕ}
use jfrog_registry_operator.Base.Exec.{
  Exec, Keeps, Keeps-pure, Keeps-raise, Keeps-crash, Keeps-handle, Keeps-bind, Keeps-then,
  Keeps-deferred, lift, keeps_rules,
}
use jfrog_registry_operator.Api.{SecretRotator, SecretRotatorSpec, Condition}
use jfrog_registry_operator.Cluster.Secrets.{SecretStore, Secret}
use jfrog_registry_operator.Cluster.Objects.{
  RotatorStore, Finalizers, NamespaceStore, ClientSet, Files, ServiceAccount,
}
use jfrog_registry_operator.Operations.{TokenDetails}
use jfrog_registry_operator.Operations.Validate.{
  validate_object_spec, select_namespaces, set_address, get_service_account, check_account,
}
use jfrog_registry_operator.Resource.Certs.{handle_certs, handle_certs_keeps}
use jfrog_registry_operator.Controller.Managing.{TokenHandler}
use jfrog_registry_operator.Controller.Lifecycle.{
  or_fail, handle_conditions, handle_finalizers, write_degraded, drop_finalizer, finalize,
  secret_rotator_checker,
}
use jfrog_registry_operator.Controller.Reconcile.{
  copy_certificates, defer_patch, validate_resource, initialize_resource,
}

module _ {S : Type 0} (store : SecretStore S) (rotators : RotatorStore S)
    (namespaces : NamespaceStore S) (clients : ClientSet S) (files : Files S) (P : S → Type 0) where
  -- What a reconciliation asks of others keeps `P`.
  pub record StepsKeep : Type 0 where
    pub get_secret-Keeps : (ns name : Text) → Keeps P (store.get ns name)
    pub get-Keeps : (ns name : Text) → Keeps P (rotators.get ns name)
    pub update-Keeps : (r : SecretRotator) → Keeps P (rotators.update r)
    pub update_status-Keeps : (r : SecretRotator) → Keeps P (rotators.update_status r)
    pub patch_status-Keeps : (r r' : SecretRotator) → Keeps P (rotators.patch_status r r')
    pub list-Keeps : (selector : Text) → Keeps P (namespaces.list selector)
    pub client-Keeps : Keeps P clients.get_k8s_client
    pub pod-Keeps : (ns name : Text) → Keeps P (clients.pod_service_account_name ns name)
    pub account-Keeps : (ns name : Text) → Keeps P (clients.service_account ns name)
    pub create_dir-Keeps : (dir : Text) → Keeps P (files.create_dir dir)
    pub create_file-Keeps : (path content : Text) → Keeps P (files.create_file path content)

  module _ (calls : StepsKeep) where
    lift-Keeps {ℓ} : {A : Type ℓ} (r : Outcome A) → Keeps P (lift r)
    unfolding lift
    lift-Keeps (ok a) = Keeps-pure a
    lift-Keeps (err e) = Keeps-raise e
    lift-Keeps panic = Keeps-crash

    select_namespaces-Keeps :
        (spec : SecretRotatorSpec) (details : TokenDetails)
        → Keeps P (select_namespaces namespaces clients spec details)
    unfolding select_namespaces
    select_namespaces-Keeps spec details = search (keeps_rules, lift-Keeps, calls.list-Keeps)

    set_address-Keeps :
        (spec : SecretRotatorSpec) (details : TokenDetails)
        → Keeps P (set_address namespaces clients spec details)
    unfolding set_address
    set_address-Keeps spec details = search (keeps_rules)

    get_service_account-Keeps :
        (details : TokenDetails) → Keeps P (get_service_account namespaces clients details)
    unfolding get_service_account
    get_service_account-Keeps details = Keeps-then _ _ calls.client-Keeps (
        Keeps-bind _ _ (calls.pod-Keeps _ _)
          (λ name. Keeps-bind _ _ (calls.account-Keeps _ name) (λ account. Keeps-pure _)))

    check_account-Keeps :
        (spec : SecretRotatorSpec) (account : ServiceAccount)
        → Keeps P (check_account namespaces clients spec account)
    unfolding check_account
    check_account-Keeps spec account = search (keeps_rules)

    validate_object_spec-Keeps :
        (details : TokenDetails) (r : SecretRotator)
        → Keeps P (validate_object_spec namespaces clients details r)
    unfolding validate_object_spec
    validate_object_spec-Keeps details r = Keeps-then _ _ (lift-Keeps _) (
        Keeps-bind _ _ (select_namespaces-Keeps r.spec _) (λ selected.
          Keeps-bind _ _ (set_address-Keeps r.spec selected) (λ addressed.
            Keeps-bind _ _
              (Keeps-handle _ _ _ (get_service_account-Keeps addressed) (λ found. Keeps-pure found)
                (λ e. Keeps-raise _))
              (λ found. Keeps-then _ _ (check_account-Keeps r.spec found.0) (Keeps-pure _)))))

    -- The certificates.
    copy-Keeps : (ns name rotator : Text) → Keeps P (handle_certs files store ns name rotator)
    copy-Keeps ns name rotator = record {
      at = λ s.
          handle_certs_keeps files store P ns name rotator s (calls.get_secret-Keeps ns name)
            (calls.create_dir-Keeps _) (λ key value supported. calls.create_file-Keeps _ value);
    }

    module _ (finalizers : Finalizers)
        (set_status_condition : List Condition → Condition → List Condition) where
      or_fail-Keeps :
          (m : Exec S SecretRotator) (retry : ℕ) (message : Text)
          → Keeps P m
          → Keeps P (or_fail rotators set_status_condition finalizers m retry message)
      unfolding or_fail
      or_fail-Keeps m retry message kept = search (keeps_rules)

      handle_conditions-Keeps :
          (r : SecretRotator) (ns name : Text)
          → Keeps P (handle_conditions rotators set_status_condition finalizers r ns name)
      unfolding handle_conditions
      handle_conditions-Keeps r ns name =
          search (keeps_rules, or_fail-Keeps, calls.get-Keeps, calls.update_status-Keeps)

      handle_finalizers-Keeps :
          (r : SecretRotator)
          → Keeps P (handle_finalizers rotators set_status_condition finalizers r)
      unfolding handle_finalizers
      handle_finalizers-Keeps r = search (keeps_rules, or_fail-Keeps, calls.update-Keeps)

      drop_finalizer-Keeps :
          (r : SecretRotator) → Keeps P (drop_finalizer rotators set_status_condition finalizers r)
      unfolding drop_finalizer
      drop_finalizer-Keeps r = search (keeps_rules, or_fail-Keeps, calls.update-Keeps)

      write_degraded-Keeps :
          (r : SecretRotator) → Keeps P (write_degraded rotators set_status_condition finalizers r)
      unfolding write_degraded
      write_degraded-Keeps r = or_fail-Keeps _ _ _ (calls.update_status-Keeps r)

      finalize-Keeps :
          (r : SecretRotator) (ns name : Text)
          → Keeps P (finalize rotators set_status_condition finalizers r ns name)
      unfolding finalize
      finalize-Keeps r ns name = Keeps-bind _ _ (write_degraded-Keeps _) (λ _.
          Keeps-bind _ _ (or_fail-Keeps _ _ _ (calls.get-Keeps ns name))
            (λ fetched. Keeps-bind _ _ (write_degraded-Keeps _) drop_finalizer-Keeps))

      secret_rotator_checker-Keeps :
          (r : SecretRotator) (ns name : Text)
          → Keeps P (secret_rotator_checker rotators set_status_condition finalizers r ns name)
      unfolding secret_rotator_checker
      secret_rotator_checker-Keeps r ns name = search (keeps_rules, finalize-Keeps)

      module _ (set_controller_reference : SecretRotator → Secret → Outcome Secret)
          (handling_token : TokenHandler S) where
        copy_certificates-Keeps :
            (r : SecretRotator)
            → Keeps P (
                copy_certificates store rotators namespaces clients files finalizers
                  set_status_condition set_controller_reference handling_token r)
        unfolding copy_certificates
        copy_certificates-Keeps r = search (keeps_rules, copy-Keeps)

        defer_patch-Keeps :
            (r : SecretRotator)
            → Keeps P (
                defer_patch store rotators namespaces clients files finalizers set_status_condition
                  set_controller_reference handling_token r)
        unfolding defer_patch
        defer_patch-Keeps r = search (keeps_rules, calls.patch_status-Keeps)

        validate_resource-Keeps :
            (details : TokenDetails) (r : SecretRotator)
            → Keeps P (
                validate_resource store rotators namespaces clients files finalizers
                  set_status_condition set_controller_reference handling_token details r)
        unfolding validate_resource
        validate_resource-Keeps details r =
            Keeps-bind _ _
              (Keeps-deferred _ _
                (Keeps-bind _ _ (validate_object_spec-Keeps details r)
                  (λ complete. Keeps-then _ _ (copy_certificates-Keeps r) (Keeps-pure _)))
                (defer_patch-Keeps r))
              (λ end. Keeps-pure _)

        -- The preparation of a rotator.
        pub initialize_resource-Keeps :
            (details : TokenDetails) (r : SecretRotator) (ns name : Text)
            → Keeps P (
                initialize_resource store rotators namespaces clients files finalizers
                  set_status_condition set_controller_reference handling_token details r ns name)
        unfolding initialize_resource
        initialize_resource-Keeps details r ns name =
            Keeps-bind _ _ (handle_conditions-Keeps r ns name) (λ known.
              Keeps-bind _ _ (handle_finalizers-Keeps known) (λ guarded.
                Keeps-bind _ _ (secret_rotator_checker-Keeps guarded ns name)
                  (validate_resource-Keeps details)))
