-- ===== src/Operations/Validate.antt =====
-- internal/operations/operations.go: `ValidateObjectSpec` and `GetServiceAccount`. Both fill in the
-- token details; after an error the details are dropped, since the reconciliation ends there.
pub mod Secrets
pub mod Address
pub mod Accepted
use jfrog_registry_operator.Base.{
  ◌||◌, Text, str, eqb, elem, List, [], ◌∷◌, ◌++◌, Bool, true, false, not, ◌&&◌, take, drop, length,
  ltb, is_empty, Done, Outcome, ok, err, panic, GoError, reconcile, reconcile_by, if◌then◌else◌,
}
use jfrog_registry_operator.Base.Dict.{Dict, get_or}
use jfrog_registry_operator.Base.Exec.{Exec, lift, pure, raise, crash, handle, ◌>>=◌, ◌>>◌}
use jfrog_registry_operator.Api.{GeneratedSecret, SecretRotatorSpec, SecretRotator}
use jfrog_registry_operator.Cluster.Objects.{Namespace, NamespaceStore, ServiceAccount, ClientSet}
use jfrog_registry_operator.Operations.{
  TokenDetails, secret_type_docker, secret_type_generic, aws_region, role_arn_key,
  detect_pod_identity,
}

-- `spec.generatedSecrets`, and behind them `spec.secretName` as a docker secret.
unfoldable pub collect_secrets : SecretRotatorSpec → List GeneratedSecret
collect_secrets spec =
    spec.generated_secrets
    ++ (if eqb spec.secret_name []
        then []
        else record { secret_name = spec.secret_name; secret_type = secret_type_docker; scope = [] }
          ∷ [])

-- The loop over the secrets, with the names that it has seen.
unfoldable pub check_each : List Text → List GeneratedSecret → Outcome Done
check_each seen [] = ok tt
check_each seen (g ∷ rest) =
    let later = check_each (g.secret_name ∷ seen) rest in
    if elem g.secret_name seen
    then err (
        reconcile 0 (
          str "Duplicate SecretName '"
          ++ (g.secret_name
              ++ str
                  "' in generatedSecrets. Each secret must have a unique name. The current reconciliation cycle will end here.")))
    else if eqb g.secret_name []
    then err (
        reconcile 0 (
          str "Empty SecretName in generatedSecrets for "
          ++ (g.secret_type
              ++ str
                  " secret. Each secret must have a valid name. The current reconciliation cycle will end here.")))
    else if not (eqb g.secret_type secret_type_docker)
        && not (eqb g.secret_type secret_type_generic)
    then err (
        reconcile 0 (
          str "Invalid SecretType '"
          ++ (g.secret_type
              ++ str
                  "' in generatedSecrets. Must be 'docker' or 'generic'. The current reconciliation cycle will end here.")))
    else later

-- The checks of the secrets that are defined.
unfoldable pub check_secrets : List GeneratedSecret → Outcome Done
check_secrets secrets =
    if is_empty secrets
    then err (
        reconcile 0 (
          str
            "No secrets defined in spec.generatedSecrets and spec.secretName. Please configure secret details. The current reconciliation cycle will end here."))
    else check_each [] secrets

-- The URL without `https://` or `http://`, unless nothing would be left.
unfoldable pub trim_scheme : Text → Text
trim_scheme url =
    if ltb 8 (length url) && eqb (take 8 url) (str "https://")
    then drop 8 url
    else if ltb 7 (length url) && eqb (take 7 url) (str "http://")
    then drop 7 url
    else url

module _ {S : Type 0} (namespaces : NamespaceStore S) (clients : ClientSet S) where
  -- The account of the operator's own pod, and the details with its name and namespace.
  unfoldable pub get_service_account : TokenDetails → Exec S (ServiceAccount × TokenDetails)
  get_service_account details = do
    let pod_name = clients.getenv (str "POD_NAME")
    let namespace = clients.getenv (str "POD_NAMESPACE")
    clients.get_k8s_client
    name ← clients.pod_service_account_name namespace pod_name
    account ← clients.service_account namespace name
    pure (
      account,
      record details {
        default_service_account_name = name;
        default_service_account_namespace = namespace;
      },
    )

  -- The namespaces that the selector matches: at least one.
  unfoldable pub select_namespaces : SecretRotatorSpec → TokenDetails → Exec S TokenDetails
  select_namespaces spec details =
      handle (lift (namespaces.selector_of spec.namespace_selector))
        (λ selector.
          handle (namespaces.list selector)
            (λ items.
              if is_empty items
              then raise (reconcile 0 no_namespaces)
              else pure (record details { namespace_selector = selector; namespace_list = items }))
            (λ e. raise (reconcile_by 0 no_namespaces e)))
        (λ e. raise (
          reconcile_by 0
            (str
              "Error reading namespace labels selector from operator object configuration, no secrets will be created or updated, the current reconciliation cycle will end here")
            e))
    where
      no_namespaces : Text
      no_namespaces =
          str
            "No namespaces match the configured namespace selector, the current reconciliation cycle will end here"

  -- The host and the region.
  unfoldable pub set_address : SecretRotatorSpec → TokenDetails → Exec S TokenDetails
  set_address spec details =
      if eqb spec.artifactory_url []
      then raise (
          reconcile 0 (
            str
              "Missing ArtifactoryUrl in operator object configuration, no secrets will be created or updated, the current reconciliation cycle will end here"))
      else pure (record details {
        artifactory_url = trim_scheme spec.artifactory_url;
        iam_role_aws_region = if eqb spec.aws_region [] then aws_region else spec.aws_region;
      })

  -- Without an account in the resource, the operator's own must carry a role, or pod identity be there.
  unfoldable pub check_account : SecretRotatorSpec → ServiceAccount → Exec S Done
  check_account spec account =
      if (eqb spec.service_account.name [] || eqb spec.service_account.namespace [])
        && (eqb (get_or [] role_arn_key account.annotations) []
            && not (detect_pod_identity clients))
      then raise (
          reconcile 0 (
            str
              "No service account details were provided in resource, and the operator's service account does not have the required ARN annotation. Please either update the operator's service account with the appropriate annotation or specify your service account by providing serviceAccount.name and serviceAccount.namespace in the custom resource."))
      else pure tt

  -- `details` are those that the caller has, the secrets are collected anew.
  unfoldable pub validate_object_spec : TokenDetails → SecretRotator → Exec S TokenDetails
  validate_object_spec details rotator = do
    let secrets = collect_secrets rotator.spec
    lift (check_secrets secrets)
    selected ← select_namespaces rotator.spec (record details { generated_secrets = secrets })
    addressed ← set_address rotator.spec selected
    (account, complete) ← handle (get_service_account addressed) pure λ e. raise (
        reconcile_by 0
          (str
            "Error reading operator's service account resource, the current reconciliation cycle will end here")
          e)
    check_account rotator.spec account
    pure complete
