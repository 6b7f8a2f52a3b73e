-- ===== src/Operations.antt =====
-- internal/operations/types.go: the details that one reconciliation gathers, and the constants.
pub mod Differences
pub mod Validate
pub mod Outdated
mod Tests
use jfrog_registry_operator.Base.Int.{ℤ, pos}
use jfrog_registry_operator.Base.{ℕ, Text, str, eqb, List, [], Option, none, Bool, not, GoError}
use jfrog_registry_operator.Base.Dict.{Dict}
use jfrog_registry_operator.Api.{GeneratedSecret}
use jfrog_registry_operator.Cluster.Objects.{Namespace, ClientSet}

-- The lifetimes are in seconds; `TTLInSeconds` is a float there that only ever holds an `int32`. The
-- requeue interval is in nanoseconds.
pub record TokenDetails : Type 0 where
  pub generated_secrets : List GeneratedSecret
  pub namespace_list : List Namespace
  pub failed_namespaces : Dict GoError
  pub provisioned_namespaces : List Text
  pub ttl_in_seconds : ℕ
  pub secret_managed_by_namespaces : Dict (List Text)
  pub username : Text
  pub token : Text
  pub artifactory_url : Text
  pub namespace_selector : Text
  pub requeue_interval : ℤ
  pub default_service_account_name : Text
  pub default_service_account_namespace : Text
  pub role_max_session_duration : Option ℕ
  pub iam_role_aws_region : Text
  pub auth_type : Text

-- `var tokenDetails operations.TokenDetails`
abbrev pub no_details : TokenDetails
no_details = record {
  generated_secrets = [];
  namespace_list = [];
  failed_namespaces = [];
  provisioned_namespaces = [];
  ttl_in_seconds = 0;
  secret_managed_by_namespaces = [];
  username = [];
  token = [];
  artifactory_url = [];
  namespace_selector = [];
  requeue_interval = pos 0;
  default_service_account_name = [];
  default_service_account_namespace = [];
  role_max_session_duration = none;
  iam_role_aws_region = [];
  auth_type = [];
}

unfoldable pub secret_type_docker : Text
secret_type_docker = str "docker"

unfoldable pub secret_type_generic : Text
secret_type_generic = str "generic"

unfoldable pub secret_rotator_finalizer : Text
secret_rotator_finalizer = str "apps.jfrog.com/finalizer"

unfoldable pub aws_region : Text
aws_region = str "us-west-2"

unfoldable pub role_arn_key : Text
role_arn_key = str "eks.amazonaws.com/role-arn"

abbrev pub role_max_session_duration : ℕ
role_max_session_duration = 10800

unfoldable pub pod_identity_auth_type : Text
pod_identity_auth_type = str "podIdentity"

unfoldable pub web_identity_auth_type : Text
web_identity_auth_type = str "webIdentity"

unfoldable pub auto_auth_type : Text
auto_auth_type = str "auto"

-- `DetectPodIdentity`
unfoldable pub detect_pod_identity : {S : Type 0} → ClientSet S → Bool
detect_pod_identity c = not (eqb (c.getenv (str "AWS_CONTAINER_AUTHORIZATION_TOKEN_FILE")) [])
