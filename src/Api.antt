-- ===== src/Api.antt =====
-- api/v1alpha1: the custom resource `SecretRotator`. Of the metadata that Kubernetes adds, the fields
-- are kept that the operator reads or writes. A nil slice or map is the empty one.
use jfrog_registry_operator.Base.{Text, str, List, Option, Bool}
use jfrog_registry_operator.Base.Int.{ℤ}
use jfrog_registry_operator.Base.Dict.{Dict}

pub record GeneratedSecret : Type 0 where
  pub secret_name : Text
  pub secret_type : Text
  pub scope : Text

pub record SecurityDetails : Type 0 where
  pub enabled : Bool
  pub certificate_secret_name : Text
  pub secret_namespace : Text
  pub insecure_skip_verify : Bool

pub record ServiceAccountDetails : Type 0 where
  pub name : Text
  pub namespace : Text

pub record SecretMetadata : Type 0 where
  pub annotations : Dict Text
  pub labels : Dict Text

-- `metav1.LabelSelector`, whose expressions only Kubernetes reads.
pub record LabelSelectorRequirement : Type 0 where
  pub key : Text
  pub operator : Text
  pub values : List Text

pub record LabelSelector : Type 0 where
  pub match_labels : Dict Text
  pub match_expressions : List LabelSelectorRequirement

-- `refresh_interval` is in nanoseconds, and may be negative.
pub record SecretRotatorSpec : Type 0 where
  pub secret_metadata : SecretMetadata
  pub secret_name : Text
  pub generated_secrets : List GeneratedSecret
  pub namespace_selector : LabelSelector
  pub artifactory_url : Text
  pub artifactory_subdomains : List Text
  pub service_account : ServiceAccountDetails
  pub refresh_interval : Option ℤ
  pub security : SecurityDetails
  pub auth_type : Text
  pub aws_region : Text

pub record SecretNamespaceFailure : Type 0 where
  pub namespace : Text
  pub reason : Text

-- `metav1.Condition`
pub record Condition : Type 0 where
  pub condition_type : Text
  pub status : Text
  pub reason : Text
  pub message : Text

pub record SecretRotatorStatus : Type 0 where
  pub conditions : List Condition
  pub failed_namespaces : List SecretNamespaceFailure
  pub provisioned_namespaces : List Text
  pub secret_managed_by_namespaces : Dict (List Text)
  pub auth_type : Text

-- `is_deleted` is `GetDeletionTimestamp() != nil`.
pub record SecretRotator : Type 0 where
  pub name : Text
  pub namespace : Text
  pub annotations : Dict Text
  pub finalizers : List Text
  pub is_deleted : Bool
  pub spec : SecretRotatorSpec
  pub status : SecretRotatorStatus

-- `SecretKind`, and `GroupVersion.String()`.
unfoldable pub secret_kind : Text
secret_kind = str "SecretRotator"

unfoldable pub group_version : Text
group_version = str "apps.jfrog.com/v1alpha1"

unfoldable pub custom_certificate_path : Text
custom_certificate_path = str "/usr/tmp/"

unfoldable pub cert_pem : Text
cert_pem = str "/cert.pem"

unfoldable pub key_pem : Text
key_pem = str "/key.pem"

unfoldable pub ca_pem : Text
ca_pem = str "/ca.pem"

unfoldable pub tls_crt : Text
tls_crt = str "/tls.crt"

unfoldable pub tls_key : Text
tls_key = str "/tls.key"

unfoldable pub tls_ca : Text
tls_ca = str "/ca.crt"
