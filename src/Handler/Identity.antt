-- ===== src/Handler/Identity.antt =====
-- internal/handler/aws.go: the session duration of a role. The AWS SDK is a record of operations.
pub mod Pod
pub mod Web
pub mod Keeping
pub mod Keys
pub mod Durations
pub mod RoleName
pub mod Retries
pub mod Implementation
pub mod Schedule
mod Samples
mod Tests
use jfrog_registry_operator.Base.{
  ℕ, Text, str, Bool, true, false, ◌&&◌, List, [], ◌∷◌, Option, none, some, if◌then◌else◌, eqb,
  Outcome, ok, err, plain, split_at, reconcile_by,
}
use jfrog_registry_operator.Base.Dict.{Dict}
use jfrog_registry_operator.Base.Exec.{Exec, pure, raise, lift, handle, ◌>>=◌}
use jfrog_registry_operator.Operations.{TokenDetails, aws_region}
use jfrog_registry_operator.Sign.Keys.{PrivateKey, V4aCredentials, AwsCredentials}
use jfrog_registry_operator.Sign.Request.{HttpRequest, Time, Crypto}
use jfrog_registry_operator.Sign.Build.{sign_v4a}

-- `CredentialsResponse` of internal/operations/types.go.
pub record CredentialsResponse : Type 0 where
  pub access_key_id : Text
  pub secret_access_key : Text
  pub token : Text

-- Where credentials come from: the SDK's own chain, a `StaticCredentialsProvider`, or a
-- `WebIdentityRoleProvider` of a role, the name of its session and a token.
pub data CredentialsSource : Type 0 where
  default_chain : CredentialsSource
  static : CredentialsResponse → CredentialsSource
  web_identity_role : Text → Text → Text → CredentialsSource

-- `aws.Config`
pub record AwsConfig : Type 0 where
  pub source : CredentialsSource
  pub region : Text

-- The options of `LoadDefaultConfig`: `WithCredentialsProvider`, `WithRegion`, `WithEC2IMDSRegion`.
pub record ConfigOptions : Type 0 where
  pub source : CredentialsSource
  pub region : Option Text
  pub ec2_imds_region : Bool

abbrev pub no_options : ConfigOptions
no_options = record { source = default_chain; region = none; ec2_imds_region = false }

-- `GetCallerIdentity` answers with an ARN and an account, each of which may be nil. `get_role` is
-- `GetRole`, of which the role may be nil, and so may its `MaxSessionDuration`. `retrieve` is `Retrieve`
-- of a source, with the configuration of its STS client.
pub record AwsServices (S : Type 0) : Type 0 where
  pub load_default_config : ConfigOptions → Exec S AwsConfig
  pub get_caller_identity : AwsConfig → Exec S (Option Text × Option Text)
  pub get_role : AwsConfig → Text → Exec S (Option (Option ℕ))
  pub retrieve : AwsConfig → CredentialsSource → Exec S CredentialsResponse
  pub unix_milli : S → ℕ

-- What `SignV4a` uses: the cache of the keys and the clock in the state, and the standard library.
pub record Signing (S : Type 0) : Type 0 where
  pub cache : S → Option V4aCredentials
  pub set_cache : Option V4aCredentials → S → S
  pub now : S → Time
  pub crypto : Crypto
  pub parse_query : Text → Dict (List Text)
  pub new_request : Text → Text → Option HttpRequest
  pub derive : Text → Text → Outcome PrivateKey

-- `SignV4a` at the request for the caller's identity.
unfoldable pub sign_caller_identity : {S : Type 0} → Signing S → AwsCredentials → Exec S HttpRequest
sign_caller_identity signing creds s =
    let (signed, kept) =
      sign_v4a signing.crypto signing.parse_query signing.new_request signing.derive
        (signing.cache s) (signing.now s) (str "GET")
        (str "https://sts.amazonaws.com?Action=GetCallerIdentity&Version=2011-06-15") (str "sts")
        creds in
    (signed, signing.set_cache kept s)

-- `substrings[1]` of exactly two parts.
unfoldable pub second_of_two : List Text → Outcome Text
second_of_two (before ∷ role_name ∷ []) = ok role_name
second_of_two _ = err (plain (str "role arn is not valid"))

unfoldable pub role_name_of : Text → Outcome Text
role_name_of role_arn = second_of_two (split_at b'/' role_arn)

-- Whether the operator's own service account is used.
abbrev pub is_own_account : Text → Text → TokenDetails → Bool
is_own_account resource_sa_name resource_sa_namespace details =
    eqb resource_sa_name details.default_service_account_name
    && eqb resource_sa_namespace details.default_service_account_namespace

unfoldable pub max_session_of : {S : Type 0} → Option (Option ℕ) → Exec S (Option ℕ)
max_session_of none = raise (plain (str "could not extract max session from roleARN"))
max_session_of (some max_session_duration) = pure max_session_duration

unfoldable pub session_options : Bool → CredentialsSource → TokenDetails → ConfigOptions
session_options own app_creds details = if own then no_options else record {
  source = app_creds;
  region = some details.iam_role_aws_region;
  ec2_imds_region = true;
}

-- The region of the specification, and otherwise the default one.
unfoldable pub region_of : TokenDetails → Text
region_of details =
    if eqb details.iam_role_aws_region [] then aws_region else details.iam_role_aws_region

module _ {S : Type 0} (aws : AwsServices S) where
  -- The last steps of both functions below.
  unfoldable pub role_session : ConfigOptions → Text → Exec S (Option ℕ)
  role_session options role_name =
      aws.load_default_config options >>= λ cfg. aws.get_role cfg role_name >>= max_session_of

  unfoldable pub get_max_session :
      Text → CredentialsSource → Text → Text → TokenDetails → Exec S (Option ℕ)
  get_max_session role_arn app_creds resource_sa_name resource_sa_namespace details =
      lift (role_name_of role_arn)
      >>= role_session (
          session_options (is_own_account resource_sa_name resource_sa_namespace details) app_creds
            details)

  unfoldable pub get_max_session_with_credential_cache :
      Text → CredentialsSource → TokenDetails → Exec S (Option ℕ)
  get_max_session_with_credential_cache role_arn cred_cache details =
      lift (role_name_of role_arn)
      >>= role_session (record {
        source = cred_cache;
        region = some (region_of details);
        ec2_imds_region = false;
      })
