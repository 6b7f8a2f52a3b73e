-- ===== src/Handler/Identity/Web.antt =====
-- internal/handler/webidentity.go, and `GetSignedRequestAndHandleRoleMaxSession` of
-- internal/handler/aws.go. Events are not kept.
use jfrog_registry_operator.Base.{
  ℕ, Text, str, Bool, [], ◌++◌, Option, some, if◌then◌else◌, eqb, ok, reconcile, decimal,
}
use jfrog_registry_operator.Base.Dict.{get_or}
use jfrog_registry_operator.Base.Exec.{Exec, pure, raise, handle, ◌>>=◌}
use jfrog_registry_operator.Api.{SecretRotator}
use jfrog_registry_operator.Operations.{TokenDetails, role_arn_key, role_max_session_duration}
use jfrog_registry_operator.Cluster.Objects.{ServiceAccount, ClientSet}
use jfrog_registry_operator.Handler.Http.{HttpServices, or_retry}
use jfrog_registry_operator.Handler.Token.{Signed}
use jfrog_registry_operator.Handler.Identity.{
  CredentialsSource, default_chain, web_identity_role, AwsConfig, ConfigOptions, no_options,
  AwsServices, Signing, sign_caller_identity, get_max_session, is_own_account,
}

abbrev pub amazon_aws_sts : Text
amazon_aws_sts = str "sts.amazonaws.com"

-- The configuration of the STS client: for an account that is not the operator's own, with the region
-- of the specification.
unfoldable pub sts_options : Bool → TokenDetails → ConfigOptions
sts_options own details = if own then no_options else record {
  source = default_chain;
  region = some details.iam_role_aws_region;
  ec2_imds_region = Bool.true;
}

-- The name of a session: the milliseconds since the epoch behind a prefix.
unfoldable pub session_name : ℕ → Text
session_name session_time = str "artifactorySecretRotation" ++ decimal session_time

module _ {S : Type 0} (services : HttpServices S) (aws : AwsServices S) (signing : Signing S) where
  unfoldable pub app_credentials : Text → Text → Exec S CredentialsSource
  app_credentials role_arn web_identity_token s =
      (ok (web_identity_role role_arn (session_name (aws.unix_milli s)) web_identity_token), s)

  -- The duration that is noted: an error is only logged.
  unfoldable pub web_session :
      Text → CredentialsSource → Text → Text → TokenDetails → Exec S (Option ℕ)
  web_session role_arn app_creds resource_sa_name resource_sa_namespace details =
      handle (get_max_session aws role_arn app_creds resource_sa_name resource_sa_namespace details)
        pure (λ e. pure (some role_max_session_duration))

  -- With the configuration and the source of the credentials.
  unfoldable pub sign_for_role :
      Text → Text → Text → TokenDetails → AwsConfig → CredentialsSource → Exec S Signed
  sign_for_role role_arn resource_sa_name resource_sa_namespace details cfg app_creds =
      or_retry services (aws.retrieve cfg app_creds) (str "Got error on appCreds.Retrieve")
      >>= λ credentials.
          or_retry services
            (sign_caller_identity signing (record {
              access_key = credentials.access_key_id;
              secret_key = credentials.secret_access_key;
              region_name = cfg.region;
              session_token = credentials.token;
            }))
            (str "Got error signing sts request")
          >>= λ req.
              web_session role_arn app_creds resource_sa_name resource_sa_namespace details
              >>= λ max_session. pure (req.header, max_session)

  unfoldable pub get_signed_request_and_handle_role_max_session :
      Text → Text → Text → Text → TokenDetails → Exec S Signed
  get_signed_request_and_handle_role_max_session role_arn web_identity_token resource_sa_name
        resource_sa_namespace details =
      or_retry services
        (aws.load_default_config
          (sts_options (is_own_account resource_sa_name resource_sa_namespace details) details))
        (str "Got error loading default aws config")
      >>= λ cfg.
          app_credentials role_arn web_identity_token
          >>= sign_for_role role_arn resource_sa_name resource_sa_namespace details cfg

  module _ (clients : ClientSet S) where
    unfoldable pub get_signed_request_for_web_identity :
        TokenDetails → ServiceAccount → SecretRotator → Exec S Signed
    get_signed_request_for_web_identity details service_account rotator =
        let role_arn = get_or [] role_arn_key service_account.annotations in
        let account = rotator.spec.service_account in
        if eqb role_arn []
        then raise (reconcile 60 (str "role ARN annotation is empty"))
        else clients.create_token account.namespace account.name amazon_aws_sts >>= (λ token.
          get_signed_request_and_handle_role_max_session role_arn token account.name
            account.namespace details)
