-- ===== src/Handler/Identity/Keeping.antt =====
-- What the signing for an identity leaves true of the state.
use jfrog_registry_operator.Base.{
  ℕ, Text, not, ◌||◌, ◌==◌, [], Option, none, some, eqb, Outcome, ok, err, ltb, length,
}
use jfrog_registry_operator.Base.Exec.{
  Exec, lift, ◌>>=◌, Keeps, Keeps-pure, Keeps-raise, Keeps-crash, Keeps-if, Keeps-handle,
  Keeps-bind, Keeps-then,
}
use jfrog_registry_operator.Base.Dict.{get_or}
use jfrog_registry_operator.Api.{SecretRotator}
use jfrog_registry_operator.Operations.{TokenDetails, role_arn_key}
use jfrog_registry_operator.Sign.Keys.{AwsCredentials}
use jfrog_registry_operator.Cluster.Objects.{ServiceAccount, ClientSet}
use jfrog_registry_operator.Handler.Http.{
  HttpServices, HttpClient, HttpRequest, HttpResponse, or_retry,
}
use jfrog_registry_operator.Handler.Identity.{
  CredentialsResponse, CredentialsSource, AwsConfig, ConfigOptions, AwsServices, Signing,
  sign_caller_identity, role_name_of, max_session_of, role_session, get_max_session,
  get_max_session_with_credential_cache,
}
use jfrog_registry_operator.Handler.Identity.Pod.{
  text_or_empty, not_nil, resolve_identity, resolve_iam_role_arn_from_pod_identity_credentials,
  full_uri_variable, token_file_variable, log_access_key, read_credentials, fetch_credentials,
  pod_identity_credentials, pod_session, sign_for_pod, get_signed_request_for_pod_identity,
}
use jfrog_registry_operator.Handler.Identity.Web.{
  app_credentials, web_session, sign_for_role, get_signed_request_and_handle_role_max_session,
  get_signed_request_for_web_identity,
}

module _ {S : Type 0} (P : S → Type 0) (clients : ClientSet S) (services : HttpServices S)
    (aws : AwsServices S) (signing : Signing S) where
  -- What the signing asks of others keeps `P`.
  pub record CallsKeep : Type 0 where
    pub create_token-Keeps :
        (ns name audience : Text) → Keeps P (clients.create_token ns name audience)
    pub read_file-Keeps : (path : Text) → Keeps P (services.read_file path)
    pub do_request-Keeps : (c : HttpClient) (r : HttpRequest) → Keeps P (services.do_request c r)
    pub load_default_config-Keeps : (o : ConfigOptions) → Keeps P (aws.load_default_config o)
    pub get_caller_identity-Keeps : (cfg : AwsConfig) → Keeps P (aws.get_caller_identity cfg)
    pub get_role-Keeps : (cfg : AwsConfig) (name : Text) → Keeps P (aws.get_role cfg name)
    pub retrieve-Keeps : (cfg : AwsConfig) (c : CredentialsSource) → Keeps P (aws.retrieve cfg c)
    pub sign-Keeps : (creds : AwsCredentials) → Keeps P (sign_caller_identity signing creds)

  module _ (calls : CallsKeep) (decode_credentials : Text → Outcome CredentialsResponse) where
    lift-Keeps {ℓ} : {A : Type ℓ} (r : Outcome A) → Keeps P (lift r)
    unfolding lift
    lift-Keeps (ok a) = Keeps-pure a
    lift-Keeps (err e) = Keeps-raise e
    lift-Keeps Outcome.panic = Keeps-crash

    or_retry-Keeps {ℓ} :
        {A : Type ℓ} (m : Exec S A) (message : Text)
        → Keeps P m
        → Keeps P (or_retry services m message)
    unfolding or_retry
    or_retry-Keeps m message kept = Keeps-handle m _ _ kept (λ a. Keeps-pure a) (λ e. Keeps-raise _)

    max_session_of-Keeps : (role : Option (Option ℕ)) → Keeps P (max_session_of role)
    unfolding max_session_of
    max_session_of-Keeps none = Keeps-raise _
    max_session_of-Keeps (some duration) = Keeps-pure duration

    max_session-Keeps :
        (role_arn : Text) (options : ConfigOptions)
        → Keeps P (lift (role_name_of role_arn) >>= role_session aws options)
    unfolding role_session
    max_session-Keeps role_arn options = Keeps-bind _ _ (lift-Keeps _) (λ role_name.
        Keeps-bind _ _ (calls.load_default_config-Keeps options)
          (λ cfg. Keeps-bind _ _ (calls.get_role-Keeps cfg role_name) max_session_of-Keeps))

    not_nil-Keeps : (duration : Option ℕ) → Keeps P (not_nil duration)
    unfolding not_nil
    not_nil-Keeps none = Keeps-crash
    not_nil-Keeps (some n) = Keeps-pure n

    resolve_identity-Keeps :
        (cred_resp : CredentialsResponse) (d : TokenDetails) (sts_arn account_id : Text)
        → Keeps P (resolve_identity aws cred_resp d sts_arn account_id)
    unfolding resolve_identity get_max_session_with_credential_cache
    resolve_identity-Keeps cred_resp d sts_arn account_id =
        Keeps-if (eqb sts_arn [] || eqb account_id []) _ _ (Keeps-raise _) (
          Keeps-bind _ _ (lift-Keeps _)
            (λ role_arn. Keeps-bind _ _ (max_session-Keeps role_arn _) not_nil-Keeps))

    resolve-Keeps :
        (region : Text) (cred_resp : CredentialsResponse) (d : TokenDetails)
        → Keeps P (resolve_iam_role_arn_from_pod_identity_credentials aws region cred_resp d)
    unfolding resolve_iam_role_arn_from_pod_identity_credentials
    resolve-Keeps region cred_resp d = Keeps-bind _ _ (calls.load_default_config-Keeps _) (λ cfg.
        Keeps-bind _ _ (calls.get_caller_identity-Keeps cfg)
          (λ out. resolve_identity-Keeps cred_resp d (text_or_empty out.0) (text_or_empty out.1)))

    read_credentials-Keeps :
        (uri : Text) (resp : HttpResponse)
        → Keeps P (read_credentials clients services aws signing decode_credentials uri resp)
    unfolding read_credentials
    read_credentials-Keeps uri resp =
        Keeps-if (not (resp.status_code == 200)) _ _ (Keeps-raise _)
          (or_retry-Keeps _ _ (lift-Keeps _))

    fetch_credentials-Keeps :
        (uri file : Text)
        → Keeps P (fetch_credentials clients services aws signing decode_credentials uri file)
    unfolding fetch_credentials
    fetch_credentials-Keeps uri file =
        Keeps-bind _ _ (or_retry-Keeps _ _ (calls.read_file-Keeps file)) (λ token.
          Keeps-bind _ _ (or_retry-Keeps _ _ (calls.do_request-Keeps _ _))
            (read_credentials-Keeps uri))

    pod_identity_credentials-Keeps :
        Keeps P (pod_identity_credentials clients services aws signing decode_credentials)
    unfolding pod_identity_credentials
    pod_identity_credentials-Keeps =
        Keeps-if (eqb (clients.getenv full_uri_variable) []) _ _ (Keeps-raise _) (
          Keeps-then _ _ (or_retry-Keeps _ _ (lift-Keeps _)) (
            Keeps-if (eqb (clients.getenv token_file_variable) []) _ _ (Keeps-raise _)
              (fetch_credentials-Keeps _ _)))

    log_access_key-Keeps : (c : CredentialsResponse) → Keeps P (log_access_key c)
    unfolding log_access_key
    log_access_key-Keeps c =
        Keeps-if (ltb (length c.access_key_id) 8) _ _ Keeps-crash (Keeps-pure c)

    sign_for_pod-Keeps :
        (d : TokenDetails) (c : CredentialsResponse)
        → Keeps P (sign_for_pod clients services aws signing decode_credentials d c)
    unfolding sign_for_pod pod_session
    sign_for_pod-Keeps d c = Keeps-bind _ _ (or_retry-Keeps _ _ (calls.sign-Keeps _)) (λ req.
        Keeps-bind _ _
          (Keeps-handle _ _ _ (resolve-Keeps _ c d) (λ n. Keeps-pure n) (λ e. Keeps-pure _))
          (λ n. Keeps-pure _))

    pub pod_identity-Keeps :
        (d : TokenDetails)
        → Keeps P
            (get_signed_request_for_pod_identity clients services aws signing decode_credentials d)
    unfolding get_signed_request_for_pod_identity
    pod_identity-Keeps d =
        Keeps-bind _ _ (Keeps-bind _ _ pod_identity_credentials-Keeps log_access_key-Keeps)
          (sign_for_pod-Keeps d)

    sign_for_role-Keeps :
        (role_arn name ns : Text) (d : TokenDetails) (cfg : AwsConfig) (source : CredentialsSource)
        → Keeps P (sign_for_role services aws signing role_arn name ns d cfg source)
    unfolding sign_for_role web_session get_max_session
    sign_for_role-Keeps role_arn name ns d cfg source =
        Keeps-bind _ _ (or_retry-Keeps _ _ (calls.retrieve-Keeps cfg source)) (λ credentials.
          Keeps-bind _ _ (or_retry-Keeps _ _ (calls.sign-Keeps _)) (λ req.
            Keeps-bind _ _
              (Keeps-handle _ _ _ (max_session-Keeps role_arn _) (λ n. Keeps-pure n)
                (λ e. Keeps-pure _))
              (λ n. Keeps-pure _)))

    app_credentials-Keeps :
        (role_arn token : Text) → Keeps P (app_credentials services aws signing role_arn token)
    unfolding app_credentials
    app_credentials-Keeps role_arn token = record { at = λ s h. h }

    pub web_identity-Keeps :
        (d : TokenDetails) (a : ServiceAccount) (r : SecretRotator)
        → Keeps P (get_signed_request_for_web_identity services aws signing clients d a r)
    unfolding get_signed_request_for_web_identity get_signed_request_and_handle_role_max_session
    web_identity-Keeps d a r =
        Keeps-if (eqb (get_or [] role_arn_key a.annotations) []) _ _ (Keeps-raise _) (
          Keeps-bind _ _ (calls.create_token-Keeps _ _ _) (λ token.
            Keeps-bind _ _ (or_retry-Keeps _ _ (calls.load_default_config-Keeps _)) (λ cfg.
              Keeps-bind _ _ (app_credentials-Keeps _ token)
                (λ source. sign_for_role-Keeps _ _ _ d cfg source))))
