-- ===== src/Handler/Identity/Pod.antt =====
-- internal/handler/podidentity.go: `GetSignedRequestForPodIdentity`, and
-- `ResolveIAMRoleARNFromPodIdentityCredentials`. Logs are not kept, but what they dereference is.
use jfrog_registry_operator.Base.{
  ℕ, Text, str, Bool, not, ◌==◌, ◌||◌, [], ◌∷◌, ◌++◌, Option, none, some, if◌then◌else◌, eqb,
  Outcome, plain, reconcile, decimal, ltb, length,
}
use jfrog_registry_operator.Base.Exec.{Exec, pure, raise, crash, lift, handle, ◌>>=◌, ◌>>◌}
use jfrog_registry_operator.Operations.{TokenDetails, role_max_session_duration}
use jfrog_registry_operator.Cluster.Objects.{ClientSet}
use jfrog_registry_operator.Sign.Keys.{AwsCredentials}
use jfrog_registry_operator.Handler.Http.{HttpServices, HttpResponse, default_client, or_retry}
use jfrog_registry_operator.Handler.RoleArn.{assumed_role_sts_arn_to_iam_role_arn}
use jfrog_registry_operator.Handler.Token.{Signed}
use jfrog_registry_operator.Handler.Identity.{
  CredentialsResponse, static, AwsServices, Signing, sign_caller_identity,
  get_max_session_with_credential_cache, region_of,
}

-- `aws.ToString`
abbrev pub text_or_empty : Option Text → Text
text_or_empty none = []
text_or_empty (some s) = s

-- The log line dereferences the duration.
unfoldable pub not_nil : {S : Type 0} → Option ℕ → Exec S ℕ
not_nil none = crash
not_nil (some max_dur) = pure max_dur

module _ {S : Type 0} (aws : AwsServices S) where
  -- With the answer of `GetCallerIdentity`.
  unfoldable pub resolve_identity : CredentialsResponse → TokenDetails → Text → Text → Exec S ℕ
  resolve_identity cred_resp details sts_arn account_id =
      if eqb sts_arn [] || eqb account_id []
      then raise (plain (str "STS GetCallerIdentity returned empty Arn or Account"))
      else lift (assumed_role_sts_arn_to_iam_role_arn sts_arn account_id) >>= (λ role_arn.
        get_max_session_with_credential_cache aws role_arn (static cred_resp) details >>= not_nil)

  unfoldable pub resolve_iam_role_arn_from_pod_identity_credentials :
      Text → CredentialsResponse → TokenDetails → Exec S ℕ
  resolve_iam_role_arn_from_pod_identity_credentials region cred_resp details =
      aws.load_default_config
        (record { source = static cred_resp; region = some region; ec2_imds_region = Bool.false })
      >>= λ cfg. aws.get_caller_identity cfg >>= λ out.
          resolve_identity cred_resp details (text_or_empty out.0) (text_or_empty out.1)

abbrev pub full_uri_variable : Text
full_uri_variable = str "AWS_CONTAINER_CREDENTIALS_FULL_URI"

abbrev pub token_file_variable : Text
token_file_variable = str "AWS_CONTAINER_AUTHORIZATION_TOKEN_FILE"

-- `credResp.AccessKeyId[:8]` in a log line panics on a shorter one.
unfoldable pub log_access_key : {S : Type 0} → CredentialsResponse → Exec S CredentialsResponse
log_access_key cred_resp = if ltb (length cred_resp.access_key_id) 8 then crash else pure cred_resp

abbrev pub credentials_of : Text → CredentialsResponse → AwsCredentials
credentials_of region cred_resp = record {
  access_key = cred_resp.access_key_id;
  secret_key = cred_resp.secret_access_key;
  region_name = region;
  session_token = cred_resp.token;
}

module _ {S : Type 0} (clients : ClientSet S) (services : HttpServices S) (aws : AwsServices S)
    (signing : Signing S) (decode_credentials : Text → Outcome CredentialsResponse) where
  -- The answer of the endpoint.
  unfoldable pub read_credentials : Text → HttpResponse → Exec S CredentialsResponse
  read_credentials cred_uri resp =
      if not (resp.status_code == 200)
      then raise (
          reconcile 60 (
            str "Error getting in Pod Identity credentials endpoint "
            ++ (cred_uri ++ (str " returned " ++ (decimal resp.status_code ++ str " response")))))
      else or_retry services (lift (decode_credentials resp.body))
          (str "Failed to parse Pod Identity credentials")

  -- The request for the credentials, with the token of the file.
  unfoldable pub fetch_credentials : Text → Text → Exec S CredentialsResponse
  fetch_credentials cred_uri auth_token_file =
      or_retry services (services.read_file auth_token_file)
        (str "Failed to read Pod Identity token file")
      >>= λ token_bytes.
          or_retry services
            (services.do_request (record default_client { timeout = some 5 })
              (record {
                method = str "GET";
                url = cred_uri;
                header = (str "Authorization", token_bytes) ∷ [];
                body = [];
              }))
            (str "Failed to get Pod Identity credentials")
          >>= read_credentials cred_uri

  unfoldable pub pod_identity_credentials : Exec S CredentialsResponse
  pod_identity_credentials =
      let cred_uri = clients.getenv full_uri_variable in
      let auth_token_file = clients.getenv token_file_variable in
      if eqb cred_uri []
      then raise (
          reconcile 60 (
            str
              "No AWS credentials available for Pod Identity (AWS_CONTAINER_CREDENTIALS_FULL_URI not set)"))
      else or_retry services (lift (services.new_request (str "GET") cred_uri))
          (str "Failed to create Pod Identity request")
        >> (if eqb auth_token_file []
            then raise (
                reconcile 60 (
                  str
                    "Pod Identity token file not found (AWS_CONTAINER_AUTHORIZATION_TOKEN_FILE not set)"))
            else fetch_credentials cred_uri auth_token_file)

  -- The duration that is noted: an error is only logged.
  unfoldable pub pod_session : Text → CredentialsResponse → TokenDetails → Exec S ℕ
  pod_session region cred_resp details =
      handle (resolve_iam_role_arn_from_pod_identity_credentials aws region cred_resp details) pure
        (λ e. pure role_max_session_duration)

  unfoldable pub sign_for_pod : TokenDetails → CredentialsResponse → Exec S Signed
  sign_for_pod details cred_resp =
      or_retry services
        (sign_caller_identity signing (credentials_of (region_of details) cred_resp))
        (str "Failed to sign the STS GetCallerIdentity request using Pod Identity credentials")
      >>= λ req. pod_session (region_of details) cred_resp details >>= λ max_dur.
          pure (req.header, some max_dur)

  unfoldable pub get_signed_request_for_pod_identity : TokenDetails → Exec S Signed
  get_signed_request_for_pod_identity details =
      pod_identity_credentials >>= log_access_key >>= sign_for_pod details
