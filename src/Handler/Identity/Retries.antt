-- ===== src/Handler/Identity/Retries.antt =====
-- The errors of the signing for an identity.
use jfrog_registry_operator.Base.{
  Text, not, ◌==◌, [], eqb, Outcome, err, GoError, reconcile, reconcile_by, ltb, length, ◌≡◌, refl,
  ◌⊎◌, inl, inr,
}
use jfrog_registry_operator.Base.Exec.{
  Exec, Raises, Raises-pure, Raises-raise, Raises-crash, Raises-if, Raises-handle, Raises-bind,
  Raises-then, Raises-any,
}
use jfrog_registry_operator.Base.Dict.{get_or}
use jfrog_registry_operator.Api.{SecretRotator}
use jfrog_registry_operator.Operations.{TokenDetails, role_arn_key}
use jfrog_registry_operator.Cluster.Objects.{ServiceAccount, ClientSet}
use jfrog_registry_operator.Handler.Http.{HttpServices, HttpResponse, or_retry}
use jfrog_registry_operator.Handler.Identity.{
  CredentialsResponse, CredentialsSource, AwsConfig, AwsServices, Signing,
}
use jfrog_registry_operator.Handler.Identity.Pod.{
  full_uri_variable, token_file_variable, log_access_key, read_credentials, fetch_credentials,
  pod_identity_credentials, pod_session, sign_for_pod, get_signed_request_for_pod_identity,
}
use jfrog_registry_operator.Handler.Identity.Web.{
  amazon_aws_sts, app_credentials, web_session, sign_for_role,
  get_signed_request_and_handle_role_max_session, get_signed_request_for_web_identity,
}

-- A `ReconcileError` that asks for another run after a minute.
abbrev pub IsRetry : GoError → Type 0
IsRetry (reconcile retry message) = retry ≡ 60
IsRetry (reconcile_by retry message cause) = retry ≡ 60
IsRetry _ = ⊥

module _ {S : Type 0} (clients : ClientSet S) (services : HttpServices S) (aws : AwsServices S)
    (signing : Signing S) (decode_credentials : Text → Outcome CredentialsResponse) where
  or_retry-IsRetry {ℓ} :
      {A : Type ℓ} (m : Exec S A) (message : Text) → Raises IsRetry (or_retry services m message)
  unfolding or_retry
  or_retry-IsRetry m message =
      Raises-handle _ _ _ (Raises-any m) (λ a. Raises-pure a) (λ e _. Raises-raise _ refl)

  read_credentials-IsRetry :
      (uri : Text) (resp : HttpResponse)
      → Raises IsRetry (read_credentials clients services aws signing decode_credentials uri resp)
  unfolding read_credentials
  read_credentials-IsRetry uri resp =
      Raises-if (not (resp.status_code == 200)) _ _ (Raises-raise _ refl) (or_retry-IsRetry _ _)

  fetch_credentials-IsRetry :
      (uri file : Text)
      → Raises IsRetry (fetch_credentials clients services aws signing decode_credentials uri file)
  unfolding fetch_credentials
  fetch_credentials-IsRetry uri file =
      Raises-bind _ _ (or_retry-IsRetry _ _)
        (λ token. Raises-bind _ _ (or_retry-IsRetry _ _) (read_credentials-IsRetry uri))

  pod_identity_credentials-IsRetry :
      Raises IsRetry (pod_identity_credentials clients services aws signing decode_credentials)
  unfolding pod_identity_credentials
  pod_identity_credentials-IsRetry =
      Raises-if (eqb (clients.getenv full_uri_variable) []) _ _ (Raises-raise _ refl) (
        Raises-then _ _ (or_retry-IsRetry _ _) (
          Raises-if (eqb (clients.getenv token_file_variable) []) _ _ (Raises-raise _ refl)
            (fetch_credentials-IsRetry _ _)))

  log_access_key-IsRetry : (c : CredentialsResponse) → Raises {S = S} IsRetry (log_access_key c)
  unfolding log_access_key
  log_access_key-IsRetry c =
      Raises-if (ltb (length c.access_key_id) 8) _ _ Raises-crash (Raises-pure c)

  sign_for_pod-IsRetry :
      (d : TokenDetails) (c : CredentialsResponse)
      → Raises IsRetry (sign_for_pod clients services aws signing decode_credentials d c)
  unfolding sign_for_pod pod_session
  sign_for_pod-IsRetry d c = Raises-bind _ _ (or_retry-IsRetry _ _) (λ req.
      Raises-bind _ _
        (Raises-handle _ _ _ (Raises-any _) (λ n. Raises-pure n) (λ e _. Raises-pure _))
        (λ n. Raises-pure _))

  pod_identity-Raises :
      (d : TokenDetails)
      → Raises IsRetry
          (get_signed_request_for_pod_identity clients services aws signing decode_credentials d)
  unfolding get_signed_request_for_pod_identity
  pod_identity-Raises d =
      Raises-bind _ _ (Raises-bind _ _ pod_identity_credentials-IsRetry log_access_key-IsRetry)
        (sign_for_pod-IsRetry d)

  -- Every error of the pod identity flow asks for another run after a minute.
  pub pod_identity-IsRetry :
      (d : TokenDetails) (s : S) (e : GoError)
      → (get_signed_request_for_pod_identity clients services aws signing decode_credentials d s).0
        ≡ err e
      → IsRetry e
  pod_identity-IsRetry d s e h = (pod_identity-Raises d).at s e h

  -- The client set refuses a token of the account with this error.
  abbrev pub IsRefusal : SecretRotator → GoError → Type 0
  IsRefusal r e =
      (s : S) × ((clients.create_token r.spec.service_account.namespace r.spec.service_account.name
          amazon_aws_sts s).0
        ≡ err e)

  abbrev IsWebError : SecretRotator → GoError → Type 0
  IsWebError r e = IsRetry e ⊎ IsRefusal r e

  web_retry {ℓ} :
      {A : Type ℓ} (r : SecretRotator) (m : Exec S A) (message : Text)
      → Raises (IsWebError r) (or_retry services m message)
  web_retry r m message = record { at = λ s e h. inl ((or_retry-IsRetry m message).at s e h) }

  sign_for_role-Raises :
      (r : SecretRotator) (role_arn name ns : Text) (d : TokenDetails) (cfg : AwsConfig)
      (source : CredentialsSource)
      → Raises (IsWebError r) (sign_for_role services aws signing role_arn name ns d cfg source)
  unfolding sign_for_role web_session
  sign_for_role-Raises r role_arn name ns d cfg source =
      Raises-bind _ _ (web_retry r _ _) (λ credentials. Raises-bind _ _ (web_retry r _ _) (λ req.
        Raises-bind _ _
          (Raises-handle _ _ _ (Raises-any _) (λ n. Raises-pure n) (λ e _. Raises-pure _))
          (λ n. Raises-pure _)))

  web_role-Raises :
      (r : SecretRotator) (role_arn token name ns : Text) (d : TokenDetails)
      → Raises (IsWebError r) (
          get_signed_request_and_handle_role_max_session services aws signing role_arn token name ns
            d)
  unfolding get_signed_request_and_handle_role_max_session app_credentials
  web_role-Raises r role_arn token name ns d = Raises-bind _ _ (web_retry r _ _) (λ cfg.
      Raises-bind _ _ (record { at = λ s e h. cc })
        (λ source. sign_for_role-Raises r role_arn name ns d cfg source))

  web_identity-Raises :
      (d : TokenDetails) (a : ServiceAccount) (r : SecretRotator)
      → Raises
          (IsWebError r)
          (get_signed_request_for_web_identity services aws signing clients d a r)
  unfolding get_signed_request_for_web_identity
  web_identity-Raises d a r =
      Raises-if (eqb (get_or [] role_arn_key a.annotations) []) _ _ (Raises-raise _ (inl refl)) (
        Raises-bind _ _ (record { at = λ s e h. inr (s, h) })
          (λ token. web_role-Raises r _ token _ _ d))

  -- Every error of the web identity flow asks for another run after a minute, or is the one with which
  -- the cluster refused a token of the account.
  pub web_identity-IsRetry :
      (d : TokenDetails) (a : ServiceAccount) (r : SecretRotator) (s : S) (e : GoError)
      → (get_signed_request_for_web_identity services aws signing clients d a r s).0 ≡ err e
      → IsRetry e ⊎ IsRefusal r e
  web_identity-IsRetry d a r s e h = (web_identity-Raises d a r).at s e h
