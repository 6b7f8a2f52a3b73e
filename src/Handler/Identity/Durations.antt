-- ===== src/Handler/Identity/Durations.antt =====
-- The session durations that are noted, and the lifetime of the token that follows from them.
use jfrog_registry_operator.Base.{
  ℕ, Text, ◌||◌, [], Option, none, some, eqb, Outcome, ◌≡◌, refl, arith,
}
use jfrog_registry_operator.Base.Exec.{
  lift, Gives, Gives-pure, Gives-raise, Gives-crash, Gives-if, Gives-bind, Gives-any, Gives-handle,
  ◌>>=◌,
}
use jfrog_registry_operator.Base.Dict.{get_or}
use jfrog_registry_operator.Api.{SecretRotator}
use jfrog_registry_operator.Operations.{TokenDetails, role_max_session_duration, role_arn_key}
use jfrog_registry_operator.Cluster.Objects.{ServiceAccount, ClientSet}
use jfrog_registry_operator.Controller.Managing.Lifetime.{InRange}
use jfrog_registry_operator.Handler.Http.{HttpServices}
use jfrog_registry_operator.Handler.Identity.Pod.{
  text_or_empty, not_nil, resolve_identity, resolve_iam_role_arn_from_pod_identity_credentials,
  pod_session, sign_for_pod, get_signed_request_for_pod_identity,
}
use jfrog_registry_operator.Handler.Identity.{
  role_name_of, CredentialsResponse, CredentialsSource, AwsConfig, ConfigOptions, AwsServices,
  Signing, max_session_of, role_session, get_max_session, get_max_session_with_credential_cache,
}
use jfrog_registry_operator.Handler.Identity.Web.{
  web_session, sign_for_role, get_signed_request_and_handle_role_max_session,
  get_signed_request_for_web_identity,
}

abbrev pub AnyInRange : Option ℕ → Type 0
AnyInRange none = Unit
AnyInRange (some n) = InRange n

abbrev RoleInRange : Option (Option ℕ) → Type 0
RoleInRange none = Unit
RoleInRange (some duration) = AnyInRange duration

module _ {S : Type 0} (aws : AwsServices S) where
  -- What IAM documents of `MaxSessionDuration`.
  abbrev pub RolesInRange : Type 0
  RolesInRange =
      (cfg : AwsConfig) (role_name : Text) → Gives RoleInRange (aws.get_role cfg role_name)

  module _ (roles : RolesInRange) where
    max_session_of-Gives :
        (role : Option (Option ℕ))
        → RoleInRange role
        → Gives {S = S} AnyInRange (max_session_of role)
    unfolding max_session_of
    max_session_of-Gives none h = Gives-raise _
    max_session_of-Gives (some duration) h = Gives-pure duration h

    role_session-Gives :
        (options : ConfigOptions) (role_name : Text)
        → Gives AnyInRange (role_session aws options role_name)
    unfolding role_session
    role_session-Gives options role_name =
        Gives-bind _ _ (Gives-any _)
          (λ cfg _. Gives-bind _ _ (roles cfg role_name) max_session_of-Gives)

    not_nil-Gives :
        (duration : Option ℕ) → AnyInRange duration → Gives {S = S} InRange (not_nil duration)
    unfolding not_nil
    not_nil-Gives none h = Gives-crash
    not_nil-Gives (some n) h = Gives-pure n h

    max_session-Gives :
        (role_arn : Text) (options : ConfigOptions)
        → Gives AnyInRange (lift (role_name_of role_arn) >>= role_session aws options)
    max_session-Gives role_arn options =
        Gives-bind _ _ (Gives-any _) (λ role_name _. role_session-Gives options role_name)

    resolve_identity-Gives :
        (cred_resp : CredentialsResponse) (d : TokenDetails) (sts_arn account_id : Text)
        → Gives InRange (resolve_identity aws cred_resp d sts_arn account_id)
    unfolding resolve_identity get_max_session_with_credential_cache
    resolve_identity-Gives cred_resp d sts_arn account_id =
        Gives-if (eqb sts_arn [] || eqb account_id []) _ _ (λ _. Gives-raise _)
          (λ _.
            Gives-bind _ _ (Gives-any _)
              (λ role_arn _. Gives-bind _ _ (max_session-Gives role_arn _) not_nil-Gives))

    resolve-Gives :
        (region : Text) (cred_resp : CredentialsResponse) (d : TokenDetails)
        → Gives InRange (resolve_iam_role_arn_from_pod_identity_credentials aws region cred_resp d)
    unfolding resolve_iam_role_arn_from_pod_identity_credentials
    resolve-Gives region cred_resp d = Gives-bind _ _ (Gives-any _) (λ cfg _.
        Gives-bind _ _ (Gives-any _)
          (λ out _. resolve_identity-Gives cred_resp d (text_or_empty out.0) (text_or_empty out.1)))

    module _ (clients : ClientSet S) (services : HttpServices S) (signing : Signing S)
        (decode_credentials : Text → Outcome CredentialsResponse) where
      pod_session-Gives :
          (region : Text) (cred_resp : CredentialsResponse) (d : TokenDetails)
          → Gives InRange
              (pod_session clients services aws signing decode_credentials region cred_resp d)
      unfolding pod_session
      pod_session-Gives region cred_resp d =
          Gives-handle _ _ _ (resolve-Gives region cred_resp d) (λ n h. Gives-pure n h)
            (λ e. Gives-pure role_max_session_duration (omega arith, omega arith))

      sign_for_pod-Gives :
          (d : TokenDetails) (cred_resp : CredentialsResponse)
          → Gives
              (λ p. (n : ℕ) × (p.1 ≡ some n) × InRange n)
              (sign_for_pod clients services aws signing decode_credentials d cred_resp)
      unfolding sign_for_pod
      sign_for_pod-Gives d cred_resp = Gives-bind _ _ (Gives-any _) (λ req _.
          Gives-bind _ _ (pod_session-Gives _ cred_resp d) (λ n h. Gives-pure _ (n, refl, h)))

      pub pod_identity-Gives :
          (d : TokenDetails)
          → Gives
              (λ p. (n : ℕ) × (p.1 ≡ some n) × InRange n)
              (get_signed_request_for_pod_identity clients services aws signing decode_credentials
                d)
      unfolding get_signed_request_for_pod_identity
      pod_identity-Gives d =
          Gives-bind _ _ (Gives-any _) (λ cred_resp _. sign_for_pod-Gives d cred_resp)

      web_session-Gives :
          (role_arn : Text) (app_creds : CredentialsSource) (name ns : Text) (d : TokenDetails)
          → Gives AnyInRange (web_session services aws signing role_arn app_creds name ns d)
      unfolding web_session get_max_session
      web_session-Gives role_arn app_creds name ns d =
          Gives-handle _ _ _ (max_session-Gives role_arn _) (λ duration h. Gives-pure duration h)
            (λ e. Gives-pure _ (omega arith, omega arith))

      sign_for_role-Gives :
          (role_arn name ns : Text) (d : TokenDetails) (cfg : AwsConfig)
          (app_creds : CredentialsSource)
          → Gives
              (λ p. AnyInRange p.1)
              (sign_for_role services aws signing role_arn name ns d cfg app_creds)
      unfolding sign_for_role
      sign_for_role-Gives role_arn name ns d cfg app_creds =
          Gives-bind _ _ (Gives-any _) (λ credentials _. Gives-bind _ _ (Gives-any _) (λ req _.
            Gives-bind _ _ (web_session-Gives role_arn app_creds name ns d)
              (λ duration h. Gives-pure _ h)))

      web_role-Gives :
          (role_arn token name ns : Text) (d : TokenDetails)
          → Gives
              (λ p. AnyInRange p.1)
              (get_signed_request_and_handle_role_max_session services aws signing role_arn token
                name ns d)
      unfolding get_signed_request_and_handle_role_max_session
      web_role-Gives role_arn token name ns d = Gives-bind _ _ (Gives-any _) (λ cfg _.
          Gives-bind _ _ (Gives-any _)
            (λ source _. sign_for_role-Gives role_arn name ns d cfg source))

      pub web_identity-Gives :
          (d : TokenDetails) (a : ServiceAccount) (r : SecretRotator)
          → Gives
              (λ p. AnyInRange p.1)
              (get_signed_request_for_web_identity services aws signing clients d a r)
      unfolding get_signed_request_for_web_identity
      web_identity-Gives d a r =
          Gives-if (eqb (get_or [] role_arn_key a.annotations) []) _ _ (λ _. Gives-raise _)
            (λ _. Gives-bind _ _ (Gives-any _) (λ token _. web_role-Gives _ token _ _ d))
