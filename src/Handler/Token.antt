-- ===== src/Handler/Token.antt =====
-- internal/handler/token.go, `HandlingToken`. The two ways to sign the request of an identity stand in
-- the other files of internal/handler, and are operations here.
pub mod Leaves
pub mod Ways
pub mod AuthType
pub mod Given
use jfrog_registry_operator.Base.{
  ℕ, Text, str, eqb, Bool, not, ◌&&◌, ◌||◌, List, [], Option, none, some, Done, GoError, plain,
  if◌then◌else◌,
}
use jfrog_registry_operator.Base.Dict.{Dict}
use jfrog_registry_operator.Base.Exec.{Exec, pure, raise, crash, ◌>>=◌, ◌>>◌}
use jfrog_registry_operator.Api.{SecretRotator, ServiceAccountDetails}
use jfrog_registry_operator.Cluster.Objects.{ServiceAccount, ClientSet}
use jfrog_registry_operator.Operations.{
  TokenDetails, pod_identity_auth_type, web_identity_auth_type, auto_auth_type, detect_pod_identity,
}
use jfrog_registry_operator.Handler.Http.{HttpServices, create_artifactory_token}
use jfrog_registry_operator.Controller.Managing.{TokenHandler}

-- `GetSignedRequestForPodIdentity` and `GetSignedRequestForWebIdentity`: the headers of the signed
-- request, and the session duration of the role, which they note in the details.
abbrev pub Signed : Type 0
Signed = Dict (List Text) × Option ℕ

pub record Signers (S : Type 0) : Type 0 where
  pub for_pod_identity : TokenDetails → Exec S Signed
  pub for_web_identity : TokenDetails → ServiceAccount → SecretRotator → Exec S Signed

-- The account of the specification, with the operator's own name and namespace where it has none.
unfoldable pub account_of : SecretRotator → TokenDetails → ServiceAccountDetails
account_of rotator details =
    let account = rotator.spec.service_account in
    record {
      name = if eqb account.name [] then details.default_service_account_name else account.name;
      namespace =
          if eqb account.namespace []
          then details.default_service_account_namespace
          else account.namespace;
    }

-- `AuthType`, by default `auto`.
unfoldable pub configured_auth_type : SecretRotator → Text
configured_auth_type rotator =
    if eqb rotator.spec.auth_type [] then auto_auth_type else rotator.spec.auth_type

-- The tests of the two branches.
unfoldable pub takes_pod_identity : Text → Bool → Bool
takes_pod_identity configured detected =
    (eqb configured pod_identity_auth_type || eqb configured auto_auth_type) && detected

unfoldable pub takes_web_identity : Text → Bool
takes_web_identity configured =
    eqb configured web_identity_auth_type || eqb configured auto_auth_type

module _ {S : Type 0} (clients : ClientSet S) (signers : Signers S)
    (services : HttpServices S) where
  -- The details after the request was signed.
  unfoldable pub signed_details : TokenDetails → Text → Signed → TokenDetails
  signed_details details auth_type signed = record details {
    auth_type = auth_type;
    role_max_session_duration = signed.1;
  }

  unfoldable pub sign_request :
      SecretRotator → TokenDetails → ServiceAccount → Exec S (Dict (List Text) × TokenDetails)
  sign_request rotator details account =
      if takes_pod_identity (configured_auth_type rotator) (detect_pod_identity clients)
      then (signers.for_pod_identity details >>= λ signed.
          pure (signed.0, signed_details details pod_identity_auth_type signed))
      else if takes_web_identity (configured_auth_type rotator)
      then (signers.for_web_identity details account rotator >>= λ signed.
          pure (signed.0, signed_details details web_identity_auth_type signed))
      else raise (
          plain (
            str
              "failed to get correct auth (auto, podIdentity or webIdentity) or missing pod identity environments for podIdentity auth type"))

  -- The lifetime is the session duration, of which a nil pointer panics. A lifetime that is shorter
  -- than the interval is only reported.
  unfoldable pub request_token :
      SecretRotator → Dict (List Text) × TokenDetails → Exec S TokenDetails
  request_token rotator (header, details) = elim details.role_max_session_duration [
    | none ↦ crash
    | some max_ttl ↦
        create_artifactory_token services header details.artifactory_url max_ttl
          rotator.spec.security rotator.name
        >>= λ got.
            pure (record details { ttl_in_seconds = max_ttl; username = got.0; token = got.1 })
  ]

  -- The rotator with the account that is used.
  unfoldable pub with_account_of : SecretRotator → TokenDetails → SecretRotator
  with_account_of rotator details = record rotator {
    spec = record rotator.spec { service_account = account_of rotator details };
  }

  -- A new token, for the account.
  unfoldable pub new_token : SecretRotator → TokenDetails → Exec S TokenDetails
  new_token rotator details =
      clients.get_k8s_client
      >> (clients.service_account (account_of rotator details).namespace
            (account_of rotator details).name
          >>= λ account.
              sign_request (with_account_of rotator details)
                (record details { auth_type = configured_auth_type rotator }) account
              >>= request_token rotator)

  -- Nothing is asked for where there is a token already.
  unfoldable pub handling_token : TokenHandler S
  handling_token rotator details =
      if not (eqb details.token [])
      then pure (rotator.spec.service_account, details)
      else new_token rotator details >>= λ complete. pure (account_of rotator details, complete)
