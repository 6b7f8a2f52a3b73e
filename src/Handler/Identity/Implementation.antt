-- ===== src/Handler/Identity/Implementation.antt =====
-- The two ways to sign, filled in for the handler of the token.
use jfrog_registry_operator.Operations.{detect_pod_identity, TokenDetails}
use jfrog_registry_operator.Handler.Token.{
  takes_pod_identity, Signers, sign_request, request_token, new_token, handling_token,
  takes_web_identity, configured_auth_type, signed_details,
}
use jfrog_registry_operator.Base.{
  List, ℕ, Text, not, [], Option, none, some, eqb, eqb_iff, Outcome, ok, ◌≡◌, inl, inr, refl, true,
  arith, ◌≤◌,
}
use jfrog_registry_operator.Base.Exec.{
  Gives, Gives-pure, Gives-raise, Gives-crash, Gives-if, Gives-bind, Gives-then, Gives-any, Keeps,
}
use jfrog_registry_operator.Base.Dict.{Dict}
use jfrog_registry_operator.Api.{SecretRotator, ServiceAccountDetails}
use jfrog_registry_operator.Cluster.Secrets.{SecretStore, Secret, Holds}
use jfrog_registry_operator.Cluster.Objects.{ServiceAccount, ClientSet}
use jfrog_registry_operator.Controller.Managing.Lifetime.{InRange, MayLast, GivesLasting}
use jfrog_registry_operator.Controller.Managing.Foreign.{LeavesSecrets}
use jfrog_registry_operator.Handler.Http.{HttpServices}
use jfrog_registry_operator.Handler.Token.Leaves.{ServicesLeave}
use jfrog_registry_operator.Handler.Token.AuthType.{handling_token-LeavesSecrets}
use jfrog_registry_operator.Handler.Identity.Keeping.{
  CallsKeep, pod_identity-Keeps, web_identity-Keeps,
}
use jfrog_registry_operator.Handler.Identity.{CredentialsResponse, AwsServices, Signing}
use jfrog_registry_operator.Handler.Identity.Pod.{get_signed_request_for_pod_identity}
use jfrog_registry_operator.Handler.Identity.Web.{get_signed_request_for_web_identity}
use jfrog_registry_operator.Handler.Identity.Durations.{
  AnyInRange, RolesInRange, pod_identity-Gives, web_identity-Gives,
}

module _ {S : Type 0} (clients : ClientSet S) (services : HttpServices S) (aws : AwsServices S)
    (signing : Signing S) (decode_credentials : Text → Outcome CredentialsResponse) where
  abbrev pub identity_signers : Signers S
  identity_signers = record {
    for_pod_identity =
        get_signed_request_for_pod_identity clients services aws signing decode_credentials;
    for_web_identity = get_signed_request_for_web_identity services aws signing clients;
  }

  module _ (roles : RolesInRange aws) where
    sign_request-InRange :
        (r : SecretRotator) (d : TokenDetails) (a : ServiceAccount)
        → Gives
            (λ p. AnyInRange p.1.role_max_session_duration)
            (sign_request clients identity_signers services r d a)
    unfolding sign_request signed_details
    sign_request-InRange r d a =
        Gives-if (takes_pod_identity (configured_auth_type r) (detect_pod_identity clients)) _ _
          (λ _.
            Gives-bind _ _
              (pod_identity-Gives aws roles clients services signing decode_credentials d)
              (λ signed h. let (n, noted, bounds) = h in Gives-pure _ (rw noted bounds)))
          (λ _.
            Gives-if (takes_web_identity (configured_auth_type r)) _ _
              (λ _.
                Gives-bind _ _
                  (web_identity-Gives aws roles clients services signing decode_credentials d a r)
                  (λ signed h. Gives-pure _ h))
              (λ _. Gives-raise _))

    request_token-InRange :
        (r : SecretRotator) (header : Dict (List Text)) (d : TokenDetails) (duration : Option ℕ)
        → d.role_max_session_duration ≡ duration
        → AnyInRange duration
        → Gives
            (λ after. InRange after.ttl_in_seconds)
            (request_token clients identity_signers services r (header, d))
    unfolding request_token
    request_token-InRange r header d none e h = rw e Gives-crash
    request_token-InRange r header d (some n) e h =
        rw e (Gives-bind _ _ (Gives-any _) (λ got _. Gives-pure _ h))

    new_token-InRange :
        (r : SecretRotator) (d : TokenDetails)
        → Gives
            (λ after. InRange after.ttl_in_seconds)
            (new_token clients identity_signers services r d)
    unfolding new_token
    new_token-InRange r d = Gives-then _ _ (Gives-any _) (λ _ _.
        Gives-bind _ _ (Gives-any _) (λ a _.
          Gives-bind _ _ (sign_request-InRange _ _ a)
            (λ signed h. request_token-InRange _ signed.0 signed.1 _ refl h)))

    handling_token-GivesLasting :
        (r : SecretRotator) (d : TokenDetails)
        → MayLast InRange d
        → Gives
            (λ h. InRange h.1.ttl_in_seconds)
            (handling_token clients identity_signers services r d)
    unfolding handling_token
    handling_token-GivesLasting r d may =
        Gives-if (not (eqb d.token [])) _ _ (λ given. Gives-pure _ (lasting may given))
          (λ _. Gives-bind _ _ (new_token-InRange r d) (λ complete h. Gives-pure _ h))
      where
        lasting : MayLast InRange d → not (eqb d.token []) ≡ true → InRange d.ttl_in_seconds
        lasting (inl empty) given = absurd (ground (arith, eqb_iff d.token []))
        lasting (inr h) given = h

    pub identity-GivesLasting :
        GivesLasting InRange (handling_token clients identity_signers services)
    identity-GivesLasting = record { handling_token-Lasts = handling_token-GivesLasting }

    -- A token that was asked for lives between one hour and twelve hours, whichever way its request was
    -- signed, if the sessions of every role that IAM knows may last that long.
    pub handling_token-InRange :
        (r : SecretRotator) (d d' : TokenDetails) (account : ServiceAccountDetails) (s : S)
        → d.token ≡ []
        → (handling_token clients identity_signers services r d s).0 ≡ ok (account, d')
        → (3600 ≤ d'.ttl_in_seconds) × (d'.ttl_in_seconds ≤ 43200)
    handling_token-InRange r d d' account s empty done =
        (handling_token-GivesLasting r d (inl empty)).at s (account, d') done

  -- What the handler calls leaves a secret as it is.
  pub record CallsLeave (store : SecretStore S) : Type 0 where
    pub client-Keeps :
        (j k : Text) (held : Option Secret) → Keeps (Holds store j k held) clients.get_k8s_client
    pub account-Keeps :
        (j k : Text) (held : Option Secret) (ns name : Text)
        → Keeps (Holds store j k held) (clients.service_account ns name)
    pub pair-Keeps :
        (j k : Text) (held : Option Secret) (cert key : Text)
        → Keeps (Holds store j k held) (services.load_x509_key_pair cert key)
    pub identity-Keeps :
        (j k : Text) (held : Option Secret)
        → CallsKeep (Holds store j k held) clients services aws signing

  identity-ServicesLeave :
      (store : SecretStore S)
      → CallsLeave store
      → ServicesLeave store clients identity_signers services
  identity-ServicesLeave store leave = record {
    client-Keeps = leave.client-Keeps;
    account-Keeps = leave.account-Keeps;
    pod-Keeps = λ j k held d.
        pod_identity-Keeps (Holds store j k held) clients services aws signing
          (leave.identity-Keeps j k held) decode_credentials d;
    web-Keeps = λ j k held d a r.
        web_identity-Keeps (Holds store j k held) clients services aws signing
          (leave.identity-Keeps j k held) decode_credentials d a r;
    pair-Keeps = leave.pair-Keeps;
    file-Keeps = λ j k held path. (leave.identity-Keeps j k held).read_file-Keeps path;
    do-Keeps = λ j k held c r. (leave.identity-Keeps j k held).do_request-Keeps c r;
  }

  -- The handler with both ways to sign is one that the management of the secrets may use: where no call
  -- that it makes writes a secret, it writes none, and it keeps the names and the namespaces of the run.
  pub identity-LeavesSecrets :
      (store : SecretStore S)
      → CallsLeave store
      → LeavesSecrets store (handling_token clients identity_signers services)
  identity-LeavesSecrets store leave =
      handling_token-LeavesSecrets clients identity_signers services store
        (identity-ServicesLeave store leave)
