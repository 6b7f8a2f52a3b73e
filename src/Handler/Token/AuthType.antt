-- ===== src/Handler/Token/AuthType.antt =====
-- How a new token comes about: who signs the request of an identity, and what is noted of it.
use jfrog_registry_operator.Base.{
  ◌⊎◌, ap, eqb_iff, ℕ, Text, str, eqb, not, List, [], Option, none, some, ok, ◌≡◌, refl, inl, inr,
  arith,
}
use mathlib.Core.Path.{subst}
use jfrog_registry_operator.Base.Exec.{
  Exec, Gives-crash, Gives, Gives-pure, Gives-raise, Gives-if, Gives-bind, Gives-then, Gives-any,
}
use jfrog_registry_operator.Base.Dict.{Dict}
use jfrog_registry_operator.Api.{SecretRotator, ServiceAccountDetails}
use jfrog_registry_operator.Cluster.Secrets.{SecretStore}
use jfrog_registry_operator.Cluster.Objects.{ServiceAccount, ClientSet}
use jfrog_registry_operator.Operations.{
  TokenDetails, pod_identity_auth_type, web_identity_auth_type, detect_pod_identity,
}
use jfrog_registry_operator.Handler.Http.{HttpServices, create_artifactory_token}
use jfrog_registry_operator.Handler.Token.{
  Signers, sign_request, request_token, new_token, handling_token, takes_pod_identity,
  takes_web_identity, configured_auth_type, signed_details, with_account_of, account_of,
}
use jfrog_registry_operator.Handler.Token.Ways.{LetsSign, AllowsPod, by_pod, not_by_pod, names_web}
use jfrog_registry_operator.Handler.Token.Leaves.{ServicesLeave, handling_token-Keeps}
use jfrog_registry_operator.Controller.Managing.Foreign.{LeavesSecrets}

-- The action was run, in some state, and returned this value.
abbrev pub Gave {ℓ} : {S : Type 0} {A : Type ℓ} → Exec S A → A → Type ℓ
Gave {S = S} m a = (s : S) × ((m s).0 ≡ ok a)

Gives-Gave {ℓ} : {S : Type 0} {A : Type ℓ} (m : Exec S A) → Gives (Gave m) m
Gives-Gave m = record { at = λ s a h. (s, h) }

module _ {S : Type 0} (clients : ClientSet S) (signers : Signers S)
    (services : HttpServices S) where
  -- Who gave the headers and the session duration for the details, and what was noted of it.
  abbrev pub IsSigned :
      SecretRotator → TokenDetails → ServiceAccount → Dict (List Text) → Option ℕ → Text → Type 0
  IsSigned r d a header duration noted =
      (AllowsPod clients r
        × (noted ≡ str "podIdentity")
        × Gave (signers.for_pod_identity d) (header, duration))
      ⊎ ((¬ (AllowsPod clients r))
          × LetsSign (str "webIdentity") r
          × (noted ≡ str "webIdentity")
          × Gave (signers.for_web_identity d a r) (header, duration))

  -- The names and the namespaces of the run are those from before.
  abbrev IsKept : TokenDetails → TokenDetails → Type 0
  IsKept before after =
      (after.generated_secrets ≡ before.generated_secrets)
      × (after.provisioned_namespaces ≡ before.provisioned_namespaces)

  abbrev Signing :
      SecretRotator → TokenDetails → ServiceAccount → Dict (List Text) × TokenDetails → Type 0
  Signing r d a (header, after) =
      (after ≡ record d {
        auth_type = after.auth_type;
        role_max_session_duration = after.role_max_session_duration;
      })
      × IsSigned r d a header after.role_max_session_duration after.auth_type

  sign_request-Gives :
      (r : SecretRotator) (d : TokenDetails) (a : ServiceAccount)
      → Gives (Signing r d a) (sign_request clients signers services r d a)
  unfolding sign_request signed_details pod_identity_auth_type web_identity_auth_type
  sign_request-Gives r d a =
      Gives-if (takes_pod_identity (configured_auth_type r) (detect_pod_identity clients)) _ _
        (λ pod.
          Gives-bind _ _ (Gives-Gave _)
            (λ signed gave. Gives-pure _ (refl, inl (by_pod clients r pod, refl, gave))))
        (λ other.
          Gives-if (takes_web_identity (configured_auth_type r)) _ _
            (λ web. Gives-bind _ _ (Gives-Gave _) (λ signed gave.
              Gives-pure _ (refl, inr (not_by_pod clients r other, names_web r web, refl, gave))))
            (λ _. Gives-raise _))

  -- A new token that the details hold after the handler.
  pub record IsIssued (r : SecretRotator) (before after : TokenDetails) : Type 0 where
    pub account : ServiceAccount
    pub header : Dict (List Text)
    pub signed :
        IsSigned
          (with_account_of clients signers services r before)
          (record before { auth_type = configured_auth_type r })
          account
          header
          (some after.ttl_in_seconds)
          after.auth_type
    pub account_read :
        Gave
          (clients.service_account (account_of r before).namespace (account_of r before).name)
          account
    pub created :
        Gave
          (create_artifactory_token services header before.artifactory_url after.ttl_in_seconds
            r.spec.security r.name)
          (after.username, after.token)

  request_token-Gives :
      (r q : SecretRotator) (header : Dict (List Text)) (d d' : TokenDetails) (a : ServiceAccount)
      (duration : Option ℕ)
      → d'.role_max_session_duration ≡ duration
      → Signing q d a (header, d')
      → Gives
          (λ after.
            IsKept d after
            × IsSigned q d a header (some after.ttl_in_seconds) after.auth_type
            × Gave
                (create_artifactory_token services header d.artifactory_url after.ttl_in_seconds
                  r.spec.security r.name)
                (after.username, after.token))
          (request_token clients signers services r (header, d'))
  unfolding request_token
  request_token-Gives r q header d d' a none e (same, signed) = rw e Gives-crash
  request_token-Gives r q header d d' a (some ttl) e (same, signed) =
      let url : d'.artifactory_url ≡ d.artifactory_url = ap (λ x. x.artifactory_url) same in
      let secrets : d'.generated_secrets ≡ d.generated_secrets =
        ap (λ x. x.generated_secrets) same in
      let spaces : d'.provisioned_namespaces ≡ d.provisioned_namespaces =
        ap (λ x. x.provisioned_namespaces) same in
      let noted : IsSigned q d a header (some ttl) d'.auth_type =
        subst (λ n. IsSigned q d a header n d'.auth_type) e signed in
      rw e (
        Gives-bind _ _ (Gives-Gave _) (λ got gave. Gives-pure _ (
          (secrets, spaces),
          noted,
          subst
              (λ u.
                Gave (create_artifactory_token services header u ttl r.spec.security r.name)
                  (got.0, got.1))
              url gave,
        )))

  -- Of the details of a new token.
  abbrev IsNew : SecretRotator → TokenDetails → TokenDetails → Type 0
  IsNew r before after = IsKept before after × IsIssued r before after

  new_token-Gives :
      (r : SecretRotator) (d : TokenDetails)
      → Gives (IsNew r d) (new_token clients signers services r d)
  unfolding new_token
  new_token-Gives r d = Gives-then _ _ (Gives-any _) (λ _ _.
      Gives-bind _ _ (Gives-Gave _) (λ a read.
        Gives-bind _ _
          (sign_request-Gives (with_account_of clients signers services r d)
            (record d { auth_type = configured_auth_type r }) a)
          (λ request how. record {
            at = λ s after done.
                let (kept, signed, created) =
                  (request_token-Gives r (with_account_of clients signers services r d) request.0
                      (record d { auth_type = configured_auth_type r }) request.1 a _ refl how).at
                    s after done in
                (
                  kept,
                  record {
                    account = a;
                    header = request.0;
                    signed = signed;
                    account_read = read;
                    created = created;
                  },
                );
          })))

  handling_token-IsIssued :
      (r : SecretRotator) (d : TokenDetails)
      → d.token ≡ []
      → Gives (λ h. IsIssued r d h.1) (handling_token clients signers services r d)
  unfolding handling_token
  handling_token-IsIssued r d empty =
      Gives-if (not (eqb d.token [])) _ _ (λ given. absurd (ground (arith, eqb_iff d.token [])))
        (λ _. Gives-bind _ _ (new_token-Gives r d) (λ complete h. Gives-pure _ h.1))

  -- A token that was asked for comes from Artifactory, for headers that pod identity signed exactly
  -- where the rotator names it, or leaves the choice to the operator, and the pod has a token file; and
  -- that web identity signed otherwise, which the rotator then allows, with the service account that was
  -- read. Which of them it was is noted. Artifactory was asked for the lifetime that came with the
  -- headers, which is also noted as the token's.
  pub handling_token_lem :
      (r : SecretRotator) (d d' : TokenDetails) (account : ServiceAccountDetails) (s : S)
      → d.token ≡ []
      → (handling_token clients signers services r d s).0 ≡ ok (account, d')
      → IsIssued r d d'
  handling_token_lem r d d' account s empty done =
      (handling_token-IsIssued r d empty).at s (account, d') done

  handling_token-IsKept :
      (r : SecretRotator) (d : TokenDetails)
      → Gives (λ h. IsKept d h.1) (handling_token clients signers services r d)
  unfolding handling_token
  handling_token-IsKept r d =
      Gives-if (not (eqb d.token [])) _ _ (λ _. Gives-pure _ (refl, refl))
        (λ _. Gives-bind _ _ (new_token-Gives r d) (λ complete h. Gives-pure _ h.0))

  -- The handler is one that the management of the secrets may use: where its services write no
  -- secret, it writes none, and it keeps the names and the namespaces of the run.
  pub handling_token-LeavesSecrets :
      (store : SecretStore S)
      → ServicesLeave store clients signers services
      → LeavesSecrets store (handling_token clients signers services)
  handling_token-LeavesSecrets store leave = record {
    stored-handling_token = λ r d j k s.
        (handling_token-Keeps store clients signers services leave j k (store.stored j k s) r d).at
          s refl;
    handling_token-secrets = λ r d s h done. (handling_token-IsKept r d).at s h done;
  }
