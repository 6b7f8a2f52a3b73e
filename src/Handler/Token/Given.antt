-- ===== src/Handler/Token/Given.antt =====
-- The tokens that `HandlingToken` gives, for the management of the secrets.
use jfrog_registry_operator.Operations.{detect_pod_identity, TokenDetails}
use jfrog_registry_operator.Handler.Token.{
  takes_pod_identity, Signers, sign_request, request_token, new_token, handling_token,
  takes_web_identity, configured_auth_type, signed_details,
}
use jfrog_registry_operator.Base.{
  ℕ, Text, eqb, eqb_iff, not, List, [], true, ◌==◌, Option, none, some, ok, ◌≡◌, inl, inr, refl,
  ◌∙◌, arith,
}
use jfrog_registry_operator.Base.Dict.{Dict}
use jfrog_registry_operator.Base.Exec.{
  Gives, Gives-pure, Gives-raise, Gives-crash, Gives-lift, Gives-if, Gives-handle, Gives-bind,
  Gives-then, Gives-any,
}
use jfrog_registry_operator.Api.{SecretRotator, SecurityDetails}
use jfrog_registry_operator.Cluster.Secrets.{SecretStore, IsLawful}
use jfrog_registry_operator.Cluster.Objects.{ServiceAccount, ClientSet}
use jfrog_registry_operator.Controller.Managing.Truthful.{GivesToken, MayHold}
use jfrog_registry_operator.Handler.Http.{
  HttpServices, HttpResponse, AccessResponse, read_response, create_artifactory_token,
}

module _ {S : Type 0} (clients : ClientSet S) (signers : Signers S) (services : HttpServices S)
    (T : Text → Type 0) where
  -- What Artifactory answers with.
  abbrev pub Answers : Type 0
  Answers =
      (body : Text) (r : AccessResponse) → services.decode_response body ≡ ok r → T r.access_token

  module _ (answers : Answers) where
    read_response-Gives :
        (url : Text) (response : HttpResponse)
        → Gives (λ got. T got.1) (read_response services url response)
    unfolding read_response
    read_response-Gives url response =
        Gives-if (response.status_code == 200) _ _
          (λ _.
            Gives-handle _ _ _ (Gives-lift _ (answers response.body)) (λ r h. Gives-pure _ h)
              (λ e. Gives-raise _))
          (λ _. Gives-raise _)

    create_artifactory_token-Gives :
        (signed : Dict (List Text)) (url : Text) (ttl : ℕ) (security : SecurityDetails)
        (name : Text)
        → Gives (λ got. T got.1) (create_artifactory_token services signed url ttl security name)
    unfolding create_artifactory_token
    create_artifactory_token-Gives signed url ttl security name =
        Gives-then _ _ (Gives-any _) (λ _ _. Gives-bind _ _ (Gives-any _) (λ header _.
          Gives-bind _ _ (Gives-any _) (λ client _.
            Gives-bind _ _ (Gives-any _) (λ response _. read_response-Gives _ response))))

    abbrev Managed : TokenDetails → TokenDetails → Type 0
    Managed before after = after.secret_managed_by_namespaces ≡ before.secret_managed_by_namespaces

    sign_request-Gives :
        (r : SecretRotator) (d : TokenDetails) (a : ServiceAccount)
        → Gives (λ p. Managed d p.1) (sign_request clients signers services r d a)
    unfolding sign_request signed_details
    sign_request-Gives r d a =
        Gives-if (takes_pod_identity (configured_auth_type r) (detect_pod_identity clients)) _ _
          (λ _. Gives-bind _ _ (Gives-any _) (λ signed _. Gives-pure _ refl))
          (λ _.
            Gives-if (takes_web_identity (configured_auth_type r)) _ _
              (λ _. Gives-bind _ _ (Gives-any _) (λ signed _. Gives-pure _ refl))
              (λ _. Gives-raise _))

    request_token-Gives :
        (r : SecretRotator) (header : Dict (List Text)) (d : TokenDetails) (ttl : Option ℕ)
        → d.role_max_session_duration ≡ ttl
        → Gives
            (λ after. T after.token × Managed d after)
            (request_token clients signers services r (header, d))
    unfolding request_token
    request_token-Gives r header d none e = rw e Gives-crash
    request_token-Gives r header d (some n) e = rw e (
        Gives-bind _ _ (create_artifactory_token-Gives _ _ _ _ _) (λ got h. Gives-pure _ (h, refl)))

    new_token-Gives :
        (r : SecretRotator) (d : TokenDetails)
        → Gives (λ after. T after.token × Managed d after) (new_token clients signers services r d)
    unfolding new_token
    new_token-Gives r d = Gives-then _ _ (Gives-any _) (λ _ _. Gives-bind _ _ (Gives-any _) (λ a _.
        Gives-bind _ _ (sign_request-Gives _ _ a) (λ signed same. record {
          at = λ s after done.
              let (held, kept) = (request_token-Gives _ signed.0 signed.1 _ refl).at s after done in
              (held, kept ∙ same);
        })))

    module _ (store : SecretStore S) (lawful : IsLawful store) (j k : Text) where
      handling_token-Gives :
          (r : SecretRotator) (d : TokenDetails)
          → MayHold store lawful j k T d
          → Gives (λ h. T h.1.token × Managed d h.1) (handling_token clients signers services r d)
      unfolding handling_token
      handling_token-Gives r d may =
          Gives-if (not (eqb d.token [])) _ _ (λ given. Gives-pure _ (held may given, refl))
            (λ _. Gives-bind _ _ (new_token-Gives r d) (λ complete h. Gives-pure _ h))
        where
          held : MayHold store lawful j k T d → not (eqb d.token []) ≡ true → T d.token
          held (inl empty) given = absurd (ground (arith, eqb_iff d.token []))
          held (inr h) given = h

      pub handling_token-GivesToken :
          GivesToken store lawful j k T (handling_token clients signers services)
      handling_token-GivesToken = record { handling_token-Holds = handling_token-Gives }
