-- ===== src/Handler/Token/Leaves.antt =====
-- What the handler of the token does to the secrets of the cluster.
use jfrog_registry_operator.Base.{
  ℕ, Text, eqb, not, List, [], Option, none, some, Outcome, ok, err, ◌≡◌, refl, ◌==◌,
}
use jfrog_registry_operator.Base.Dict.{Dict}
use jfrog_registry_operator.Base.Exec.{
  Exec, lift, Keeps, Keeps-pure, Keeps-raise, Keeps-crash, Keeps-if, Keeps-handle, Keeps-bind,
  Keeps-then,
}
use jfrog_registry_operator.Api.{SecretRotator, SecurityDetails}
use jfrog_registry_operator.Cluster.Secrets.{SecretStore, Secret, Holds}
use jfrog_registry_operator.Cluster.Objects.{ServiceAccount, ClientSet}
use jfrog_registry_operator.Operations.{TokenDetails, detect_pod_identity}
use jfrog_registry_operator.Handler.Http.{
  HttpServices, HttpClient, HttpRequest, HttpResponse, key_pair_paths, root_path, load_key_pair,
  load_root, load_found_pair, load_found_root, custom_client, create_custom_http_client, or_retry,
  read_response, create_artifactory_token,
}
use jfrog_registry_operator.Handler.Token.{
  Signers, sign_request, request_token, new_token, handling_token, takes_pod_identity,
  takes_web_identity, configured_auth_type,
}

module _ {S : Type 0} (store : SecretStore S) (clients : ClientSet S) (signers : Signers S)
    (services : HttpServices S) where
  -- The services do not write secrets.
  pub record ServicesLeave : Type 0 where
    pub client-Keeps :
        (j k : Text) (held : Option Secret) → Keeps (Holds store j k held) clients.get_k8s_client
    pub account-Keeps :
        (j k : Text) (held : Option Secret) (ns name : Text)
        → Keeps (Holds store j k held) (clients.service_account ns name)
    pub pod-Keeps :
        (j k : Text) (held : Option Secret) (d : TokenDetails)
        → Keeps (Holds store j k held) (signers.for_pod_identity d)
    pub web-Keeps :
        (j k : Text) (held : Option Secret) (d : TokenDetails) (a : ServiceAccount)
        (r : SecretRotator)
        → Keeps (Holds store j k held) (signers.for_web_identity d a r)
    pub pair-Keeps :
        (j k : Text) (held : Option Secret) (cert key : Text)
        → Keeps (Holds store j k held) (services.load_x509_key_pair cert key)
    pub file-Keeps :
        (j k : Text) (held : Option Secret) (path : Text)
        → Keeps (Holds store j k held) (services.read_file path)
    pub do-Keeps :
        (j k : Text) (held : Option Secret) (c : HttpClient) (r : HttpRequest)
        → Keeps (Holds store j k held) (services.do_request c r)

  module _ (leave : ServicesLeave) (j k : Text) (held : Option Secret) where
    abbrev pub Held : S → Type 0
    Held = Holds store j k held

    lift-Keeps {ℓ} : {A : Type ℓ} (r : Outcome A) → Keeps Held (lift r)
    unfolding lift
    lift-Keeps (ok a) = Keeps-pure a
    lift-Keeps (err e) = Keeps-raise e
    lift-Keeps Outcome.panic = Keeps-crash

    load_key_pair-Keeps : (paths : Option (Text × Text)) → Keeps Held (load_key_pair services paths)
    unfolding load_key_pair
    load_key_pair-Keeps none = Keeps-pure none
    load_key_pair-Keeps (some paths) =
        Keeps-then _ _ (leave.pair-Keeps j k held paths.0 paths.1) (Keeps-pure _)

    load_root-Keeps : (path : Option Text) → Keeps Held (load_root services path)
    unfolding load_root
    load_root-Keeps none = Keeps-pure none
    load_root-Keeps (some path) =
        Keeps-bind _ _ (leave.file-Keeps j k held path) (λ certs. Keeps-pure _)

    load_found_pair-Keeps : (dir : Text) → Keeps Held (load_found_pair services dir)
    unfolding load_found_pair
    load_found_pair-Keeps dir = record {
      at = λ s h.
          (load_key_pair-Keeps (key_pair_paths (λ file. services.file_exists file s) dir)).at s h;
    }

    load_found_root-Keeps : (dir : Text) → Keeps Held (load_found_root services dir)
    unfolding load_found_root
    load_found_root-Keeps dir = record {
      at = λ s h. (load_root-Keeps (root_path (λ file. services.file_exists file s) dir)).at s h;
    }

    create_custom_http_client-Keeps :
        (security : SecurityDetails) (name : Text)
        → Keeps Held (create_custom_http_client services security name)
    unfolding create_custom_http_client custom_client
    create_custom_http_client-Keeps security name =
        Keeps-if (not security.enabled) _ _ (Keeps-pure _) (
          Keeps-if security.insecure_skip_verify _ _ (Keeps-pure _) (
            Keeps-bind _ _ (load_found_pair-Keeps _)
              (λ pair. Keeps-bind _ _ (load_found_root-Keeps _) (λ root. Keeps-pure _))))

    or_retry-Keeps {ℓ} :
        {A : Type ℓ} (m : Exec S A) (message : Text)
        → Keeps Held m
        → Keeps Held (or_retry services m message)
    unfolding or_retry
    or_retry-Keeps m message kept = Keeps-handle m _ _ kept (λ a. Keeps-pure a) (λ e. Keeps-raise _)

    read_response-Keeps :
        (url : Text) (response : HttpResponse) → Keeps Held (read_response services url response)
    unfolding read_response
    read_response-Keeps url response =
        Keeps-if (response.status_code == 200) _ _
          (Keeps-handle _ _ _ (lift-Keeps _) (λ r. Keeps-pure _) (λ e. Keeps-raise _))
          (Keeps-raise _)

    create_artifactory_token-Keeps :
        (signed : Dict (List Text)) (url : Text) (ttl : ℕ) (security : SecurityDetails)
        (name : Text)
        → Keeps Held (create_artifactory_token services signed url ttl security name)
    unfolding create_artifactory_token
    create_artifactory_token-Keeps signed url ttl security name =
        Keeps-then _ _ (or_retry-Keeps _ _ (lift-Keeps _)) (
          Keeps-bind _ _ (lift-Keeps _) (λ header.
            Keeps-bind _ _ (or_retry-Keeps _ _ (create_custom_http_client-Keeps security name))
              (λ client.
                Keeps-bind _ _ (or_retry-Keeps _ _ (leave.do-Keeps j k held client _))
                  (λ response. read_response-Keeps _ response))))

    sign_request-Keeps :
        (r : SecretRotator) (d : TokenDetails) (a : ServiceAccount)
        → Keeps Held (sign_request clients signers services r d a)
    unfolding sign_request
    sign_request-Keeps r d a =
        Keeps-if (takes_pod_identity (configured_auth_type r) (detect_pod_identity clients)) _ _
          (Keeps-bind _ _ (leave.pod-Keeps j k held d) (λ signed. Keeps-pure _))
          (Keeps-if (takes_web_identity (configured_auth_type r)) _ _
            (Keeps-bind _ _ (leave.web-Keeps j k held d a r) (λ signed. Keeps-pure _))
            (Keeps-raise _))

    request_token-Keeps :
        (r : SecretRotator) (header : Dict (List Text)) (d : TokenDetails) (ttl : Option ℕ)
        → d.role_max_session_duration ≡ ttl
        → Keeps Held (request_token clients signers services r (header, d))
    unfolding request_token
    request_token-Keeps r header d none e = rw e Keeps-crash
    request_token-Keeps r header d (some ttl) e = rw e (
        Keeps-bind _ _
          (create_artifactory_token-Keeps header d.artifactory_url ttl r.spec.security r.name)
          (λ got. Keeps-pure _))

    pub handling_token-Keeps :
        (r : SecretRotator) (d : TokenDetails)
        → Keeps Held (handling_token clients signers services r d)
    unfolding handling_token new_token
    handling_token-Keeps r d = Keeps-if (not (eqb d.token [])) _ _ (Keeps-pure _) (
        Keeps-bind _ _
          (Keeps-then _ _ (leave.client-Keeps j k held) (
            Keeps-bind _ _ (leave.account-Keeps j k held _ _) (λ a.
              Keeps-bind _ _ (sign_request-Keeps _ _ a)
                (λ signed. request_token-Keeps _ signed.0 signed.1 _ refl))))
          (λ complete. Keeps-pure _))
