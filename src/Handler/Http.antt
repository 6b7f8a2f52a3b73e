-- ===== src/Handler/Http.antt =====
-- internal/handler/token.go, `createArtifactoryToken` and `createCustomHTTPClient`: the request for a
-- token. The network, TLS and JSON are services; a body is closed without a result.
use jfrog_registry_operator.Base.{
  ℕ, Text, str, decimal, List, [], ◌∷◌, ◌++◌, Bool, true, false, not, ◌&&◌, ◌==◌, Option, none,
  some, Done, reconcile, reconcile_by, Outcome, ok, panic, if◌then◌else◌,
}
use jfrog_registry_operator.Base.Dict.{Dict}
use jfrog_registry_operator.Base.Exec.{Exec, pure, raise, lift, handle, ◌>>=◌, ◌>>◌}
use jfrog_registry_operator.Api.{
  SecurityDetails, custom_certificate_path, cert_pem, key_pem, ca_pem, tls_crt, tls_key, tls_ca,
}

-- `http.Request`: the values of each header in the order in which they were added.
pub record HttpRequest : Type 0 where
  pub method : Text
  pub url : Text
  pub header : List (Text × Text)
  pub body : Text

pub record HttpResponse : Type 0 where
  pub status_code : ℕ
  pub body : Text

pub record AccessResponse : Type 0 where
  pub access_token : Text
  pub username : Text

-- `http.Client`, of which the transport is set up here: the files of the key pair, and the
-- certificates of the root; and the `Timeout`, in seconds.
pub record HttpClient : Type 0 where
  pub insecure_skip_verify : Bool
  pub certificates : Option (Text × Text)
  pub root_cas : Option Text
  pub timeout : Option ℕ

abbrev pub default_client : HttpClient
default_client = record {
  insecure_skip_verify = false;
  certificates = none;
  root_cas = none;
  timeout = none;
}

-- What the handler asks of the libraries: `http.NewRequest` at a method and a URL, `FileExists`,
-- `tls.LoadX509KeyPair`, `ioutil.ReadFile`, `client.Do`, and the decoder of the response.
pub record HttpServices (S : Type 0) : Type 0 where
  pub new_request : Text → Text → Outcome Done
  pub file_exists : Text → S → Bool
  pub load_x509_key_pair : Text → Text → Exec S Done
  pub read_file : Text → Exec S Text
  pub do_request : HttpClient → HttpRequest → Exec S HttpResponse
  pub decode_response : Text → Outcome AccessResponse

-- `for k, v := range header { req.Header.Add(k, v[0]) }`, which panics on a key without values.
unfoldable pub add_headers : Dict (List Text) → List (Text × Text) → Outcome (List (Text × Text))
add_headers [] header = ok header
add_headers ((k, []) ∷ rest) header = panic
add_headers ((k, v ∷ vs) ∷ rest) header = add_headers rest (header ++ ((k, v) ∷ []))

-- Which files of the key pair are taken: those named `tls` before those named `.pem`.
unfoldable pub key_pair_paths : (Text → Bool) → Text → Option (Text × Text)
key_pair_paths exists dir_path =
    let pem = exists (dir_path ++ cert_pem) && exists (dir_path ++ key_pem) in
    let tls = exists (dir_path ++ tls_crt) && exists (dir_path ++ tls_key) in
    if tls
    then some (dir_path ++ tls_crt, dir_path ++ tls_key)
    else if pem
    then some (dir_path ++ cert_pem, dir_path ++ key_pem)
    else none

unfoldable pub root_path : (Text → Bool) → Text → Option Text
root_path exists dir_path =
    if exists (dir_path ++ tls_ca)
    then some (dir_path ++ tls_ca)
    else if exists (dir_path ++ ca_pem)
    then some (dir_path ++ ca_pem)
    else none

-- `POST`, and the path of the endpoint.
unfoldable pub token_url : Text → Text
token_url artifactory_url = str "https://" ++ (artifactory_url ++ str "/access/api/v1/aws/token")

unfoldable pub token_body : ℕ → Text
token_body secret_ttl = str "{\"expires_in\": " ++ (decimal secret_ttl ++ str "}")

module _ {S : Type 0} (services : HttpServices S) where
  open services use {
    new_request, file_exists, load_x509_key_pair, read_file, do_request, decode_response,
  }

  unfoldable pub load_key_pair : Option (Text × Text) → Exec S (Option (Text × Text))
  load_key_pair none = pure none
  load_key_pair (some paths) = load_x509_key_pair paths.0 paths.1 >> pure (some paths)

  unfoldable pub load_root : Option Text → Exec S (Option Text)
  load_root none = pure none
  load_root (some path) = read_file path >>= λ certs. pure (some certs)

  -- The paths are looked for when they are needed.
  unfoldable pub load_found_pair : Text → Exec S (Option (Text × Text))
  load_found_pair dir_path s =
      load_key_pair (key_pair_paths (λ file. file_exists file s) dir_path) s

  unfoldable pub load_found_root : Text → Exec S (Option Text)
  load_found_root dir_path s = load_root (root_path (λ file. file_exists file s) dir_path) s

  unfoldable pub custom_client : Text → Exec S HttpClient
  custom_client dir_path = load_found_pair dir_path >>= λ pair. load_found_root dir_path >>= λ root.
      pure (record default_client { certificates = pair; root_cas = root })

  unfoldable pub create_custom_http_client : SecurityDetails → Text → Exec S HttpClient
  create_custom_http_client security secret_rotator_name =
      if not security.enabled
      then pure default_client
      else if security.insecure_skip_verify
      then pure (record default_client { insecure_skip_verify = true })
      else custom_client (custom_certificate_path ++ secret_rotator_name)

  -- An error becomes a reconcile error that asks for another run after a minute.
  unfoldable pub or_retry {ℓ} : {A : Type ℓ} → Exec S A → Text → Exec S A
  or_retry m message = handle m pure (λ e. raise (reconcile_by 60 message e))

  -- The user and the token of the answer.
  unfoldable pub read_response : Text → HttpResponse → Exec S (Text × Text)
  read_response url response =
      if response.status_code == 200
      then handle (lift (decode_response response.body)) (λ r. pure (r.username, r.access_token))
          (λ e. raise (reconcile 60 (str "Error reading artifactory response")))
      else raise (
          reconcile 60 (
            str "Error getting artifactory token request, token creation to "
            ++ (url ++ (str " returned " ++ (decimal response.status_code ++ str " response")))))

  unfoldable pub create_artifactory_token :
      Dict (List Text) → Text → ℕ → SecurityDetails → Text → Exec S (Text × Text)
  create_artifactory_token signed artifactory_url secret_ttl security secret_rotator_name =
      or_retry (lift (new_request (str "POST") (token_url artifactory_url)))
        (str "Error constructing artifactory request")
      >> (lift (add_headers signed ((str "Content-Type", str "application/json") ∷ []))
          >>= λ header.
              or_retry (create_custom_http_client security secret_rotator_name)
                (str "Error in intialising custom HTTP client with TLS configuration")
              >>= λ client.
                  or_retry
                    (do_request client (record {
                      method = str "POST";
                      url = token_url artifactory_url;
                      header = header;
                      body = token_body secret_ttl;
                    }))
                    (str "Error sending artifactory create token request")
                  >>= read_response (token_url artifactory_url))
