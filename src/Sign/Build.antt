-- ===== src/Sign/Build.antt =====
-- internal/sign/signer.go, `Build` and `SignV4a`.
pub mod Verified
pub mod Region
pub mod Key
pub mod Names
pub mod Query
mod Tests
use jfrog_registry_operator.Base.{
  ℕ, [], ◌∷◌, ◌++◌, Text, str, Bool, not, if◌then◌else◌, List, join, Outcome, ok, err, panic, ◌>>=◌,
  is_empty, Option, none, some, sort, text_le,
}
use jfrog_registry_operator.Base.Dict.{Dict, insert}
use jfrog_registry_operator.Base.Int.{ℤ}
use jfrog_registry_operator.Sign.Keys.{
  PrivateKey, V4aCredentials, AwsCredentials, retrieve_private_key,
}
use jfrog_registry_operator.Sign.Host.{sanitize_host_for_header}
use jfrog_registry_operator.Sign.Rules.{ignored_headers}
use jfrog_registry_operator.Sign.Encoding.{header_set, encode, replace_plus}
use jfrog_registry_operator.Sign.Canonical.{CanonicalHeaders, build_canonical_headers}
use jfrog_registry_operator.Sign.Request.{
  Url, HttpRequest, HttpSigner, Time, Crypto, authorization_header, get_uri_path,
  set_required_signing_fields, build_credential_scope, build_authorization_header,
  build_canonical_string, build_string_to_sign, build_signature,
}

pub record SignedRequest : Type 0 where
  pub request : HttpRequest
  pub signed_headers : Dict (List Text)
  pub canonical_string : Text
  pub string_to_sign : Text

-- `sort.Strings(query[key])` for each key.
unfoldable pub sort_values : Dict (List Text) → Dict (List Text)
sort_values [] = []
sort_values ((k, vs) ∷ query) = (k, sort text_le vs) ∷ sort_values query

-- The request as it is signed: with the required headers, and without the default port in its host.
unfoldable pub prepare : HttpSigner → HttpRequest
prepare s =
    let req = s.request in
    record req {
      header = set_required_signing_fields s (header_set (str "host") req.url.host req.header);
      host = sanitize_host_for_header req.url.scheme req.host req.url.host;
    }

-- The local variable `host`.
unfoldable pub signing_host : HttpRequest → Text
signing_host req = if not (is_empty req.host) then req.host else req.url.host

unfoldable pub canonical_headers : HttpRequest → CanonicalHeaders
canonical_headers req =
    build_canonical_headers (signing_host req) ignored_headers req.header req.content_length

unfoldable pub credential_str : HttpSigner → Text
credential_str s = s.credentials.context ++ (str "/" ++ build_credential_scope s)

-- With the header `Authorization` in the place of any others of that name.
unfoldable pub authorize : HttpRequest → Text → Text → HttpRequest
authorize req raw_query authorization = record req {
  header = insert authorization_header (authorization ∷ []) req.header;
  url = record req.url { raw_query = raw_query };
}

-- `Query` of the standard library reads the parameters of a query.
module _ (parse_query : Text → Dict (List Text)) where
  unfoldable pub raw_query_of : HttpRequest → Text
  raw_query_of req = replace_plus (encode (sort_values (parse_query req.url.raw_query)))

  unfoldable pub canonical_string_of : HttpSigner → Text → Text
  canonical_string_of s uri =
      let req = prepare s in
      let headers = canonical_headers req in
      build_canonical_string s req.method uri (raw_query_of s.request) headers.signed_headers
        headers.canonical_headers_str

  -- The result of a signature.
  unfoldable pub signed_request : HttpSigner → Text → Text → Text → SignedRequest
  signed_request s canonical_string str_to_sign signature =
      let req = prepare s in
      let headers = canonical_headers req in
      record {
        request =
            authorize req (raw_query_of s.request)
              (build_authorization_header (credential_str s) headers.signed_headers signature);
        signed_headers = headers.signed;
        canonical_string = canonical_string;
        string_to_sign = str_to_sign;
      }

  module _ (crypto : Crypto) where
    unfoldable pub build : HttpSigner → Outcome SignedRequest
    build s = do
      uri ← get_uri_path s.request.url
      let canonical_string = canonical_string_of s uri
      let str_to_sign = build_string_to_sign crypto s (build_credential_scope s) canonical_string
      signature ← build_signature crypto s str_to_sign
      ok (signed_request s canonical_string str_to_sign signature)

-- The hash of an empty payload.
abbrev pub empty_payload_hash : Text
empty_payload_hash = str "e3b0c44298fc1c149afbf4c8996fb92427ae41e4649b934ca495991b7852b855"

abbrev pub signer_for : HttpRequest → Text → V4aCredentials → Time → HttpSigner
signer_for req service key now = record {
  request = req;
  payload_hash = empty_payload_hash;
  service_name = service;
  region_set = str "*" ∷ [];
  credentials = key;
  time = now;
}

-- `http.NewRequest` without a body makes a request of a method and a URL, or has an error, which is
-- dropped: the request is nil then, and `Build` panics on it.
module _ (crypto : Crypto) (parse_query : Text → Dict (List Text))
    (new_request : Text → Text → Option HttpRequest) where
  unfoldable pub sign_with : Option HttpRequest → Text → V4aCredentials → Time → Outcome HttpRequest
  sign_with none service key now = panic
  sign_with (some req) service key now =
      build parse_query crypto (signer_for req service key now) >>= λ r. ok r.request

  module _ (derive : Text → Text → Outcome PrivateKey) where
    -- The signed request, and the cache of the keys afterwards.
    unfoldable pub sign_v4a :
        Option V4aCredentials
        → Time
        → Text
        → Text
        → Text
        → AwsCredentials
        → Outcome HttpRequest × Option V4aCredentials
    sign_v4a cache now method url service aws_creds =
        let (retrieved, kept) = retrieve_private_key derive cache aws_creds in
        (retrieved >>= λ key. sign_with (new_request method url) service key now, kept)
