-- ===== src/Sign/Request.antt =====
-- internal/sign/signer.go: the request to sign, and the texts that its signature is made of.
use jfrog_registry_operator.Base.{
  split_at, [], ◌∷◌, ◌++◌, Text, str, not, if◌then◌else◌, List, join, Outcome, ok, panic, ◌>>=◌,
  is_empty,
}
use jfrog_registry_operator.Base.Dict.{Dict}
use jfrog_registry_operator.Base.Int.{ℤ}
use jfrog_registry_operator.Sign.Keys.{PrivateKey, V4aCredentials}
use jfrog_registry_operator.Sign.Encoding.{header_set, hex_encode}

-- `url.URL`. `EscapedPath` is what that method returns.
pub record Url : Type 0 where
  pub scheme : Text
  pub opaque : Text
  pub host : Text
  pub escaped_path : Text
  pub raw_query : Text

-- `http.Request`
pub record HttpRequest : Type 0 where
  pub method : Text
  pub url : Url
  pub header : Dict (List Text)
  pub host : Text
  pub content_length : ℤ

-- A `time.Time`, as `Format` shows it in a layout.
abbrev pub Time : Type 0
Time = Text → Text

pub record HttpSigner : Type 0 where
  pub request : HttpRequest
  pub service_name : Text
  pub region_set : List Text
  pub time : Time
  pub credentials : V4aCredentials
  pub payload_hash : Text

-- Constants of signer.go and of internal/sign/v4a/v4/const.go.
abbrev pub signing_algorithm : Text
signing_algorithm = str "AWS4-ECDSA-P256-SHA256"

abbrev pub time_format : Text
time_format = str "20060102T150405Z"

abbrev pub short_time_format : Text
short_time_format = str "20060102"

abbrev pub amz_region_set_key : Text
amz_region_set_key = str "X-Amz-Region-Set"

abbrev pub amz_date_key : Text
amz_date_key = str "X-Amz-Date"

abbrev pub amz_security_token_key : Text
amz_security_token_key = str "X-Amz-Security-Token"

abbrev pub authorization_header : Text
authorization_header = str "Authorization"

-- `parts[3:]`, which panics on fewer than three parts.
unfoldable pub from_third : List Text → Outcome (List Text)
from_third (a ∷ b ∷ c ∷ parts) = ok parts
from_third _ = panic

-- `GetURIPath` of internal/sign/v4a/v4/util.go.
unfoldable pub raw_path : Url → Outcome Text
raw_path u =
    if not (is_empty u.opaque)
    then (from_third (split_at b'/' u.opaque) >>= λ parts. ok (b'/' ∷ join parts (b'/' ∷ [])))
    else ok u.escaped_path

unfoldable pub get_uri_path : Url → Outcome Text
get_uri_path u = raw_path u >>= λ uri. ok (if is_empty uri then b'/' ∷ [] else uri)

-- `setRequiredSigningFields`
unfoldable pub set_required_signing_fields : HttpSigner → Dict (List Text) → Dict (List Text)
set_required_signing_fields s headers =
    let dated =
      header_set amz_date_key (s.time time_format)
        (header_set amz_region_set_key (join s.region_set (str ",")) headers) in
    if is_empty s.credentials.session_token
    then dated
    else header_set amz_security_token_key s.credentials.session_token dated

unfoldable pub build_credential_scope : HttpSigner → Text
build_credential_scope s =
    join (s.time short_time_format ∷ s.service_name ∷ str "aws4_request" ∷ []) (str "/")

unfoldable pub build_authorization_header : Text → Text → Text → Text
build_authorization_header credential_str signed_headers_str signing_signature =
    signing_algorithm
    ++ str " "
    ++ str "Credential="
    ++ credential_str
    ++ str ", "
    ++ str "SignedHeaders="
    ++ signed_headers_str
    ++ str ", "
    ++ str "Signature="
    ++ signing_signature

unfoldable pub build_canonical_string : HttpSigner → Text → Text → Text → Text → Text → Text
build_canonical_string s method uri query signed_headers canonical_headers =
    join (method ∷ uri ∷ query ∷ canonical_headers ∷ signed_headers ∷ s.payload_hash ∷ [])
      (str "\n")

-- SHA-256 and the private key's signing belong to the standard library.
pub record Crypto : Type 0 where
  pub sha256 : Text → Text
  pub sign : PrivateKey → Text → Outcome Text

module _ (crypto : Crypto) where
  -- `makeHash`: reset, write, sum.
  unfoldable pub make_hash : Text → Text
  make_hash b = crypto.sha256 b

  unfoldable pub build_string_to_sign : HttpSigner → Text → Text → Text
  build_string_to_sign s credential_scope canonical_request_string =
      join
        (signing_algorithm
          ∷ s.time time_format
          ∷ credential_scope
          ∷ hex_encode (make_hash canonical_request_string)
          ∷ [])
        (str "\n")

  unfoldable pub build_signature : HttpSigner → Text → Outcome Text
  build_signature s str_to_sign =
      crypto.sign s.credentials.private_key (make_hash str_to_sign) >>= λ sig. ok (hex_encode sig)
