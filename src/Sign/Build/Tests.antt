-- ===== src/Sign/Build/Tests.antt =====
-- The signing of a request at concrete inputs.
use jfrog_registry_operator.Base.Dict.{get_or, keys, Dict}
use mathlib.Core.List.{Perm}
use jfrog_registry_operator.Sign.Build.{raw_query_of, build, signer_for}
use jfrog_registry_operator.Base.{
  lower, ◌||◌, zero, [], ◌∷◌, Text, str, List, Outcome, ok, err, Option, some, ◌≡◌, ◌≢◌, refl,
  arith, eqb, elem, take, join, Distinct, IsSorted, text_le, plain, Lacks,
}
use jfrog_registry_operator.Sign.Host.{to_lower}
use jfrog_registry_operator.Sign.Keys.{PrivateKey, V4aCredentials, AwsCredentials}
use jfrog_registry_operator.Sign.Request.{
  raw_path, build_signature, Url, HttpRequest, HttpSigner, Crypto, get_uri_path,
}
use jfrog_registry_operator.Base.Int.{pos}
use jfrog_registry_operator.Sign.Rules.{ignored_headers}
use jfrog_registry_operator.Sign.Spaces.{strip_excess_spaces}
use jfrog_registry_operator.Sign.Spaces.Effect.{words, strip_excess_spaces-words}
use jfrog_registry_operator.Sign.Build.Query.{parameters, raw_query_of-parameters}
use jfrog_registry_operator.Sign.Canonical.{build_canonical_headers}
use jfrog_registry_operator.Sign.Canonical.Names.{
  signed_names, has_length, is_signed, signed_headers_lem,
}
use jfrog_registry_operator.Sign.Canonical.Order.{lower_names, build_canonical_headers-perm}
use jfrog_registry_operator.Sign.Build.Key.{build-err}
use mathlib.Core.List.Perm

-- A hash that cuts, and a signature that repeats what it signs.
abbrev crypto : Crypto
crypto = record { sha256 = λ s. take 4 s; sign = λ key digest. ok digest }

abbrev key : PrivateKey
key = record { d = 5; x = 1; y = 2 }

abbrev credentials : V4aCredentials
credentials = record { context = str "AKID"; private_key = key; session_token = str "token" }

abbrev url : Url
url = record {
  scheme = str "https";
  opaque = [];
  host = str "sts.amazonaws.com";
  escaped_path = [];
  raw_query = str "Action=GetCallerIdentity";
}

abbrev request : HttpRequest
request = record {
  method = str "GET";
  url = url;
  header = [];
  host = str "sts.amazonaws.com";
  content_length = pos zero;
}

abbrev parse_query : Text → Dict (List Text)
parse_query s = (str "Action", str "Get" ∷ []) ∷ []

abbrev signer : HttpSigner
signer = signer_for request (str "sts") credentials (λ layout. layout)

-- A key that cannot sign.
abbrev broken : Crypto
broken = record { sha256 = λ s. s; sign = λ key digest. err (plain (str "no entropy")) }

fails : build parse_query broken signer ≡ err (plain (str "no entropy"))
unfolding build get_uri_path raw_path build_signature
fails = refl

build-err_example : (digest : Text) × (broken.sign key digest ≡ err (plain (str "no entropy")))
build-err_example = build-err broken parse_query signer (plain (str "no entropy")) fails

abbrev aws_creds : AwsCredentials
aws_creds = record {
  access_key = str "AKID";
  secret_key = str "secret";
  region_name = [];
  session_token = str "token";
}

abbrev new_request : Text → Text → Option HttpRequest
new_request method u = some request

abbrev derive : Text → Text → Outcome PrivateKey
derive access_key secret_key = ok key

abbrev two_headers : Dict (List Text)
two_headers = (str "X-B", str " b " ∷ []) ∷ (str "X-A", str "a" ∷ []) ∷ []

abbrev turned : Dict (List Text)
turned = (str "X-A", str "a" ∷ []) ∷ (str "X-B", str " b " ∷ []) ∷ []

signed_headers_lem_example :
    ((build_canonical_headers (str "h") ignored_headers two_headers (pos 3)).signed_headers
      ≡ join (signed_names ignored_headers (pos 3) two_headers) (b';' ∷ []))
    × IsSorted text_le (signed_names ignored_headers (pos 3) two_headers)
    × Distinct (signed_names ignored_headers (pos 3) two_headers)
    × ((name : Text)
        → elem name (signed_names ignored_headers (pos 3) two_headers)
          ≡ (eqb name (str "content-length") || is_signed ignored_headers name two_headers))
unfolding eqb has_length
signed_headers_lem_example = signed_headers_lem ignored_headers (str "h") (pos 3) two_headers

different : Distinct (lower_names two_headers)
unfolding str to_lower lower eqb elem
different = (refl, (refl, tt))

build_canonical_headers-perm_example :
    ((build_canonical_headers (str "h") ignored_headers two_headers (pos zero)).signed_headers
      ≡ (build_canonical_headers (str "h") ignored_headers turned (pos zero)).signed_headers)
    × ((build_canonical_headers
          (str "h")
          ignored_headers
          two_headers
          (pos zero)).canonical_headers_str
        ≡ (build_canonical_headers
            (str "h")
            ignored_headers
            turned
            (pos zero)).canonical_headers_str)
build_canonical_headers-perm_example =
    build_canonical_headers-perm (str "h") ignored_headers two_headers turned (pos zero)
      (Perm.swap _ _ []) different

abbrev named : Text
named = str "example.com"

abbrev default_port : Text
default_port = str "443"

named-Lacks : Lacks b':' named × Lacks b']' named × Lacks b']' default_port
unfolding str
named-Lacks = omega arith

named-ne-nil : named ≢ []
unfolding str
named-ne-nil = λ h. cc

raw_query_of-parameters_example :
    (ks : List Text) × (values : Text → List Text) × (raw_query_of parse_query request
      ≡ join (parameters values ks) (str "&"))
    × IsSorted text_le ks
    × Perm ks (keys (parse_query (str "Action=GetCallerIdentity")))
    × ((k : Text)
        → IsSorted text_le (values k)
          × Perm (values k) (get_or [] k (parse_query (str "Action=GetCallerIdentity"))))
raw_query_of-parameters_example = raw_query_of-parameters parse_query request

strip_excess_spaces-words_example :
    strip_excess_spaces (str "  a  b ") ≡ join (words (str "  a  b ")) (str " ")
strip_excess_spaces-words_example = strip_excess_spaces-words (str "  a  b ")
