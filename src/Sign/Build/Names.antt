-- ===== src/Sign/Build/Names.antt =====
-- The headers that `SignV4a` signs.
use jfrog_registry_operator.Base.{
  ◌∙◌, ap, text_le, sort, lower, eqb, elem, zero, [], ◌∷◌, Text, str, Bool, true, false,
  if◌then◌else◌, List, join, is_empty, ◌≡◌, refl,
}
use jfrog_registry_operator.Sign.Rules.{is_valid, ignored_headers}
use jfrog_registry_operator.Sign.Host.{to_lower}
use jfrog_registry_operator.Sign.Encoding.{canonical_key, header_set}
use jfrog_registry_operator.Sign.Canonical.{
  render, collect_length, collect_headers, collect_header, add_values, build_canonical_headers,
}
use jfrog_registry_operator.Base.Dict.{lookup, insert, Dict}
use jfrog_registry_operator.Base.Int.{pos}
use jfrog_registry_operator.Sign.Request.{HttpSigner, time_format, set_required_signing_fields}
use jfrog_registry_operator.Sign.Build.{prepare, canonical_headers}

-- The headers that are set on a request without any, with and without a session token.
abbrev basic_headers : Text → Text → Text → Dict (List Text)
basic_headers host regions date =
    (str "Host", host ∷ [])
    ∷ (str "X-Amz-Region-Set", regions ∷ [])
    ∷ (str "X-Amz-Date", date ∷ [])
    ∷ []

abbrev token_headers : Text → Text → Text → Text → Dict (List Text)
token_headers host regions date token =
    (str "Host", host ∷ [])
    ∷ (str "X-Amz-Region-Set", regions ∷ [])
    ∷ (str "X-Amz-Date", date ∷ [])
    ∷ (str "X-Amz-Security-Token", token ∷ [])
    ∷ []

basic_names :
    (used host regions date : Text)
    → (build_canonical_headers used ignored_headers
        (basic_headers host regions date)
        (pos zero)).signed_headers
      ≡ str "host;x-amz-date;x-amz-region-set"
unfolding str build_canonical_headers render join sort collect_headers collect_header is_valid elem
    eqb add_values lookup collect_length insert to_lower lower text_le
basic_names used host regions date = refl

token_names :
    (used host regions date token : Text)
    → (build_canonical_headers used ignored_headers
        (token_headers host regions date token)
        (pos zero)).signed_headers
      ≡ str "host;x-amz-date;x-amz-region-set;x-amz-security-token"
unfolding str build_canonical_headers render join sort collect_headers collect_header is_valid elem
    eqb add_values lookup collect_length insert to_lower lower text_le
token_names used host regions date token = refl

set_basic :
    (host regions date : Text)
    → header_set
        (str "X-Amz-Date")
        date
        (header_set (str "X-Amz-Region-Set") regions (header_set (str "host") host []))
      ≡ basic_headers host regions date
unfolding header_set insert eqb canonical_key
set_basic host regions date = refl

set_token :
    (host regions date token : Text)
    → header_set (str "X-Amz-Security-Token") token (basic_headers host regions date)
      ≡ token_headers host regions date token
unfolding header_set insert eqb str canonical_key
set_token host regions date token = refl

set_fields :
    (s : HttpSigner) (host : Text)
    → set_required_signing_fields s (header_set (str "host") host []) ≡ (
        if is_empty s.credentials.session_token
        then basic_headers host (join s.region_set (str ",")) (s.time time_format)
        else token_headers host
            (join s.region_set (str ","))
            (s.time time_format)
            s.credentials.session_token)
unfolding set_required_signing_fields
set_fields s host =
    rw
      (
        set_basic host (join s.region_set (str ",")) (s.time time_format),
        set_token host (join s.region_set (str ",")) (s.time time_format)
            s.credentials.session_token,
      )
      refl

names_of_either :
    (bare : Bool) (used host regions date token : Text)
    → (build_canonical_headers used ignored_headers
        (if bare then basic_headers host regions date else token_headers host regions date token)
        (pos zero)).signed_headers
      ≡ (if bare
          then str "host;x-amz-date;x-amz-region-set"
          else str "host;x-amz-date;x-amz-region-set;x-amz-security-token")
names_of_either true used host regions date token = basic_names used host regions date
names_of_either false used host regions date token = token_names used host regions date token

-- A request without headers and without a body is signed over its host, the date and the regions, and
-- over the session token where there is one; the list of the signed headers says so.
pub signed_headers_of_fresh :
    (s : HttpSigner)
    → s.request.header ≡ []
    → s.request.content_length ≡ pos zero
    → (canonical_headers (prepare s)).signed_headers ≡ (
        if is_empty s.credentials.session_token
        then str "host;x-amz-date;x-amz-region-set"
        else str "host;x-amz-date;x-amz-region-set;x-amz-security-token")
unfolding canonical_headers prepare
signed_headers_of_fresh s empty body =
    let start =
      ap (λ h. set_required_signing_fields s (header_set (str "host") s.request.url.host h))
        empty in
    rw (start ∙ set_fields s s.request.url.host, body) (names_of_either _ _ _ _ _ _)
