-- ===== src/Sign/Build/Region.antt =====
-- The region header of a signed request.
use mathlib.Core.Path.{subst}
use jfrog_registry_operator.Base.{
  Text, str, List, [], ◌∷◌, eqb, is_empty, some, false, ◌≡◌, refl, ◌∙◌, Bool-cases, inl, inr, ok,
  >>=-eq-ok, join,
}
use jfrog_registry_operator.Base.Dict.{Dict, insert, lookup, lookup-insert, lookup-insert_self}
use jfrog_registry_operator.Sign.Encoding.{canonical_key, header_set}
use jfrog_registry_operator.Sign.Request.{
  HttpSigner, Crypto, authorization_header, set_required_signing_fields, get_uri_path,
  build_signature, build_string_to_sign, build_credential_scope, amz_region_set_key, amz_date_key,
  amz_security_token_key,
}
use jfrog_registry_operator.Sign.Build.{
  SignedRequest, signed_request, authorize, prepare, build, canonical_string_of,
}

abbrev pub HasRegion : Dict (List Text) → Text → Type 0
HasRegion header regions = lookup (str "X-Amz-Region-Set") header ≡ some (regions ∷ [])

-- A header of another name leaves it.
HasRegion-insert :
    (k regions : Text) (v : List Text) (header : Dict (List Text))
    → eqb k (str "X-Amz-Region-Set") ≡ false
    → HasRegion header regions
    → HasRegion (insert k v header) regions
HasRegion-insert k regions v header other h =
    lookup-insert k (str "X-Amz-Region-Set") v header ∙ (rw other h)

HasRegion-date :
    (regions date : Text) (header : Dict (List Text))
    → HasRegion header regions
    → HasRegion (header_set amz_date_key date header) regions
unfolding header_set canonical_key str eqb
HasRegion-date regions date header h = HasRegion-insert _ regions _ header refl h

HasRegion-token :
    (regions token : Text) (header : Dict (List Text))
    → HasRegion header regions
    → HasRegion (header_set amz_security_token_key token header) regions
unfolding header_set canonical_key str eqb
HasRegion-token regions token header h = HasRegion-insert _ regions _ header refl h

HasRegion-set :
    (regions : Text) (header : Dict (List Text))
    → HasRegion (header_set amz_region_set_key regions header) regions
unfolding header_set canonical_key str
HasRegion-set regions header = lookup-insert_self _ _ header

HasRegion-required :
    (s : HttpSigner) (header : Dict (List Text))
    → HasRegion (set_required_signing_fields s header) (join s.region_set (str ","))
unfolding set_required_signing_fields
HasRegion-required s header =
    let regions = join s.region_set (str ",") in
    let dated = HasRegion-date regions _ _ (HasRegion-set regions header) in
    elim (Bool-cases (is_empty s.credentials.session_token)) [
      | inl none_given ↦ rw none_given dated
      | inr given ↦ rw given (HasRegion-token regions s.credentials.session_token _ dated)
    ]

HasRegion-signed :
    (parse_query : Text → Dict (List Text)) (s : HttpSigner) (canonical to_sign signature : Text)
    → HasRegion
        (signed_request parse_query s canonical to_sign signature).request.header
        (join s.region_set (str ","))
unfolding signed_request authorize prepare str eqb
HasRegion-signed parse_query s canonical to_sign signature =
    HasRegion-insert authorization_header _ _ _ refl (HasRegion-required s _)

-- The request that `Build` returns names the regions of the signer.
pub build-HasRegion :
    (crypto : Crypto) (parse_query : Text → Dict (List Text)) (s : HttpSigner) (r : SignedRequest)
    → build parse_query crypto s ≡ ok r
    → HasRegion r.request.header (join s.region_set (str ","))
unfolding build
build-HasRegion crypto parse_query s r e =
    let (uri, path, more) = >>=-eq-ok (get_uri_path s.request.url) _ e in
    let (signature, made, done) =
      >>=-eq-ok
        (build_signature crypto s (
          build_string_to_sign crypto s (build_credential_scope s)
            (canonical_string_of parse_query s uri)))
        _ more in
    let eq : signed_request parse_query s (canonical_string_of parse_query s uri)
          (build_string_to_sign crypto s (build_credential_scope s)
            (canonical_string_of parse_query s uri))
          signature
        ≡ r =
      cc in
    subst (λ (x : SignedRequest). HasRegion x.request.header (join s.region_set (str ","))) eq
      (HasRegion-signed parse_query s _ _ signature)
