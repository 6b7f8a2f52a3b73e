-- ===== src/Sign/Build/Verified.antt =====
-- What a receiver of the signed request can recompute from it.
use jfrog_registry_operator.Sign.Request.{
  HttpRequest, HttpSigner, Crypto, authorization_header, get_uri_path, build_authorization_header,
  build_canonical_string, build_string_to_sign, build_credential_scope,
}
use jfrog_registry_operator.Base.{[], ◌∷◌, Text, List, ok, some, ◌≡◌}
use jfrog_registry_operator.Base.Dict.{Dict, lookup}
use jfrog_registry_operator.Sign.Encoding.{hex_encode}
use jfrog_registry_operator.Sign.Build.{
  SignedRequest, canonical_headers, credential_str, canonical_string_of,
}

-- The text that a receiver makes of a request, with what the signer knows beside it.
unfoldable pub canonical_string_from : HttpSigner → HttpRequest → Text → Text
canonical_string_from s req uri =
    build_canonical_string s req.method uri req.url.raw_query (canonical_headers req).signed_headers
      (canonical_headers req).canonical_headers_str

module _ (crypto : Crypto) where
  -- What a receiver can check: the path, the query and the headers of the request make the canonical
  -- string, its hash and the scope of the credentials make the string to sign, the private key signs
  -- the hash of this, and the header `Authorization` holds the credentials, the names of the headers
  -- and that signature.
  pub record IsVerified (s : HttpSigner) (r : SignedRequest) : Type 0 where
    pub uri : Text
    pub signature : Text
    pub path : get_uri_path r.request.url ≡ ok uri
    pub canonical : r.canonical_string ≡ canonical_string_from s r.request uri
    pub to_sign :
        r.string_to_sign
        ≡ build_string_to_sign crypto s (build_credential_scope s) r.canonical_string
    pub signed :
        crypto.sign s.credentials.private_key (crypto.sha256 r.string_to_sign) ≡ ok signature
    pub authorization :
        lookup authorization_header r.request.header
        ≡ some (
            build_authorization_header
              (credential_str s)
              (canonical_headers r.request).signed_headers
              (hex_encode signature)
            ∷ [])

  module _ (parse_query : Text → Dict (List Text)) (s : HttpSigner) where
    abbrev string_for : Text → Text
    string_for uri =
        build_string_to_sign crypto s (build_credential_scope s)
          (canonical_string_of parse_query s uri)
