-- ===== src/Handler/Identity/Tests.antt =====
-- Both ways to sign at concrete inputs.
use jfrog_registry_operator.Handler.Identity.Samples.{
  services, decode_credentials, aws, signing, roles,
}
use jfrog_registry_operator.Samples.{rotator, clients, before}
use jfrog_registry_operator.Base.{
  split_at, decimal, lower, join, elem, sort, text_le, index_byte, index, has_prefix, eqb, [], ◌∷◌,
  Text, str, List, ok, err, Option, some, ◌≡◌, refl, arith, GoError, plain, reconcile, ◌≤◌, ◌⊎◌,
}
use jfrog_registry_operator.Base.Exec.{◌>>◌, lift, handle, crash, ◌>>=◌, raise, Keeps, pure}
use jfrog_registry_operator.Operations.{
  auto_auth_type, detect_pod_identity, web_identity_auth_type, aws_region, pod_identity_auth_type,
  TokenDetails, no_details,
}
use jfrog_registry_operator.Cluster.Memory.{Memory}
use jfrog_registry_operator.Base.Dict.{insert, lookup, get_or, Dict}
use jfrog_registry_operator.Api.{
  ca_pem, cert_pem, custom_certificate_path, key_pem, tls_ca, tls_crt, tls_key,
}
use jfrog_registry_operator.Handler.Token.{
  new_token, sign_request, takes_pod_identity, configured_auth_type, with_account_of, request_token,
  signed_details, takes_web_identity, handling_token, account_of,
}
use jfrog_registry_operator.Handler.Http.{
  create_artifactory_token, add_headers, create_custom_http_client, custom_client, key_pair_paths,
  load_found_pair, load_found_root, load_key_pair, load_root, read_response, root_path, token_body,
  token_url, or_retry,
}
use jfrog_registry_operator.Sign.Rules.{is_valid}
use jfrog_registry_operator.Handler.Identity.Pod.{
  fetch_credentials, read_credentials, log_access_key, sign_for_pod, pod_session,
  resolve_iam_role_arn_from_pod_identity_credentials, resolve_identity, not_nil,
  pod_identity_credentials, get_signed_request_for_pod_identity,
}
use jfrog_registry_operator.Handler.RoleArn.{
  assumed_role_sts_arn_to_iam_role_arn, role_at, role_of_tail, last_index_byte, marker,
}
use jfrog_registry_operator.Handler.Identity.{
  get_max_session_with_credential_cache, second_of_two, role_session, max_session_of, region_of,
  Signing, role_name_of, sign_caller_identity,
}
use jfrog_registry_operator.Sign.Build.{
  sign_v4a, sign_with, build, signed_request, prepare, authorize, canonical_string_of,
  canonical_headers, signing_host, raw_query_of, sort_values, credential_str,
}
use jfrog_registry_operator.Sign.Keys.{retrieve_private_key, cached, store, V4aCredentials}
use jfrog_registry_operator.Sign.Request.{
  get_uri_path, raw_path, build_signature, make_hash, build_authorization_header,
  build_credential_scope, set_required_signing_fields, build_canonical_string, build_string_to_sign,
}
use jfrog_registry_operator.Sign.Encoding.{
  hex_encode, header_set, canonical_key, encode, encode_with, encode_keys, replace_plus, by_bytes,
}
use jfrog_registry_operator.Sign.Host.{
  to_lower, is_default_port, sanitize_host_for_header, get_host, port_only, port_only_at,
}
use jfrog_registry_operator.Sign.Canonical.{
  build_canonical_headers, collect_headers, collect_header, collect_length, add_values, render,
  canonical_lines, canonical_line,
}
use jfrog_registry_operator.Cluster.Objects.{ServiceAccount, ClientSet}
use jfrog_registry_operator.Handler.Identity.Web.{get_signed_request_for_web_identity}
use jfrog_registry_operator.Handler.Identity.RoleName.{role_name_of-path}
use jfrog_registry_operator.Handler.Identity.Retries.{
  IsRetry, IsRefusal, pod_identity-IsRetry, web_identity-IsRetry,
}
use jfrog_registry_operator.Handler.Identity.Keys.{KeysDerived, sign_caller_identity-Keeps}
use jfrog_registry_operator.Handler.Identity.Implementation.{
  identity_signers, handling_token-InRange,
}

role_name_of-path_example :
    role_name_of (str "arn:aws:iam::12:role/team/Rotator")
    ≡ err (plain (str "role arn is not valid"))
unfolding str
role_name_of-path_example =
    role_name_of-path (str "arn:aws:iam::12:role") (str "team") (str "Rotator") (omega arith)
      (omega arith)

-- The headers of the request that is signed: nothing in it depends on a clock here.
abbrev signed_header : Dict (List Text)
signed_header =
    (str "Host", [] ∷ [])
    ∷ (str "X-Amz-Region-Set", str "*" ∷ [])
    ∷ (str "X-Amz-Date", [] ∷ [])
    ∷ (str "X-Amz-Security-Token", str "t" ∷ [])
    ∷ (
      str "Authorization",
      str
            "AWS4-ECDSA-P256-SHA256 Credential=AKIDAKID//sts/aws4_request, SignedHeaders=host;x-amz-date;x-amz-region-set;x-amz-security-token, Signature="
          ∷ [],
    )
    ∷ []

signs_pod :
    get_signed_request_for_pod_identity clients services aws signing decode_credentials no_details
      before
    ≡ (ok (signed_header, some 7200), before)
unfolding get_signed_request_for_pod_identity ◌>>=◌ ◌>>◌ pod_identity_credentials or_retry lift
    fetch_credentials read_credentials log_access_key sign_for_pod pod_session
    resolve_iam_role_arn_from_pod_identity_credentials resolve_identity
    assumed_role_sts_arn_to_iam_role_arn role_at role_of_tail last_index_byte marker
    get_max_session_with_credential_cache role_name_of second_of_two split_at role_session
    max_session_of not_nil region_of aws_region handle pure raise crash decimal sign_caller_identity
    sign_v4a retrieve_private_key cached store sign_with build get_uri_path raw_path build_signature
    make_hash hex_encode signed_request prepare authorize canonical_string_of canonical_headers
    signing_host raw_query_of sort_values credential_str build_authorization_header
    build_credential_scope set_required_signing_fields header_set canonical_key to_lower lower
    build_canonical_headers collect_headers collect_header collect_length add_values render is_valid
    is_default_port sanitize_host_for_header get_host join eqb elem str insert lookup sort text_le
    port_only port_only_at index_byte index has_prefix encode encode_with encode_keys replace_plus
    by_bytes build_canonical_string build_string_to_sign canonical_lines canonical_line
signs_pod = refl

-- The details after a token was asked for with pod identity.
abbrev handled : TokenDetails
handled = record no_details {
  auth_type = pod_identity_auth_type;
  role_max_session_duration = some 7200;
  ttl_in_seconds = 7200;
  username = str "user";
  token = str "new";
}

handles :
    (handling_token clients
      (identity_signers clients services aws signing decode_credentials)
      services
      rotator
      no_details
      before).0
    ≡ ok (account_of rotator no_details, handled)
unfolding handling_token eqb ◌>>=◌ new_token ◌>>◌ sign_request takes_pod_identity
    configured_auth_type with_account_of auto_auth_type str pod_identity_auth_type
    detect_pod_identity request_token signed_details create_artifactory_token or_retry ca_pem
    cert_pem custom_certificate_path key_pem tls_ca tls_crt tls_key crash handle lift pure raise
    decimal add_headers create_custom_http_client custom_client key_pair_paths load_found_pair
    load_found_root load_key_pair load_root read_response root_path token_body token_url account_of
    takes_web_identity web_identity_auth_type get_signed_request_for_pod_identity
    pod_identity_credentials fetch_credentials read_credentials log_access_key sign_for_pod
    pod_session resolve_iam_role_arn_from_pod_identity_credentials resolve_identity
    assumed_role_sts_arn_to_iam_role_arn role_at role_of_tail last_index_byte marker
    get_max_session_with_credential_cache role_name_of second_of_two split_at role_session
    max_session_of not_nil region_of aws_region sign_caller_identity sign_v4a retrieve_private_key
    cached store sign_with build get_uri_path raw_path build_signature make_hash hex_encode
    signed_request prepare authorize canonical_string_of canonical_headers signing_host raw_query_of
    sort_values credential_str build_authorization_header build_credential_scope
    set_required_signing_fields header_set canonical_key to_lower lower build_canonical_headers
    collect_headers collect_header collect_length add_values render is_valid is_default_port
    sanitize_host_for_header get_host join elem insert lookup sort text_le port_only port_only_at
    index_byte index has_prefix encode encode_with encode_keys replace_plus by_bytes
    build_canonical_string build_string_to_sign canonical_lines canonical_line
handles = refl

handling_token-InRange_example : (3600 ≤ handled.ttl_in_seconds) × (handled.ttl_in_seconds ≤ 43200)
handling_token-InRange_example =
    handling_token-InRange clients services aws signing decode_credentials roles rotator no_details
      handled (account_of rotator no_details) before refl handles

-- Without the variables of pod identity.
abbrev bare : ClientSet Memory
bare = record clients { getenv = λ name. [] }

abbrev no_uri : GoError
no_uri = reconcile 60 (
    str
      "No AWS credentials available for Pod Identity (AWS_CONTAINER_CREDENTIALS_FULL_URI not set)")

refuses :
    (get_signed_request_for_pod_identity bare services aws signing decode_credentials no_details
      before).0
    ≡ err no_uri
unfolding get_signed_request_for_pod_identity ◌>>=◌ pod_identity_credentials eqb
refuses = refl

pod_identity-IsRetry_example : IsRetry no_uri
pod_identity-IsRetry_example =
    pod_identity-IsRetry bare services aws signing decode_credentials no_details before no_uri
      refuses

abbrev account : ServiceAccount
account = record { annotations = [] }

abbrev no_arn : GoError
no_arn = reconcile 60 (str "role ARN annotation is empty")

refuses_web :
    (get_signed_request_for_web_identity services aws signing bare no_details account rotator
      before).0
    ≡ err no_arn
unfolding get_signed_request_for_web_identity eqb get_or raise
refuses_web = refl

web_identity-IsRetry_example :
    IsRetry no_arn ⊎ IsRefusal bare services aws signing decode_credentials rotator no_arn
web_identity-IsRetry_example =
    web_identity-IsRetry bare services aws signing decode_credentials no_details account rotator
      before no_arn refuses_web

-- A state that is the cache.
abbrev caching : Signing (Option V4aCredentials)
caching = record {
  cache = λ s. s;
  set_cache = λ c s. c;
  now = λ s layout. layout;
  crypto = signing.crypto;
  parse_query = signing.parse_query;
  new_request = signing.new_request;
  derive = signing.derive;
}

sign_caller_identity-Keeps_example : Keeps (KeysDerived caching) (
    sign_caller_identity caching (record {
      access_key = str "AKIDAKID";
      secret_key = str "s";
      region_name = [];
      session_token = [];
    }))
sign_caller_identity-Keeps_example =
    sign_caller_identity-Keeps caching (λ c s. refl)
      (record {
        access_key = str "AKIDAKID";
        secret_key = str "s";
        region_name = [];
        session_token = [];
      })
