-- ===== src/Handler/Tests.antt =====
-- internal/handler at concrete inputs.
use jfrog_registry_operator.Handler.RoleArn.{
  role_of_tail, role_at, marker, last_index_byte, assumed_role_sts_arn_to_iam_role_arn, IsSessionOf,
  assumed_role_sts_arn_to_iam_role_arn_lem,
}
use jfrog_registry_operator.Base.{index, Text, decimal, str, eqb, [], false, some, ok, ◌≡◌, refl}
use jfrog_registry_operator.Operations.{
  detect_pod_identity, auto_auth_type, TokenDetails, no_details, pod_identity_auth_type,
  web_identity_auth_type,
}
use jfrog_registry_operator.Handler.Token.{
  with_account_of, takes_pod_identity, signed_details, sign_request, request_token, new_token,
  Signers, handling_token, takes_web_identity, configured_auth_type, account_of,
}
use jfrog_registry_operator.Handler.Http.{
  token_url, token_body, root_path, read_response, or_retry, load_root, load_key_pair,
  load_found_root, load_found_pair, key_pair_paths, custom_client, create_custom_http_client,
  create_artifactory_token, add_headers, HttpServices,
}
use jfrog_registry_operator.Base.Exec.{◌>>◌, ◌>>=◌, raise, pure, lift, handle, crash}
use jfrog_registry_operator.Api.{
  tls_key, tls_crt, tls_ca, key_pem, custom_certificate_path, cert_pem, ca_pem,
}
use jfrog_registry_operator.Cluster.Memory.{Memory, memory}
use jfrog_registry_operator.Handler.Token.Leaves.{ServicesLeave}
use jfrog_registry_operator.Handler.Token.AuthType.{IsIssued, handling_token_lem}
use jfrog_registry_operator.Samples.{rotator, clients, before}

-- Artifactory answers with a token.
abbrev services : HttpServices Memory
services = record {
  new_request = λ method url. ok tt;
  file_exists = λ path s. false;
  load_x509_key_pair = λ cert key s. (ok tt, s);
  read_file = λ path s. (ok [], s);
  do_request = λ client request s. (ok (record { status_code = 200; body = [] }), s);
  decode_response = λ body. ok (record { access_token = str "new"; username = str "user" });
}

abbrev signers : Signers Memory
signers = record {
  for_pod_identity = λ d s. (ok ([], some 3600), s);
  for_web_identity = λ d a r s. (ok ([], some 7200), s);
}

leave : ServicesLeave memory clients signers services
leave = record {
  client-Keeps = λ j k held. record { at = λ s h. h };
  account-Keeps = λ j k held ns name. record { at = λ s h. h };
  pod-Keeps = λ j k held d. record { at = λ s h. h };
  web-Keeps = λ j k held d a r. record { at = λ s h. h };
  pair-Keeps = λ j k held cert key. record { at = λ s h. h };
  file-Keeps = λ j k held path. record { at = λ s h. h };
  do-Keeps = λ j k held c r. record { at = λ s h. h };
}

-- The environment of the samples has pod identity, and the rotator takes either.
abbrev handled : TokenDetails
handled = record no_details {
  auth_type = pod_identity_auth_type;
  role_max_session_duration = some 3600;
  ttl_in_seconds = 3600;
  username = str "user";
  token = str "new";
}

handles :
    (handling_token clients signers services rotator no_details before).0
    ≡ ok (account_of rotator no_details, handled)
unfolding handling_token eqb ◌>>=◌ new_token ◌>>◌ sign_request takes_pod_identity
    configured_auth_type with_account_of auto_auth_type str pod_identity_auth_type
    detect_pod_identity request_token signed_details create_artifactory_token or_retry ca_pem
    cert_pem custom_certificate_path key_pem tls_ca tls_crt tls_key crash handle lift pure raise
    decimal add_headers create_custom_http_client custom_client key_pair_paths load_found_pair
    load_found_root load_key_pair load_root read_response root_path token_body token_url account_of
    takes_web_identity web_identity_auth_type
handles = refl

handling_token_lem_example : IsIssued clients signers services rotator no_details handled
handling_token_lem_example =
    handling_token_lem clients signers services rotator no_details handled
      (account_of rotator no_details) before refl handles

abbrev session_arn : Text
session_arn = str "arn:aws:sts::12:assumed-role/team/Rotator/run"

abbrev role_arn : Text
role_arn = str "arn:aws:iam::12:role/team/Rotator"

converts : assumed_role_sts_arn_to_iam_role_arn session_arn (str "12") ≡ ok role_arn
unfolding assumed_role_sts_arn_to_iam_role_arn role_at index str marker role_of_tail last_index_byte
converts = refl

assumed_role_sts_arn_to_iam_role_arn_lem_example : IsSessionOf session_arn (str "12") role_arn
assumed_role_sts_arn_to_iam_role_arn_lem_example =
    assumed_role_sts_arn_to_iam_role_arn_lem session_arn (str "12") role_arn converts
