-- ===== src/Handler/Identity/Schedule/Tests.antt =====
-- internal/handler and controllers, together, at a concrete input.
use jfrog_registry_operator.Operations.{
  secret_rotator_finalizer, no_details, TokenDetails, secret_type_generic, secret_type_docker,
  auto_auth_type, detect_pod_identity, web_identity_auth_type, aws_region, pod_identity_auth_type,
}
use jfrog_registry_operator.Base.Int.{ℤ, pos}
use jfrog_registry_operator.Api.{
  SecretRotator, secret_kind, group_version, ca_pem, cert_pem, custom_certificate_path, key_pem,
  tls_ca, tls_crt, tls_key,
}
use jfrog_registry_operator.Base.{
  [], ◌∷◌, ◌∙◌, some, error_text, contains, false, split_at, decimal, lower, join, elem, sort,
  text_le, index_byte, index, has_prefix, eqb, str, ok, none, ◌≡◌, refl,
}
use jfrog_registry_operator.Samples.{
  prod, generic_secret, set_reference-SetsController, foreign, set_reference, namespaces, rotators,
  files, finalizers, set_condition, rotator, clients, before,
}
use jfrog_registry_operator.Handler.Identity.Schedule.{reconciliation_foreign, reconciliation-IsDue}
use jfrog_registry_operator.Cluster.Memory.{
  Memory, memory-IsLawful, not_found, find, remove, memory,
}
use jfrog_registry_operator.Operations.Differences.{
  note, find_string_slice_difference, find_secret_differences, differences_loop,
}
use jfrog_registry_operator.Handler.Token.Given.{Answers}
use jfrog_registry_operator.Controller.Managing.{
  TokenHandler, write_one, write_all, with_account, unable_message, skip, scan_one, scan, noted,
  note_failures, manage_namespaces, manage_namespace, is_skipped, finish, delete_unlisted,
  managing_secrets,
}
use jfrog_registry_operator.Handler.Identity.Samples.{
  leave, services, decode_credentials, aws, signing, roles,
}
use jfrog_registry_operator.Cluster.Secrets.{Holds, is_not_found}
use jfrog_registry_operator.Controller.Reconcile.Calls.{StepsKeep}
use jfrog_registry_operator.Controller.Reconcile.Foreign.{IsForeign}
use jfrog_registry_operator.Base.Exec.{deferred, ◌>>◌, lift, handle, crash, ◌>>=◌, raise, pure}
use jfrog_registry_operator.Operations.Validate.{
  trim_scheme, check_account, get_service_account, set_address, select_namespaces, check_each,
  collect_secrets, check_secrets, validate_object_spec,
}
use jfrog_registry_operator.Controller.Status.{reported, update_status}
use jfrog_registry_operator.Controller.Lifecycle.{
  secret_rotator_checker, with_condition, handle_conditions, or_fail, handle_finalizers,
}
use jfrog_registry_operator.Controller.Reconcile.{
  answer, complete, manage, copy_certificates, defer_patch, validate_resource, initialize_resource,
  requeue_interval_of, reconcile_request,
}
use jfrog_registry_operator.Resource.Writing.{
  write_new, write_missing, write, set_secret_metadata, empty_secret, docker_auth,
  create_or_update_secrets, configure, about_secret,
}
use jfrog_registry_operator.Resource.Removal.{
  get_removed_namespaces, delete_secret, delete_outdated_secrets, delete_noted,
  delete_in_namespaces, delete_in_namespace, namespace_names,
}
use jfrog_registry_operator.Resource.Docker.{
  json_string, generate_docker_config_json, docker_auths, base64_digit, base64,
}
use jfrog_registry_operator.Operations.Outdated.{
  delete_outdated_generated_secrets, delete_one, delete_names, delete_all,
}
use jfrog_registry_operator.Base.Dict.{keys, insert, lookup, get_or}
use jfrog_registry_operator.Resource.Ownership.{is_secret_owned_by}
use jfrog_registry_operator.Controller.Reconcile.Answers.{Plain, Completes, preparing}
use jfrog_registry_operator.Controller.Reconcile.Next.{IsDue}
use jfrog_registry_operator.Handler.Token.{
  new_token, sign_request, takes_pod_identity, configured_auth_type, with_account_of, request_token,
  signed_details, takes_web_identity, handling_token, account_of,
}
use jfrog_registry_operator.Handler.Http.{
  create_artifactory_token, add_headers, create_custom_http_client, custom_client, key_pair_paths,
  load_found_pair, load_found_root, load_key_pair, load_root, read_response, root_path, token_body,
  token_url, or_retry,
}
use jfrog_registry_operator.Sign.Rules.{is_valid}
use jfrog_registry_operator.Handler.Identity.Pod.{
  fetch_credentials, read_credentials, log_access_key, sign_for_pod, pod_session,
  resolve_iam_role_arn_from_pod_identity_credentials, resolve_identity, not_nil,
  pod_identity_credentials, get_signed_request_for_pod_identity,
}
use jfrog_registry_operator.Handler.RoleArn.{
  assumed_role_sts_arn_to_iam_role_arn, role_at, role_of_tail, last_index_byte, marker,
}
use jfrog_registry_operator.Handler.Identity.{
  get_max_session_with_credential_cache, second_of_two, role_session, max_session_of, region_of,
  role_name_of, sign_caller_identity,
}
use jfrog_registry_operator.Sign.Build.{
  sign_v4a, sign_with, build, signed_request, prepare, authorize, canonical_string_of,
  canonical_headers, signing_host, raw_query_of, sort_values, credential_str,
}
use jfrog_registry_operator.Sign.Keys.{retrieve_private_key, cached, store}
use jfrog_registry_operator.Sign.Request.{
  get_uri_path, raw_path, build_signature, make_hash, build_authorization_header,
  build_credential_scope, set_required_signing_fields, build_canonical_string, build_string_to_sign,
}
use jfrog_registry_operator.Sign.Encoding.{
  hex_encode, header_set, canonical_key, encode, encode_with, encode_keys, replace_plus, by_bytes,
}
use jfrog_registry_operator.Sign.Host.{
  to_lower, is_default_port, sanitize_host_for_header, get_host, port_only, port_only_at,
}
use jfrog_registry_operator.Sign.Canonical.{
  build_canonical_headers, collect_headers, collect_header, collect_length, add_values, render,
  canonical_lines, canonical_line,
}
use jfrog_registry_operator.Handler.Identity.Implementation.{identity_signers}
use mathlib.Core.Path.{subst}

abbrev guarded : SecretRotator
guarded = record rotator { finalizers = secret_rotator_finalizer ∷ [] }

abbrev with_pod : TokenHandler Memory
with_pod =
    handling_token clients (identity_signers clients services aws signing decode_credentials)
      services

-- A run all of whose steps succeed, of a rotator without an interval.
completes :
    (d : TokenDetails) × (updated : SecretRotator) × (updated.spec.refresh_interval ≡ none)
    × Completes memory rotators namespaces clients files finalizers set_condition set_reference
        with_pod
        (pos 7)
        (str "operator")
        (str "rotator")
        rotator
        before
        d
        updated
unfolding reconcile_request initialize_resource handle_conditions with_condition or_fail
    handle_finalizers secret_rotator_checker validate_resource defer_patch deferred
    validate_object_spec lift check_secrets collect_secrets check_each select_namespaces set_address
    get_service_account check_account detect_pod_identity trim_scheme copy_certificates manage
    complete update_status reported requeue_interval_of answer managing_secrets ◌>>=◌
    delete_outdated_secrets delete_in_namespaces get_removed_namespaces elem eqb str
    delete_in_namespace delete_noted delete_secret memory is_not_found manage_namespaces
    manage_namespace scan scan_one group_version secret_kind get_or insert keys lookup crash handle
    pure raise ◌>>◌ error_text sort contains has_prefix index join text_le find not_found remove
    delete_unlisted finish is_skipped note_failures noted skip unable_message with_account write_all
    write_one differences_loop find_secret_differences find_string_slice_difference note delete_all
    delete_names delete_one delete_outdated_generated_secrets secret_type_docker secret_type_generic
    base64 base64_digit docker_auths generate_docker_config_json json_string is_secret_owned_by
    namespace_names about_secret configure create_or_update_secrets docker_auth empty_secret
    set_secret_metadata write write_missing write_new set_reference handling_token new_token
    sign_request takes_pod_identity configured_auth_type with_account_of auto_auth_type
    pod_identity_auth_type request_token signed_details create_artifactory_token or_retry ca_pem
    cert_pem custom_certificate_path key_pem tls_ca tls_crt tls_key decimal add_headers
    create_custom_http_client custom_client key_pair_paths load_found_pair load_found_root
    load_key_pair load_root read_response root_path token_body token_url account_of
    takes_web_identity web_identity_auth_type get_signed_request_for_pod_identity
    pod_identity_credentials fetch_credentials read_credentials log_access_key sign_for_pod
    pod_session resolve_iam_role_arn_from_pod_identity_credentials resolve_identity
    assumed_role_sts_arn_to_iam_role_arn role_at role_of_tail last_index_byte marker
    get_max_session_with_credential_cache role_name_of second_of_two split_at role_session
    max_session_of not_nil region_of aws_region sign_caller_identity sign_v4a retrieve_private_key
    cached store sign_with build get_uri_path raw_path build_signature make_hash hex_encode
    signed_request prepare authorize canonical_string_of canonical_headers signing_host raw_query_of
    sort_values credential_str build_authorization_header build_credential_scope
    set_required_signing_fields header_set canonical_key to_lower lower build_canonical_headers
    collect_headers collect_header collect_length add_values render is_valid is_default_port
    sanitize_host_for_header get_host port_only port_only_at index_byte encode encode_with
    encode_keys replace_plus by_bytes build_canonical_string build_string_to_sign canonical_lines
    canonical_line
completes = (
  _,
  _,
  refl,
  record { prepared = _; managed = _; prepares = refl; manages = refl; reports = refl },
)

reconciliation-IsDue_example :
    (after : ℤ) × ((reconcile_request memory rotators namespaces clients files finalizers
        set_condition set_reference with_pod
        (pos 7)
        (str "operator")
        (str "rotator")
        before).0
      ≡ ok (Plain false after after))
    × IsDue completes.1.spec.refresh_interval after
reconciliation-IsDue_example =
    reconciliation-IsDue memory rotators namespaces clients files finalizers set_condition
      set_reference services aws signing decode_credentials roles (pos 7) (str "operator")
      (str "rotator") before before rotator completes.0 completes.1 refl completes.3

-- `pull` in `dev` belongs to nobody, and the status does not list it.
unowned_first :
    (prepared : SecretRotator × TokenDetails)
    → (preparing memory rotators namespaces clients files finalizers set_condition set_reference
        with_pod
        (pos 7)
        (str "operator")
        (str "rotator")
        rotator
        before).0
      ≡ ok prepared
    → IsForeign (str "dev") (str "pull") foreign prepared.0
unfolding is_secret_owned_by reconcile_request initialize_resource handle_conditions with_condition
    or_fail handle_finalizers secret_rotator_checker validate_resource defer_patch deferred
    validate_object_spec lift check_secrets collect_secrets check_each select_namespaces set_address
    get_service_account check_account detect_pod_identity trim_scheme copy_certificates manage
    complete update_status reported requeue_interval_of answer managing_secrets ◌>>=◌
    delete_outdated_secrets delete_in_namespaces get_removed_namespaces elem eqb str
    delete_in_namespace delete_noted delete_secret memory is_not_found manage_namespaces
    manage_namespace scan scan_one group_version secret_kind get_or insert keys lookup crash handle
    pure raise ◌>>◌ error_text sort contains has_prefix index join text_le find not_found remove
    delete_unlisted finish is_skipped note_failures noted skip unable_message with_account write_all
    write_one differences_loop find_secret_differences find_string_slice_difference note delete_all
    delete_names delete_one delete_outdated_generated_secrets secret_type_docker secret_type_generic
    base64 base64_digit docker_auths generate_docker_config_json json_string namespace_names
    about_secret configure create_or_update_secrets docker_auth empty_secret set_secret_metadata
    write write_missing write_new set_reference handling_token new_token sign_request
    takes_pod_identity configured_auth_type with_account_of auto_auth_type pod_identity_auth_type
    request_token signed_details create_artifactory_token or_retry ca_pem cert_pem
    custom_certificate_path key_pem tls_ca tls_crt tls_key decimal add_headers
    create_custom_http_client custom_client key_pair_paths load_found_pair load_found_root
    load_key_pair load_root read_response root_path token_body token_url account_of
    takes_web_identity web_identity_auth_type get_signed_request_for_pod_identity
    pod_identity_credentials fetch_credentials read_credentials log_access_key sign_for_pod
    pod_session resolve_iam_role_arn_from_pod_identity_credentials resolve_identity
    assumed_role_sts_arn_to_iam_role_arn role_at role_of_tail last_index_byte marker
    get_max_session_with_credential_cache role_name_of second_of_two split_at role_session
    max_session_of not_nil region_of aws_region sign_caller_identity sign_v4a retrieve_private_key
    cached store sign_with build get_uri_path raw_path build_signature make_hash hex_encode
    signed_request prepare authorize canonical_string_of canonical_headers signing_host raw_query_of
    sort_values credential_str build_authorization_header build_credential_scope
    set_required_signing_fields header_set canonical_key to_lower lower build_canonical_headers
    collect_headers collect_header collect_length add_values render is_valid is_default_port
    sanitize_host_for_header get_host port_only port_only_at index_byte encode encode_with
    encode_keys replace_plus by_bytes build_canonical_string build_string_to_sign canonical_lines
    canonical_line
unowned_first prepared done =
    let eq : guarded ≡ prepared.0 = cc in
    subst (IsForeign (str "dev") (str "pull") foreign) eq (refl, (refl, tt), refl)

unowned :
    (r : SecretRotator) (prepared : SecretRotator × TokenDetails)
    → (rotators.get (str "operator") (str "rotator") before).0 ≡ ok r
    → (preparing memory rotators namespaces clients files finalizers set_condition set_reference
        with_pod
        (pos 7)
        (str "operator")
        (str "rotator")
        r
        before).0
      ≡ ok prepared
    → IsForeign (str "dev") (str "pull") foreign prepared.0
unowned r prepared read =
    let same : rotator ≡ r = cc in
    subst
      (λ (q : SecretRotator).
        (preparing memory rotators namespaces clients files finalizers set_condition set_reference
            with_pod (pos 7) (str "operator") (str "rotator") q before).0
          ≡ ok prepared
        → IsForeign (str "dev") (str "pull") foreign prepared.0)
      same (unowned_first prepared)

steps :
    StepsKeep memory rotators namespaces clients files
      (Holds memory (str "dev") (str "pull") (some foreign))
steps = record {
  get_secret-Keeps = λ ns name. record {
    at = λ s h. memory-IsLawful.stored-get ns name (str "dev") (str "pull") s ∙ h;
  };
  get-Keeps = λ ns name. record { at = λ s h. h };
  update-Keeps = λ r. record { at = λ s h. h };
  update_status-Keeps = λ r. record { at = λ s h. h };
  patch_status-Keeps = λ r r'. record { at = λ s h. h };
  list-Keeps = λ selector. record { at = λ s h. h };
  client-Keeps = record { at = λ s h. h };
  pod-Keeps = λ ns name. record { at = λ s h. h };
  account-Keeps = λ ns name. record { at = λ s h. h };
  create_dir-Keeps = λ dir. record { at = λ s h. h };
  create_file-Keeps = λ path content. record { at = λ s h. h };
}

there : memory.stored (str "dev") (str "pull") before ≡ some foreign
unfolding memory find eqb str
there = refl

reconciliation_foreign_example :
    memory.stored
      (str "dev")
      (str "pull")
      (reconcile_request memory rotators namespaces clients files finalizers set_condition
        set_reference
        (handling_token clients
          (identity_signers clients services aws signing decode_credentials)
          services)
        (pos 7)
        (str "operator")
        (str "rotator")
        before).1
    ≡ some foreign
reconciliation_foreign_example =
    reconciliation_foreign memory rotators namespaces clients files finalizers set_condition
      set_reference services aws signing decode_credentials memory-IsLawful
      set_reference-SetsController leave (str "dev") (str "pull") foreign steps (pos 7)
      (str "operator") (str "rotator") before unowned there

-- One secret for one namespace, and no token yet.
abbrev small : TokenDetails
small = record no_details { generated_secrets = generic_secret ∷ []; namespace_list = prod ∷ [] }

abbrev managed : TokenDetails
managed = record small {
  auth_type = pod_identity_auth_type;
  role_max_session_duration = some 7200;
  ttl_in_seconds = 7200;
  username = str "user";
  token = str "new";
  requeue_interval = pos 7;
  secret_managed_by_namespaces = (str "prod", str "login" ∷ []) ∷ [];
  provisioned_namespaces = str "prod" ∷ [];
}

manages :
    (managing_secrets memory set_reference with_pod (pos 7) rotator small before).0
    ≡ ok (with_account rotator (account_of rotator small), managed)
unfolding managing_secrets ◌>>=◌ delete_outdated_secrets delete_in_namespaces get_removed_namespaces
    elem eqb str delete_in_namespace delete_noted delete_secret memory is_not_found
    manage_namespaces manage_namespace scan scan_one group_version secret_kind get_or insert keys
    lookup crash handle pure raise ◌>>◌ error_text sort contains has_prefix index join text_le find
    not_found remove delete_unlisted finish is_skipped note_failures noted skip unable_message
    with_account write_all write_one differences_loop find_secret_differences
    find_string_slice_difference note delete_all delete_names delete_one
    delete_outdated_generated_secrets secret_type_docker secret_type_generic base64 base64_digit
    docker_auths generate_docker_config_json json_string is_secret_owned_by namespace_names
    about_secret configure create_or_update_secrets docker_auth empty_secret set_secret_metadata
    write write_missing write_new set_reference handling_token new_token sign_request
    takes_pod_identity configured_auth_type with_account_of auto_auth_type pod_identity_auth_type
    detect_pod_identity request_token signed_details create_artifactory_token or_retry ca_pem
    cert_pem custom_certificate_path key_pem tls_ca tls_crt tls_key lift decimal add_headers
    create_custom_http_client custom_client key_pair_paths load_found_pair load_found_root
    load_key_pair load_root read_response root_path token_body token_url account_of
    takes_web_identity web_identity_auth_type get_signed_request_for_pod_identity
    pod_identity_credentials fetch_credentials read_credentials log_access_key sign_for_pod
    pod_session resolve_iam_role_arn_from_pod_identity_credentials resolve_identity
    assumed_role_sts_arn_to_iam_role_arn role_at role_of_tail last_index_byte marker
    get_max_session_with_credential_cache role_name_of second_of_two split_at role_session
    max_session_of not_nil region_of aws_region sign_caller_identity sign_v4a retrieve_private_key
    cached store sign_with build get_uri_path raw_path build_signature make_hash hex_encode
    signed_request prepare authorize canonical_string_of canonical_headers signing_host raw_query_of
    sort_values credential_str build_authorization_header build_credential_scope
    set_required_signing_fields header_set canonical_key to_lower lower build_canonical_headers
    collect_headers collect_header collect_length add_values render is_valid is_default_port
    sanitize_host_for_header get_host port_only port_only_at index_byte encode encode_with
    encode_keys replace_plus by_bytes build_canonical_string build_string_to_sign canonical_lines
    canonical_line
manages = refl
