-- ===== src/Controller/Tests.antt =====
-- controllers at concrete inputs.
use jfrog_registry_operator.Samples.{
  generic_secret, rotator, prod, details, foreign, before, set_reference,
  set_reference-SetsController, same_token, namespaces, clients, rotators, files, finalizers,
  set_condition,
}
use jfrog_registry_operator.Base.{
  text_le, sort, join, index, has_prefix, error_text, contains, eqb, str, [], ◌∷◌, ◌++◌, eqb_refl,
  elem, Distinct, true, false, some, ok, ◌≡◌, refl, arith,
}
use jfrog_registry_operator.Base.Exec.{lift, deferred, ◌>>◌, ◌>>=◌, raise, crash, pure, handle}
use jfrog_registry_operator.Operations.Validate.{
  trim_scheme, check_account, get_service_account, set_address, select_namespaces, check_each,
  collect_secrets, check_secrets, validate_object_spec,
}
use jfrog_registry_operator.Operations.{
  detect_pod_identity, secret_type_generic, secret_type_docker, TokenDetails,
  secret_rotator_finalizer,
}
use jfrog_registry_operator.Controller.Status.{reported, update_status}
use jfrog_registry_operator.Controller.Lifecycle.{
  secret_rotator_checker, with_condition, handle_conditions, or_fail, handle_finalizers,
}
use jfrog_registry_operator.Controller.Reconcile.{
  answer, complete, manage, copy_certificates, defer_patch, validate_resource, initialize_resource,
  requeue_interval_of, Answer, reconcile_request,
}
use jfrog_registry_operator.Resource.Writing.{
  write_new, write_missing, write, set_secret_metadata, empty_secret, docker_auth,
  create_or_update_secrets, configure, about_secret,
}
use jfrog_registry_operator.Resource.Removal.{
  get_removed_namespaces, delete_secret, delete_outdated_secrets, delete_noted,
  delete_in_namespaces, delete_in_namespace, namespace_names,
}
use jfrog_registry_operator.Resource.Docker.{
  json_string, generate_docker_config_json, docker_auths, base64_digit, base64,
}
use jfrog_registry_operator.Operations.Outdated.{
  delete_outdated_generated_secrets, delete_one, delete_names, delete_all,
}
use jfrog_registry_operator.Operations.Differences.{
  note, find_string_slice_difference, find_secret_differences, differences_loop, listed,
}
use jfrog_registry_operator.Controller.Managing.{
  write_one, write_all, with_account, unable_message, skip, scan_one, scan, noted, note_failures,
  manage_namespaces, manage_namespace, is_skipped, finish, delete_unlisted, managing_secrets,
}
use jfrog_registry_operator.Cluster.Secrets.{is_not_found}
use jfrog_registry_operator.Cluster.Memory.{not_found, memory, memory-IsLawful, find, remove}
use jfrog_registry_operator.Base.Dict.{insert, get_or, lookup, keys}
use jfrog_registry_operator.Api.{secret_kind, group_version, SecretRotator}
use jfrog_registry_operator.Resource.Ownership.{is_secret_owned_by}
use jfrog_registry_operator.Controller.Managing.Foreign.{LeavesSecrets, managing_secrets_foreign}
use jfrog_registry_operator.Controller.Managing.Provisioned.{managing_secrets-provisioned}
use jfrog_registry_operator.Controller.Lifecycle.Guarded.{
  KeepsFinalizers, handle_finalizers-contains,
}
use jfrog_registry_operator.Base.Int.{pos}
use jfrog_registry_operator.Controller.Reconcile.Replies.{IsReply, reconcile_request-IsReply}
use jfrog_registry_operator.Controller.Reconcile.Answers.{
  Plain, IsAnswer, reconcile_request-IsAnswer,
}

same_token-LeavesSecrets : LeavesSecrets memory same_token
unfolding same_token
same_token-LeavesSecrets = record {
  stored-handling_token = λ r d j k s. refl;
  handling_token-secrets = λ r d s h done.
      let e : (r.spec.service_account, record d { token = str "token"; ttl_in_seconds = 3600 })
          ≡ h =
        cc in
      (rw (← e) refl, rw (← e) refl);
}

not_owned : is_secret_owned_by foreign rotator.name ≡ false
unfolding is_secret_owned_by
not_owned = refl

foreign_there : find (str "dev") (str "pull") before ≡ some foreign
unfolding find eqb str
foreign_there = refl

unlisted :
    Distinct (keys rotator.status.secret_managed_by_namespaces)
    × (listed rotator.status.secret_managed_by_namespaces (str "dev") (str "pull") ≡ false)
unfolding keys elem lookup str eqb
unlisted = ((refl, tt), refl)

managing_secrets_foreign_example :
    find
      (str "dev")
      (str "pull")
      (managing_secrets memory set_reference same_token (pos 7) rotator details before).1
    ≡ some foreign
unfolding memory
managing_secrets_foreign_example =
    managing_secrets_foreign memory memory-IsLawful set_reference set_reference-SetsController
      same_token same_token-LeavesSecrets (str "dev") (str "pull") foreign rotator not_owned
      unlisted (pos 7) details before foreign_there

-- One secret for one namespace.
abbrev small : TokenDetails
small = record details { generated_secrets = generic_secret ∷ []; namespace_list = prod ∷ [] }

abbrev managed : TokenDetails
managed = record small {
  requeue_interval = pos 7;
  secret_managed_by_namespaces = (str "prod", str "login" ∷ []) ∷ [];
  provisioned_namespaces = str "prod" ∷ [];
}

manages :
    (managing_secrets memory set_reference same_token (pos 7) rotator small before).0
    ≡ ok (rotator, managed)
unfolding managing_secrets ◌>>=◌ delete_outdated_secrets delete_in_namespaces get_removed_namespaces
    elem eqb str delete_in_namespace delete_noted delete_secret memory is_not_found
    manage_namespaces manage_namespace scan scan_one group_version secret_kind get_or insert keys
    lookup crash handle pure raise ◌>>◌ error_text sort contains has_prefix index join text_le find
    not_found remove delete_unlisted finish is_skipped note_failures noted skip unable_message
    with_account write_all write_one differences_loop find_secret_differences
    find_string_slice_difference note delete_all delete_names delete_one
    delete_outdated_generated_secrets secret_type_docker secret_type_generic base64 base64_digit
    docker_auths generate_docker_config_json json_string is_secret_owned_by namespace_names
    about_secret configure create_or_update_secrets docker_auth empty_secret set_secret_metadata
    write write_missing write_new same_token set_reference
manages = refl

managing_secrets-provisioned_example :
    managed.provisioned_namespaces
    ≡ small.provisioned_namespaces ++ namespace_names small.namespace_list
managing_secrets-provisioned_example =
    managing_secrets-provisioned memory set_reference same_token same_token-LeavesSecrets (pos 7)
      rotator small before rotator managed manages

abbrev guarded : SecretRotator
guarded = record rotator { finalizers = secret_rotator_finalizer ∷ [] }

keeps_finalizers : KeepsFinalizers rotators finalizers
unfolding elem
keeps_finalizers = record {
  add-contains = λ r f changed. ground (arith, eqb_refl f);
  update-contains = λ r r' f s done. let e : r ≡ r' = cc in rw e refl;
}

guards : (handle_finalizers rotators set_condition finalizers rotator before).0 ≡ ok guarded
unfolding handle_finalizers elem or_fail handle pure
guards = refl

handle_finalizers-contains_example : elem secret_rotator_finalizer guarded.finalizers ≡ true
handle_finalizers-contains_example =
    handle_finalizers-contains rotators finalizers set_condition keeps_finalizers rotator guarded
      before guards

abbrev next : Answer
next = Plain false (pos 2700000000000) (pos 2700000000000)

reconciles :
    (reconcile_request memory rotators namespaces clients files finalizers set_condition
      set_reference same_token
      (pos 7)
      (str "operator")
      (str "rotator")
      before).0
    ≡ ok next
unfolding reconcile_request initialize_resource handle_conditions with_condition or_fail
    handle_finalizers secret_rotator_checker validate_resource defer_patch deferred
    validate_object_spec lift check_secrets collect_secrets check_each select_namespaces set_address
    get_service_account check_account detect_pod_identity trim_scheme copy_certificates manage
    complete update_status reported requeue_interval_of answer managing_secrets ◌>>=◌
    delete_outdated_secrets delete_in_namespaces get_removed_namespaces elem eqb str
    delete_in_namespace delete_noted delete_secret memory is_not_found manage_namespaces
    manage_namespace scan scan_one group_version secret_kind get_or insert keys lookup crash handle
    pure raise ◌>>◌ error_text sort contains has_prefix index join text_le find not_found remove
    delete_unlisted finish is_skipped note_failures noted skip unable_message with_account write_all
    write_one differences_loop find_secret_differences find_string_slice_difference note delete_all
    delete_names delete_one delete_outdated_generated_secrets secret_type_docker secret_type_generic
    base64 base64_digit docker_auths generate_docker_config_json json_string is_secret_owned_by
    namespace_names about_secret configure create_or_update_secrets docker_auth empty_secret
    set_secret_metadata write write_missing write_new same_token set_reference
reconciles = refl

answers_next :
    IsAnswer memory rotators namespaces clients files finalizers set_condition set_reference
      same_token
      (pos 7)
      (str "operator")
      (str "rotator")
      (rotators.get (str "operator") (str "rotator") before)
      next
answers_next =
    reconcile_request-IsAnswer memory rotators namespaces clients files finalizers set_condition
      set_reference same_token (pos 7) (str "operator") (str "rotator") before next reconciles

reconcile_request-IsReply_example :
    IsReply memory rotators namespaces clients files finalizers set_condition set_reference
      same_token
      (pos 7)
      (str "operator")
      (str "rotator")
      (rotators.get (str "operator") (str "rotator") before)
      (reconcile_request memory rotators namespaces clients files finalizers set_condition
        set_reference same_token
        (pos 7)
        (str "operator")
        (str "rotator")
        before).0
reconcile_request-IsReply_example =
    reconcile_request-IsReply memory rotators namespaces clients files finalizers set_condition
      set_reference same_token (pos 7) (str "operator") (str "rotator") before
