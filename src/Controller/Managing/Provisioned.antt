-- ===== src/Controller/Managing/Provisioned.antt =====
-- Which namespaces end up provisioned.
use jfrog_registry_operator.Base.Int.{ℤ}
use jfrog_registry_operator.Controller.Managing.{
  TokenHandler, finish, manage_namespace, manage_namespaces, managing_secrets,
}
use mathlib.Core.List.{append_assoc, append-nil}
use jfrog_registry_operator.Base.{Text, List, [], ◌∷◌, ◌++◌, Outcome, ok, ◌≡◌, refl, sym, ap, ◌∙◌}
use jfrog_registry_operator.Base.Exec.{Gives, Gives-pure, Gives-bind, Gives-then, Gives-any}
use jfrog_registry_operator.Api.{SecretRotator}
use jfrog_registry_operator.Cluster.Secrets.{SecretStore, Secret}
use jfrog_registry_operator.Cluster.Objects.{Namespace}
use jfrog_registry_operator.Operations.{TokenDetails}
use jfrog_registry_operator.Resource.Removal.{namespace_names}
use jfrog_registry_operator.Controller.Managing.Foreign.{LeavesSecrets}
use jfrog_registry_operator.Controller.Managing.Notes.{
  IgnoresNotes, note_failures-Keeps, write_all-Keeps,
}

-- The provisioned namespaces of the details.
abbrev Has : List Text → TokenDetails → Type 0
Has done details = details.provisioned_namespaces ≡ done

Has-IgnoresNotes : (done : List Text) → IgnoresNotes (Has done)
Has-IgnoresNotes done = record { managed = λ d m h. h; failed = λ d m h. h }

module _ {S : Type 0} (store : SecretStore S)
    (set_controller_reference : SecretRotator → Secret → Outcome Secret)
    (handling_token : TokenHandler S) (leaves : LeavesSecrets store handling_token) where
  finish-Has :
      (r : SecretRotator) (ns : Text) (details : TokenDetails) (done : List Text)
      → Has done details
      → Gives
          (λ now. Has (done ++ (ns ∷ [])) now.1)
          (finish store set_controller_reference handling_token r ns details)
  unfolding finish
  finish-Has r ns details done h =
      Gives-then _ _ (Gives-any _) (λ _ _. Gives-pure _ (ap (λ l. l ++ (ns ∷ [])) h))

  manage_namespace-Has :
      (ns : Namespace) (now : SecretRotator × TokenDetails) (done : List Text)
      → Has done now.1
      → Gives
          (λ next. Has (done ++ (ns.name ∷ [])) next.1)
          (manage_namespace store set_controller_reference handling_token ns now)
  unfolding manage_namespace
  manage_namespace-Has ns (r, details) done h = Gives-bind _ _ (Gives-any _) (λ found _.
      Gives-bind _ _
        (record {
          at = λ s handled ran. (leaves.handling_token-secrets r details s handled ran).1 ∙ h;
        })
        (λ handled h'.
          Gives-bind _ _
            (write_all-Keeps (Has done) (Has-IgnoresNotes done) store set_controller_reference
              handling_token _ ns.name found.1 _ _ h')
            (λ progress h''.
              finish-Has _ ns.name _ done
                (note_failures-Keeps (Has done) (Has-IgnoresNotes done) ns.name progress h''))))

  manage_namespaces-Has :
      (namespaces : List Namespace) (now : SecretRotator × TokenDetails) (done : List Text)
      → Has done now.1
      → Gives
          (λ next. Has (done ++ namespace_names namespaces) next.1)
          (manage_namespaces store set_controller_reference handling_token namespaces now)
  unfolding manage_namespaces namespace_names
  manage_namespaces-Has [] now done h = Gives-pure now (h ∙ sym (append-nil done))
  manage_namespaces-Has (ns ∷ rest) now done h =
      Gives-bind _ _ (manage_namespace-Has ns now done h) (λ next h'.
        rw (← append_assoc done (ns.name ∷ []) (namespace_names rest))
          (manage_namespaces-Has rest next (done ++ (ns.name ∷ [])) h'))

  -- Where the management of the secrets succeeds, every selected namespace is recorded as
  -- provisioned, in their order and after those recorded before, even one where some secret failed;
  -- the handler of the token is taken to keep what was recorded.
  pub managing_secrets-provisioned :
      (interval : ℤ) (r : SecretRotator) (details : TokenDetails) (s : S) (r' : SecretRotator)
      (details' : TokenDetails)
      → (managing_secrets store set_controller_reference handling_token interval r details s).0
        ≡ ok (r', details')
      → details'.provisioned_namespaces
        ≡ details.provisioned_namespaces ++ namespace_names details.namespace_list
  unfolding managing_secrets
  managing_secrets-provisioned interval r details s r' details' ran =
      (Gives-bind _ _ (Gives-any _) (λ failed _.
          manage_namespaces-Has details.namespace_list _ details.provisioned_namespaces refl)).at
        s (r', details') ran
