-- ===== src/Controller/Managing/Foreign.antt =====
-- When the management of the secrets leaves a secret of another owner as it is.
use jfrog_registry_operator.Base.Int.{ℤ}
use mathlib.Core.Path.{subst}
use jfrog_registry_operator.Base.Exec.{
  Gives-pure, Gives-any, Gives-then, Gives-bind, Keeps-bind_on, Gives, Keeps, Keeps-pure, Keeps-if,
  Keeps-if_on, Keeps-bind, Keeps-then,
}
use jfrog_registry_operator.Base.{
  ap, Text, eqb, eqb_iff, elem, Distinct, ne_pair, List, [], ◌∷◌, true, false, ◌&&◌, Bool-cases,
  some, Outcome, ok, ◌≡◌, ◌≢◌, ◌⊎◌, inl, inr, refl, ◌∙◌, arith, is_empty,
}
use jfrog_registry_operator.Base.Dict.{Dict, keys}
use jfrog_registry_operator.Api.{GeneratedSecret, SecretRotator, ServiceAccountDetails}
use jfrog_registry_operator.Cluster.Secrets.{SecretStore, Secret, Holds, IsLawful}
use jfrog_registry_operator.Cluster.Objects.{Namespace}
use jfrog_registry_operator.Operations.{TokenDetails}
use jfrog_registry_operator.Operations.Differences.{listed}
use jfrog_registry_operator.Operations.Validate.Secrets.{names}
use jfrog_registry_operator.Operations.Outdated.Effect.{delete_outdated_generated_secrets_keeps}
use jfrog_registry_operator.Resource.Ownership.{is_secret_owned_by}
use jfrog_registry_operator.Resource.Removal.Effect.{delete_outdated_secrets_foreign}
use jfrog_registry_operator.Resource.Writing.Effect.{SetsController}
use jfrog_registry_operator.Resource.Writing.Frame.{create_or_update_secrets-Keeps}
use jfrog_registry_operator.Controller.Managing.{
  Scan, scan, is_skipped, Progress, TokenHandler, with_account, write_one, write_all,
  delete_unlisted, finish, manage_namespace, manage_namespaces, managing_secrets,
}
use jfrog_registry_operator.Controller.Managing.Scanned.{scan-Keeps, scan-is_skipped}

module _ {S : Type 0} (store : SecretStore S) where
  -- The handler of the token does not write secrets, and keeps the names of those to write.
  pub record LeavesSecrets (handling_token : TokenHandler S) : Type 0 where
    pub stored-handling_token :
        (r : SecretRotator) (d : TokenDetails) (j k : Text) (s : S)
        → store.stored j k (handling_token r d s).1 ≡ store.stored j k s
    pub handling_token-secrets :
        (r : SecretRotator) (d : TokenDetails) (s : S) (h : ServiceAccountDetails × TokenDetails)
        → (handling_token r d s).0 ≡ ok h
        → (h.1.generated_secrets ≡ d.generated_secrets)
          × (h.1.provisioned_namespaces ≡ d.provisioned_namespaces)

module _ {S : Type 0} (store : SecretStore S) (lawful : IsLawful store)
    (set_controller_reference : SecretRotator → Secret → Outcome Secret)
    (sets : SetsController set_controller_reference) (handling_token : TokenHandler S)
    (leaves : LeavesSecrets store handling_token) (j k : Text) (x : Secret) where
  abbrev There : S → Type 0
  There = Holds store j k (some x)

  -- The secret is not written to in a turn for the namespace.
  abbrev IsGuarded : Text → Dict Text → List GeneratedSecret → Type 0
  IsGuarded ns skipped secrets =
      j ≡ ns → elem k (names secrets) ≡ true → is_skipped skipped ns k ≡ true

  guard_head :
      (ns : Text) (skipped : Dict Text) (g : GeneratedSecret) (rest : List GeneratedSecret)
      → IsGuarded ns skipped (g ∷ rest)
      → is_skipped skipped ns g.secret_name ≡ false
      → (j ≢ ns) ⊎ (k ≢ g.secret_name)
  unfolding elem
  guard_head ns skipped g rest guarded write = elim (Bool-cases (eqb j ns && eqb k g.secret_name)) [
    | inl same ↦
        let in_ns : j ≡ ns = ground (arith, eqb_iff j ns) in
        let named : k ≡ g.secret_name = ground (arith, eqb_iff k g.secret_name) in
        absurd (ground (arith, guarded in_ns (ground arith), ap (is_skipped skipped ns) named))
    | inr other ↦ ne_pair j ns k g.secret_name other
  ]

  guard_tail :
      (ns : Text) (skipped : Dict Text) (g : GeneratedSecret) (rest : List GeneratedSecret)
      → IsGuarded ns skipped (g ∷ rest)
      → IsGuarded ns skipped rest
  unfolding elem
  guard_tail ns skipped g rest guarded in_ns named = guarded in_ns (ground arith)

  write_one-Keeps :
      (r : SecretRotator) (ns : Text) (skipped : Dict Text) (g : GeneratedSecret)
      (rest : List GeneratedSecret) (progress : Progress)
      → IsGuarded ns skipped (g ∷ rest)
      → Keeps There
          (write_one store set_controller_reference handling_token r ns skipped g progress)
  unfolding write_one
  write_one-Keeps r ns skipped g rest progress guarded =
      Keeps-if_on (is_skipped skipped ns g.secret_name) _ _ (λ _. Keeps-pure progress)
        (λ write.
          Keeps-bind _ _
            (create_or_update_secrets-Keeps store lawful j k (some x) set_controller_reference sets
              progress.0 r ns g.secret_name g.secret_type
              (guard_head ns skipped g rest guarded write))
            (λ result. Keeps-pure _))

  write_all-Keeps :
      (r : SecretRotator) (ns : Text) (skipped : Dict Text) (secrets : List GeneratedSecret)
      (progress : Progress)
      → IsGuarded ns skipped secrets
      → Keeps There
          (write_all store set_controller_reference handling_token r ns skipped secrets progress)
  unfolding write_all
  write_all-Keeps r ns skipped [] progress guarded = Keeps-pure progress
  write_all-Keeps r ns skipped (g ∷ rest) progress guarded =
      Keeps-bind _ _ (write_one-Keeps r ns skipped g rest progress guarded) (λ progress'.
        write_all-Keeps r ns skipped rest progress' (guard_tail ns skipped g rest guarded))

  -- What the status of the rotator must not have, for the deletion to leave the secret.
  abbrev IsUnlisted : SecretRotator → Type 0
  IsUnlisted r =
      Distinct (keys r.status.secret_managed_by_namespaces)
      × (listed r.status.secret_managed_by_namespaces j k ≡ false)

  finish-Keeps :
      (r : SecretRotator) (ns : Text) (details : TokenDetails)
      → IsUnlisted r
      → Keeps There (finish store set_controller_reference handling_token r ns details)
  unfolding finish delete_unlisted
  finish-Keeps r ns details unlisted =
      Keeps-then _ _
        (Keeps-if (is_empty r.status.secret_managed_by_namespaces) _ _ (Keeps-pure tt) (record {
          at = λ s h.
              delete_outdated_generated_secrets_keeps store lawful j k
                details.secret_managed_by_namespaces r.status.secret_managed_by_namespaces s
                unlisted.0 (rw (unlisted.1) refl)
              ∙ h;
        }))
        (Keeps-pure _)

  module _ (r₀ : SecretRotator) (foreign : is_secret_owned_by x r₀.name ≡ false)
      (unlisted : IsUnlisted r₀) where
    -- The rotator as the loop has it.
    abbrev IsSame : SecretRotator × TokenDetails → Type 0
    IsSame (r, details) = (r.name ≡ r₀.name) × (r.status ≡ r₀.status)

    scanned :
        (r : SecretRotator) (details : TokenDetails) (ns : Text) (secrets : List GeneratedSecret)
        (s : S) (found : Scan)
        → IsSame (r, details)
        → There s
        → (scan store r.name ns secrets ([], []) s).0 ≡ ok found
        → IsGuarded ns found.1 secrets
    scanned r details ns secrets s found same there done in_ns =
        subst
          (λ n.
            (scan store r.name n secrets ([], []) s).0 ≡ ok found
            → elem k (names secrets) ≡ true
            → is_skipped found.1 n k ≡ true)
          in_ns
          (λ done' named.
            scan-is_skipped store lawful r.name j k x (rw (same.0) foreign) secrets ([], []) found s
              there done' (rw named refl))
          done

    manage_namespace-Keeps :
        (ns : Namespace) (r : SecretRotator) (details : TokenDetails)
        → IsSame (r, details)
        → Keeps There
            (manage_namespace store set_controller_reference handling_token ns (r, details))
    unfolding manage_namespace with_account
    manage_namespace-Keeps ns r details same =
        Keeps-bind_on (λ found. IsGuarded ns.name found.1 details.generated_secrets) _ _
          (λ s found there done.
            scanned r details ns.name details.generated_secrets s found same there done)
          (scan-Keeps store lawful r.name j k x (rw (same.0) foreign) ns.name
            details.generated_secrets ([], []))
          (λ found guarded.
            Keeps-bind_on (λ handled. handled.1.generated_secrets ≡ details.generated_secrets) _ _
              (λ s handled there done. (leaves.handling_token-secrets r details s handled done).0)
              (record { at = λ s h. leaves.stored-handling_token r details j k s ∙ h })
              (λ handled secrets.
                Keeps-bind _ _
                  (write_all-Keeps _ ns.name found.1 handled.1.generated_secrets _
                    (rw secrets guarded))
                  (λ progress. finish-Keeps _ ns.name _ (rw (same.1) unlisted))))

    finish-IsSame :
        (r : SecretRotator) (ns : Text) (details : TokenDetails)
        → IsSame (r, details)
        → Gives IsSame (finish store set_controller_reference handling_token r ns details)
    unfolding finish
    finish-IsSame r ns details same = Gives-then _ _ (Gives-any _) (λ _ _. Gives-pure _ same)

    manage_namespace-IsSame :
        (ns : Namespace) (r : SecretRotator) (details : TokenDetails)
        → IsSame (r, details)
        → Gives IsSame
            (manage_namespace store set_controller_reference handling_token ns (r, details))
    unfolding manage_namespace with_account
    manage_namespace-IsSame ns r details same = Gives-bind _ _ (Gives-any _) (λ found _.
        Gives-bind _ _ (Gives-any _) (λ handled _.
          Gives-bind _ _ (Gives-any _) (λ progress _. finish-IsSame _ ns.name _ same)))

    manage_namespaces-Keeps :
        (namespaces : List Namespace) (now : SecretRotator × TokenDetails)
        → IsSame now
        → Keeps There
            (manage_namespaces store set_controller_reference handling_token namespaces now)
    unfolding manage_namespaces
    manage_namespaces-Keeps [] now same = Keeps-pure now
    manage_namespaces-Keeps (ns ∷ rest) (r, details) same =
        Keeps-bind_on IsSame _ _
          (λ s next there done. (manage_namespace-IsSame ns r details same).at s next done)
          (manage_namespace-Keeps ns r details same)
          (λ next same'. manage_namespaces-Keeps rest next same')

    -- A secret that was there, that the rotator does not own and that its status does not list is
    -- as it was, whatever the management of the secrets ends in; the handler of the token is taken
    -- to write no secret and to keep the names of the run, and the status to list no namespace
    -- twice.
    pub managing_secrets_foreign :
        (interval : ℤ) (details : TokenDetails) (s : S)
        → store.stored j k s ≡ some x
        → store.stored j k
            (managing_secrets store set_controller_reference handling_token interval r₀ details s).1
          ≡ some x
    unfolding managing_secrets
    managing_secrets_foreign interval details s there =
        (Keeps-bind _ _
            (record {
              at = λ s' h.
                  delete_outdated_secrets_foreign store lawful j k details r₀.name
                    r₀.status.provisioned_namespaces s' x h foreign;
            })
            (λ failed. manage_namespaces-Keeps details.namespace_list _ (refl, refl))).at
          s there
