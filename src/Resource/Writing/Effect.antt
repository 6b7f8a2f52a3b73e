-- ===== src/Resource/Writing/Effect.antt =====
-- What one write leaves in the cluster.
use jfrog_registry_operator.Resource.Writing.{
  write_missing, configure, empty_secret, WriteResult, set_secret_metadata, write, write_new,
  create_or_update_secrets,
}
use jfrog_registry_operator.Base.Exec.{handle-cases, Exec, pure, crash, handle}
use jfrog_registry_operator.Base.{
  ap, Text, [], Bool, true, false, none, some, GoError, Outcome, ok, err, panic, ◌≡◌, ◌≢◌, ◌⊎◌, inl,
  inr, refl, sym, ◌∙◌, Bool-cases, arith,
}
use jfrog_registry_operator.Api.{SecretRotator}
use jfrog_registry_operator.Cluster.Secrets.{SecretStore, Secret, IsLawful, is_not_found}
use jfrog_registry_operator.Operations.{TokenDetails}
use jfrog_registry_operator.Resource.Ownership.{is_secret_owned_by}

pub configure-name :
    (details : TokenDetails) (rotator : SecretRotator) (ty : Text) (x : Secret)
    → ((configure details rotator ty x).namespace ≡ x.namespace)
      × ((configure details rotator ty x).name ≡ x.name)
unfolding configure
configure-name details rotator ty x = ground arith

-- What `SetControllerReference` promises: where it succeeds the rotator controls the secret, and
-- nothing else of the secret has changed.
pub record SetsController (set_controller_reference : SecretRotator → Secret → Outcome Secret)
    : Type 0 where
  pub set-owned :
      (r : SecretRotator) (x y : Secret)
      → set_controller_reference r x ≡ ok y
      → is_secret_owned_by y r.name ≡ true
  pub set-same :
      (r : SecretRotator) (x y : Secret)
      → set_controller_reference r x ≡ ok y
      → record y { controller = x.controller } ≡ x

module _ {S : Type 0} (store : SecretStore S) (lawful : IsLawful store) where
  write-result :
      (name ty : Text) (x : Secret) (s : S) (flag : Bool)
      → (write store name ty x s).0 ≡ ok (none, flag)
      → (flag ≡ false) × (store.stored x.namespace x.name (write store name ty x s).1 ≡ some x)
  unfolding write handle pure
  write-result name ty x s flag done =
      ground (arith, lawful.stored-update_ok x s, lawful.stored-create_ok x (store.update x s).1)

  module _ (set_controller_reference : SecretRotator → Secret → Outcome Secret)
      (sets : SetsController set_controller_reference) (details : TokenDetails)
      (rotator : SecretRotator) (ns name ty : Text) where
    -- The secret that the new one is filled from.
    abbrev pub IsNew : Secret → Type 0
    IsNew x =
        (x.namespace ≡ ns)
        × (x.name ≡ name)
        × (is_secret_owned_by x rotator.name ≡ true)
        × (x.labels ≡ rotator.spec.secret_metadata.labels)
        × (x.annotations ≡ rotator.spec.secret_metadata.annotations)
        × (x.content ≡ [])

    -- Success leaves the filled-in secret in place of the one that was there, or a new one.
    abbrev pub IsWritten : S → S → Type 0
    IsWritten before after =
        (x : Secret) × (store.stored ns name after ≡ some (configure details rotator ty x))
        × ((store.stored ns name before ≡ some x)
            ⊎ ((store.stored ns name before ≡ none) × IsNew x))

    pub metadata-IsNew :
        (x : Secret)
        → set_secret_metadata set_controller_reference rotator ns (empty_secret ns name) ≡ ok x
        → IsNew x
    unfolding set_secret_metadata empty_secret
    metadata-IsNew x set =
        let same = sets.set-same rotator _ x set in
        let owned = sets.set-owned rotator _ x set in
        (
          ap (λ y. y.namespace) same,
          ap (λ y. y.name) same,
          owned,
          ap (λ y. y.labels) same,
          ap (λ y. y.annotations) same,
          ap (λ y. y.content) same,
        )

    abbrev attempt : (s : S) → Outcome WriteResult × S
    attempt = create_or_update_secrets store set_controller_reference details rotator ns name ty

    written_lem :
        (before s : S) (x : Secret) (flag : Bool)
        → x.namespace ≡ ns
        → x.name ≡ name
        → (store.stored ns name before ≡ some x) ⊎ ((store.stored ns name before ≡ none) × IsNew x)
        → (write store name ty (configure details rotator ty x) s).0 ≡ ok (none, flag)
        → (flag ≡ false)
          × IsWritten before (write store name ty (configure details rotator ty x) s).1
    written_lem before s x flag placed named base done =
        let y = configure details rotator ty x in
        let (plain, held) = write-result name ty y s flag done in
        let (same_ns, same_name) = configure-name details rotator ty x in (plain, (x, cc, base))

    new_lem :
        (before s : S) (r : Outcome Secret) (flag : Bool)
        → store.stored ns name before ≡ none
        → ((x : Secret) → r ≡ ok x → IsNew x)
        → (write_new store set_controller_reference details rotator name ty r s).0 ≡ ok (none, flag)
        → (flag ≡ false)
          × IsWritten before
              (write_new store set_controller_reference details rotator name ty r s).1
    unfolding write_new pure crash
    new_lem before s (ok x) flag missing new done =
        let base = new x refl in
        written_lem before s x flag base.0 base.1 (inr (missing, base)) done
    new_lem before s (err e) flag missing new done = absurd (ground arith)
    new_lem before s panic flag missing new done = absurd (ground arith)

    abbrev existing : Secret → Exec S WriteResult
    existing x = write store name ty (configure details rotator ty x)

    abbrev missing : GoError → Exec S WriteResult
    missing = write_missing store set_controller_reference details rotator ns name ty

    abbrev new : Exec S WriteResult
    new =
        write_new store set_controller_reference details rotator name ty
          (set_secret_metadata set_controller_reference rotator ns (empty_secret ns name))

    missing-eq : (e : GoError) → is_not_found e ≡ true → missing e ≡ new
    unfolding write_missing
    missing-eq e absent = rw absent refl

    missing-fails :
        (s : S) (e : GoError) (flag : Bool)
        → is_not_found e ≡ false
        → (missing e s).0 ≢ ok (none, flag)
    unfolding write_missing pure
    missing-fails s e flag other done = ground arith

    missing_lem :
        (before s : S) (e : GoError) (flag : Bool)
        → (is_not_found e ≡ true → store.stored ns name before ≡ none)
        → (missing e s).0 ≡ ok (none, flag)
        → (flag ≡ false) × IsWritten before (missing e s).1
    missing_lem before s e flag absent done = elim (Bool-cases (is_not_found e)) [
      | inl found ↦
          let eq = missing-eq e found in
          rw eq (
            new_lem before s _ flag (absent found) metadata-IsNew
              (ap (λ m. (m s).0) (sym eq) ∙ done))
      | inr other ↦ absurd (missing-fails s e flag other done)
    ]

    pub create_or_update_secrets-result :
        (s : S) (flag : Bool)
        → (attempt s).0 ≡ ok (none, flag)
        → (flag ≡ false) × IsWritten s (attempt s).1
    unfolding create_or_update_secrets
    create_or_update_secrets-result s flag done =
        elim (handle-cases (store.get ns name) existing missing s) [
          | inl (x, read, eq) ↦
              let (placed, named) = lawful.get-named ns name s x read in
              rw eq (
                written_lem s (store.get ns name s).1 x flag placed named
                  (inl (lawful.get-ok ns name s x read)) (ap (λ p. p.0) (sym eq) ∙ done))
          | inr (inl (e, read, eq)) ↦ rw eq (
              missing_lem s (store.get ns name s).1 e flag (lawful.get-missing ns name s e read)
                (ap (λ p. p.0) (sym eq) ∙ done))
          | inr (inr (read, eq)) ↦ absurd (ground (arith, ap (λ p. p.0) (sym eq) ∙ done))
        ]
