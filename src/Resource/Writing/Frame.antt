-- ===== src/Resource/Writing/Frame.antt =====
-- What one write leaves alone.
use jfrog_registry_operator.Resource.Writing.{
  write_missing, configure, empty_secret, WriteResult, set_secret_metadata, write, write_new,
  create_or_update_secrets,
}
use jfrog_registry_operator.Base.Exec.{
  handle-cases, Exec, pure, crash, handle, Keeps, Keeps-pure, Keeps-crash, Keeps-handle_on,
  Keeps-handle, Keeps-if,
}
use jfrog_registry_operator.Base.{
  ap, Text, Bool, Option, some, GoError, Outcome, ok, err, panic, ◌≡◌, ◌≢◌, ◌⊎◌, inl, inr, refl,
  sym, ◌∙◌, contains, error_text, arith,
}
use jfrog_registry_operator.Api.{SecretRotator}
use jfrog_registry_operator.Cluster.Secrets.{SecretStore, Secret, IsLawful, is_not_found, Holds}
use jfrog_registry_operator.Operations.{TokenDetails}
use jfrog_registry_operator.Resource.Writing.Effect.{SetsController, configure-name, metadata-IsNew}

module _ {S : Type 0} (store : SecretStore S) (lawful : IsLawful store) where
  module _ (j k : Text) (held : Option Secret) where
    update-Keeps :
        (x : Secret)
        → (j ≢ x.namespace) ⊎ (k ≢ x.name)
        → Keeps (Holds store j k held) (store.update x)
    update-Keeps x apart = record { at = λ s h. lawful.stored-update_other x j k s apart ∙ h }

    create-Keeps :
        (x : Secret)
        → (j ≢ x.namespace) ⊎ (k ≢ x.name)
        → Keeps (Holds store j k held) (store.create x)
    create-Keeps x apart = record { at = λ s h. lawful.stored-create_other x j k s apart ∙ h }

    write-other :
        (name ty : Text) (x : Secret)
        → (j ≢ x.namespace) ⊎ (k ≢ x.name)
        → Keeps (Holds store j k held) (write store name ty x)
    unfolding write
    write-other name ty x apart =
        Keeps-handle _ _ _ (update-Keeps x apart) (λ _. Keeps-pure _)
          (λ e.
            Keeps-if (is_not_found e) _ _
              (Keeps-handle _ _ _ (create-Keeps x apart) (λ _. Keeps-pure _) (λ e'. Keeps-pure _))
              (Keeps-pure _))

    module _ (set_controller_reference : SecretRotator → Secret → Outcome Secret)
        (sets : SetsController set_controller_reference) (details : TokenDetails)
        (rotator : SecretRotator) (ns name ty : Text) (apart : (j ≢ ns) ⊎ (k ≢ name)) where
      configured_apart :
          (x : Secret)
          → x.namespace ≡ ns
          → x.name ≡ name
          → (j ≢ (configure details rotator ty x).namespace)
            ⊎ (k ≢ (configure details rotator ty x).name)
      configured_apart x placed named =
          let (same_ns, same_name) = configure-name details rotator ty x in
          rw (same_ns, same_name, placed, named) apart

      new-other :
          (r : Outcome Secret)
          → ((x : Secret) → r ≡ ok x → (x.namespace ≡ ns) × (x.name ≡ name))
          → Keeps
              (Holds store j k held)
              (write_new store set_controller_reference details rotator name ty r)
      unfolding write_new
      new-other (ok x) at_name =
          write-other name ty _ (configured_apart x (at_name x refl).0 (at_name x refl).1)
      new-other (err e) at_name =
          Keeps-if (contains (error_text e) _) _ _ (Keeps-pure _) (Keeps-pure _)
      new-other panic at_name = Keeps-crash

      missing-other :
          (e : GoError)
          → Keeps
              (Holds store j k held)
              (write_missing store set_controller_reference details rotator ns name ty e)
      unfolding write_missing
      missing-other e =
          Keeps-if (is_not_found e) _ _
            (new-other _ (λ x set.
              let new =
                metadata-IsNew store lawful set_controller_reference sets details rotator ns name ty
                  x set in
              (new.0, new.1)))
            (Keeps-pure _)

      pub create_or_update_secrets-Keeps :
          Keeps
            (Holds store j k held)
            (create_or_update_secrets store set_controller_reference details rotator ns name ty)
      unfolding create_or_update_secrets
      create_or_update_secrets-Keeps =
          Keeps-handle_on (λ x. (x.namespace ≡ ns) × (x.name ≡ name)) _ _ _
            (λ s x h read. lawful.get-named ns name s x read)
            (record { at = λ s h. lawful.stored-get ns name j k s ∙ h })
            (λ x at_name. write-other name ty _ (configured_apart x at_name.0 at_name.1))
            missing-other

      -- Whatever a write ends in, the secrets of other names and of other namespaces are as they were.
      pub create_or_update_secrets_other :
          (s : S)
          → store.stored j k s ≡ held
          → store.stored j k
              (create_or_update_secrets store set_controller_reference details rotator ns name ty
                s).1
            ≡ held
      create_or_update_secrets_other s there = create_or_update_secrets-Keeps.at s there

-- A failure leaves the whole cluster as it was.
module _ {S : Type 0} (store : SecretStore S) (lawful : IsLawful store) (j k : Text) where
  -- Of an action: where it reports an error, the secret is as it was.
  abbrev IsSpared : Exec S WriteResult → S → S → Type 0
  IsSpared m before s =
      (e : GoError) (flag : Bool)
      → (m s).0 ≡ ok (some e, flag)
      → store.stored j k (m s).1 ≡ store.stored j k before

  write-IsSpared :
      (name ty : Text) (x : Secret) (before s : S)
      → store.stored j k s ≡ store.stored j k before
      → IsSpared (write store name ty x) before s
  unfolding write handle pure
  write-IsSpared name ty x before s same e flag failed = ground (
    arith,
    lawful.stored-update_fails x j k s,
    lawful.stored-create_fails x j k (store.update x s).1,
  )

  module _ (set_controller_reference : SecretRotator → Secret → Outcome Secret)
      (details : TokenDetails) (rotator : SecretRotator) (ns name ty : Text) where
    new-IsSpared :
        (r : Outcome Secret) (before s : S)
        → store.stored j k s ≡ store.stored j k before
        → IsSpared (write_new store set_controller_reference details rotator name ty r) before s
    unfolding write_new pure crash
    new-IsSpared (ok x) before s same e' flag failed =
        write-IsSpared name ty _ before s same e' flag failed
    new-IsSpared (err e) before s same e' flag failed = ground arith
    new-IsSpared panic before s same e' flag failed = same

    missing-IsSpared :
        (e : GoError) (before s : S)
        → store.stored j k s ≡ store.stored j k before
        → IsSpared
            (write_missing store set_controller_reference details rotator ns name ty e)
            before
            s
    unfolding write_missing pure
    missing-IsSpared e before s same e' flag failed = ground (
      arith,
      new-IsSpared (set_secret_metadata set_controller_reference rotator ns (empty_secret ns name))
          before s same e' flag,
    )

    -- A write that reports an error has changed no secret at all.
    pub create_or_update_secrets-fails :
        (s : S) (e : GoError) (flag : Bool)
        → (create_or_update_secrets store set_controller_reference details rotator ns name ty s).0
          ≡ ok (some e, flag)
        → store.stored j k
            (create_or_update_secrets store set_controller_reference details rotator ns name ty s).1
          ≡ store.stored j k s
    unfolding create_or_update_secrets
    create_or_update_secrets-fails s e flag failed =
        elim (handle-cases (store.get ns name)
          (λ x. write store name ty (configure details rotator ty x))
          (write_missing store set_controller_reference details rotator ns name ty) s) [
            | inl (x, read, eq) ↦ rw eq (
                write-IsSpared name ty _ s _ (lawful.stored-get ns name j k s) e flag
                  (ap (λ p. p.0) (sym eq) ∙ failed))
            | inr (inl (e', read, eq)) ↦ rw eq (
                missing-IsSpared e' s _ (lawful.stored-get ns name j k s) e flag
                  (ap (λ p. p.0) (sym eq) ∙ failed))
            | inr (inr (read, eq)) ↦ rw eq (lawful.stored-get ns name j k s)
          ]
