-- ===== src/Controller/Managing/Truthful.antt =====
-- When a secret that the details list as managed is in the cluster.
pub mod Loop
use jfrog_registry_operator.Operations.Validate.Secrets.{IsNamed}
use jfrog_registry_operator.Base.{
  All, ℕ, Text, eqb, eqb_iff, elem, ne_pair, Distinct, List, [], ◌∷◌, ◌++◌, Bool, true, false, not,
  ◌&&◌, ◌||◌, Bool-cases, Option, none, some, GoError, Outcome, ok, ◌≡◌, ◌≢◌, ◌⊎◌, inl, inr, refl,
  sym, ap, ◌∙◌, arith, is_empty,
}
use jfrog_registry_operator.Base.Exec.{
  ◌>>◌, Gives, Keeps, Keeps-pure, Keeps-if, Keeps-handle, Keeps-bind, Ends, Ends-pure, Ends-if,
  Ends-bind, keeps_rules,
}
use jfrog_registry_operator.Base.Dict.{Dict, lookup, insert, get_or, keys, lookup-insert}
use jfrog_registry_operator.Api.{GeneratedSecret, SecretRotator, ServiceAccountDetails}
use jfrog_registry_operator.Cluster.Secrets.{SecretStore, Secret, Holds, IsLawful, is_not_found}
use jfrog_registry_operator.Cluster.Objects.{Namespace}
use jfrog_registry_operator.Operations.{TokenDetails}
use jfrog_registry_operator.Operations.Differences.{listed, dropped}
use jfrog_registry_operator.Operations.Outdated.Effect.{delete_outdated_generated_secrets_keeps}
use jfrog_registry_operator.Resource.Writing.{WriteResult, configure, create_or_update_secrets}
use jfrog_registry_operator.Resource.Writing.Effect.{
  SetsController, create_or_update_secrets-result,
}
use jfrog_registry_operator.Resource.Writing.Frame.{
  create_or_update_secrets_other, create_or_update_secrets-fails,
}
use jfrog_registry_operator.Controller.Managing.Foreign.{LeavesSecrets}
use jfrog_registry_operator.Resource.Removal.{delete_outdated_secrets}
use jfrog_registry_operator.Controller.Managing.{
  Scan, scan, scan_one, is_skipped, Progress, noted, note_failures, TokenHandler, with_account,
  write_one, write_all, delete_unlisted, finish, manage_namespace, manage_namespaces,
  managing_secrets,
}

elem-append_one :
    (k name : Text) (l : List Text) → elem k (l ++ (name ∷ [])) ≡ (elem k l || eqb k name)
unfolding elem
elem-append_one k name [] = ground arith
elem-append_one k name (x ∷ l) = ground (arith, elem-append_one k name l)

-- What is listed after a name was added to a namespace.
listed-insert :
    (j k ns name : Text) (m : Dict (List Text))
    → listed (insert ns (get_or [] ns m ++ (name ∷ [])) m) j k ≡ true
    → (listed m j k ≡ true) ⊎ ((j ≡ ns) × (k ≡ name))
unfolding get_or elem lookup
listed-insert j k ns name m h = elim (Bool-cases (eqb j ns && eqb k name)) [
  | inl same ↦ inr (ground (arith, eqb_iff j ns), ground (arith, eqb_iff k name))
  | inr other ↦ inl (
      ground (
        arith,
        lookup-insert ns j (get_or [] ns m ++ (name ∷ [])) m,
        eqb_iff ns j,
        eqb_iff j ns,
        elem-append_one k name (get_or [] ns m),
      ))
]

module _ {S : Type 0} (store : SecretStore S) (lawful : IsLawful store) (j k : Text)
    (T : Text → Type 0) where
  -- The secret was filled in as one of the two types, with a token that satisfies `T`.
  abbrev pub IsFilled : Secret → Type 0
  IsFilled x =
      (d : TokenDetails) × (r : SecretRotator) × (g : GeneratedSecret) × (base : Secret) × T d.token
      × IsNamed g
      × (x ≡ configure d r g.secret_type base)

  abbrev pub IsThere : S → Type 0
  IsThere s = (x : Secret) × (store.stored j k s ≡ some x) × IsFilled x

  -- Where the details list the secret, it is there; those to write are of the two types.
  abbrev pub Truthful : TokenDetails → S → Type 0
  Truthful d s =
      All IsNamed d.generated_secrets
      × (listed d.secret_managed_by_namespaces j k ≡ true → IsThere s)

  abbrev pub MayHold : TokenDetails → Type 0
  MayHold d = (d.token ≡ []) ⊎ T d.token

  -- The handler gives such a token, or keeps the one that is there, and what is managed.
  pub record GivesToken (handling_token : TokenHandler S) : Type 0 where
    pub handling_token-Holds :
        (r : SecretRotator) (d : TokenDetails)
        → MayHold d
        → Gives
            (λ h. T h.1.token × (h.1.secret_managed_by_namespaces ≡ d.secret_managed_by_namespaces))
            (handling_token r d)

  pub moved :
      (d : TokenDetails) (before after : S)
      → store.stored j k after ≡ store.stored j k before
      → Truthful d before
      → Truthful d after
  moved d before after same (named, t) =
      (named, λ h. let (x, held, filled) = t h in (x, same ∙ held, filled))

  pub scan-Keeps :
      (held : Option Secret) (name ns : Text) (secrets : List GeneratedSecret) (found : Scan)
      → Keeps (Holds store j k held) (scan store name ns secrets found)
  unfolding scan scan_one
  scan-Keeps held name ns [] found = Keeps-pure found
  scan-Keeps held name ns (g ∷ rest) found =
      Keeps-bind _ _
        (Keeps-handle _ _ _ (record { at = λ s h. lawful.stored-get ns g.secret_name j k s ∙ h })
          (λ x. search keeps_rules) (λ e. search keeps_rules))
        (λ found'. scan-Keeps held name ns rest found')

  module _ (set_controller_reference : SecretRotator → Secret → Outcome Secret)
      (sets : SetsController set_controller_reference) (handling_token : TokenHandler S)
      (leaves : LeavesSecrets store handling_token) (gives : GivesToken handling_token) where
    -- The progress of one namespace.
    abbrev pub Sound : Progress → S → Type 0
    Sound progress s = T progress.0.token × Truthful progress.0 s

    noted-Sound :
        (r : SecretRotator) (ns : Text) (g : GeneratedSecret) (progress : Progress)
        (result : WriteResult) (s : S)
        → (create_or_update_secrets store set_controller_reference progress.0 r ns g.secret_name
            g.secret_type s).0
          ≡ ok result
        → IsNamed g
        → Sound progress s
        → Sound
            (noted ns g progress result)
            (create_or_update_secrets store set_controller_reference progress.0 r ns g.secret_name
              g.secret_type s).1
    unfolding noted
    noted-Sound r ns g (d, failed) (none, flag) s done of_type (held, t) =
        elim (Bool-cases (eqb j ns && eqb k g.secret_name)) [
          | inl same ↦ (
            held,
            (
              t.0,
              λ h.
                  let (plain, (base, there, origin)) =
                    create_or_update_secrets-result store lawful set_controller_reference sets d r
                      ns g.secret_name g.secret_type s flag done in
                  let in_ns : j ≡ ns = ground (arith, eqb_iff j ns) in
                  let named : k ≡ g.secret_name = ground (arith, eqb_iff k g.secret_name) in
                  (
                    configure d r g.secret_type base,
                    rw (in_ns, named) there,
                    (d, r, g, base, held, of_type, refl),
                  ),
            ),
          )
          | inr other ↦ (
            held,
            (
              t.0,
              λ h.
                  (moved d s _
                      (create_or_update_secrets_other store lawful j k (store.stored j k s)
                        set_controller_reference sets d r ns g.secret_name g.secret_type
                        (ne_pair j ns k g.secret_name other) s refl)
                      t).1
                    (ground (
                      arith,
                      listed-insert j k ns g.secret_name d.secret_managed_by_namespaces h,
                      eqb_iff j ns,
                      eqb_iff k g.secret_name,
                    )),
            ),
          )
        ]
    noted-Sound r ns g (d, failed) (some e, true) s done of_type (held, t) = (
      held,
      moved d s _
          (create_or_update_secrets-fails store lawful j k set_controller_reference d r ns
            g.secret_name g.secret_type s e true done)
          t,
    )
    noted-Sound r ns g (d, failed) (some e, false) s done of_type (held, t) = (
      held,
      moved d s _
          (create_or_update_secrets-fails store lawful j k set_controller_reference d r ns
            g.secret_name g.secret_type s e false done)
          t,
    )

    write_one-Ends :
        (r : SecretRotator) (ns : Text) (skipped : Dict Text) (g : GeneratedSecret)
        (progress : Progress)
        → IsNamed g
        → Ends
            (Sound progress)
            Sound
            (write_one store set_controller_reference handling_token r ns skipped g progress)
    unfolding write_one
    write_one-Ends r ns skipped g progress of_type =
        Ends-if (is_skipped skipped ns g.secret_name) _ _ (Ends-pure progress (λ s h. h)) (
          Ends-bind _ _
            (record {
              at = λ s sound result done. noted-Sound r ns g progress result s done of_type sound;
            })
            (λ result. Ends-pure (noted ns g progress result) (λ s h. h)))

    pub write_all-Ends :
        (r : SecretRotator) (ns : Text) (skipped : Dict Text) (secrets : List GeneratedSecret)
        (progress : Progress)
        → All IsNamed secrets
        → Ends
            (Sound progress)
            Sound
            (write_all store set_controller_reference handling_token r ns skipped secrets progress)
    unfolding write_all
    write_all-Ends r ns skipped [] progress named = Ends-pure progress (λ s h. h)
    write_all-Ends r ns skipped (g ∷ rest) progress named =
        Ends-bind _ _ (write_one-Ends r ns skipped g progress named.0)
          (λ progress'. write_all-Ends r ns skipped rest progress' named.1)
