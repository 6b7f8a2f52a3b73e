-- ===== src/Resource/Removal/Effect.antt =====
-- Which secrets the removal touches.
use jfrog_registry_operator.Base.Exec.{
  Keeps-if_on, Keeps-handle_on, Keeps, Keeps-pure, Keeps-raise, Keeps-handle, Keeps-bind, Keeps-if,
}
use jfrog_registry_operator.Base.{
  All, Text, eqb, eqb_iff, elem, List, [], ◌∷◌, Bool, false, not, keep, ◌&&◌, GoError, Option, some,
  ok, ◌≡◌, refl, ◌⊎◌, inl, inr, ◌≢◌, arith, Bool-cases, ne_pair, ◌∙◌, sym,
}
use jfrog_registry_operator.Base.Dict.{Dict}
use jfrog_registry_operator.Api.{GeneratedSecret}
use jfrog_registry_operator.Cluster.Secrets.{SecretStore, Secret, Holds, IsLawful, is_not_found}
use jfrog_registry_operator.Cluster.Objects.{Namespace}
use jfrog_registry_operator.Operations.{TokenDetails}
use jfrog_registry_operator.Resource.Ownership.{is_secret_owned_by}
use jfrog_registry_operator.Resource.Removal.{
  namespace_names, get_removed_namespaces, delete_secret, delete_noted, delete_in_namespace,
  delete_in_namespaces, delete_outdated_secrets,
}

elem-keep : (p : Text → Bool) (x : Text) (l : List Text) → elem x (keep p l) ≡ (elem x l && p x)
unfolding elem
elem-keep p x [] = refl
elem-keep p x (y ∷ l) = elim (Bool-cases (eqb x y)) [
  | inl same ↦
      let e : x ≡ y = (eqb_iff x y).0 same in
      rw (← e) (ground (arith, elem-keep p x l, eqb_iff x x))
  | inr other ↦ ground (arith, elem-keep p x l)
]

All-of {ℓ κ} : {A : Type ℓ} (P : A → Type κ) → ((a : A) → P a) → (l : List A) → All P l
All-of P h [] = tt
All-of P h (a ∷ l) = (h a, All-of P h l)

All-of_absent :
    (x : Text) (P : Text → Type 0)
    → ((y : Text) → x ≢ y → P y)
    → (l : List Text) → elem x l ≡ false
    → All P l
unfolding elem
All-of_absent x P h [] absent = tt
All-of_absent x P h (y ∷ l) absent =
    (h y (λ e. ground (arith, eqb_iff x y)), All-of_absent x P h l (ground arith))

-- A namespace is removed exactly when it was provisioned and is not selected now.
pub elem-get_removed_namespaces :
    (ns : Text) (current : List Namespace) (provisioned : List Text)
    → elem ns (get_removed_namespaces current provisioned)
      ≡ (elem ns provisioned && not (elem ns (namespace_names current)))
unfolding get_removed_namespaces
elem-get_removed_namespaces ns current provisioned = elem-keep _ ns provisioned

module _ {S : Type 0} (store : SecretStore S) (lawful : IsLawful store) (j k : Text) where
  get-Keeps :
      (ns name : Text) (held : Option Secret) → Keeps (Holds store j k held) (store.get ns name)
  get-Keeps ns name held = record { at = λ s h. lawful.stored-get ns name j k s ∙ h }

  delete-Keeps :
      (ns name : Text) (held : Option Secret)
      → (j ≢ ns) ⊎ (k ≢ name)
      → Keeps (Holds store j k held) (store.delete ns name)
  delete-Keeps ns name held apart = record {
    at = λ s h. lawful.stored-delete_other ns name j k s apart ∙ h;
  }

  -- What is deleted is the secret that was read, if the rotator owns it. So a secret stays when it
  -- is not the one that was asked for, or when it is known and not owned.
  abbrev IsSafe : Text → Text → Text → Option Secret → Type 0
  IsSafe rotator ns name held =
      ((j ≢ ns) ⊎ (k ≢ name))
      ⊎ ((x : Secret) × (held ≡ some x) × (is_secret_owned_by x rotator ≡ false))

  -- What the read secret is known to be.
  abbrev IsRead : Text → Text → Option Secret → Secret → Type 0
  IsRead ns name held y =
      (y.namespace ≡ ns) × (y.name ≡ name) × (((j ≢ ns) ⊎ (k ≢ name)) ⊎ (held ≡ some y))

  read_lem :
      (ns name : Text) (held : Option Secret) (s : S) (y : Secret)
      → Holds store j k held s
      → (store.get ns name s).0 ≡ ok y
      → IsRead ns name held y
  read_lem ns name held s y h e =
      let (in_ns, named) = lawful.get-named ns name s y e in
      (
        in_ns,
        named,
        elim (Bool-cases (eqb j ns && eqb k name)) [
          | inl same ↦ inr (
              sym h
              ∙ (let n : j ≡ ns = ground (arith, eqb_iff j ns) in
                  let m : k ≡ name = ground (arith, eqb_iff k name) in
                  rw (n, m) (lawful.get-ok ns name s y e)))
          | inr other ↦ inl (ne_pair j ns k name other)
        ],
      )

  not_held :
      (ns name rotator : Text) (held : Option Secret) (y : Secret)
      → IsSafe rotator ns name held
      → IsRead ns name held y
      → not (is_secret_owned_by y rotator) ≡ false
      → (j ≢ y.namespace) ⊎ (k ≢ y.name)
  not_held ns name rotator held y (inl (inl apart)) read owned = inl (λ e. apart (e ∙ read.0))
  not_held ns name rotator held y (inl (inr apart)) read owned = inr (λ e. apart (e ∙ read.1))
  not_held ns name rotator held y (inr (x, there, foreign)) (placed, _, inl (inl apart)) owned =
      inl (λ e. apart (e ∙ placed))
  not_held ns name rotator held y (inr (x, there, foreign)) (_, named, inl (inr apart)) owned =
      inr (λ e. apart (e ∙ named))
  not_held ns name rotator held y (inr (x, there, foreign)) (_, _, inr same) owned =
      absurd (ground (arith, sym same ∙ there))

  delete_secret_safe :
      (name rotator ns ty : Text) (held : Option Secret)
      → IsSafe rotator ns name held
      → Keeps (Holds store j k held) (delete_secret store name rotator ns ty)
  unfolding delete_secret
  delete_secret_safe name rotator ns ty held safe =
      Keeps-handle_on (IsRead ns name held) _ _ _ (λ s y h e. read_lem ns name held s y h e)
        (get-Keeps ns name held)
        (λ y read.
          Keeps-if_on (not (is_secret_owned_by y rotator)) _ _ (λ _. Keeps-pure tt)
            (λ owned.
              Keeps-handle _ _ _
                (delete-Keeps y.namespace y.name held
                  (not_held ns name rotator held y safe read owned))
                (λ _. Keeps-pure tt) (λ e. Keeps-raise _)))
        (λ e. Keeps-if (is_not_found e) _ _ (Keeps-pure tt) (Keeps-raise _))

  delete_noted_safe :
      (rotator ns : Text) (g : GeneratedSecret) (failed : Dict GoError) (held : Option Secret)
      → IsSafe rotator ns g.secret_name held
      → Keeps (Holds store j k held) (delete_noted store rotator ns g failed)
  unfolding delete_noted
  delete_noted_safe rotator ns g failed held safe =
      Keeps-if (eqb g.secret_name []) _ _ (Keeps-pure failed) (
        Keeps-handle _ _ _ (delete_secret_safe g.secret_name rotator ns g.secret_type held safe)
          (λ _. Keeps-pure failed) (λ e. Keeps-pure _))

  -- All the secrets of a namespace are safe.
  abbrev AllSafe : Text → Option Secret → Text → List GeneratedSecret → Type 0
  AllSafe rotator held ns = All (λ g. IsSafe rotator ns g.secret_name held)

  delete_in_namespace_safe :
      (rotator ns : Text) (secrets : List GeneratedSecret) (failed : Dict GoError)
      (held : Option Secret)
      → AllSafe rotator held ns secrets
      → Keeps (Holds store j k held) (delete_in_namespace store rotator ns secrets failed)
  unfolding delete_in_namespace
  delete_in_namespace_safe rotator ns [] failed held safe = Keeps-pure failed
  delete_in_namespace_safe rotator ns (g ∷ rest) failed held safe =
      Keeps-bind _ _ (delete_noted_safe rotator ns g failed held safe.0)
        (λ noted. delete_in_namespace_safe rotator ns rest noted held safe.1)

  delete_in_namespaces_safe :
      (rotator : Text) (secrets : List GeneratedSecret) (removed : List Text)
      (failed : Dict GoError) (held : Option Secret)
      → All (λ ns. AllSafe rotator held ns secrets) removed
      → Keeps (Holds store j k held) (delete_in_namespaces store rotator secrets removed failed)
  unfolding delete_in_namespaces
  delete_in_namespaces_safe rotator secrets [] failed held safe = Keeps-pure failed
  delete_in_namespaces_safe rotator secrets (ns ∷ rest) failed held safe =
      Keeps-bind _ _ (delete_in_namespace_safe rotator ns secrets failed held safe.0)
        (λ noted. delete_in_namespaces_safe rotator secrets rest noted held safe.1)

  -- A secret that is there and that the rotator does not own is as it was.
  pub delete_outdated_secrets_foreign :
      (details : TokenDetails) (rotator : Text) (provisioned : List Text) (s : S) (x : Secret)
      → store.stored j k s ≡ some x
      → is_secret_owned_by x rotator ≡ false
      → store.stored j k (delete_outdated_secrets store details rotator provisioned s).1 ≡ some x
  unfolding delete_outdated_secrets
  delete_outdated_secrets_foreign details rotator provisioned s x there foreign =
      (delete_in_namespaces_safe rotator details.generated_secrets _ [] (some x)
          (All-of _ (λ ns. All-of _ (λ g. inr (x, refl, foreign)) details.generated_secrets) _)).at
        s there

  -- A secret of a namespace that is still selected, or was not provisioned, is as it was.
  pub delete_outdated_secrets_selected :
      (details : TokenDetails) (rotator : Text) (provisioned : List Text) (s : S)
      → (elem j provisioned && not (elem j (namespace_names details.namespace_list))) ≡ false
      → store.stored j k (delete_outdated_secrets store details rotator provisioned s).1
        ≡ store.stored j k s
  unfolding delete_outdated_secrets
  delete_outdated_secrets_selected details rotator provisioned s kept =
      (delete_in_namespaces_safe rotator details.generated_secrets _ [] (store.stored j k s) (
          All-of_absent j _ (λ ns apart. All-of _ (λ g. inl (inl apart)) details.generated_secrets)
            _ (elem-get_removed_namespaces j details.namespace_list provisioned ∙ kept))).at
        s refl
