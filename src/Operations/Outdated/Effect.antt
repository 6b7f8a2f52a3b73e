-- ===== src/Operations/Outdated/Effect.antt =====
-- Which secrets the deletion touches, and which are gone after it.
use jfrog_registry_operator.Base.Exec.{
  then-ok, Keeps, Keeps-pure, Keeps-handle, Keeps-then, Keeps-if, Keeps-raise, pure, raise, handle,
}
use jfrog_registry_operator.Base.{
  err, ◌&&◌, Outcome, Distinct, ◌∙◌, Text, elem, eqb, eqb_iff, ok, List, [], ◌∷◌, true, false, Done,
  ◌≡◌, refl, panic, ne_pair, ◌⊎◌, inl, inr, ◌≢◌, Option, none, arith, Bool-cases,
}
use jfrog_registry_operator.Base.Dict.{lookup-elem-keys, Dict, keys, lookup}
use jfrog_registry_operator.Cluster.Secrets.{Holds, SecretStore, Secret, IsLawful, is_not_found}
use jfrog_registry_operator.Operations.Differences.{find_secret_differences, differs, dropped}
use jfrog_registry_operator.Operations.Differences.Dropped.{
  differs-find_secret_differences, differs-unchanged, find_secret_differences-Distinct,
}
use jfrog_registry_operator.Operations.Outdated.{
  delete_one, delete_names, delete_all, delete_outdated_generated_secrets,
}

module _ (j k : Text) where
  apart_head :
      (ns name : Text) (names : List Text)
      → (j ≢ ns) ⊎ (elem k (name ∷ names) ≡ false)
      → (j ≢ ns) ⊎ (k ≢ name)
  unfolding elem
  apart_head ns name names (inl h) = inl h
  apart_head ns name names (inr h) = inr (λ e. ground (arith, eqb_iff k name))

  apart_tail :
      (ns name : Text) (names : List Text)
      → (j ≢ ns) ⊎ (elem k (name ∷ names) ≡ false)
      → (j ≢ ns) ⊎ (elem k names ≡ false)
  unfolding elem
  apart_tail ns name names (inl h) = inl h
  apart_tail ns name names (inr h) = inr (ground arith)

  differs_head :
      (ns : Text) (names : List Text) (rest : Dict (List Text))
      → differs ((ns, names) ∷ rest) j k ≡ false
      → (j ≢ ns) ⊎ (elem k names ≡ false)
  unfolding lookup
  differs_head ns names rest h = elim (Bool-cases (eqb ns j)) [
    | inl same ↦ inr (ground arith)
    | inr other ↦ inl (λ e. ground (arith, eqb_iff ns j))
  ]

  differs_tail :
      (ns : Text) (names : List Text) (rest : Dict (List Text))
      → elem ns (keys rest) ≡ false
      → differs ((ns, names) ∷ rest) j k ≡ false
      → differs rest j k ≡ false
  unfolding lookup
  differs_tail ns names rest fresh h = ground (arith, eqb_iff ns j, lookup-elem-keys ns rest)

module _ {S : Type 0} (store : SecretStore S) (lawful : IsLawful store) (j k : Text)
    (held : Option Secret) where
  Keeps-delete :
      (ns name : Text) → (j ≢ ns) ⊎ (k ≢ name) → Keeps (Holds store j k held) (store.delete ns name)
  Keeps-delete ns name apart = record {
    at = λ s h. lawful.stored-delete_other ns name j k s apart ∙ h;
  }

  Keeps-delete_one :
      (ns name : Text)
      → (j ≢ ns) ⊎ (k ≢ name)
      → Keeps (Holds store j k held) (delete_one store ns name)
  unfolding delete_one
  Keeps-delete_one ns name apart =
      Keeps-handle _ _ _ (Keeps-delete ns name apart) (λ a. Keeps-pure a)
        (λ e. Keeps-if (is_not_found e) _ _ (Keeps-pure tt) (Keeps-raise _))

  Keeps-delete_names :
      (ns : Text) (names : List Text)
      → (j ≢ ns) ⊎ (elem k names ≡ false)
      → Keeps (Holds store j k held) (delete_names store ns names)
  unfolding delete_names elem
  Keeps-delete_names ns [] apart = Keeps-pure tt
  Keeps-delete_names ns (name ∷ names) apart =
      Keeps-then _ _ (Keeps-delete_one ns name (apart_head j k ns name names apart))
        (Keeps-delete_names ns names (apart_tail j k ns name names apart))

  Keeps-delete_all :
      (changes : Dict (List Text))
      → Distinct (keys changes)
      → differs changes j k ≡ false
      → Keeps (Holds store j k held) (delete_all store changes)
  unfolding delete_all keys
  Keeps-delete_all [] distinct absent = Keeps-pure tt
  Keeps-delete_all ((ns, names) ∷ rest) distinct absent =
      Keeps-then _ _ (Keeps-delete_names ns names (differs_head j k ns names rest absent))
        (Keeps-delete_all rest distinct.1 (differs_tail j k ns names rest distinct.0 absent))

module _ {S : Type 0} (store : SecretStore S) (lawful : IsLawful store) (j k : Text) where
  -- Deleting never brings a secret back.
  gone_stays : (ns name : Text) → Keeps (Holds store j k none) (store.delete ns name)
  gone_stays ns name = record { at = λ s h. by_result s h (store.delete ns name s).0 refl }
    where
      by_result :
          (s : S)
          → store.stored j k s ≡ none
          → (r : Outcome Done) → (store.delete ns name s).0 ≡ r
          → store.stored j k (store.delete ns name s).1 ≡ none
      by_result s h (ok d) e = elim (Bool-cases (eqb j ns && eqb k name)) [
        | inl same ↦
            let n : j ≡ ns = ground (arith, eqb_iff j ns) in
            let m : k ≡ name = ground (arith, eqb_iff k name) in
            rw (n, m) (lawful.stored-delete_ok ns name s e)
        | inr other ↦ lawful.stored-delete_other ns name j k s (ne_pair j ns k name other) ∙ h
      ]
      by_result s h (err x) e = lawful.stored-delete_fails ns name j k s (λ q. cc) ∙ h
      by_result s h panic e = lawful.stored-delete_fails ns name j k s (λ q. cc) ∙ h

  gone_stays_one : (ns name : Text) → Keeps (Holds store j k none) (delete_one store ns name)
  unfolding delete_one
  gone_stays_one ns name =
      Keeps-handle _ _ _ (gone_stays ns name) (λ a. Keeps-pure a)
        (λ e. Keeps-if (is_not_found e) _ _ (Keeps-pure tt) (Keeps-raise _))

  gone_stays_names :
      (ns : Text) (names : List Text) → Keeps (Holds store j k none) (delete_names store ns names)
  unfolding delete_names
  gone_stays_names ns [] = Keeps-pure tt
  gone_stays_names ns (name ∷ names) =
      Keeps-then _ _ (gone_stays_one ns name) (gone_stays_names ns names)

  gone_stays_all :
      (changes : Dict (List Text)) → Keeps (Holds store j k none) (delete_all store changes)
  unfolding delete_all
  gone_stays_all [] = Keeps-pure tt
  gone_stays_all ((ns, names) ∷ rest) =
      Keeps-then _ _ (gone_stays_names ns names) (gone_stays_all rest)

  delete_one_gone :
      (s : S)
      → (delete_one store j k s).0 ≡ ok tt
      → store.stored j k (delete_one store j k s).1 ≡ none
  unfolding delete_one handle pure raise
  delete_one_gone s h = by_result (store.delete j k s).0 refl
    where
      by_result :
          (r : Outcome Done)
          → (store.delete j k s).0 ≡ r
          → store.stored j k (delete_one store j k s).1 ≡ none
      by_result (ok d) e = rw e (lawful.stored-delete_ok j k s e)
      by_result (err x) e = elim (Bool-cases (is_not_found x)) [
        | inl missing ↦ ground (
          arith,
          e,
          missing,
          lawful.delete-missing j k s x e missing,
          lawful.stored-delete_fails j k j k s (λ q. cc),
        )
        | inr other ↦ ground (arith, e, other, h)
      ]
      by_result panic e = ground (arith, e, h)

  delete_names_gone :
      (names : List Text) (s : S)
      → (delete_names store j names s).0 ≡ ok tt
      → elem k names ≡ true
      → store.stored j k (delete_names store j names s).1 ≡ none
  unfolding delete_names elem
  delete_names_gone [] s h m = cc
  delete_names_gone (name ∷ names) s h m =
      let (first, next) = then-ok (delete_one store j name) (delete_names store j names) s h in
      rw next (elim (Bool-cases (eqb k name)) [
        | inl same ↦ (gone_stays_names j names).at _ (
            rw (← (eqb_iff k name).0 same)
              (delete_one_gone s (rw (← (eqb_iff k name).0 same) at first)))
        | inr other ↦ delete_names_gone names _ (rw next at h) (ground arith)
      ])

  delete_all_gone :
      (changes : Dict (List Text)) (s : S)
      → (delete_all store changes s).0 ≡ ok tt
      → differs changes j k ≡ true
      → store.stored j k (delete_all store changes s).1 ≡ none
  unfolding delete_all lookup
  delete_all_gone [] s h m = cc
  delete_all_gone ((ns, names) ∷ rest) s h m =
      let (first, next) = then-ok (delete_names store ns names) (delete_all store rest) s h in
      rw next (elim (Bool-cases (eqb ns j)) [
        | inl same ↦
            let n : ns ≡ j = (eqb_iff ns j).0 same in
            (gone_stays_all rest).at _
              (rw n (delete_names_gone names s (rw n at first) (ground arith)))
        | inr other ↦ delete_all_gone rest _ (rw next at h) (ground arith)
      ])

  -- A secret that this reconciliation has not dropped is as it was, whatever the deletion ends in,
  -- where the status lists no namespace twice: it was not listed in the status, or its namespace
  -- has not been managed yet, or it is managed.
  pub delete_outdated_generated_secrets_keeps :
      (managed status : Dict (List Text)) (s : S)
      → Distinct (keys status)
      → dropped managed status j k ≡ false
      → store.stored j k (delete_outdated_generated_secrets store managed status s).1
        ≡ store.stored j k s
  unfolding delete_outdated_generated_secrets pure
  delete_outdated_generated_secrets_keeps managed status s distinct kept =
      elim (Bool-cases (find_secret_differences managed status).1) [
        | inl changed ↦ rw changed (
            (Keeps-delete_all store lawful j k (store.stored j k s) _
                (find_secret_differences-Distinct managed status)
                (differs-find_secret_differences managed status j k distinct ∙ kept)).at
              s refl)
        | inr same ↦ rw same
      ]

  -- After a deletion that succeeded, every secret that this reconciliation has dropped is gone,
  -- where the status lists no namespace twice: it was listed in the status under a namespace that
  -- has been managed, and it has not been managed itself. Nothing is asked about its owner, so a
  -- secret that the rotator does not own goes too.
  pub delete_outdated_generated_secrets_gone :
      (managed status : Dict (List Text)) (s : S)
      → Distinct (keys status)
      → dropped managed status j k ≡ true
      → (delete_outdated_generated_secrets store managed status s).0 ≡ ok tt
      → store.stored j k (delete_outdated_generated_secrets store managed status s).1 ≡ none
  unfolding delete_outdated_generated_secrets
  delete_outdated_generated_secrets_gone managed status s distinct gone done =
      let found : differs (find_secret_differences managed status).0 j k ≡ true =
        differs-find_secret_differences managed status j k distinct ∙ gone in
      elim (Bool-cases (find_secret_differences managed status).1) [
        | inl changed ↦ rw changed (delete_all_gone _ s (rw changed at done) found)
        | inr same ↦ cc (found, differs-unchanged managed status j k same)
      ]
