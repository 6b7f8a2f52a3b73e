-- ===== src/Controller/Managing/Scanned.antt =====
-- What the scan of a namespace finds.
use jfrog_registry_operator.Base.{
  str, ap, Text, eqb, eqb_iff, elem, List, [], ◌∷◌, true, false, not, ◌||◌, none, some, GoError, ok,
  ◌≡◌, ◌≢◌, inl, inr, sym, ◌∙◌, if◌then◌else◌, arith,
}
use jfrog_registry_operator.Base.Dict.{lookup-insert}
use jfrog_registry_operator.Base.Exec.{
  Exec, pure, Keeps, Keeps-pure, Keeps-if, Keeps-handle, Keeps-bind, bind-ok, handle-cases,
}
use jfrog_registry_operator.Api.{GeneratedSecret}
use jfrog_registry_operator.Cluster.Secrets.{SecretStore, Secret, Holds, IsLawful, is_not_found}
use jfrog_registry_operator.Operations.Validate.Secrets.{names}
use jfrog_registry_operator.Resource.Ownership.{is_secret_owned_by}
use jfrog_registry_operator.Controller.Managing.{Scan, skip, scan_one, scan, is_skipped}

some-injective : (y x : Secret) → some y ≡ some x → y ≡ x
some-injective y x h = cc

none-some : (x : Secret) → none ≢ some x
none-some x h = cc

module _ {S : Type 0} (store : SecretStore S) (lawful : IsLawful store) (rotator_name j k : Text)
    (x : Secret) (foreign : is_secret_owned_by x rotator_name ≡ false) where
  abbrev pub Present : S → Type 0
  Present = Holds store j k (some x)

  get-Keeps : (ns name : Text) → Keeps Present (store.get ns name)
  get-Keeps ns name = record { at = λ s h. lawful.stored-get ns name j k s ∙ h }

  scan_one-Keeps :
      (ns : Text) (g : GeneratedSecret) (found : Scan)
      → Keeps Present (scan_one store rotator_name ns g found)
  unfolding scan_one
  scan_one-Keeps ns g found =
      Keeps-handle _ _ _ (get-Keeps ns g.secret_name)
        (λ y. Keeps-if (not (is_secret_owned_by y rotator_name)) _ _ (Keeps-pure _) (Keeps-pure _))
        (λ e. Keeps-if (not (is_not_found e)) _ _ (Keeps-pure _) (Keeps-pure _))

  pub scan-Keeps :
      (ns : Text) (secrets : List GeneratedSecret) (found : Scan)
      → Keeps Present (scan store rotator_name ns secrets found)
  unfolding scan
  scan-Keeps ns [] found = Keeps-pure found
  scan-Keeps ns (g ∷ rest) found =
      Keeps-bind _ _ (scan_one-Keeps ns g found) (λ found'. scan-Keeps ns rest found')

  skip-is_skipped :
      (g : GeneratedSecret) (why ns : Text) (found : Scan)
      → (eqb k g.secret_name || is_skipped found.1 ns k) ≡ true
      → is_skipped (skip ns g why found).1 ns k ≡ true
  unfolding skip is_skipped
  skip-is_skipped g why ns found h = ground (
    arith,
    lookup-insert g.secret_name k ns found.1,
    eqb_iff k g.secret_name,
    eqb_iff g.secret_name k,
  )

  abbrev on_read : GeneratedSecret → Scan → Secret → Exec S Scan
  on_read g found existing =
      if not (is_secret_owned_by existing rotator_name)
      then pure (skip j g (str "not owned by secretrotator, ") found)
      else pure found

  abbrev on_failure : GeneratedSecret → Scan → GoError → Exec S Scan
  on_failure g found e =
      if not (is_not_found e) then pure (skip j g (str "not found, ") found) else pure found

  read-is_skipped :
      (g : GeneratedSecret) (found found' : Scan) (s : S) (y : Secret)
      → (k ≡ g.secret_name → y ≡ x)
      → (on_read g found y s).0 ≡ ok found'
      → (eqb k g.secret_name || is_skipped found.1 j k) ≡ true
      → is_skipped found'.1 j k ≡ true
  unfolding pure
  read-is_skipped g found found' s y at_name done h = ground (
    arith,
    foreign,
    eqb_iff k g.secret_name,
    skip-is_skipped g (str "not owned by secretrotator, ") j found,
  )

  failure-is_skipped :
      (g : GeneratedSecret) (found found' : Scan) (s : S) (e : GoError)
      → (k ≡ g.secret_name → is_not_found e ≢ true)
      → (on_failure g found e s).0 ≡ ok found'
      → (eqb k g.secret_name || is_skipped found.1 j k) ≡ true
      → is_skipped found'.1 j k ≡ true
  unfolding pure
  failure-is_skipped g found found' s e at_name done h =
      ground (arith, eqb_iff k g.secret_name, skip-is_skipped g (str "not found, ") j found)

  -- What was known of the secret before the scan holds after it, and the scan finds it out.
  scan_one-is_skipped :
      (g : GeneratedSecret) (found found' : Scan) (s : S)
      → Present s
      → (scan_one store rotator_name j g found s).0 ≡ ok found'
      → (eqb k g.secret_name || is_skipped found.1 j k) ≡ true
      → is_skipped found'.1 j k ≡ true
  unfolding scan_one
  scan_one-is_skipped g found found' s there done h =
      elim (handle-cases (store.get j g.secret_name) (on_read g found) (on_failure g found) s) [
        | inl (y, read, eq) ↦
            read-is_skipped g found found' _ y
              (λ same. some-injective y x (
                sym (lawful.get-ok j g.secret_name s y read)
                ∙ ap (λ n. store.stored j n s) (sym same)
                ∙ there))
              (ap (λ p. p.0) (sym eq) ∙ done) h
        | inr (inl (e, read, eq)) ↦
            failure-is_skipped g found found' _ e
              (λ same missing. none-some x (
                sym (lawful.get-missing j g.secret_name s e read missing)
                ∙ ap (λ n. store.stored j n s) (sym same)
                ∙ there))
              (ap (λ p. p.0) (sym eq) ∙ done) h
        | inr (inr (read, eq)) ↦ absurd (ground (arith, ap (λ p. p.0) (sym eq) ∙ done))
      ]

  pub scan-is_skipped :
      (secrets : List GeneratedSecret) (found found' : Scan) (s : S)
      → Present s
      → (scan store rotator_name j secrets found s).0 ≡ ok found'
      → (elem k (names secrets) || is_skipped found.1 j k) ≡ true
      → is_skipped found'.1 j k ≡ true
  unfolding scan elem pure
  scan-is_skipped [] found found' s there done h = ground (arith)
  scan-is_skipped (g ∷ rest) found found' s there done h =
      let (found1, first, next) =
        bind-ok (scan_one store rotator_name j g found) (scan store rotator_name j rest) s done in
      scan-is_skipped rest found1 found' _ ((scan_one-Keeps j g found).at s there)
        (ap (λ p. p.0) (sym next) ∙ done)
        (ground (arith, scan_one-is_skipped g found found1 s there first))
