-- ===== src/Resource/Certs.antt =====
-- internal/resource/secret.go, `HandleCerts`: the certificates of a secret, as files of the container.
use jfrog_registry_operator.Base.{
  Text, str, eqb, [], ◌∷◌, ◌++◌, Bool, true, ◌||◌, Done, ◌≡◌, if◌then◌else◌,
}
use jfrog_registry_operator.Base.Dict.{Dict}
use jfrog_registry_operator.Base.Exec.{
  Exec, pure, ◌>>=◌, ◌>>◌, Keeps, Keeps-pure, Keeps-bind, Keeps-then, Keeps-if_on,
}
use jfrog_registry_operator.Api.{
  custom_certificate_path, cert_pem, key_pem, ca_pem, tls_crt, tls_key, tls_ca,
}
use jfrog_registry_operator.Cluster.Secrets.{SecretStore}
use jfrog_registry_operator.Cluster.Objects.{Files}

unfoldable pub is_supported : Text → Bool
is_supported key =
    let file = str "/" ++ key in
    eqb file ca_pem
    || (eqb file cert_pem
        || (eqb file key_pem || (eqb file tls_key || (eqb file tls_crt || eqb file tls_ca))))

-- The directory of a rotator's certificates.
abbrev pub certificate_dir : Text → Text
certificate_dir secret_rotator_name = custom_certificate_path ++ secret_rotator_name

module _ {S : Type 0} (files : Files S) where
  -- The range over the content. A key that is not supported is only logged.
  unfoldable pub copy_certs : Text → Dict Text → Exec S Done
  copy_certs dir [] = pure tt
  copy_certs dir ((key, value) ∷ rest) =
      let later = copy_certs dir rest in
      if is_supported key then files.create_file (dir ++ (str "/" ++ key)) value >> later else later

  unfoldable pub handle_certs : SecretStore S → Text → Text → Text → Exec S Done
  handle_certs store namespace secret_name secret_rotator_name =
      store.get namespace secret_name >>= λ secret.
      files.create_dir (certificate_dir secret_rotator_name)
      >> copy_certs (certificate_dir secret_rotator_name) secret.content

  module _ (P : S → Type 0) (dir : Text)
      (written : (key value : Text)
        → is_supported key ≡ true
        → Keeps P (files.create_file (dir ++ (str "/" ++ key)) value)) where
    copy_certs-Keeps : (content : Dict Text) → Keeps P (copy_certs dir content)
    unfolding copy_certs
    copy_certs-Keeps [] = Keeps-pure tt
    copy_certs-Keeps ((key, value) ∷ rest) =
        Keeps-if_on (is_supported key) _ _
          (λ supported. Keeps-then _ _ (written key value supported) (copy_certs-Keeps rest))
          (λ _. copy_certs-Keeps rest)

  -- The certificates reach no file but those of the six supported names in the directory of the
  -- rotator: what reading the secret, making the directory and writing any of these files keep true
  -- is true after the copy, whatever it ends in.
  pub handle_certs_keeps :
      (store : SecretStore S) (P : S → Type 0) (namespace name rotator : Text) (s : S)
      → Keeps P (store.get namespace name)
      → Keeps P (files.create_dir (certificate_dir rotator))
      → ((key value : Text)
          → is_supported key ≡ true
          → Keeps P (files.create_file (certificate_dir rotator ++ (str "/" ++ key)) value))
      → P s
      → P (handle_certs store namespace name rotator s).1
  unfolding handle_certs
  handle_certs_keeps store P namespace name rotator s read made written h =
      (Keeps-bind _ _ read (λ secret.
          Keeps-then _ _ made
            (copy_certs-Keeps P (certificate_dir rotator) written secret.content))).at
        s h
