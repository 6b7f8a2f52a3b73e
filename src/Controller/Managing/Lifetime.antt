-- ===== src/Controller/Managing/Lifetime.antt =====
-- The lifetime of the token while the secrets are managed.
use jfrog_registry_operator.Base.Int.{ℤ}
use jfrog_registry_operator.Base.{ℕ, Text, List, [], ◌∷◌, Outcome, ◌≡◌, ◌≢◌, ◌≤◌, ◌⊎◌, inr, refl}
use jfrog_registry_operator.Base.Exec.{Gives, Gives-pure, Gives-bind, Gives-then, Gives-any}
use jfrog_registry_operator.Api.{SecretRotator}
use jfrog_registry_operator.Cluster.Secrets.{SecretStore, Secret}
use jfrog_registry_operator.Cluster.Objects.{Namespace}
use jfrog_registry_operator.Operations.{TokenDetails}
use jfrog_registry_operator.Controller.Managing.{
  TokenHandler, finish, manage_namespace, manage_namespaces, managing_secrets,
}
use jfrog_registry_operator.Controller.Managing.Notes.{
  IgnoresNotes, note_failures-Keeps, write_all-Keeps,
}

-- From an hour to twelve hours, as IAM allows for the sessions of a role.
abbrev pub InRange : ℕ → Type 0
InRange n = (3600 ≤ n) × (n ≤ 43200)

-- A lifetime that satisfies `Q`, which is known once there is a token.
module _ (Q : ℕ → Type 0) where
  abbrev pub Lasts : TokenDetails → Type 0
  Lasts d = Q d.ttl_in_seconds

  abbrev pub MayLast : TokenDetails → Type 0
  MayLast d = (d.token ≡ []) ⊎ Lasts d

  Lasts-IgnoresNotes : IgnoresNotes Lasts
  Lasts-IgnoresNotes = record { managed = λ d m h. h; failed = λ d m h. h }

  -- The handler asks for a token of such a lifetime, or keeps the one that is there.
  pub record GivesLasting {S : Type 0} (handling_token : TokenHandler S) : Type 0 where
    pub handling_token-Lasts :
        (r : SecretRotator) (d : TokenDetails)
        → MayLast d
        → Gives (λ h. Lasts h.1) (handling_token r d)

  module _ {S : Type 0} (store : SecretStore S)
      (set_controller_reference : SecretRotator → Secret → Outcome Secret)
      (handling_token : TokenHandler S) (gives : GivesLasting handling_token) where
    finish-Lasts :
        (r : SecretRotator) (ns : Text) (d : TokenDetails)
        → Lasts d
        → Gives (λ now. Lasts now.1) (finish store set_controller_reference handling_token r ns d)
    unfolding finish
    finish-Lasts r ns d lasting = Gives-then _ _ (Gives-any _) (λ _ _. Gives-pure _ lasting)

    manage_namespace-Lasts :
        (ns : Namespace) (r : SecretRotator) (d : TokenDetails)
        → MayLast d
        → Gives
            (λ now. Lasts now.1)
            (manage_namespace store set_controller_reference handling_token ns (r, d))
    unfolding manage_namespace
    manage_namespace-Lasts ns r d may = Gives-bind _ _ (Gives-any _) (λ found _.
        Gives-bind _ _ (gives.handling_token-Lasts r d may) (λ handled lasting.
          Gives-bind _ _
            (write_all-Keeps Lasts Lasts-IgnoresNotes store set_controller_reference handling_token
              _ ns.name found.1 _ _ lasting)
            (λ progress lasting'.
              finish-Lasts _ ns.name _
                (note_failures-Keeps Lasts Lasts-IgnoresNotes ns.name progress lasting'))))

    manage_namespaces-Lasts :
        (namespaces : List Namespace) (now : SecretRotator × TokenDetails)
        → Lasts now.1
        → Gives
            (λ next. Lasts next.1)
            (manage_namespaces store set_controller_reference handling_token namespaces now)
    unfolding manage_namespaces
    manage_namespaces-Lasts [] now h = Gives-pure now h
    manage_namespaces-Lasts (ns ∷ rest) (r, d) lasting =
        Gives-bind _ _ (manage_namespace-Lasts ns r d (inr lasting))
          (λ next h. manage_namespaces-Lasts rest next h)

    -- There is a namespace, so the handler has run.
    manage_some-Lasts :
        (namespaces : List Namespace) (r : SecretRotator) (d : TokenDetails)
        → namespaces ≢ []
        → MayLast d
        → Gives
            (λ next. Lasts next.1)
            (manage_namespaces store set_controller_reference handling_token namespaces (r, d))
    unfolding manage_namespaces
    manage_some-Lasts [] r d some may = absurd (some refl)
    manage_some-Lasts (ns ∷ rest) r d some may =
        Gives-bind _ _ (manage_namespace-Lasts ns r d may)
          (λ next h. manage_namespaces-Lasts rest next h)

    pub managing_secrets-Lasts :
        (now : ℤ) (r : SecretRotator) (d : TokenDetails)
        → d.namespace_list ≢ []
        → MayLast d
        → Gives
            (λ next. Lasts next.1)
            (managing_secrets store set_controller_reference handling_token now r d)
    unfolding managing_secrets
    managing_secrets-Lasts now r d some may =
        Gives-bind _ _ (Gives-any _) (λ failed _. manage_some-Lasts d.namespace_list r _ some may)
