-- ===== src/Controller/Managing/Notes.antt =====
-- What the writes to one namespace leave as it is in the details.
use jfrog_registry_operator.Base.{Text, List, [], ◌∷◌, true, false, GoError, Outcome, none, some}
use jfrog_registry_operator.Base.Dict.{Dict}
use jfrog_registry_operator.Base.Exec.{Gives, Gives-pure, Gives-if, Gives-bind, Gives-any}
use jfrog_registry_operator.Api.{GeneratedSecret, SecretRotator}
use jfrog_registry_operator.Cluster.Secrets.{SecretStore, Secret}
use jfrog_registry_operator.Operations.{TokenDetails}
use jfrog_registry_operator.Resource.Writing.{WriteResult}
use jfrog_registry_operator.Controller.Managing.{
  is_skipped, Progress, noted, note_failures, TokenHandler, write_one, write_all,
}

-- A predicate that does not depend on what a namespace's writes note.
pub record IgnoresNotes (P : TokenDetails → Type 0) : Type 0 where
  pub managed :
      (d : TokenDetails) (m : Dict (List Text))
      → P d
      → P (record d { secret_managed_by_namespaces = m })
  pub failed : (d : TokenDetails) (m : Dict GoError) → P d → P (record d { failed_namespaces = m })

module _ (P : TokenDetails → Type 0) (ignores : IgnoresNotes P) where
  noted-Keeps :
      (ns : Text) (g : GeneratedSecret) (progress : Progress) (result : WriteResult)
      → P progress.0
      → P (noted ns g progress result).0
  unfolding noted
  noted-Keeps ns g (details, failed) (none, conflict) h = ignores.managed details _ h
  noted-Keeps ns g (details, failed) (some e, true) h = h
  noted-Keeps ns g (details, failed) (some e, false) h = h

  pub note_failures-Keeps :
      (ns : Text) (progress : Progress) → P progress.0 → P (note_failures ns progress)
  unfolding note_failures
  note_failures-Keeps ns (details, []) h = h
  note_failures-Keeps ns (details, m ∷ failed) h = ignores.failed details _ h

  module _ {S : Type 0} (store : SecretStore S)
      (set_controller_reference : SecretRotator → Secret → Outcome Secret)
      (handling_token : TokenHandler S) where
    write_one-Keeps :
        (r : SecretRotator) (ns : Text) (skipped : Dict Text) (g : GeneratedSecret)
        (progress : Progress)
        → P progress.0
        → Gives
            (λ p. P p.0)
            (write_one store set_controller_reference handling_token r ns skipped g progress)
    unfolding write_one
    write_one-Keeps r ns skipped g progress h =
        Gives-if (is_skipped skipped ns g.secret_name) _ _ (λ _. Gives-pure progress h)
          (λ _.
            Gives-bind _ _ (Gives-any _)
              (λ result _. Gives-pure _ (noted-Keeps ns g progress result h)))

    pub write_all-Keeps :
        (r : SecretRotator) (ns : Text) (skipped : Dict Text) (secrets : List GeneratedSecret)
        (progress : Progress)
        → P progress.0
        → Gives
            (λ p. P p.0)
            (write_all store set_controller_reference handling_token r ns skipped secrets progress)
    unfolding write_all
    write_all-Keeps r ns skipped [] progress h = Gives-pure progress h
    write_all-Keeps r ns skipped (g ∷ rest) progress h =
        Gives-bind _ _ (write_one-Keeps r ns skipped g progress h)
          (λ p h'. write_all-Keeps r ns skipped rest p h')
