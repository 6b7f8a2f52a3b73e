-- ===== src/Operations/Validate/Address.antt =====
-- What is left of the URL of Artifactory.
use jfrog_registry_operator.Base.{
  suc, zero, take-append-drop, ℕ, eqb_refl, Text, str, eqb, eqb_iff, [], ◌∷◌, ◌++◌, Bool, true,
  false, ltb, ◌&&◌, take, drop, length, Bool-cases, ◌≡◌, refl, ap, sym, ◌∙◌, ◌≢◌, inl, inr, ◌⊎◌,
  arith, if◌then◌else◌,
}
use jfrog_registry_operator.Operations.Validate.{trim_scheme}

-- A scheme in front of a host.
abbrev pub HasScheme : Text → Text → Type 0
HasScheme url host = (host ≢ []) × ((url ≡ str "https://" ++ host) ⊎ (url ≡ str "http://" ++ host))

-- A scheme in front of a host goes; anything else is kept, also a scheme with nothing behind it.
abbrev pub IsHost : Text → Text → Type 0
IsHost url host = HasScheme url host ⊎ ((host ≡ url) × ((rest : Text) → ¬ (HasScheme url rest)))

abbrev starts : Text → Text → Bool
starts scheme url = ltb (length scheme) (length url) && eqb (take (length scheme) url) scheme

drop_more : (n : ℕ) (url : Text) → ltb n (length url) ≡ true → drop n url ≢ []
drop_more zero [] h e = ground arith
drop_more zero (c ∷ url) h e = ground arith
drop_more (suc n) [] h e = ground arith
drop_more (suc n) (c ∷ url) h e = drop_more n url (ground arith) e

starts-elim :
    (scheme url : Text)
    → starts scheme url ≡ true
    → (drop (length scheme) url ≢ []) × (url ≡ scheme ++ drop (length scheme) url)
starts-elim scheme url h =
    let long : ltb (length scheme) (length url) ≡ true = ground arith in
    let first : take (length scheme) url ≡ scheme =
      ground (arith, eqb_iff (take (length scheme) url) scheme) in
    (
      drop_more (length scheme) url long,
      sym (take-append-drop (length scheme) url) ∙ ap (λ l. l ++ drop (length scheme) url) first,
    )

starts-intro : (scheme : Text) (rest : Text) → rest ≢ [] → starts scheme (scheme ++ rest) ≡ true
starts-intro scheme [] h = absurd (h refl)
starts-intro [] (c ∷ rest) h = ground (arith, eqb_refl [])
starts-intro (a ∷ scheme) (c ∷ rest) h = ground (
  arith,
  starts-intro scheme (c ∷ rest) h,
  eqb_iff (take (length scheme) (scheme ++ (c ∷ rest))) scheme,
  eqb_refl (a ∷ scheme),
)

not_starts :
    (scheme url rest : Text) → starts scheme url ≡ false → rest ≢ [] → ¬ (url ≡ scheme ++ rest)
not_starts scheme url rest h more e =
    let yes : starts scheme url ≡ true = ap (starts scheme) e ∙ starts-intro scheme rest more in cc

trim_scheme_by_starts :
    (url : Text)
    → trim_scheme url ≡ (
        if starts (str "https://") url
        then drop 8 url
        else if starts (str "http://") url
        then drop 7 url
        else url)
unfolding trim_scheme str
trim_scheme_by_starts url = refl

-- What is left is the host of the URL.
pub trim_scheme-IsHost : (url : Text) → IsHost url (trim_scheme url)
unfolding str
trim_scheme-IsHost url = elim (Bool-cases (starts (str "https://") url)) [
  | inl https ↦
      let (more, eq) = starts-elim (str "https://") url https in
      rw (trim_scheme_by_starts url, https) (inl (more, inl eq))
  | inr no_https ↦ elim (Bool-cases (starts (str "http://") url)) [
    | inl http ↦
        let (more, eq) = starts-elim (str "http://") url http in
        rw (trim_scheme_by_starts url, no_https, http) (inl (more, inr eq))
    | inr no_http ↦
        rw (trim_scheme_by_starts url, no_https, no_http)
          (inr (
            refl,
            λ rest (more, either). elim either [
              | inl e ↦ not_starts (str "https://") url rest no_https more e
              | inr e ↦ not_starts (str "http://") url rest no_http more e
            ],
          ))
  ]
]
