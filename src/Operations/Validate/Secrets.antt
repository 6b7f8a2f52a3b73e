-- ===== src/Operations/Validate/Secrets.antt =====
-- Which lists of secrets are accepted.
use jfrog_registry_operator.Base.{
  Text, eqb_iff, elem, List, [], ◌∷◌, false, ok, All, Distinct, ◌≡◌, refl, ◌≢◌, ◌↔◌, ◌⊎◌, arith,
}
use jfrog_registry_operator.Api.{GeneratedSecret}
use jfrog_registry_operator.Operations.{secret_type_docker, secret_type_generic}
use jfrog_registry_operator.Operations.Validate.{check_each, check_secrets}

-- A secret that has a name and one of the two types.
abbrev pub IsNamed : GeneratedSecret → Type 0
IsNamed g =
    (g.secret_name ≢ [])
    × ((g.secret_type ≡ secret_type_docker) ⊎ (g.secret_type ≡ secret_type_generic))

abbrev pub names : List GeneratedSecret → List Text
names [] = []
names (g ∷ rest) = g.secret_name ∷ names rest

-- What the loop asks of each secret in turn.
abbrev IsAdmitted : List Text → List GeneratedSecret → Type 0
IsAdmitted seen [] = Unit
IsAdmitted seen (g ∷ rest) =
    (elem g.secret_name seen ≡ false) × IsNamed g × IsAdmitted (g.secret_name ∷ seen) rest

check_each-IsAdmitted :
    (seen : List Text) (l : List GeneratedSecret) → check_each seen l ≡ ok tt → IsAdmitted seen l
unfolding check_each
check_each-IsAdmitted seen [] h = tt
check_each-IsAdmitted seen (g ∷ rest) h = ground (
  arith,
  eqb_iff g.secret_name [],
  eqb_iff g.secret_type secret_type_docker,
  eqb_iff g.secret_type secret_type_generic,
  check_each-IsAdmitted (g.secret_name ∷ seen) rest,
)

check_each_of_admitted :
    (seen : List Text) (l : List GeneratedSecret) → IsAdmitted seen l → check_each seen l ≡ ok tt
unfolding check_each
check_each_of_admitted seen [] h = refl
check_each_of_admitted seen (g ∷ rest) h = ground (
  arith,
  eqb_iff g.secret_name [],
  eqb_iff g.secret_type secret_type_docker,
  eqb_iff g.secret_type secret_type_generic,
  check_each_of_admitted (g.secret_name ∷ seen) rest,
)

-- None of the names has been seen.
abbrev Unseen : List Text → List Text → Type 0
Unseen seen = All (λ n. elem n seen ≡ false)

Unseen-cons :
    (n : Text) (seen ns : List Text) → Unseen (n ∷ seen) ns → (elem n ns ≡ false) × Unseen seen ns
unfolding elem
Unseen-cons n seen [] h = (refl, tt)
Unseen-cons n seen (m ∷ ns) h = ground (arith, eqb_iff m n, eqb_iff n m, Unseen-cons n seen ns h.1)

Unseen-of_cons :
    (n : Text) (seen ns : List Text) → elem n ns ≡ false → Unseen seen ns → Unseen (n ∷ seen) ns
unfolding elem
Unseen-of_cons n seen [] a h = tt
Unseen-of_cons n seen (m ∷ ns) a h =
    ground (arith, eqb_iff m n, eqb_iff n m, Unseen-of_cons n seen ns)

abbrev IsAccepted : List Text → List GeneratedSecret → Type 0
IsAccepted seen l = Unseen seen (names l) × Distinct (names l) × All IsNamed l

IsAdmitted-IsAccepted :
    (seen : List Text) (l : List GeneratedSecret) → IsAdmitted seen l → IsAccepted seen l
IsAdmitted-IsAccepted seen [] h = (tt, tt, tt)
IsAdmitted-IsAccepted seen (g ∷ rest) h =
    let (unseen, distinct, named) = IsAdmitted-IsAccepted (g.secret_name ∷ seen) rest h.2 in
    let (fresh, others) = Unseen-cons g.secret_name seen (names rest) unseen in
    ((h.0, others), (fresh, distinct), (h.1, named))

IsAccepted-IsAdmitted :
    (seen : List Text) (l : List GeneratedSecret) → IsAccepted seen l → IsAdmitted seen l
IsAccepted-IsAdmitted seen [] h = tt
IsAccepted-IsAdmitted seen (g ∷ rest) h = (
  h.0.0,
  h.2.0,
  IsAccepted-IsAdmitted (g.secret_name ∷ seen) rest
      (Unseen-of_cons g.secret_name seen (names rest) h.1.0 h.0.1, h.1.1, h.2.1),
)

nothing_seen : (ns : List Text) → Unseen [] ns
unfolding elem
nothing_seen [] = tt
nothing_seen (n ∷ ns) = (refl, nothing_seen ns)

-- A list of secrets passes exactly when it is not empty, no name stands twice, and every secret has
-- a name and the type `docker` or `generic`.
pub check_secrets_iff :
    (l : List GeneratedSecret)
    → (check_secrets l ≡ ok tt) ↔ ((l ≢ []) × Distinct (names l) × All IsNamed l)
unfolding check_secrets
check_secrets_iff [] = (λ h. cc, λ h. absurd (h.0 refl))
check_secrets_iff (g ∷ rest) = (
  λ h.
      let (_, distinct, named) =
        IsAdmitted-IsAccepted [] (g ∷ rest) (check_each-IsAdmitted [] (g ∷ rest) h) in
      ((λ e. cc), distinct, named),
  λ h.
      check_each_of_admitted [] (g ∷ rest)
        (IsAccepted-IsAdmitted [] (g ∷ rest) (nothing_seen (names (g ∷ rest)), h.1, h.2)),
)
