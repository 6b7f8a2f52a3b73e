-- ===== src/Handler/Identity/RoleName.antt =====
-- Which ARNs of roles the session duration is looked up for.
use jfrog_registry_operator.Base.{
  ℕ, Text, str, Bool, true, false, [], ◌∷◌, ◌++◌, List, ok, err, plain, ◌≡◌, ◌≢◌, refl, arith,
  Lacks, split_at, ◌==◌, if◌then◌else◌,
}
use jfrog_registry_operator.Handler.Identity.{second_of_two, role_name_of}

-- A text without the separator is one part, and the separator ends the first part.
split_at-Lacks : (b : ℕ) (s : Text) → Lacks b s → split_at b s ≡ s ∷ []
unfolding split_at
split_at-Lacks b [] h = refl
split_at-Lacks b (c ∷ s) h = ground (arith, split_at-Lacks b s h.1)

split_at-append : (b : ℕ) (s t : Text) → Lacks b s → split_at b (s ++ b ∷ t) ≡ s ∷ split_at b t
unfolding split_at
split_at-append b [] t h = ground arith
split_at-append b (c ∷ s) t h = ground (arith, split_at-append b s t h.1)

-- An ARN whose only slash stands in front of the name of the role gives that name.
pub role_name_of-name :
    (before name : Text)
    → Lacks b'/' before
    → Lacks b'/' name
    → role_name_of (before ++ b'/' ∷ name) ≡ ok name
unfolding role_name_of
role_name_of-name before name h k =
    rw (split_at-append b'/' before name h, split_at-Lacks b'/' name k)
      (unfold second_of_two in refl)

split_step-ne-nil :
    (here : Bool) (c : ℕ) (rest : List Text)
    → (if here
        then [] ∷ rest
        else elim rest [ [] ↦ (c ∷ []) ∷ [] | part ∷ parts ↦ (c ∷ part) ∷ parts ])
      ≢ []
split_step-ne-nil true c rest h = cc
split_step-ne-nil false c [] h = cc
split_step-ne-nil false c (part ∷ parts) h = cc

split_at-ne-nil : (b : ℕ) (s : Text) → split_at b s ≢ []
unfolding split_at
split_at-ne-nil b [] h = cc
split_at-ne-nil b (c ∷ s) h = split_step-ne-nil (c == b) c (split_at b s) h

second_of_more :
    (before part : Text) (parts : List Text)
    → parts ≢ []
    → second_of_two (before ∷ part ∷ parts) ≡ err (plain (str "role arn is not valid"))
unfolding second_of_two
second_of_more before part [] h = absurd (h refl)
second_of_more before part (p ∷ parts) h = refl

-- An ARN of a role with a path is refused, whatever the role's name is.
pub role_name_of-path :
    (before path name : Text)
    → Lacks b'/' before
    → Lacks b'/' path
    → role_name_of (before ++ b'/' ∷ (path ++ b'/' ∷ name))
      ≡ err (plain (str "role arn is not valid"))
unfolding role_name_of
role_name_of-path before path name h k =
    rw (split_at-append b'/' before (path ++ b'/' ∷ name) h, split_at-append b'/' path name k)
      (second_of_more before path (split_at b'/' name) (split_at-ne-nil b'/' name))
