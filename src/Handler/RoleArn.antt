-- ===== src/Handler/RoleArn.antt =====
-- internal/handler/podidentity.go, `assumedRoleSTSArnToIAMRoleARN`: the ARN of a role from that of one
-- of its sessions.
use jfrog_registry_operator.Base.{
  ℕ, suc, ◌+◌, Text, str, length, take, drop, index, has_prefix, [], ◌∷◌, ◌++◌, true, Bool-cases,
  Option, none, some, plain, Outcome, ok, err, Lacks, ◌==◌, ◌≡◌, refl, inl, inr, ap, ◌∙◌,
  if◌then◌else◌, arith,
}

-- `strings.LastIndex` of one byte.
unfoldable pub last_index_byte : Text → ℕ → Option ℕ
last_index_byte [] b = none
last_index_byte (c ∷ s) b = elim (last_index_byte s b) [
  | some i ↦ some (suc i)
  | none ↦ if c == b then some 0 else none
]

unfoldable pub marker : Text
marker = str ":assumed-role/"

-- The path and the name of the role, before the name of the session.
unfoldable pub role_of_tail : Text → Text → Text → Option ℕ → Outcome Text
role_of_tail sts_arn account_id tail none =
    err (plain (str "invalid assumed-role ARN: " ++ sts_arn))
role_of_tail sts_arn account_id tail (some last_slash) =
    ok (str "arn:aws:iam::" ++ (account_id ++ (str ":role/" ++ take last_slash tail)))

unfoldable pub role_at : Text → Text → Option ℕ → Outcome Text
role_at sts_arn account_id none =
    err (plain (str "caller identity ARN is not an assumed role: " ++ sts_arn))
role_at sts_arn account_id (some i) =
    let tail = drop (i + length marker) sts_arn in
    role_of_tail sts_arn account_id tail (last_index_byte tail b'/')

unfoldable pub assumed_role_sts_arn_to_iam_role_arn : Text → Text → Outcome Text
assumed_role_sts_arn_to_iam_role_arn sts_arn account_id =
    role_at sts_arn account_id (index sts_arn marker)

-- What the last position of a byte splits a text into.
abbrev IsLast : Text → ℕ → Option ℕ → Type 0
IsLast s b none = Lacks b s
IsLast s b (some i) = (s ≡ take i s ++ b ∷ drop (suc i) s) × Lacks b (drop (suc i) s)

IsLast-cons :
    (c : ℕ) (s : Text) (b : ℕ) (r : Option ℕ)
    → IsLast s b r
    → IsLast (c ∷ s) b (elim r [ some i ↦ some (suc i) | none ↦ if c == b then some 0 else none ])
IsLast-cons c s b (some i) h = (ap (λ t. c ∷ t) h.0, h.1)
IsLast-cons c s b none h = elim (Bool-cases (c == b)) [
  | inl same ↦ rw same (ground arith, h)
  | inr other ↦ rw other (ground arith, h)
]

last_index_byte-IsLast : (s : Text) (b : ℕ) → IsLast s b (last_index_byte s b)
unfolding last_index_byte
last_index_byte-IsLast [] b = tt
last_index_byte-IsLast (c ∷ s) b =
    IsLast-cons c s b (last_index_byte s b) (last_index_byte-IsLast s b)

has_prefix-split : (s p : Text) → has_prefix s p ≡ true → s ≡ p ++ drop (length p) s
unfolding has_prefix
has_prefix-split s [] h = refl
has_prefix-split [] (x ∷ p) h = cc
has_prefix-split (c ∷ s) (x ∷ p) h = ground (arith, has_prefix-split s p)

-- What a position of a pattern splits a text into.
abbrev IsFound : Text → Text → Option ℕ → Type 0
IsFound s p none = Unit
IsFound s p (some i) = s ≡ take i s ++ (p ++ drop (i + length p) s)

IsFound-cons :
    (c : ℕ) (s p : Text) (r : Option ℕ)
    → IsFound s p r
    → IsFound (c ∷ s) p (elim r [ none ↦ none | some i ↦ some (suc i) ])
IsFound-cons c s p none h = tt
IsFound-cons c s p (some i) h =
    let e : suc i + length p ≡ suc (i + length p) = omega arith in rw e (ap (λ t. c ∷ t) h)

index-IsFound : (s p : Text) → IsFound s p (index s p)
unfolding index has_prefix
index-IsFound [] [] = refl
index-IsFound [] (x ∷ p) = tt
index-IsFound (c ∷ s) p = elim (Bool-cases (has_prefix (c ∷ s) p)) [
  | inl here ↦
      let z : 0 + length p ≡ length p = omega arith in
      rw (here, z) (has_prefix-split (c ∷ s) p here)
  | inr later ↦ rw later (IsFound-cons c s p (index s p) (index-IsFound s p))
]

-- The parts of the ARN of a session, and the ARN of its role.
abbrev pub IsSessionOf : Text → Text → Text → Type 0
IsSessionOf sts_arn account_id role_arn =
    (before : Text) × (role : Text) × (session : Text) × (sts_arn
      ≡ before ++ (str ":assumed-role/" ++ (role ++ b'/' ∷ session)))
    × Lacks b'/' session
    × (role_arn ≡ str "arn:aws:iam::" ++ (account_id ++ (str ":role/" ++ role)))

role_of_tail-IsSessionOf :
    (sts_arn account_id tail role_arn before : Text) (r : Option ℕ)
    → IsLast tail b'/' r
    → sts_arn ≡ before ++ (marker ++ tail)
    → role_of_tail sts_arn account_id tail r ≡ ok role_arn
    → IsSessionOf sts_arn account_id role_arn
unfolding role_of_tail marker
role_of_tail-IsSessionOf sts_arn account_id tail role_arn before none last e done = cc
role_of_tail-IsSessionOf sts_arn account_id tail role_arn before (some i) last e done = (
  before,
  take i tail,
  drop (suc i) tail,
  e ∙ ap (λ t. before ++ (str ":assumed-role/" ++ t)) last.0,
  last.1,
  cc,
)

role_at-IsSessionOf :
    (sts_arn account_id role_arn : Text) (r : Option ℕ)
    → IsFound sts_arn marker r
    → role_at sts_arn account_id r ≡ ok role_arn
    → IsSessionOf sts_arn account_id role_arn
unfolding role_at
role_at-IsSessionOf sts_arn account_id role_arn none found done = cc
role_at-IsSessionOf sts_arn account_id role_arn (some i) found done =
    role_of_tail-IsSessionOf sts_arn account_id (drop (i + length marker) sts_arn) role_arn
      (take i sts_arn) _ (last_index_byte-IsLast _ b'/') found done

-- Where an ARN of a role comes back, the given one names a session of an assumed role, and what comes
-- back is the role of the account with the same path and name, without the session.
pub assumed_role_sts_arn_to_iam_role_arn_lem :
    (sts_arn account_id role_arn : Text)
    → assumed_role_sts_arn_to_iam_role_arn sts_arn account_id ≡ ok role_arn
    → IsSessionOf sts_arn account_id role_arn
unfolding assumed_role_sts_arn_to_iam_role_arn
assumed_role_sts_arn_to_iam_role_arn_lem sts_arn account_id role_arn done =
    role_at-IsSessionOf sts_arn account_id role_arn _ (index-IsFound sts_arn marker) done
