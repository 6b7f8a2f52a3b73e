-- ===== src/Sign/Rules.antt =====
-- internal/sign/v4a/v4/header_rules.go and headers.go.
pub mod Effect
use jfrog_registry_operator.Base.{
  ℕ, [], ◌∷◌, Text, str, Bool, true, false, not, ◌&&◌, if◌then◌else◌, eqb, take, length, leb, elem,
  List,
}
use jfrog_registry_operator.Sign.Host.{to_lower}

-- The types that implement `Rule`, with the list that `Rules` and `InclusiveRules` are.
mutual
  pub data Rule : Type 0 where
    rules : RuleList → Rule
    map_rule : List Text → Rule
    allow_list : Rule → Rule
    deny_list : Rule → Rule
    patterns : List Text → Rule
    inclusive_rules : RuleList → Rule

  pub data RuleList : Type 0 where
    nothing : RuleList
    also : Rule → RuleList → RuleList

-- `strings.EqualFold` on ASCII texts compares them in lower case.
unfoldable pub has_prefix_fold : Text → Text → Bool
has_prefix_fold s prefix =
    leb (length prefix) (length s) && eqb (to_lower (take (length prefix) s)) (to_lower prefix)

-- `Patterns.IsValid`
unfoldable pub matches_any : List Text → Text → Bool
matches_any [] value = false
matches_any (pattern ∷ ps) value =
    let rest = matches_any ps value in if has_prefix_fold value pattern then true else rest

unfoldable mutual
  -- `IsValid` of each type.
  pub is_valid : Rule → Text → Bool
  is_valid (rules r) value = any_valid r value
  is_valid (map_rule m) value = elem value m
  is_valid (allow_list r) value = is_valid r value
  is_valid (deny_list r) value = not (is_valid r value)
  is_valid (patterns ps) value = matches_any ps value
  is_valid (inclusive_rules r) value = all_valid r value

  pub any_valid : RuleList → Text → Bool
  any_valid nothing value = false
  any_valid (also r rs) value =
      let rest = any_valid rs value in if is_valid r value then true else rest

  pub all_valid : RuleList → Text → Bool
  all_valid nothing value = true
  all_valid (also r rs) value =
      let rest = all_valid rs value in if not (is_valid r value) then false else rest

abbrev pub ignored_names : List Text
ignored_names = str "Authorization" ∷ str "User-Agent" ∷ str "X-Amzn-Trace-Id" ∷ []

-- `IgnoredHeaders`
abbrev pub ignored_headers : Rule
ignored_headers = rules (also (deny_list (map_rule ignored_names)) nothing)

abbrev pub required_names : List Text
required_names =
    str "Cache-Control"
    ∷ str "Content-Disposition"
    ∷ str "Content-Encoding"
    ∷ str "Content-Language"
    ∷ str "Content-Md5"
    ∷ str "Content-Type"
    ∷ str "Expires"
    ∷ str "If-Match"
    ∷ str "If-Modified-Since"
    ∷ str "If-None-Match"
    ∷ str "If-Unmodified-Since"
    ∷ str "Range"
    ∷ str "X-Amz-Acl"
    ∷ str "X-Amz-Copy-Source"
    ∷ str "X-Amz-Copy-Source-If-Match"
    ∷ str "X-Amz-Copy-Source-If-Modified-Since"
    ∷ str "X-Amz-Copy-Source-If-None-Match"
    ∷ str "X-Amz-Copy-Source-If-Unmodified-Since"
    ∷ str "X-Amz-Copy-Source-Range"
    ∷ str "X-Amz-Copy-Source-Server-Side-Encryption-Customer-Algorithm"
    ∷ str "X-Amz-Copy-Source-Server-Side-Encryption-Customer-Key"
    ∷ str "X-Amz-Copy-Source-Server-Side-Encryption-Customer-Key-Md5"
    ∷ str "X-Amz-Grant-Full-control"
    ∷ str "X-Amz-Grant-Read"
    ∷ str "X-Amz-Grant-Read-Acp"
    ∷ str "X-Amz-Grant-Write"
    ∷ str "X-Amz-Grant-Write-Acp"
    ∷ str "X-Amz-Metadata-Directive"
    ∷ str "X-Amz-Mfa"
    ∷ str "X-Amz-Request-Payer"
    ∷ str "X-Amz-Server-Side-Encryption"
    ∷ str "X-Amz-Server-Side-Encryption-Aws-Kms-Key-Id"
    ∷ str "X-Amz-Server-Side-Encryption-Customer-Algorithm"
    ∷ str "X-Amz-Server-Side-Encryption-Customer-Key"
    ∷ str "X-Amz-Server-Side-Encryption-Customer-Key-Md5"
    ∷ str "X-Amz-Storage-Class"
    ∷ str "X-Amz-Website-Redirect-Location"
    ∷ str "X-Amz-Content-Sha256"
    ∷ str "X-Amz-Tagging"
    ∷ []

-- `RequiredSignedHeaders`
abbrev pub required_signed_headers : Rule
required_signed_headers =
    rules (
      also (allow_list (map_rule required_names))
        (also (patterns (str "X-Amz-Meta-" ∷ [])) nothing))

-- `AllowedQueryHoisting`
abbrev pub allowed_query_hoisting : Rule
allowed_query_hoisting =
    inclusive_rules
      (also (deny_list required_signed_headers) (also (patterns (str "X-Amz-" ∷ [])) nothing))
