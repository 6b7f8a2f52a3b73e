-- ===== src/Sign/Canonical.antt =====
-- internal/sign/signer.go, `buildCanonicalHeaders`.
pub mod Names
pub mod Values
pub mod Order
use jfrog_registry_operator.Base.{
  suc, ℕ, zero, [], ◌∷◌, ◌++◌, Text, str, Bool, not, Option, none, some, if◌then◌else◌, eqb, List,
  map, join, sort, text_le, decimal,
}
use jfrog_registry_operator.Base.Dict.{Dict, lookup, insert, get_or}
use jfrog_registry_operator.Base.Int.{ℤ, pos, negsuc}
use jfrog_registry_operator.Sign.Spaces.{strip_excess_spaces}
use jfrog_registry_operator.Sign.Host.{to_lower}
use jfrog_registry_operator.Sign.Rules.{Rule, is_valid}
use jfrog_registry_operator.Sign.Encoding.{trim_space}

abbrev pub content_length_header : Text
content_length_header = str "content-length"

abbrev pub host_header : Text
host_header = str "host"

-- `headers` and `signed`.
pub record Collected : Type 0 where
  pub names : List Text
  pub signed : Dict (List Text)

-- Only a positive length is signed. `FormatInt` prints it in decimal.
unfoldable pub collect_length : ℤ → Collected
collect_length (pos zero) = record { names = []; signed = [] }
collect_length (pos (suc n)) = record {
  names = content_length_header ∷ [];
  signed = (content_length_header, decimal (suc n) ∷ []) ∷ [];
}
collect_length (negsuc n) = record { names = []; signed = [] }

-- The two ways to add a header, by what is signed under its name so far.
unfoldable pub add_values : Collected → Text → List Text → Option (List Text) → Collected
add_values c name values (some before) = record c {
  signed = insert name (before ++ values) c.signed;
}
add_values c name values none = record {
  names = c.names ++ (name ∷ []);
  signed = insert name values c.signed;
}

-- One round of the loop over the headers.
unfoldable pub collect_header : Rule → Collected → Text → List Text → Collected
collect_header rule c k v =
    if not (is_valid rule k) then c else add_values c (to_lower k) v (lookup (to_lower k) c.signed)

unfoldable pub collect_headers : Rule → Collected → Dict (List Text) → Collected
collect_headers rule c [] = c
collect_headers rule c ((k, v) ∷ header) = collect_headers rule (collect_header rule c k v) header

unfoldable pub clean_value : Text → Text
clean_value v = trim_space (strip_excess_spaces v)

-- What is written for a name: the values, with a comma between them.
unfoldable pub canonical_line : Text → Dict (List Text) → Text → Text
canonical_line host signed name =
    (if eqb name host_header
      then host_header ++ (b':' ∷ strip_excess_spaces host)
      else name ++ (b':' ∷ join (map clean_value (get_or [] name signed)) (b',' ∷ [])))
    ++ (b'\n' ∷ [])

unfoldable pub canonical_lines : Text → Dict (List Text) → List Text → Text
canonical_lines host signed [] = []
canonical_lines host signed (name ∷ names) =
    canonical_line host signed name ++ canonical_lines host signed names

-- The three results.
pub record CanonicalHeaders : Type 0 where
  pub signed : Dict (List Text)
  pub signed_headers : Text
  pub canonical_headers_str : Text

-- With the names in order.
unfoldable pub render : Text → Collected → CanonicalHeaders
render host c =
    let names = sort text_le c.names in
    record {
      signed = c.signed;
      signed_headers = join names (b';' ∷ []);
      canonical_headers_str = canonical_lines host c.signed names;
    }

unfoldable pub build_canonical_headers : Text → Rule → Dict (List Text) → ℤ → CanonicalHeaders
build_canonical_headers host rule header length =
    render host (collect_headers rule (collect_length length) header)
