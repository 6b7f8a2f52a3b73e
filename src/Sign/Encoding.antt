-- ===== src/Sign/Encoding.antt =====
-- What internal/sign/signer.go takes from the standard library to write a request as text:
-- `textproto.CanonicalMIMEHeaderKey`, `url.Values.Encode`, `hex.EncodeToString`, `strings.TrimSpace`
-- and `strings.Replace`, on ASCII texts.
pub mod Percent
use jfrog_registry_operator.Base.{
  is_empty, ℕ, [], ◌∷◌, ◌++◌, Text, str, Bool, true, false, not, ◌&&◌, ◌||◌, if◌then◌else◌, eqb,
  leb, ltb, List, ◌==◌, map, join, sort, text_le, lower, ◌+◌, ◌-◌, ◌/◌, ◌%◌,
}
use jfrog_registry_operator.Base.Dict.{Dict, keys, get_or, insert}

abbrev pub is_letter : ℕ → Bool
is_letter c = (leb b'a' c && leb c b'z') || (leb b'A' c && leb c b'Z')

abbrev pub is_digit : ℕ → Bool
is_digit c = leb b'0' c && leb c b'9'

one_of : ℕ → Text → Bool
one_of c [] = false
one_of c (d ∷ s) = (c == d) || one_of c s

-- The bytes of a token.
is_token_byte : ℕ → Bool
unfolding one_of str
is_token_byte c = is_letter c || is_digit c || one_of c (str "!#$%&'*+-.^_`|~")

all_tokens : Text → Bool
unfolding is_token_byte
all_tokens [] = true
all_tokens (c ∷ s) = is_token_byte c && all_tokens s

upper : ℕ → ℕ
upper c = if leb b'a' c && leb c b'z' then c - 32 else c

-- A letter at the start or behind a hyphen is a capital one, the others are small.
capitalize : Bool → Text → Text
unfolding upper lower
capitalize first [] = []
capitalize first (c ∷ s) = (if first then upper c else lower c) ∷ capitalize (c == b'-') s

-- `CanonicalMIMEHeaderKey`: a key that is no token stays as it is.
unfoldable pub canonical_key : Text → Text
unfolding all_tokens capitalize
canonical_key key = if all_tokens key then capitalize true key else key

-- `http.Header.Set`
unfoldable pub header_set : Text → Text → Dict (List Text) → Dict (List Text)
header_set key value header = insert (canonical_key key) (value ∷ []) header

-- A digit of `0123456789ABCDEF`, and of `0123456789abcdef`.
abbrev pub upper_hex : ℕ → ℕ
upper_hex d = if ltb d 10 then b'0' + d else b'A' + (d - 10)

abbrev pub lower_hex : ℕ → ℕ
lower_hex d = if ltb d 10 then b'0' + d else b'a' + (d - 10)

-- `hex.EncodeToString`
unfoldable pub hex_encode : Text → Text
hex_encode [] = []
hex_encode (c ∷ s) = lower_hex (c / 16) ∷ lower_hex (c % 16) ∷ hex_encode s

abbrev pub is_unreserved : ℕ → Bool
is_unreserved c =
    is_letter c || is_digit c || (c == b'-') || (c == b'_') || (c == b'.') || (c == b'~')

-- `url.QueryEscape` on a byte.
unfoldable pub escape_byte : ℕ → Text
escape_byte c =
    if is_unreserved c
    then c ∷ []
    else if c == b' '
    then b'+' ∷ []
    else b'%' ∷ upper_hex (c / 16) ∷ upper_hex (c % 16) ∷ []

-- Each byte by a function, in order.
unfoldable pub by_bytes : (ℕ → Text) → Text → Text
by_bytes f [] = []
by_bytes f (c ∷ s) = f c ++ by_bytes f s

-- Each value of a key, as `key=value`.
unfoldable pub encode_values : (Text → Text) → Text → List Text → List Text
encode_values escape key [] = []
encode_values escape key (v ∷ vs) = (escape key ++ (b'=' ∷ escape v)) ∷ encode_values escape key vs

unfoldable pub encode_keys : (Text → Text) → Dict (List Text) → List Text → List Text
encode_keys escape query [] = []
encode_keys escape query (key ∷ ks) =
    encode_values escape key (get_or [] key query) ++ encode_keys escape query ks

-- The parameters in the order of their keys, with a given escaping.
unfoldable pub encode_with : (Text → Text) → Dict (List Text) → Text
encode_with escape query = join (encode_keys escape query (sort text_le (keys query))) (b'&' ∷ [])

-- `url.Values.Encode`
unfoldable pub encode : Dict (List Text) → Text
encode = encode_with (by_bytes escape_byte)

-- `strings.Replace(s, "+", "%20", -1)`
abbrev pub replace_byte : ℕ → Text
replace_byte c = if c == b'+' then b'%' ∷ b'2' ∷ b'0' ∷ [] else c ∷ []

unfoldable pub replace_plus : Text → Text
replace_plus = by_bytes replace_byte

is_space : ℕ → Bool
is_space c = (leb 9 c && leb c 13) || (c == b' ')

trim_left : Text → Text
unfolding is_space
trim_left [] = []
trim_left (c ∷ s) = let rest = trim_left s in if is_space c then rest else c ∷ s

trim_right : Text → Text
unfolding is_space
trim_right [] = []
trim_right (c ∷ s) = let rest = trim_right s in if is_empty rest && is_space c then [] else c ∷ rest

-- `strings.TrimSpace`
unfoldable pub trim_space : Text → Text
unfolding trim_left trim_right
trim_space s = trim_right (trim_left s)
