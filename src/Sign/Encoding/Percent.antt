-- ===== src/Sign/Encoding/Percent.antt =====
-- The query of a signed request: `Encode`, with its plus signs replaced.
use mathlib.Core.List.{append_assoc, map-append}
use jfrog_registry_operator.Base.{
  inr, inl, ◌≢◌, sym, map, Lacks, Bool-cases, ℕ, [], ◌∷◌, ◌++◌, Text, if◌then◌else◌, List, ◌==◌,
  join, sort, text_le, ◌≡◌, refl, arith, ◌/◌, ◌%◌,
}
use jfrog_registry_operator.Base.Dict.{Dict, keys, get_or}
use jfrog_registry_operator.Sign.Encoding.{
  is_unreserved, upper_hex, escape_byte, by_bytes, encode_values, encode_keys, encode_with, encode,
  replace_plus,
}

-- RFC 3986: every byte but the unreserved ones by its two digits, a space too.
unfoldable pub percent_byte : ℕ → Text
percent_byte c =
    if is_unreserved c then c ∷ [] else b'%' ∷ upper_hex (c / 16) ∷ upper_hex (c % 16) ∷ []

by_bytes-append : (f : ℕ → Text) (s t : Text) → by_bytes f (s ++ t) ≡ by_bytes f s ++ by_bytes f t
unfolding by_bytes
by_bytes-append f [] t = refl
by_bytes-append f (c ∷ s) t =
    rw (by_bytes-append f s t) (sym (append_assoc (f c) (by_bytes f s) (by_bytes f t)))

replace_plus-append : (s t : Text) → replace_plus (s ++ t) ≡ replace_plus s ++ replace_plus t
unfolding replace_plus
replace_plus-append s t = by_bytes-append _ s t

-- A byte that is no plus sign stays.
replace_plus-cons : (c : ℕ) (s : Text) → c ≢ b'+' → replace_plus (c ∷ s) ≡ c ∷ replace_plus s
unfolding replace_plus by_bytes
replace_plus-cons c s h = ground arith

-- A text without a plus sign stays.
replace_plus-Lacks : (s : Text) → Lacks b'+' s → replace_plus s ≡ s
unfolding replace_plus by_bytes
replace_plus-Lacks [] h = refl
replace_plus-Lacks (c ∷ s) h = ground (arith, replace_plus-Lacks s h.1)

upper_hex_lem : (d : ℕ) → upper_hex d ≢ b'+'
upper_hex_lem d = ground arith

replace_plus-escape_byte : (c : ℕ) → replace_plus (escape_byte c) ≡ percent_byte c
unfolding escape_byte percent_byte
replace_plus-escape_byte c = elim (Bool-cases (is_unreserved c)) [
  | inl plain ↦ rw plain (replace_plus-Lacks (c ∷ []) (ground arith, tt))
  | inr special ↦ elim (Bool-cases (c == b' ')) [
    | inl blank ↦ let e : c ≡ b' ' = ground arith in rw e (unfold replace_plus by_bytes in refl)
    | inr solid ↦
        rw (special, solid)
          (replace_plus-Lacks (b'%' ∷ upper_hex (c / 16) ∷ upper_hex (c % 16) ∷ [])
            (ground arith, (upper_hex_lem (c / 16), (upper_hex_lem (c % 16), tt))))
  ]
]

replace_plus-by_bytes : (s : Text) → replace_plus (by_bytes escape_byte s) ≡ by_bytes percent_byte s
unfolding by_bytes
replace_plus-by_bytes [] = unfold replace_plus in refl
replace_plus-by_bytes (c ∷ s) =
    rw
      (
        replace_plus-append (escape_byte c) (by_bytes escape_byte s),
        replace_plus-escape_byte c,
        replace_plus-by_bytes s,
      )
      refl

module _ (key : Text) where
  map-replace_plus-encode_values :
      (vs : List Text)
      → map replace_plus (encode_values (by_bytes escape_byte) key vs)
        ≡ encode_values (by_bytes percent_byte) key vs
  unfolding encode_values
  map-replace_plus-encode_values [] = refl
  map-replace_plus-encode_values (v ∷ vs) =
      rw
        (
          replace_plus-append (by_bytes escape_byte key) (b'=' ∷ by_bytes escape_byte v),
          replace_plus-cons b'=' (by_bytes escape_byte v) (omega arith),
          replace_plus-by_bytes key,
          replace_plus-by_bytes v,
          map-replace_plus-encode_values vs,
        )
        refl

map-replace_plus-encode_keys :
    (query : Dict (List Text)) (ks : List Text)
    → map replace_plus (encode_keys (by_bytes escape_byte) query ks)
      ≡ encode_keys (by_bytes percent_byte) query ks
unfolding encode_keys
map-replace_plus-encode_keys query [] = refl
map-replace_plus-encode_keys query (k ∷ ks) =
    rw
      (
        map-append replace_plus (encode_values (by_bytes escape_byte) k (get_or [] k query))
            (encode_keys (by_bytes escape_byte) query ks),
        map-replace_plus-encode_values k (get_or [] k query),
        map-replace_plus-encode_keys query ks,
      )
      refl

replace_plus-join :
    (parts : List Text)
    → replace_plus (join parts (b'&' ∷ [])) ≡ join (map replace_plus parts) (b'&' ∷ [])
unfolding join
replace_plus-join [] = unfold replace_plus by_bytes in refl
replace_plus-join (s ∷ []) = refl
replace_plus-join (s ∷ t ∷ r) =
    rw
      (
        replace_plus-append s (b'&' ∷ join (t ∷ r) (b'&' ∷ [])),
        replace_plus-cons b'&' (join (t ∷ r) (b'&' ∷ [])) (omega arith),
        replace_plus-join (t ∷ r),
      )
      refl

pub replace_plus-encode :
    (query : Dict (List Text))
    → replace_plus (encode query) ≡ encode_with (by_bytes percent_byte) query
unfolding encode encode_with
replace_plus-encode query =
    rw
      (
        replace_plus-join (encode_keys (by_bytes escape_byte) query (sort text_le (keys query))),
        map-replace_plus-encode_keys query (sort text_le (keys query)),
      )
      refl
