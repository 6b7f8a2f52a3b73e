-- ===== src/Base/Texts.antt =====
-- Texts are byte sequences, as Go's strings are. Literals are ASCII, so their code points are bytes.
use Prim.Native.Nat.{ℕ, suc, ◌+◌}
use Prim.Native.Char.{code}
use Prim.Native.String.{String}
use mathlib.Core.Path.{◌≡◌, refl}
use mathlib.Core.Bool.{Bool, true, false, ◌&&◌, ◌||◌}
use mathlib.Core.Logic.{◌≢◌, ◌↔◌, ◌⊎◌, inl, inr}
use mathlib.Core.List.{List, [], ◌∷◌, ◌++◌}
use mathlib.Core.Option.{Option, none, some}
use native.Mathlib.Omega.{arith}
use jfrog_registry_operator.Base.Tests.{ltb, leb, ◌==◌, if◌then◌else◌, Bool-cases}
use jfrog_registry_operator.Base.Lists.{All}

abbrev pub Text : Type 0
Text = List ℕ

-- Shut in proofs, so that a literal stays one unknown.
unfoldable pub str : String → Text
str String.[] = []
str (String.◌∷◌ c s) = code c ∷ str s

-- `==` on strings.
unfoldable pub eqb : Text → Text → Bool
eqb [] [] = true
eqb [] (y ∷ ys) = false
eqb (x ∷ xs) [] = false
eqb (x ∷ xs) (y ∷ ys) = (x == y) && eqb xs ys

pub eqb_iff : (s t : Text) → (eqb s t ≡ true) ↔ (s ≡ t)
unfolding eqb
eqb_iff [] [] = ground arith
eqb_iff [] (y ∷ ys) = ground arith
eqb_iff (x ∷ xs) [] = ground arith
eqb_iff (x ∷ xs) (y ∷ ys) = ground (arith, eqb_iff xs ys)

pub eqb_refl : (s : Text) → eqb s s ≡ true
eqb_refl s = (eqb_iff s s).1 refl

-- Two pairs of texts that are not the same differ in a place.
pub ne_pair : (s t u v : Text) → (eqb s t && eqb u v) ≡ false → (s ≢ t) ⊎ (u ≢ v)
ne_pair s t u v h = elim (Bool-cases (eqb s t)) [
  | inl same ↦ inr (λ e. ground (arith, eqb_iff u v))
  | inr differ ↦ inl (λ e. ground (arith, eqb_iff s t))
]

-- `<=` on strings: bytewise lexicographic.
unfoldable pub text_le : Text → Text → Bool
text_le [] t = true
text_le (x ∷ xs) [] = false
text_le (x ∷ xs) (y ∷ ys) = if ltb x y then true else ((x == y) && text_le xs ys)

pub text_le_total : (s t : Text) → (text_le s t || text_le t s) ≡ true
unfolding text_le
text_le_total [] t = refl
text_le_total (x ∷ xs) [] = refl
text_le_total (x ∷ xs) (y ∷ ys) = ground (arith, text_le_total xs ys)

pub text_le_antisymm : (s t : Text) → text_le s t ≡ true → text_le t s ≡ true → s ≡ t
unfolding text_le
text_le_antisymm [] [] h k = refl
text_le_antisymm [] (y ∷ ys) h k = cc
text_le_antisymm (x ∷ xs) [] h k = cc
text_le_antisymm (x ∷ xs) (y ∷ ys) h k = ground (arith, text_le_antisymm xs ys)

pub text_le_trans : (s t u : Text) → text_le s t ≡ true → text_le t u ≡ true → text_le s u ≡ true
unfolding text_le
text_le_trans [] t u h k = refl
text_le_trans (x ∷ xs) [] u h k = cc
text_le_trans (x ∷ xs) (y ∷ ys) [] h k = cc
text_le_trans (x ∷ xs) (y ∷ ys) (z ∷ zs) h k = ground (arith, text_le_trans xs ys zs)

-- `strings.HasPrefix`
unfoldable pub has_prefix : Text → Text → Bool
has_prefix s [] = true
has_prefix [] (p ∷ ps) = false
has_prefix (c ∷ s) (p ∷ ps) = (c == p) && has_prefix s ps

-- `strings.Index`: the first position at which the pattern stands.
unfoldable pub index : Text → Text → Option ℕ
unfolding has_prefix
index [] pattern = if has_prefix [] pattern then some 0 else none
index (c ∷ s) pattern =
    let rest = index s pattern in
    if has_prefix (c ∷ s) pattern then some 0 else elim rest [ none ↦ none | some i ↦ some (suc i) ]

-- `strings.Contains`
unfoldable pub contains : Text → Text → Bool
unfolding index
contains s pattern = elim (index s pattern) [ none ↦ false | some i ↦ true ]

-- `strings.IndexByte`
unfoldable pub index_byte : Text → ℕ → Option ℕ
index_byte [] b = none
index_byte (c ∷ s) b =
    let rest = index_byte s b in
    if c == b then some 0 else elim rest [ none ↦ none | some i ↦ some (suc i) ]

-- `strings.Join`
unfoldable pub join : List Text → Text → Text
join [] sep = []
join (s ∷ []) sep = s
join (s ∷ t ∷ r) sep = s ++ (sep ++ join (t ∷ r) sep)

-- `strings.Split` at a byte.
unfoldable pub split_at : ℕ → Text → List Text
split_at sep [] = [] ∷ []
split_at sep (c ∷ s) =
    let rest = split_at sep s in
    if c == sep
    then [] ∷ rest
    else elim rest [ [] ↦ (c ∷ []) ∷ [] | part ∷ parts ↦ (c ∷ part) ∷ parts ]

-- `strings.ToLower` on a byte: ASCII letters only, which is all of it on ASCII texts.
unfoldable pub lower : ℕ → ℕ
lower c = if leb b'A' c && leb c b'Z' then c + 32 else c

-- A byte does not stand in a text.
abbrev pub Lacks : ℕ → Text → Type 0
Lacks b = All (λ c. c ≢ b)

-- Membership in a list of texts, as the code's sets of strings have it.
unfoldable pub elem : Text → List Text → Bool
elem s [] = false
elem s (t ∷ ts) = eqb s t || elem s ts

-- No text stands twice.
abbrev pub Distinct : List Text → Type 0
Distinct [] = Unit
Distinct (t ∷ ts) = (elem t ts ≡ false) × Distinct ts

pub text_set : IsSet Text
text_set = hlevel
