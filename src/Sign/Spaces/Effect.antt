-- ===== src/Sign/Spaces/Effect.antt =====
-- `StripExcessSpaces` against the words of its text.
use jfrog_registry_operator.Base.{
  has_prefix, index, Option, inr, sym, inl, ◌≢◌, is_empty, Bool-cases, List, ℕ, suc, [], ◌∷◌, Text,
  str, Bool, true, false, not, ◌&&◌, none, some, if◌then◌else◌, ◌==◌, ◌≡◌, refl, arith, join,
}
use jfrog_registry_operator.Sign.Spaces.{
  space, trim_end, trim_start, collapse, collapse_from, strip_excess_spaces,
}

-- A text that begins with a byte that is no space.
abbrev starts : Text → Bool
starts [] = false
starts (c ∷ s) = not (c == space)

-- A byte more at the front of the first word.
unfoldable extend : ℕ → List Text → List Text
extend c [] = (c ∷ []) ∷ []
extend c (w ∷ ws) = (c ∷ w) ∷ ws

-- The words of a text: its longest parts without a space.
unfoldable pub words : Text → List Text
unfolding extend
words [] = []
words (c ∷ s) =
    let rest = words s in
    if c == space then rest else if starts s then extend c rest else (c ∷ []) ∷ rest

starts-trim_end : (s : Text) → starts (trim_end s) ≡ starts s
unfolding trim_end
starts-trim_end [] = refl
starts-trim_end (c ∷ s) = ground arith

-- A byte in front of a trimmed text, as `trim_end` puts it there.
words-kept :
    (c : ℕ) (trimmed s : Text)
    → words trimmed ≡ words s
    → starts trimmed ≡ starts s
    → words (if is_empty trimmed && (c == space) then [] else c ∷ trimmed) ≡ words (c ∷ s)
unfolding words
words-kept c [] s same begin = ground arith
words-kept c (d ∷ t) s same begin = ground arith

words-trim_end : (s : Text) → words (trim_end s) ≡ words s
unfolding trim_end
words-trim_end [] = refl
words-trim_end (c ∷ s) = words-kept c (trim_end s) s (words-trim_end s) (starts-trim_end s)

words-blank : (c : ℕ) (s : Text) → (c == space) ≡ true → words (c ∷ s) ≡ words s
unfolding words
words-blank c s h = ground arith

words-trim_start : (s : Text) → words (trim_start s) ≡ words s
unfolding trim_start
words-trim_start [] = refl
words-trim_start (c ∷ []) = refl
words-trim_start (c ∷ d ∷ s) = elim (Bool-cases (c == space)) [
  | inl blank ↦ rw (blank, words-trim_start (d ∷ s)) (sym (words-blank c (d ∷ s) blank))
  | inr solid ↦ rw solid refl
]

starts-collapse_0 : (s : Text) → starts (collapse 0 s) ≡ starts s
unfolding collapse
starts-collapse_0 [] = refl
starts-collapse_0 (c ∷ s) = ground arith

words-collapse : (n : ℕ) (s : Text) → words (collapse n s) ≡ words s
unfolding collapse words
words-collapse n [] = refl
words-collapse n (c ∷ s) =
    ground (arith, words-collapse (suc n) s, words-collapse 0 s, starts-collapse_0 s)

-- A text that ends in no space.
abbrev IsSolid : Text → Type 0
IsSolid [] = Unit
IsSolid (c ∷ []) = c ≢ space
IsSolid (c ∷ d ∷ s) = IsSolid (d ∷ s)

IsSolid-kept :
    (c : ℕ) (trimmed : Text)
    → IsSolid trimmed
    → IsSolid (if is_empty trimmed && (c == space) then [] else c ∷ trimmed)
IsSolid-kept c [] h = ground arith
IsSolid-kept c (d ∷ t) h = h

trim_end-IsSolid : (s : Text) → IsSolid (trim_end s)
unfolding trim_end
trim_end-IsSolid [] = tt
trim_end-IsSolid (c ∷ s) = IsSolid-kept c (trim_end s) (trim_end-IsSolid s)

trim_start-IsSolid : (s : Text) → IsSolid s → IsSolid (trim_start s)
unfolding trim_start
trim_start-IsSolid [] h = tt
trim_start-IsSolid (c ∷ []) h = h
trim_start-IsSolid (c ∷ d ∷ s) h = ground (arith, trim_start-IsSolid (d ∷ s) h)

-- A text that is empty or begins with no space.
abbrev BeginsSolid : Text → Type 0
BeginsSolid [] = Unit
BeginsSolid (c ∷ s) = c ≢ space

trim_start-BeginsSolid : (s : Text) → IsSolid s → BeginsSolid (trim_start s)
unfolding trim_start
trim_start-BeginsSolid [] h = tt
trim_start-BeginsSolid (c ∷ []) h = h
trim_start-BeginsSolid (c ∷ d ∷ s) h = ground (arith, trim_start-BeginsSolid (d ∷ s) h)

-- Behind every space stands a byte that is none.
abbrev IsTight : Text → Type 0
IsTight [] = Unit
IsTight (c ∷ s) = (c ≡ space → starts s ≡ true) × IsTight s

starts-collapse-suc :
    (n c : ℕ) (s : Text) → IsSolid (c ∷ s) → starts (collapse (suc n) (c ∷ s)) ≡ true
unfolding collapse
starts-collapse-suc n c [] h = ground arith
starts-collapse-suc n c (d ∷ s) h = ground (arith, starts-collapse-suc (suc n) d s h)

IsTight-kept :
    (n c : ℕ) (inside outside : Text)
    → starts inside ≡ true
    → IsTight inside
    → IsTight outside
    → IsTight (if c == space then (if n == 0 then c ∷ inside else inside) else c ∷ outside)
IsTight-kept n c inside outside begin h k = ground arith

collapse-IsTight : (n : ℕ) (s : Text) → IsSolid s → IsTight (collapse n s)
unfolding collapse
collapse-IsTight n [] h = tt
collapse-IsTight n (c ∷ []) h = ground arith
collapse-IsTight n (c ∷ d ∷ s) h =
    IsTight-kept n c (collapse (suc n) (d ∷ s)) (collapse 0 (d ∷ s)) (starts-collapse-suc n d s h)
      (collapse-IsTight (suc n) (d ∷ s) h) (collapse-IsTight 0 (d ∷ s) h)

abbrev joined : List Text → Text
joined ws = join ws (space ∷ [])

joined-extend : (c : ℕ) (ws : List Text) → joined (extend c ws) ≡ c ∷ joined ws
unfolding join extend
joined-extend c [] = refl
joined-extend c (w ∷ []) = refl
joined-extend c (w ∷ v ∷ ws) = refl

-- A word in front of others.
joined-cons : (c : ℕ) (ws : List Text) → ws ≢ [] → joined ((c ∷ []) ∷ ws) ≡ c ∷ space ∷ joined ws
unfolding join
joined-cons c [] h = absurd (h refl)
joined-cons c (w ∷ ws) h = refl

extend-ne-nil : (c : ℕ) (ws : List Text) → extend c ws ≢ []
unfolding extend
extend-ne-nil c [] = cc
extend-ne-nil c (w ∷ ws) = cc

words-ne-nil : (s : Text) → starts s ≡ true → words s ≢ []
unfolding words
words-ne-nil [] h = cc
words-ne-nil (c ∷ s) h = elim (Bool-cases (starts s)) [
  | inl more ↦ ground (arith, extend-ne-nil c (words s))
  | inr done ↦ ground arith
]

starts-BeginsSolid : (s : Text) → starts s ≡ true → BeginsSolid s
starts-BeginsSolid [] h = tt
starts-BeginsSolid (c ∷ s) h = ground arith

words-more : (c : ℕ) (s : Text) → c ≢ space → starts s ≡ true → words (c ∷ s) ≡ extend c (words s)
unfolding words
words-more c s h k = ground arith

words-last : (c : ℕ) (s : Text) → c ≢ space → starts s ≡ false → words (c ∷ s) ≡ (c ∷ []) ∷ words s
unfolding words
words-last c s h k = ground arith

-- A tight text that begins with no space is its words, joined by single spaces.
tight_lem : (s : Text) → IsTight s → BeginsSolid s → joined (words s) ≡ s
tight_lem [] h k = unfold words join in refl
tight_lem (c ∷ []) h k = rw (words-last c [] k refl) (unfold words join in refl)
tight_lem (c ∷ d ∷ s) h k = elim (Bool-cases (d == space)) [
  | inl blank ↦
      let begin = h.1.0 (ground arith) in
      rw
        (
          words-last c (d ∷ s) k (ground arith),
          words-blank d s blank,
          joined-cons c (words s) (words-ne-nil s begin),
          tight_lem s h.1.1 (starts-BeginsSolid s begin),
        )
        (ground arith)
  | inr solid ↦
      rw
        (
          words-more c (d ∷ s) k (ground arith),
          joined-extend c (words (d ∷ s)),
          tight_lem (d ∷ s) h.1 (ground arith),
        )
        refl
]

-- Up to the first double space there is nothing to collapse.
collapse_from-suc :
    (c : ℕ) (s : Text) (o : Option ℕ)
    → collapse_from (c ∷ s) (elim o [ none ↦ none | some i ↦ some (suc i) ]) ≡ c ∷ collapse_from s o
unfolding collapse_from
collapse_from-suc c s none = refl
collapse_from-suc c s (some j) = refl

collapse-solid :
    (c d : ℕ) (s : Text)
    → ((c == space) && (d == space)) ≡ false
    → collapse 0 (c ∷ d ∷ s) ≡ c ∷ collapse 0 (d ∷ s)
unfolding collapse
collapse-solid c d s h = ground arith

index-double :
    (c d : ℕ) (s : Text)
    → index (c ∷ d ∷ s) (space ∷ space ∷ []) ≡ (
        if (c == space) && (d == space)
        then some 0
        else elim (index (d ∷ s) (space ∷ space ∷ [])) [ none ↦ none | some i ↦ some (suc i) ])
unfolding index has_prefix
index-double c d s = ground arith

collapse_from-index : (s : Text) → collapse_from s (index s (space ∷ space ∷ [])) ≡ collapse 0 s
collapse_from-index [] = unfold collapse_from collapse index has_prefix in refl
collapse_from-index (c ∷ []) = unfold collapse_from collapse index has_prefix in ground arith
collapse_from-index (c ∷ d ∷ s) = elim (Bool-cases ((c == space) && (d == space))) [
  | inl double ↦ rw (index-double c d s, double) (unfold collapse_from in refl)
  | inr single ↦
      rw
        (
          index-double c d s,
          single,
          collapse_from-suc c (d ∷ s) (index (d ∷ s) (space ∷ space ∷ [])),
          collapse_from-index (d ∷ s),
        )
        (sym (collapse-solid c d s single))
]

strip_excess_spaces_lem : (s : Text) → strip_excess_spaces s ≡ collapse 0 (trim_start (trim_end s))
unfolding strip_excess_spaces str
strip_excess_spaces_lem s = collapse_from-index (trim_start (trim_end s))

words-strip_excess_spaces : (s : Text) → words (strip_excess_spaces s) ≡ words s
words-strip_excess_spaces s =
    rw
      (
        strip_excess_spaces_lem s,
        words-collapse 0 (trim_start (trim_end s)),
        words-trim_start (trim_end s),
      )
      (words-trim_end s)

collapse-BeginsSolid : (s : Text) → BeginsSolid s → BeginsSolid (collapse 0 s)
unfolding collapse
collapse-BeginsSolid [] h = tt
collapse-BeginsSolid (c ∷ s) h = ground arith

-- What `StripExcessSpaces` returns is the words of its text, joined by single spaces.
pub strip_excess_spaces-words : (s : Text) → strip_excess_spaces s ≡ join (words s) (str " ")
unfolding str
strip_excess_spaces-words s =
    let trimmed = trim_start (trim_end s) in
    let solid = trim_end-IsSolid s in
    rw (← words-strip_excess_spaces s, strip_excess_spaces_lem s)
      (sym (
        tight_lem (collapse 0 trimmed)
          (collapse-IsTight 0 trimmed (trim_start-IsSolid (trim_end s) solid))
          (collapse-BeginsSolid trimmed (trim_start-BeginsSolid (trim_end s) solid))))

-- A second pass of `StripExcessSpaces` changes nothing.
pub strip_excess_spaces_idem :
    (s : Text) → strip_excess_spaces (strip_excess_spaces s) ≡ strip_excess_spaces s
strip_excess_spaces_idem s =
    rw (strip_excess_spaces-words (strip_excess_spaces s), words-strip_excess_spaces s)
      (sym (strip_excess_spaces-words s))
