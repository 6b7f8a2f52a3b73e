-- ===== src/Sign/Canonical/Names.antt =====
-- The names of the signed headers.
use jfrog_registry_operator.Base.{
  join, elem-perm, Distinct-perm, inr, inl, ltb, Bool-cases, zero, suc, [], ◌∷◌, ◌++◌, Text, Bool,
  false, ◌||◌, ◌&&◌, Option, none, some, eqb, List, elem, Distinct, sort, text_le, ◌≡◌, refl, arith,
  sort-perm, sort-IsSorted, IsSorted, text_le_total, text_le_trans,
}
use jfrog_registry_operator.Sign.Canonical.{
  content_length_header, Collected, collect_length, add_values, collect_header, collect_headers,
  render, build_canonical_headers,
}
use jfrog_registry_operator.Base.Dict.{
  Dict, lookup, insert, keys, elem-keys-insert, insert-Distinct,
}
use jfrog_registry_operator.Base.Int.{ℤ, pos, negsuc}
use jfrog_registry_operator.Sign.Host.{to_lower}
use jfrog_registry_operator.Sign.Rules.{Rule, is_valid}
use mathlib.Core.List.Perm

-- Some header that the rule lets through has this name in lower case.
unfoldable pub is_signed : Rule → Text → Dict (List Text) → Bool
is_signed rule name [] = false
is_signed rule name ((k, v) ∷ header) =
    let rest = is_signed rule name header in (is_valid rule k && eqb (to_lower k) name) || rest

-- The names are those of the signed headers, each of them once.
record IsCollected (c : Collected) : Type 0 where
  named : c.names ≡ keys c.signed
  distinct : Distinct (keys c.signed)

module _ {ℓ} {V : Type ℓ} where
  keys-insert_new :
      (k : Text) (v : V) (m : Dict V) → lookup k m ≡ none → keys (insert k v m) ≡ keys m ++ (k ∷ [])
  unfolding insert keys lookup
  keys-insert_new k v [] h = refl
  keys-insert_new k v ((j, w) ∷ m) h = ground (arith, keys-insert_new k v m)

  keys-insert_old :
      (k : Text) (v w : V) (m : Dict V) → lookup k m ≡ some w → keys (insert k v m) ≡ keys m
  unfolding insert keys lookup
  keys-insert_old k v w [] h = cc
  keys-insert_old k v w ((j, u) ∷ m) h = ground (arith, keys-insert_old k v w m)

add_values-IsCollected :
    (c : Collected) (name : Text) (values : List Text) (before : Option (List Text))
    → lookup name c.signed ≡ before
    → IsCollected c
    → IsCollected (add_values c name values before)
unfolding add_values
add_values-IsCollected c name values none e h = record {
  named = rw (keys-insert_new name values c.signed e, h.named) refl;
  distinct = insert-Distinct name values c.signed h.distinct;
}
add_values-IsCollected c name values (some before) e h = record {
  named = rw (keys-insert_old name (before ++ values) before c.signed e) h.named;
  distinct = insert-Distinct name (before ++ values) c.signed h.distinct;
}

keys-add_values :
    (n : Text) (c : Collected) (name : Text) (values : List Text) (before : Option (List Text))
    → elem n (keys (add_values c name values before).signed)
      ≡ (eqb name n || elem n (keys c.signed))
unfolding add_values
keys-add_values n c name values none = elem-keys-insert n name values c.signed
keys-add_values n c name values (some before) = elem-keys-insert n name (before ++ values) c.signed

module _ (rule : Rule) where
  collect_header-IsCollected :
      (c : Collected) (k : Text) (v : List Text)
      → IsCollected c
      → IsCollected (collect_header rule c k v)
  unfolding collect_header
  collect_header-IsCollected c k v h = elim (Bool-cases (is_valid rule k)) [
    | inl kept ↦ rw kept (add_values-IsCollected c (to_lower k) v _ refl h)
    | inr ignored ↦ rw ignored h
  ]

  keys-collect_header :
      (n : Text) (c : Collected) (k : Text) (v : List Text)
      → elem n (keys (collect_header rule c k v).signed)
        ≡ ((is_valid rule k && eqb (to_lower k) n) || elem n (keys c.signed))
  unfolding collect_header
  keys-collect_header n c k v = elim (Bool-cases (is_valid rule k)) [
    | inl kept ↦ rw kept (keys-add_values n c (to_lower k) v (lookup (to_lower k) c.signed))
    | inr ignored ↦ rw ignored refl
  ]

  collect_headers-IsCollected :
      (c : Collected) (header : Dict (List Text))
      → IsCollected c
      → IsCollected (collect_headers rule c header)
  unfolding collect_headers
  collect_headers-IsCollected c [] h = h
  collect_headers-IsCollected c ((k, v) ∷ header) h =
      collect_headers-IsCollected (collect_header rule c k v) header
        (collect_header-IsCollected c k v h)

  keys-collect_headers :
      (n : Text) (c : Collected) (header : Dict (List Text))
      → elem n (keys (collect_headers rule c header).signed)
        ≡ (elem n (keys c.signed) || is_signed rule n header)
  unfolding collect_headers is_signed
  keys-collect_headers n c [] = ground arith
  keys-collect_headers n c ((k, v) ∷ header) = ground (
    arith,
    keys-collect_headers n (collect_header rule c k v) header,
    keys-collect_header n c k v,
  )

collect_length-IsCollected : (length : ℤ) → IsCollected (collect_length length)
unfolding collect_length keys
collect_length-IsCollected (pos zero) = record { named = refl; distinct = tt }
collect_length-IsCollected (pos (suc n)) = record {
  named = refl;
  distinct = (unfold elem in refl, tt);
}
collect_length-IsCollected (negsuc n) = record { named = refl; distinct = tt }

-- A header with a length is signed, where it is positive.
unfoldable pub has_length : ℤ → Bool
has_length (pos n) = ltb 0 n
has_length (negsuc n) = false

keys-collect_length :
    (n : Text) (length : ℤ)
    → elem n (keys (collect_length length).signed)
      ≡ (has_length length && eqb n content_length_header)
unfolding collect_length keys elem has_length
keys-collect_length n (pos zero) = refl
keys-collect_length n (pos (suc l)) = ground arith
keys-collect_length n (negsuc l) = refl

module _ (rule : Rule) where
  abbrev collected : ℤ → Dict (List Text) → Collected
  collected length header = collect_headers rule (collect_length length) header

  collected-IsCollected :
      (length : ℤ) (header : Dict (List Text)) → IsCollected (collected length header)
  collected-IsCollected length header =
      collect_headers-IsCollected rule (collect_length length) header
        (collect_length-IsCollected length)

  -- The names that are signed, sorted.
  abbrev pub signed_names : ℤ → Dict (List Text) → List Text
  signed_names length header = sort text_le (collected length header).names

  pub signed_names-IsSorted :
      (length : ℤ) (header : Dict (List Text))
      → IsSorted text_le (signed_names length header) × Distinct (signed_names length header)
  signed_names-IsSorted length header =
      let collects = collected-IsCollected length header in
      (
        sort-IsSorted text_le text_le_total text_le_trans (collected length header).names,
        Distinct-perm (Perm.symm (sort-perm text_le (collected length header).names))
            (rw collects.named collects.distinct),
      )

  pub elem-signed_names :
      (name : Text) (length : ℤ) (header : Dict (List Text))
      → elem name (signed_names length header)
        ≡ ((has_length length && eqb name content_length_header) || is_signed rule name header)
  elem-signed_names name length header =
      rw
        (
          elem-perm name (sort-perm text_le (collected length header).names),
          (collected-IsCollected length header).named,
          keys-collect_headers rule name (collect_length length) header,
          keys-collect_length name length,
        )
        refl

  -- The list of signed headers is names joined by semicolons, which stand in strict order (sorted, and
  -- none of them twice), and a name is among them exactly when it is that of a header that the rule
  -- lets through, in lower case, or that of the length where this is positive.
  pub signed_headers_lem :
      (host : Text) (length : ℤ) (header : Dict (List Text))
      → ((build_canonical_headers host rule header length).signed_headers
          ≡ join (signed_names length header) (b';' ∷ []))
        × IsSorted text_le (signed_names length header)
        × Distinct (signed_names length header)
        × ((name : Text)
            → elem name (signed_names length header) ≡ (
                (has_length length && eqb name content_length_header)
                || is_signed rule name header))
  unfolding build_canonical_headers render
  signed_headers_lem host length header =
      let (sorted, distinct) = signed_names-IsSorted length header in
      (refl, sorted, distinct, λ name. elem-signed_names name length header)
