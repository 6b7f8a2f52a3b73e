-- ===== src/Sign/Canonical/Values.antt =====
-- The values that are signed under a name.
use mathlib.Core.List.{append_assoc, append-nil}
use jfrog_registry_operator.Base.{
  [], ◌∷◌, ◌++◌, Text, Bool, true, false, ◌&&◌, Option, none, some, if◌then◌else◌, eqb, eqb_iff,
  List, ◌≡◌, refl, sym, Bool-cases, inl, inr,
}
use jfrog_registry_operator.Base.Dict.{Dict, lookup, insert, get_or, lookup-insert}
use jfrog_registry_operator.Base.Int.{ℤ}
use jfrog_registry_operator.Sign.Host.{to_lower}
use jfrog_registry_operator.Sign.Rules.{Rule, is_valid}
use jfrog_registry_operator.Sign.Canonical.{
  Collected, collect_length, add_values, collect_header, collect_headers, render,
  build_canonical_headers,
}

-- The values of the headers that the rule lets through and whose name in lower case is this one, in
-- the order of the headers.
unfoldable pub values_of : Rule → Text → Dict (List Text) → List Text
values_of rule name [] = []
values_of rule name ((k, v) ∷ header) =
    let rest = values_of rule name header in
    if is_valid rule k && eqb (to_lower k) name then v ++ rest else rest

abbrev pub signed_values : Text → Collected → List Text
signed_values name c = get_or [] name c.signed

abbrev or_none : Option (List Text) → List Text
or_none none = []
or_none (some v) = v

get_or_lem : (name : Text) (m : Dict (List Text)) → get_or [] name m ≡ or_none (lookup name m)
unfolding get_or
get_or_lem name m = elim (lookup name m) as (λ o. (elim o [ none ↦ [] | some v ↦ v ]) ≡ or_none o) [
  | none ↦ refl
  | some v ↦ refl
]

get_or-insert :
    (n k : Text) (v : List Text) (m : Dict (List Text))
    → get_or [] n (insert k v m) ≡ (if eqb k n then v else get_or [] n m)
get_or-insert n k v m = elim (Bool-cases (eqb k n)) [
  | inl same ↦ rw (get_or_lem n (insert k v m), lookup-insert k n v m, same) refl
  | inr other ↦
      rw (get_or_lem n (insert k v m), lookup-insert k n v m, other) (sym (get_or_lem n m))
]

append-if :
    (b : Bool) (before v rest : List Text)
    → (before ++ (if b then v else [])) ++ rest ≡ before ++ (if b then v ++ rest else rest)
append-if true before v rest = append_assoc before v rest
append-if false before v rest = rw (append-nil before) refl

-- What is stored under a name is what was there before, with the values that come.
module _ (n name : Text) (c : Collected) (values : List Text) where
  stored :
      (before all : List Text)
      → get_or [] name c.signed ≡ before
      → all ≡ before ++ values
      → get_or [] n (insert name all c.signed)
        ≡ get_or [] n c.signed ++ (if eqb name n then values else [])
  stored before all e f = elim (Bool-cases (eqb name n)) [
    | inl same ↦
        let at : name ≡ n = (eqb_iff name n).0 same in
        rw (get_or-insert n name all c.signed, same, f, ← e, at) refl
    | inr other ↦
        rw (get_or-insert n name all c.signed, other) (sym (append-nil (get_or [] n c.signed)))
  ]

  signed_values-add_values :
      (before : Option (List Text))
      → lookup name c.signed ≡ before
      → signed_values n (add_values c name values before)
        ≡ signed_values n c ++ (if eqb name n then values else [])
  unfolding add_values
  signed_values-add_values none e = stored [] values (rw (get_or_lem name c.signed, e) refl) refl
  signed_values-add_values (some before) e =
      stored before (before ++ values) (rw (get_or_lem name c.signed, e) refl) refl

module _ (rule : Rule) (n : Text) where
  signed_values-collect_header :
      (c : Collected) (k : Text) (v : List Text)
      → signed_values n (collect_header rule c k v)
        ≡ signed_values n c ++ (if is_valid rule k && eqb (to_lower k) n then v else [])
  unfolding collect_header
  signed_values-collect_header c k v = elim (Bool-cases (is_valid rule k)) [
    | inl kept ↦ rw kept (signed_values-add_values n (to_lower k) c v _ refl)
    | inr ignored ↦ rw ignored (sym (append-nil (signed_values n c)))
  ]

  signed_values-collect_headers :
      (c : Collected) (header : Dict (List Text))
      → signed_values n (collect_headers rule c header)
        ≡ signed_values n c ++ values_of rule n header
  unfolding collect_headers values_of
  signed_values-collect_headers c [] = sym (append-nil (signed_values n c))
  signed_values-collect_headers c ((k, v) ∷ header) =
      rw
        (
          signed_values-collect_headers (collect_header rule c k v) header,
          signed_values-collect_header c k v,
        )
        (append-if _ (signed_values n c) v (values_of rule n header))

-- Under a name stand, in their order, the values of the headers with this name in lower case that the
-- rule lets through, behind the length where the name is that of the length and this is positive.
pub signed_values_lem :
    (host : Text) (rule : Rule) (header : Dict (List Text)) (length : ℤ) (name : Text)
    → get_or [] name (build_canonical_headers host rule header length).signed
      ≡ get_or [] name (collect_length length).signed ++ values_of rule name header
unfolding build_canonical_headers render
signed_values_lem host rule header length name =
    signed_values-collect_headers rule name (collect_length length) header
