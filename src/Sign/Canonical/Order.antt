-- ===== src/Sign/Canonical/Order.antt =====
-- The canonical headers, and the order in which the map of the headers is ranged over.
use jfrog_registry_operator.Base.{
  ap, Distinct-perm, [], ◌∷◌, Text, eqb_iff, List, elem, Distinct, map, ◌≡◌, refl, arith,
  IsSorted-ext, join, ◌∙◌,
}
use mathlib.Core.Logic.{∥∥₁_elim}
use mathlib.Core.List.{Perm, Permᴰ}
use jfrog_registry_operator.Base.Dict.{Dict, get_or}
use jfrog_registry_operator.Base.Int.{ℤ}
use jfrog_registry_operator.Sign.Host.{to_lower}
use jfrog_registry_operator.Sign.Rules.{Rule}
use jfrog_registry_operator.Sign.Canonical.{
  canonical_line, canonical_lines, render, build_canonical_headers,
}
use jfrog_registry_operator.Sign.Canonical.Names.{
  is_signed, signed_names, signed_names-IsSorted, elem-signed_names,
}
use jfrog_registry_operator.Sign.Canonical.Values.{values_of, signed_values_lem}

-- The names of the headers in lower case.
abbrev pub lower_names : Dict (List Text) → List Text
lower_names header = map (λ e. to_lower e.0) header

module _ (rule : Rule) (name : Text) where
  is_signed-Permᴰ :
      {h j : Dict (List Text)} → Permᴰ h j → is_signed rule name h ≡ is_signed rule name j
  unfolding is_signed
  is_signed-Permᴰ Permᴰ.nil = refl
  is_signed-Permᴰ (Permᴰ.cons e p) = rw (e, is_signed-Permᴰ p) refl
  is_signed-Permᴰ (Permᴰ.swap {a} {b} {l} e f) = rw (← e, ← f) (ground arith)
  is_signed-Permᴰ (Permᴰ.trans p q) = is_signed-Permᴰ p ∙ is_signed-Permᴰ q

  lower_names-Permᴰ : {h j : Dict (List Text)} → Permᴰ h j → Permᴰ (lower_names h) (lower_names j)
  lower_names-Permᴰ Permᴰ.nil = Permᴰ.nil
  lower_names-Permᴰ (Permᴰ.cons e p) = Permᴰ.cons (rw e refl) (lower_names-Permᴰ p)
  lower_names-Permᴰ (Permᴰ.swap e f) = Permᴰ.swap (rw e refl) (rw f refl)
  lower_names-Permᴰ (Permᴰ.trans p q) = Permᴰ.trans (lower_names-Permᴰ p) (lower_names-Permᴰ q)

  values_of-swap :
      (a b : Text × List Text) (l : Dict (List Text))
      → Distinct (to_lower a.0 ∷ to_lower b.0 ∷ lower_names l)
      → values_of rule name (a ∷ b ∷ l) ≡ values_of rule name (b ∷ a ∷ l)
  unfolding values_of elem
  values_of-swap (j, v) (k, w) l h = ground (
    arith,
    eqb_iff (to_lower j) (to_lower k),
    eqb_iff (to_lower j) name,
    eqb_iff (to_lower k) name,
  )

  values_of-cons :
      (a : Text × List Text) (h j : Dict (List Text))
      → values_of rule name h ≡ values_of rule name j
      → values_of rule name (a ∷ h) ≡ values_of rule name (a ∷ j)
  unfolding values_of
  values_of-cons a h j same = rw same refl

  values_of-Permᴰ :
      {h j : Dict (List Text)}
      → Permᴰ h j
      → Distinct (lower_names h)
      → values_of rule name h ≡ values_of rule name j
  values_of-Permᴰ Permᴰ.nil d = refl
  values_of-Permᴰ (Permᴰ.cons {b} e p) d = rw e (values_of-cons b _ _ (values_of-Permᴰ p d.1))
  values_of-Permᴰ (Permᴰ.swap {a} {b} {l} e f) d = rw (← e, ← f) (values_of-swap a b l d)
  values_of-Permᴰ (Permᴰ.trans p q) d =
      values_of-Permᴰ p d ∙ values_of-Permᴰ q (Distinct-perm ∣ lower_names-Permᴰ p ∣₁ d)

-- The lines are made of the values that are signed.
canonical_lines_ext :
    (host : Text) (s t : Dict (List Text)) (names : List Text)
    → ((name : Text) → get_or [] name s ≡ get_or [] name t)
    → canonical_lines host s names ≡ canonical_lines host t names
unfolding canonical_lines canonical_line
canonical_lines_ext host s t [] same = refl
canonical_lines_ext host s t (n ∷ names) same =
    rw (same n, canonical_lines_ext host s t names same) refl

module _ (rule : Rule) (length : ℤ) (h j : Dict (List Text)) (p : Perm h j) where
  is_signed_perm : (name : Text) → is_signed rule name h ≡ is_signed rule name j
  is_signed_perm name = ∥∥₁_elim p (hlevel) (is_signed-Permᴰ rule name)

  signed_names_perm : signed_names rule length h ≡ signed_names rule length j
  signed_names_perm =
      let (sorted, distinct) = signed_names-IsSorted rule length h in
      let (sorted', distinct') = signed_names-IsSorted rule length j in
      IsSorted-ext (signed_names rule length h) (signed_names rule length j) sorted sorted' distinct
        distinct'
        (λ name.
          rw
            (
              elem-signed_names rule name length h,
              elem-signed_names rule name length j,
              is_signed_perm name,
            )
            refl)

  values_of_perm :
      Distinct (lower_names h) → (name : Text) → values_of rule name h ≡ values_of rule name j
  values_of_perm d name = ∥∥₁_elim p (hlevel) (λ q. values_of-Permᴰ rule name q d)

signed_values_perm :
    (host : Text) (rule : Rule) (length : ℤ) (h j : Dict (List Text))
    → Perm h j
    → Distinct (lower_names h)
    → (name : Text)
    → get_or [] name (build_canonical_headers host rule h length).signed
      ≡ get_or [] name (build_canonical_headers host rule j length).signed
signed_values_perm host rule length h j p d name =
    rw
      (
        signed_values_lem host rule h length name,
        signed_values_lem host rule j length name,
        values_of_perm rule length h j p d name,
      )
      refl

-- The names and the lines are those of every other order of the headers, if no two headers have the
-- same name in lower case.
pub build_canonical_headers-perm :
    (host : Text) (rule : Rule) (h j : Dict (List Text)) (length : ℤ)
    → Perm h j
    → Distinct (lower_names h)
    → ((build_canonical_headers host rule h length).signed_headers
        ≡ (build_canonical_headers host rule j length).signed_headers)
      × ((build_canonical_headers host rule h length).canonical_headers_str
          ≡ (build_canonical_headers host rule j length).canonical_headers_str)
unfolding build_canonical_headers render
build_canonical_headers-perm host rule h j length p d =
    let names = signed_names_perm rule length h j p in
    (
      ap (λ ns. join ns (b';' ∷ [])) names,
      rw names (
          canonical_lines_ext host _ _ (signed_names rule length j)
            (signed_values_perm host rule length h j p d)),
    )
