-- ===== src/Sign/Host/Port.antt =====
-- What `SanitizeHostForHeader` does to a host with a port and to one without.
use jfrog_registry_operator.Sign.Host.{
  trim_prefix, strip_port_at, port_only_at, strip_port, port_only, is_default_port, get_host,
  sanitize_host_for_header,
}
use mathlib.Core.List.{append_assoc}
use jfrog_registry_operator.Base.{
  inr, inl, ◌==◌, ap, Bool-cases, List, has_prefix, All-append, ℕ, suc, ◌+◌, [], ◌∷◌, ◌++◌, Text,
  str, false, not, ◌&&◌, none, some, if◌then◌else◌, eqb, index_byte, index, contains, drop, length,
  take-length, Lacks, ◌≡◌, ◌≢◌, refl, arith,
}

index_byte-Lacks : (b : ℕ) (s : Text) → Lacks b s → index_byte s b ≡ none
unfolding index_byte
index_byte-Lacks b [] h = refl
index_byte-Lacks b (c ∷ s) h = ground (arith, index_byte-Lacks b s h.1)

-- The first place of a byte is behind a text without it.
index_byte-append : (b : ℕ) (s t : Text) → Lacks b s → index_byte (s ++ b ∷ t) b ≡ some (length s)
unfolding index_byte
index_byte-append b [] t h = ground arith
index_byte-append b (c ∷ s) t h = ground (arith, index_byte-append b s t h.1)

-- A text without `]` holds no pattern that begins with it.
index-Lacks : (b : ℕ) (rest s : Text) → Lacks b s → index s (b ∷ rest) ≡ none
unfolding index has_prefix
index-Lacks b rest [] h = refl
index-Lacks b rest (c ∷ s) h = ground (arith, index-Lacks b rest s h.1)

drop-length_add {ℓ} :
    {A : Type ℓ} (xs ys : List A) (k : ℕ) → drop (length xs + k) (xs ++ ys) ≡ drop k ys
drop-length_add {A} [] ys k = ap (λ n. drop n ys) (omega arith)
drop-length_add {A} (x ∷ xs) ys k =
    let shift : suc (length xs) + k ≡ suc (length xs + k) = omega arith in
    rw shift (drop-length_add xs ys k)

contains_bracket : (s : Text) → Lacks b']' s → contains s (str "]") ≡ false
unfolding contains str
contains_bracket s h = rw (contains, index-Lacks b']' [] s h) refl

index_bracket : (s : Text) → Lacks b']' s → index s (str "]:") ≡ none
unfolding str
index_bracket s h = index-Lacks b']' (b':' ∷ []) s h

-- The first place of `]:` is behind a text without `]`.
index_bracket_at :
    (s t : Text) → Lacks b']' s → index (s ++ b']' ∷ b':' ∷ t) (str "]:") ≡ some (length s)
unfolding str index has_prefix
index_bracket_at [] t h = refl
index_bracket_at (c ∷ s) t h = ground (arith, index_bracket_at s t h.1)

-- A byte that a text holds is found.
index_byte-holds : (b : ℕ) (s t : Text) → (i : ℕ) × (index_byte (s ++ b ∷ t) b ≡ some i)
unfolding index_byte
index_byte-holds b [] t = (0, ground arith)
index_byte-holds b (c ∷ s) t =
    let (i, found) = index_byte-holds b s t in
    elim (Bool-cases (c == b)) [ inl same ↦ (0, ground arith) | inr other ↦ (suc i, ground arith) ]

-- `r.Host` is taken where it is not empty.
get_host_self : (host url_host : Text) → host ≢ [] → get_host host url_host ≡ host
unfolding get_host eqb
get_host_self [] url_host h = absurd (h refl)
get_host_self (c ∷ host) url_host h = refl

append-ne-nil : (s t : Text) → s ≢ [] → s ++ t ≢ []
append-ne-nil [] t h = absurd (h refl)
append-ne-nil (c ∷ s) t h = cc

module _ (name port : Text) (no_colon : Lacks b':' name) (open_name : Lacks b']' name)
    (open_port : Lacks b']' port) where
  whole_open : Lacks b']' (name ++ b':' ∷ port)
  whole_open = All-append _ name (b':' ∷ port) open_name (ground arith, open_port)

  -- A name or an address in front of a port.
  port_only_lem : port_only (name ++ b':' ∷ port) ≡ port
  unfolding port_only port_only_at
  port_only_lem =
      rw
        (
          index_byte-append b':' name port no_colon,
          index_bracket (name ++ b':' ∷ port) whole_open,
          contains_bracket (name ++ b':' ∷ port) whole_open,
        )
        (drop-length_add name (b':' ∷ port) 1)

  strip_port_lem : strip_port (name ++ b':' ∷ port) ≡ name
  unfolding strip_port strip_port_at
  strip_port_lem =
      rw
        (
          index_byte-append b':' name port no_colon,
          index_byte-Lacks b']' (name ++ b':' ∷ port) whole_open,
        )
        (take-length name (b':' ∷ port))

  -- A host that is a name or an address with a port, neither of them with a bracket: the name is left
  -- where the port is the scheme's default one, and the host stays as it is otherwise.
  pub sanitize_host_for_header_lem :
      (scheme url_host : Text)
      → name ≢ []
      → sanitize_host_for_header scheme (name ++ b':' ∷ port) url_host
        ≡ (if not (eqb port []) && is_default_port scheme port then name else name ++ b':' ∷ port)
  unfolding sanitize_host_for_header
  sanitize_host_for_header_lem scheme url_host h =
      rw
        (
          get_host_self (name ++ b':' ∷ port) url_host (append-ne-nil name (b':' ∷ port) h),
          port_only_lem,
          strip_port_lem,
        )
        refl

-- A bracketed address in front of a port.
module _ (address port : Text) (open_address : Lacks b']' address) where
  abbrev bracketed : Text
  bracketed = b'[' ∷ address ++ b']' ∷ b':' ∷ port

  bracketed_open : Lacks b']' (b'[' ∷ address)
  bracketed_open = (ground arith, open_address)

  bracketed-colon : (i : ℕ) × (index_byte bracketed b':' ≡ some i)
  bracketed-colon =
      let (i, found) = index_byte-holds b':' (b'[' ∷ address ++ b']' ∷ []) port in
      (i, rw (append_assoc address (b']' ∷ []) (b':' ∷ port)) at found)

  port_only-bracketed : port_only bracketed ≡ port
  unfolding port_only port_only_at
  port_only-bracketed =
      let (i, colon) = bracketed-colon in
      rw (colon, index_bracket_at (b'[' ∷ address) port bracketed_open)
        (drop-length_add (b'[' ∷ address) (b']' ∷ b':' ∷ port) 2)

  strip_port-bracketed : strip_port bracketed ≡ address
  unfolding strip_port strip_port_at
  strip_port-bracketed =
      let (i, colon) = bracketed-colon in
      rw
        (
          colon,
          index_byte-append b']' (b'[' ∷ address) (b':' ∷ port) bracketed_open,
          take-length (b'[' ∷ address) (b']' ∷ b':' ∷ port),
        )
        (unfold trim_prefix has_prefix str in refl)

  -- A host that is an address in brackets with a port: where the port is the scheme's default one, the
  -- brackets are dropped with it.
  pub sanitize_host_for_header-bracketed :
      (scheme url_host : Text)
      → sanitize_host_for_header scheme bracketed url_host
        ≡ (if not (eqb port []) && is_default_port scheme port then address else bracketed)
  unfolding sanitize_host_for_header get_host eqb
  sanitize_host_for_header-bracketed scheme url_host =
      rw (port_only-bracketed, strip_port-bracketed) refl

port_only_plain : (name : Text) → Lacks b':' name → port_only name ≡ []
unfolding port_only port_only_at
port_only_plain name h = rw (index_byte-Lacks b':' name h) refl

-- A host without a colon has no port, and stays as it is.
pub sanitize_host_for_header_plain :
    (scheme name url_host : Text)
    → Lacks b':' name
    → name ≢ []
    → sanitize_host_for_header scheme name url_host ≡ name
unfolding sanitize_host_for_header
sanitize_host_for_header_plain scheme name url_host h k =
    rw (get_host_self name url_host k, port_only_plain name h) (unfold eqb in refl)
