-- ===== src/Sign/Spaces.antt =====
-- internal/sign/v4a/v4/util.go, `StripExcessSpaces`.
pub mod Effect
use jfrog_registry_operator.Base.{
  drop, take, is_empty, index, Option, ℕ, suc, ◌+◌, [], ◌∷◌, ◌++◌, Text, str, Bool, ◌&&◌, none,
  some, if◌then◌else◌, ◌==◌,
}

abbrev pub space : ℕ
space = b' '

-- `str[:j+1]` after the first loop.
unfoldable pub trim_end : Text → Text
trim_end [] = []
trim_end (c ∷ s) = let rest = trim_end s in if is_empty rest && (c == space) then [] else c ∷ rest

-- `str[k:j+1]` after the second one, which stops at the last byte.
unfoldable pub trim_start : Text → Text
trim_start [] = []
trim_start (c ∷ []) = c ∷ []
trim_start (c ∷ d ∷ s) = let rest = trim_start (d ∷ s) in if c == space then rest else c ∷ d ∷ s

-- The third loop, with the counter `spaces`: what it writes from `k` on. It writes at or before the
-- place that it reads, so the bytes that it reads are those of `str`.
unfoldable pub collapse : ℕ → Text → Text
collapse spaces [] = []
collapse spaces (c ∷ s) =
    let inside = collapse (suc spaces) s in
    let outside = collapse 0 s in
    if c == space then (if spaces == 0 then c ∷ inside else inside) else c ∷ outside

-- From the first double space on; the bytes before it stay.
unfoldable pub collapse_from : Text → Option ℕ → Text
collapse_from s none = s
collapse_from s (some j) = take j s ++ collapse 0 (drop j s)

unfoldable pub strip_excess_spaces : Text → Text
strip_excess_spaces s =
    let trimmed = trim_start (trim_end s) in collapse_from trimmed (index trimmed (str "  "))
