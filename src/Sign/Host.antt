-- ===== src/Sign/Host.antt =====
-- internal/sign/v4a/v4/host.go.
pub mod Port
use jfrog_registry_operator.Base.{
  Option, ℕ, suc, ◌+◌, [], ◌∷◌, ◌++◌, Text, str, Bool, true, false, not, ◌&&◌, ◌||◌, none, some,
  if◌then◌else◌, eqb, index_byte, index, contains, take, drop, has_prefix, map, lower, length,
}

-- `strings.ToLower`, on an ASCII text.
unfoldable pub to_lower : Text → Text
to_lower s = map lower s

-- `strings.TrimPrefix`
unfoldable pub trim_prefix : Text → Text → Text
trim_prefix s prefix = if has_prefix s prefix then drop (length prefix) s else s

-- With the places of `:` and of `]`.
unfoldable pub strip_port_at : Text → Option ℕ → Option ℕ → Text
strip_port_at hostport none bracket = hostport
strip_port_at hostport (some colon) (some i) = trim_prefix (take i hostport) (str "[")
strip_port_at hostport (some colon) none = take colon hostport

unfoldable pub strip_port : Text → Text
strip_port hostport = strip_port_at hostport (index_byte hostport b':') (index_byte hostport b']')

-- With the places of `:` and of `]:`.
unfoldable pub port_only_at : Text → Option ℕ → Option ℕ → Text
port_only_at hostport none bracket = []
port_only_at hostport (some colon) (some i) = drop (i + 2) hostport
port_only_at hostport (some colon) none =
    if contains hostport (str "]") then [] else drop (colon + 1) hostport

unfoldable pub port_only : Text → Text
port_only hostport = port_only_at hostport (index_byte hostport b':') (index hostport (str "]:"))

unfoldable pub is_default_port : Text → Text → Bool
is_default_port scheme port =
    if eqb port []
    then true
    else (eqb (to_lower scheme) (str "http") && eqb port (str "80"))
      || (eqb (to_lower scheme) (str "https") && eqb port (str "443"))

-- `getHost`, on `r.Host` and `r.URL.Host`.
unfoldable pub get_host : Text → Text → Text
get_host host url_host = if not (eqb host []) then host else url_host

-- `SanitizeHostForHeader`: what `r.Host` is afterwards.
unfoldable pub sanitize_host_for_header : Text → Text → Text → Text
sanitize_host_for_header scheme host url_host =
    let used = get_host host url_host in
    let port = port_only used in
    if not (eqb port []) && is_default_port scheme port then strip_port used else host
