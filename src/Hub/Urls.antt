-- ===== src/Hub/Urls.antt =====
-- Which URLs the Hub accepts (internal/hub/security.go): validateHTTPURL.
use agent_federation_hub.Base.{
  ℕ, String, Bool, ◌&&◌, ◌||◌, not, List, [], ◌∷◌, Option, none, some, ◌==◌, eqb, if◌then◌else◌,
  map,
}
use mathlib.Core.List.{reverse}
use agent_federation_hub.Base.Text.{codes, to_lower, same_codes, ends_with}
use agent_federation_hub.Store.State.{invalid, Result, ok, err}
use agent_federation_hub.Hub.Service.{ParsedUrl, Formats}

-- strings.TrimSuffix(s, ".")
unfoldable pub without_dot : List ℕ → List ℕ
without_dot cs = elim (reverse cs) [ [] ↦ cs | c ∷ rest ↦ if eqb c b'.' then reverse rest else cs ]

unfoldable pub lower_host : String → List ℕ
unfolding without_dot to_lower
lower_host name = map to_lower (without_dot (codes name))

unfoldable pub is_reserved_host : List ℕ → Bool
unfolding same_codes ends_with
is_reserved_host cs =
    same_codes cs (codes "localhost")
    || ends_with cs (codes ".localhost")
    || ends_with cs (codes ".local")
    || ends_with cs (codes ".internal")

unfoldable pub check_ip : Bool → Option Bool → Result (Unit {0})
check_ip public_only none = ok tt
check_ip public_only (some is_public) =
    if public_only && not is_public then err (invalid "URL IP is not public") else ok tt

unfoldable pub check_url : Formats → Bool → Option ParsedUrl → Result (Unit {0})
unfolding lower_host is_reserved_host check_ip
check_url formats public_only none = err (invalid "URL does not parse")
check_url formats public_only (some u) =
    if u.has_user || u.hostname == ""
    then err (invalid "URL must have a host and no user information")
    else if public_only && is_reserved_host (lower_host u.hostname)
    then err (invalid "public URL host is reserved for private use")
    else if public_only && not (u.scheme == "https")
    then err (invalid "public URL must use HTTPS")
    else if not public_only && not (u.scheme == "http") && not (u.scheme == "https")
    then err (invalid "URL must use HTTP or HTTPS")
    else check_ip public_only (formats.is_public_ip u.hostname)

unfoldable pub validate_http_url : Formats → String → Bool → Result (Unit {0})
unfolding check_url
validate_http_url formats raw public_only = check_url formats public_only (formats.parse_url raw)
