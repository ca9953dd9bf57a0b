-- ===== src/Destination.antt =====
-- Which destinations the CONNECT proxy forwards to (`check_destination` of
-- src/megabasterd_cli/proxy/connect_proxy.py). A host is a text of ASCII letters, digits, dots and
-- dashes, as the two request expressions let it through.
pub mod Mega
mod Examples
use mega_basterd_cli.Prelude.{
  ℕ, ◌+◌, String, Bool, true, false, not, ◌&&◌, ◌||◌, Option, none, some, List, [], ◌∷◌, leb, ◌==◌,
  if◌then◌else◌, codes,
}

pub data Rejected : Type 0 where
  forbidden_host forbidden_port : Rejected

-- IGNORECASE
abbrev pub lower : ℕ → ℕ
lower c = if leb b'A' c && leb c b'Z' then c + 32 else c

abbrev pub same_text : List ℕ → List ℕ → Bool
same_text [] [] = true
same_text (a ∷ s) (b ∷ t) = lower a == b && same_text s t
same_text _ _ = false

abbrev pub mega_nz : List ℕ
mega_nz = codes "mega.nz"

abbrev pub mega_co_nz : List ℕ
mega_co_nz = codes "mega.co.nz"

-- `mega(?:\.co)?\.nz$`
abbrev pub is_mega : List ℕ → Bool
is_mega s = same_text s mega_nz || same_text s mega_co_nz

-- `^(.+\.)mega...`, behind a first character
unfoldable pub behind_dot : List ℕ → Bool
behind_dot [] = false
behind_dot (c ∷ s) = (c == b'.' && is_mega s) || behind_dot s

abbrev pub is_subdomain : List ℕ → Bool
is_subdomain [] = false
is_subdomain (c ∷ s) = behind_dot s

-- `ALLOWED_HOST_RE`
abbrev pub is_allowed_host : List ℕ → Bool
is_allowed_host s = is_mega s || is_subdomain s

abbrev pub is_allowed_port : ℕ → Bool → Bool
is_allowed_port port true = port == 443
is_allowed_port port false = port == 80 || port == 443

unfoldable pub check_destination : String → ℕ → Bool → Bool → Option Rejected
check_destination host port is_connect allow_any_port =
    if is_allowed_host (codes host)
    then if allow_any_port || is_allowed_port port is_connect then none else some forbidden_port
    else some forbidden_host
