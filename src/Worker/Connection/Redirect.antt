-- ===== src/Worker/Connection/Redirect.antt =====
-- The target of a redirect to HTTPS: the last functions of crates/migux_core/src/worker/mod.rs.
use migux.Common.{
  ℕ, Bool, not, ◌&&◌, [], ◌∷◌, ◌++◌, Option, none, some, ◌==◌, leb, all, if◌then◌else◌,
}
use migux.Text.{Str, lit, trim, split_once, starts_with, is_empty}
use migux.Decimal.{decimal}

-- A split at the last place of a character.
rsplit_once : ℕ → Str → Option (Str × Str)
rsplit_once c [] = none
rsplit_once c (x ∷ s) = elim (rsplit_once c s) [
  | some (l, r) ↦ some (x ∷ l, r)
  | none ↦ if x == c then some ([], s) else none
]

abbrev is_ascii_digit : ℕ → Bool
is_ascii_digit c = leb b'0' c && leb c b'9'

abbrev port_after : Str → Option Str
port_after [] = none
port_after (c ∷ s) = if c == b':' then some s else none

-- The host and the port after its last colon, if it is one.
split_port : Str → Str × Option Str
unfolding rsplit_once
split_port host = elim (rsplit_once b':' host) [
  | none ↦ (host, none)
  | some (left, port) ↦
      if not (is_empty port) && all is_ascii_digit port then (left, some port) else (host, none)
]

unfoldable pub split_host_port : Str → Str × Option Str
unfolding split_port trim starts_with split_once
split_host_port raw =
    let host = trim raw in
    if starts_with host (lit "[")
    then elim (split_once b']' host) [
      | some (inside, rest) ↦ (inside ++ lit "]", port_after rest)
      | none ↦ split_port host
    ]
    else split_port host

-- `port_of` is the port of a text that parses as a socket address.
unfoldable pub build_https_redirect : (Str → Option ℕ) → Str → Str → Str → Str
unfolding split_host_port decimal
build_https_redirect port_of host path tls_listen = elim (port_of tls_listen) [
  | none ↦ lit "https://" ++ (split_host_port host).0 ++ path
  | some p ↦
      if p == 443
      then lit "https://" ++ (split_host_port host).0 ++ path
      else lit "https://" ++ (split_host_port host).0 ++ lit ":" ++ decimal p ++ path
]
