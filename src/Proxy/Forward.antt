-- ===== src/Proxy/Forward.antt =====
-- crates/migux_proxy/src/proxy/headers.rs: the headers of a request on its way to the upstream.
-- `eq_ignore_ascii_case` with a literal in lower case is equality of the name in lower case.
pub mod Framing
use migux.Common.{
  ℕ, zero, suc, ◌+◌, ◌/◌, ◌%◌, Bool, true, false, ◌||◌, List, [], ◌∷◌, ◌++◌, Option, none, some,
  ltb, if◌then◌else◌, any,
}
use migux.Decimal.{decimal}
use migux.Text.{Str, lit, same, lines, to_ascii_lowercase}
use migux.Headers.{header_line, fields, split_header_tokens}

-- The lines after the request line.
abbrev after_first : List Str → List Str
after_first [] = []
after_first (line ∷ rest) = rest

-- A set of tokens is the list of them.
connection_tokens : List (Str × Str) → List Str
unfolding split_header_tokens
connection_tokens [] = []
connection_tokens ((name, value) ∷ fs) =
    let rest = connection_tokens fs in
    if same name (lit "connection") then split_header_tokens value ++ rest else rest

-- The trim of a value before it is split changes no token, since each token is trimmed.
pub collect_connection_tokens : Str → List Str
unfolding connection_tokens
collect_connection_tokens req_headers = connection_tokens (fields (after_first (lines req_headers)))

is_forwarded : Str → Bool
is_forwarded name =
    same name (lit "x-forwarded-for")
    || same name (lit "x-real-ip")
    || same name (lit "x-forwarded-proto")
    || same name (lit "x-forwarded-host")

is_hop_by_hop : Str → Bool
is_hop_by_hop name =
    same name (lit "connection")
    || same name (lit "keep-alive")
    || same name (lit "proxy-connection")
    || same name (lit "te")
    || same name (lit "trailer")
    || same name (lit "transfer-encoding")
    || same name (lit "upgrade")
    || same name (lit "content-length")

-- The loop over the lines: the headers that are passed on.
pub passed_on : List Str → List Str → List (Str × Str)
unfolding is_forwarded is_hop_by_hop header_line
passed_on tokens [] = []
passed_on tokens (line ∷ rest) =
    let others = passed_on tokens rest in
    elim (header_line line) [
      | none ↦ others
      | some (name, value) ↦
          let lower = to_ascii_lowercase name in
          if is_forwarded lower
          then others
          else if is_hop_by_hop lower
          then others
          else if any (same lower) tokens
          then others
          else (name, value) ∷ others
    ]

-- The variable `host_value` after the loop: the last `Host`.
host_value : Option Str → List (Str × Str) → Option Str
host_value host [] = host
host_value host ((name, value) ∷ fs) =
    host_value (if same name (lit "host") then some value else host) fs

abbrev forwarded_host : Option Str → List (Str × Str)
forwarded_host none = []
forwarded_host (some h) = (lit "X-Forwarded-Host", h) ∷ []

abbrev pub added : Str → Str → Bool → ℕ → Bool → Option Str → List (Str × Str)
added client_ip scheme keep_alive body_len is_chunked host =
    (lit "X-Forwarded-For", client_ip)
      ∷ (lit "X-Real-IP", client_ip)
      ∷ (lit "X-Forwarded-Proto", scheme)
      ∷ forwarded_host host
    ++ (lit "Connection", if keep_alive then lit "keep-alive" else lit "close")
      ∷ (if is_chunked
          then (lit "Transfer-Encoding", lit "chunked")
          else (lit "Content-Length", decimal body_len))
      ∷ []

-- The vector of headers before it is written out.
pub upstream_headers : Str → Str → Str → Bool → ℕ → Bool → List (Str × Str)
unfolding host_value
upstream_headers req_headers client_ip scheme keep_alive body_len is_chunked =
    let rest = after_first (lines req_headers) in
    passed_on (collect_connection_tokens req_headers) rest
    ++ added client_ip scheme keep_alive body_len is_chunked (host_value none (fields rest))

written : List (Str × Str) → Str
written [] = []
written ((name, value) ∷ hs) = name ++ lit ": " ++ value ++ lit "\r\n" ++ written hs

pub rewrite_proxy_headers : Str → Str → Str → Bool → ℕ → Bool → Str
unfolding written
rewrite_proxy_headers req_headers client_ip scheme keep_alive body_len is_chunked =
    written (upstream_headers req_headers client_ip scheme keep_alive body_len is_chunked)
