-- ===== src/Config/Validation.antt =====
-- crates/migux_config/src/validation.rs: the checks of a configuration. The file system and the
-- parser of socket addresses are the record `Host`. A check returns the messages that the code
-- pushes, in their order.
pub mod Clean
pub mod Servers
pub mod Locations
mod Tests
use migux.Common.{
  ℕ, zero, suc, ◌+◌, Bool, true, false, not, ◌&&◌, ◌||◌, List, [], ◌∷◌, ◌++◌, Option, none, some,
  ◌==◌, ltb, if◌then◌else◌,
}
use migux.Common.Maps
use migux.Common.Maps.{Map}
use migux.Text.{Str, lit, str_eq, same, is_empty, trim, starts_with}
use migux.Decimal.{decimal}
use migux.Proxy.Upstream.{UpstreamConfig, UpstreamServers, one, many}
use migux.Worker.Routing.{LocationConfig, LocationType, static, proxy}
use migux.Config.{MiguxConfig, HttpConfig, ServerConfig, TlsConfig}

-- What the checks ask of the system: `Path::exists`, `is_dir`, `is_file`, and whether a text parses as
-- a `SocketAddr`.
pub record Host : Type 0 where
  pub exists : Str → Bool
  pub is_dir : Str → Bool
  pub is_file : Str → Bool
  pub is_socket_addr : Str → Bool

pub record ConfigReport : Type 0 where
  pub warnings : List Str
  pub errors : List Str

pub data Message : Type 0 where
  warn : Str → Message
  error : Str → Message

-- The pushes onto the two lists.
unfoldable pub collect : ConfigReport → List Message → ConfigReport
collect report [] = report
collect report (warn m ∷ ms) = collect (record report { warnings = report.warnings ++ m ∷ [] }) ms
collect report (error m ∷ ms) = collect (record report { errors = report.errors ++ m ∷ [] }) ms

unfoldable pub is_ok : ConfigReport → Bool
is_ok report = is_empty report.errors

unfoldable pub has_errors : ConfigReport → Bool
has_errors report = not (is_empty report.errors)

bullets : List Str → Str
bullets [] = []
bullets (m ∷ ms) = lit "  - " ++ m ++ lit "\n" ++ bullets ms

unfoldable pub format : ConfigReport → Str
unfolding bullets
format report =
    let errors = if is_empty report.errors then [] else lit "Errors:\n" ++ bullets report.errors in
    if is_empty report.warnings
    then errors
    else errors
      ++ (if is_empty errors then [] else lit "\n")
      ++ lit "Warnings:\n"
      ++ bullets report.warnings

abbrev pub when : Bool → Message → List Message
when b m = if b then m ∷ [] else []

abbrev pub or_zero : Option ℕ → ℕ
or_zero none = 0
or_zero (some n) = n

abbrev is_zero : Option ℕ → Bool
is_zero none = false
is_zero (some n) = n == 0

abbrev oversized : Option ℕ → Option ℕ → Bool
oversized none max_obj = false
oversized (some total) none = false
oversized (some total) (some max_obj) = ltb 0 total && ltb total max_obj

cache_messages : Host → HttpConfig → Str → List Message
cache_messages host http cache_dir =
    (if host.exists cache_dir
      then when (not (host.is_dir cache_dir))
          (error (lit "http.cache_dir '" ++ cache_dir ++ lit "' exists but is not a directory"))
      else warn (
          lit "http.cache_dir '"
          ++ cache_dir
          ++ lit "' does not exist; it will be created at runtime")
        ∷ [])
    ++ when (or_zero http.cache_default_ttl_secs == 0)
        (warn (lit "http.cache_default_ttl_secs is 0; cache entries will not be stored"))
    ++ when (or_zero http.cache_max_object_bytes == 0)
        (warn (lit "http.cache_max_object_bytes is 0; cache is effectively disabled"))
    ++ when (is_zero http.cache_max_total_bytes)
        (warn (lit "http.cache_max_total_bytes is 0; global cache size cap is disabled"))
    ++ when (is_zero http.cache_max_entries)
        (warn (lit "http.cache_max_entries is 0; entry cap is disabled"))
    ++ when (oversized http.cache_max_total_bytes http.cache_max_object_bytes) (
        warn (
          lit
            "http.cache_max_object_bytes exceeds cache_max_total_bytes; oversized objects will never be cached"))
    ++ when (is_zero http.cache_max_ttl_secs)
        (warn (lit "http.cache_max_ttl_secs is 0; TTL clamp is disabled"))
    ++ when (is_zero http.cache_inactive_secs)
        (warn (lit "http.cache_inactive_secs is 0; inactive eviction is disabled"))

unfoldable pub validate_http_cache : Host → MiguxConfig → List Message
unfolding cache_messages
validate_http_cache host cfg = elim cfg.http.cache_dir [
  | none ↦ []
  | some dir ↦ cache_messages host cfg.http dir
]

abbrev pub is_blank : Str → Bool
unfolding trim
is_blank s = is_empty (trim s)

entry_messages : Str → ℕ → List Str → List Message
entry_messages name idx [] = []
entry_messages name idx (server ∷ servers) =
    when (is_blank server) (
      error (
        lit "upstream '"
        ++ name
        ++ lit "' server entry at index "
        ++ decimal idx
        ++ lit " is empty"))
    ++ entry_messages name (idx + 1) servers

upstream_messages : Str → UpstreamServers → List Message
unfolding entry_messages
upstream_messages name (one server) =
    when (is_blank server) (error (lit "upstream '" ++ name ++ lit "' has an empty server address"))
upstream_messages name (many servers) =
    when (is_empty servers) (error (lit "upstream '" ++ name ++ lit "' has no servers configured"))
    ++ entry_messages name 0 servers

unfoldable pub validate_upstreams : Map Str UpstreamConfig → List Message
unfolding upstream_messages
validate_upstreams [] = []
validate_upstreams ((name, upstream) ∷ m) =
    upstream_messages name upstream.server ++ validate_upstreams m
