-- ===== src/Config/Validation/Locations.antt =====
-- `validate_locations` and `validate` of crates/migux_config/src/validation.rs.
pub mod Sound
use migux.Common.{
  Bool, true, false, not, ◌&&◌, ◌||◌, List, [], ◌∷◌, ◌++◌, Option, none, some, if◌then◌else◌,
}
use migux.Common.Maps
use migux.Common.Maps.{Map}
use migux.Text.{Str, lit, str_eq, same, is_empty, starts_with}
use migux.Proxy.Upstream.{UpstreamConfig}
use migux.Worker.Routing.{LocationConfig, LocationType, static, proxy}
use migux.Config.{MiguxConfig, ServerConfig}
use migux.Config.Validation.{
  Host, Message, warn, error, when, is_blank, ConfigReport, collect, validate_http_cache,
  validate_upstreams,
}
use migux.Config.Validation.Servers.{validate_servers}

path_messages : Str → Str → List Message
unfolding starts_with
path_messages name path =
    if is_blank path
    then error (lit "location '" ++ name ++ lit "' has an empty path") ∷ []
    else when (not (starts_with path (lit "/")))
        (error (lit "location '" ++ name ++ lit "' path '" ++ path ++ lit "' must start with '/'"))

prefix_messages : Str → Str → Option Str → List Message
unfolding starts_with
prefix_messages name path none = []
prefix_messages name path (some prefix) = when (not (starts_with path prefix)) (
    warn (
      lit "location '"
      ++ name
      ++ lit "' strip_prefix '"
      ++ prefix
      ++ lit "' does not match path '"
      ++ path
      ++ lit "'"))

abbrev is_some : {A : Type 0} → Option A → Bool
is_some none = false
is_some (some a) = true

abbrev or_else : Option Str → Str → Str
or_else none default = default
or_else (some s) default = s

abbrev is_true : Option Bool → Bool
is_true none = false
is_true (some b) = b

cache_warning : Str → LocationConfig → List Message
cache_warning name location =
    when (is_true location.cache && elim location.location_type [ static ↦ false | proxy ↦ true ])
      (warn (lit "location '" ++ name ++ lit "' enables cache but is not static"))

-- A proxy location without an upstream goes to the next one before the last check.
type_messages : Host → MiguxConfig → Str → LocationConfig → ServerConfig → List Message
unfolding cache_warning
type_messages host cfg name location server = elim location.location_type [
  | static ↦
      let root = or_else location.root server.root in
      when (is_some location.upstream)
        (warn (lit "location '" ++ name ++ lit "' is static but defines an upstream"))
      ++ when (not (is_blank root) && not (host.exists root))
          (warn (lit "location '" ++ name ++ lit "' root '" ++ root ++ lit "' does not exist"))
      ++ cache_warning name location
  | proxy ↦ elim location.upstream [
    | none ↦ error (lit "location '" ++ name ++ lit "' is proxy but no upstream is configured") ∷ []
    | some upstream ↦
        when (not (is_some (Maps.get upstream cfg.upstream))) (
          error (
            lit "location '"
            ++ name
            ++ lit "' references unknown upstream '"
            ++ upstream
            ++ lit "'"))
        ++ cache_warning name location
  ]
]

unfoldable pub location_messages : Host → MiguxConfig → Str → LocationConfig → List Message
unfolding path_messages prefix_messages type_messages
location_messages host cfg name location =
    if is_blank location.server
    then error (lit "location '" ++ name ++ lit "' has an empty server reference") ∷ []
    else elim (Maps.get location.server cfg.servers) [
      | none ↦
          error (
            lit "location '"
            ++ name
            ++ lit "' references unknown server '"
            ++ location.server
            ++ lit "'")
          ∷ []
      | some server ↦
          path_messages name location.path
          ++ prefix_messages name location.path location.strip_prefix
          ++ type_messages host cfg name location server
    ]

unfoldable pub validate_locations : Host → MiguxConfig → Map Str LocationConfig → List Message
unfolding location_messages
validate_locations host cfg [] = []
validate_locations host cfg ((name, location) ∷ m) =
    location_messages host cfg name location ++ validate_locations host cfg m

abbrev pub no_messages : ConfigReport
no_messages = record { warnings = []; errors = [] }

unfoldable pub messages : Host → MiguxConfig → List Message
unfolding validate_http_cache validate_upstreams validate_servers validate_locations
messages host cfg =
    validate_http_cache host cfg
    ++ validate_upstreams cfg.upstream
    ++ validate_servers host cfg.servers
    ++ validate_locations host cfg cfg.location

unfoldable pub validate : Host → MiguxConfig → ConfigReport
unfolding messages collect
validate host cfg = collect no_messages (messages host cfg)

-- `from_file_or_default`, from the configuration that was read, if it was: with errors in its report
-- the default one is taken.
unfoldable pub config_or_default : Host → MiguxConfig → Option MiguxConfig → MiguxConfig
unfolding validate
config_or_default host default none = default
config_or_default host default (some cfg) =
    if is_empty (validate host cfg).errors then cfg else default
