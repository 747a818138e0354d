-- ===== src/Config/Validation/Tests.antt =====
-- Configurations that are checked, and the theorem of Config.Validation at one of them.
use migux.Common.{◌≡◌, refl, true, false, [], ◌∷◌, none, some, ◌||◌}
use migux.Text.{lit, same, is_empty}
use migux.Proxy.Upstream.{UpstreamConfig, one, normalize_servers, parse_servers_from_one}
use migux.Worker.Routing.{LocationConfig, proxy}
use migux.Config.{
  MiguxConfig, TlsConfig, default_global, default_http, default_server, default_config,
}
use migux.Common.Maps.{get}
use migux.Config.Validation.{Host, is_blank}
use migux.Config.Validation.Locations.{validate, config_or_default}
use migux.Config.Validation.Locations.Sound.{IsSound, validate-IsSound}

abbrev host : Host
host = record {
  exists = λ path. true;
  is_dir = λ path. true;
  is_file = λ path. same path (lit "cert") || same path (lit "key");
  is_socket_addr = λ s. true;
}

abbrev tls : TlsConfig
tls = record {
  listen = lit "0.0.0.0:8443";
  cert_path = lit "cert";
  key_path = lit "key";
  redirect_http = true;
  http2 = false;
  hsts_max_age_secs = none;
  hsts_include_subdomains = none;
}

abbrev api : LocationConfig
api = record {
  server = lit "main";
  path = lit "/api";
  location_type = proxy;
  root = none;
  index = none;
  upstream = some (lit "app");
  strip_prefix = none;
  cache = none;
}

abbrev app : UpstreamConfig
app = record {
  server = one (lit "127.0.0.1:3000");
  strategy = none;
  health = record {
    fail_threshold = 3;
    cooldown_secs = 10;
    active = false;
    interval_secs = 5;
    timeout_secs = 1;
  };
}

abbrev config : TlsConfig → LocationConfig → MiguxConfig
config t l = record {
  global = default_global;
  http = default_http;
  upstream = (lit "app", app) ∷ [];
  servers = (lit "main", record default_server { tls = some t }) ∷ [];
  location = (lit "api", l) ∷ [];
}

validate-config : is_empty (validate host (config tls api)).errors ≡ true
unfolding validate same is_blank get
validate-config = refl

validate-IsSound_example : IsSound host (config tls api)
validate-IsSound_example = validate-IsSound host (config tls api) validate-config

-- The listen address of HTTP cannot serve TLS too.
validate_conflict :
    (validate host (config (record tls { listen = lit "0.0.0.0:8080" }) api)).errors
    ≡ lit "TLS listen '0.0.0.0:8080' conflicts with an HTTP listen; use separate ports" ∷ []
unfolding validate same is_blank get
validate_conflict = refl

-- A configuration with an error is replaced as a whole.
config_replaced :
    config_or_default host default_config (some (config tls (record api { upstream = none })))
    ≡ default_config
unfolding config_or_default validate same is_blank get
config_replaced = refl

-- A list without an entry, written as one text, is not found out.
abbrev no_entries : UpstreamConfig
no_entries = record app { server = one (lit "[]") }

list_text_passes :
    (is_empty
        (validate host (record (config tls api) { upstream = (lit "app", no_entries) ∷ [] })).errors
      ≡ true)
    × (normalize_servers no_entries ≡ none)
unfolding validate same is_blank get normalize_servers parse_servers_from_one
list_text_passes = (refl, refl)
