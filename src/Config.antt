-- ===== src/Config.antt =====
-- crates/migux_config/src: the configuration as the program keeps it once it has been read, and the
-- defaults that are filled in. Locations are declared in Worker.Routing and upstreams in
-- Proxy.Upstream; parsing the file belongs to the crate `config`.
pub mod Defaults
pub mod Validation
mod Tests
use migux.Common.{
  ℕ, ◌*◌, ◌^◌, Bool, true, false, List, [], ◌∷◌, Option, none, some, ◌==◌, ltb, if◌then◌else◌,
}
use migux.Common.Maps
use migux.Common.Maps.{Map}
use migux.Text.{Str, lit, str_eq, is_empty}
use migux.Proxy.Upstream.{UpstreamConfig}
use migux.Worker.Routing.{LocationConfig}

pub record GlobalConfig : Type 0 where
  pub worker_processes : ℕ
  pub worker_connections : ℕ
  pub log_level : Str
  pub error_log : Str

pub data CacheEvictionPolicy : Type 0 where
  lru : CacheEvictionPolicy

pub record HttpConfig : Type 0 where
  pub sendfile : Bool
  pub keepalive_timeout_secs : ℕ
  pub access_log : Str
  pub client_read_timeout_secs : ℕ
  pub proxy_connect_timeout_secs : ℕ
  pub proxy_read_timeout_secs : ℕ
  pub proxy_write_timeout_secs : ℕ
  pub proxy_pool_max_per_addr : ℕ
  pub proxy_pool_idle_timeout_secs : ℕ
  pub max_request_headers_bytes : ℕ
  pub max_request_body_bytes : ℕ
  pub max_upstream_response_headers_bytes : ℕ
  pub max_upstream_response_body_bytes : ℕ
  pub cache_dir : Option Str
  pub cache_default_ttl_secs : Option ℕ
  pub cache_max_object_bytes : Option ℕ
  pub cache_max_total_bytes : Option ℕ
  pub cache_max_entries : Option ℕ
  pub cache_eviction_policy : Option CacheEvictionPolicy
  pub cache_max_ttl_secs : Option ℕ
  pub cache_inactive_secs : Option ℕ

pub record TlsConfig : Type 0 where
  pub listen : Str
  pub cert_path : Str
  pub key_path : Str
  pub redirect_http : Bool
  pub http2 : Bool
  pub hsts_max_age_secs : Option ℕ
  pub hsts_include_subdomains : Option Bool

pub record ServerConfig : Type 0 where
  pub listen : Str
  pub server_name : Str
  pub root : Str
  pub index : Str
  pub tls : Option TlsConfig

pub record MiguxConfig : Type 0 where
  pub global : GlobalConfig
  pub http : HttpConfig
  pub upstream : Map Str UpstreamConfig
  pub servers : Map Str ServerConfig
  pub location : Map Str LocationConfig

abbrev pub default_global : GlobalConfig
default_global = record {
  worker_processes = 1;
  worker_connections = 1024;
  log_level = lit "info";
  error_log = lit "/var/log/migux/error.log";
}

abbrev pub default_http : HttpConfig
default_http = record {
  sendfile = true;
  keepalive_timeout_secs = 65;
  access_log = lit "/var/log/migux/access.log";
  client_read_timeout_secs = 15;
  proxy_connect_timeout_secs = 5;
  proxy_read_timeout_secs = 30;
  proxy_write_timeout_secs = 30;
  proxy_pool_max_per_addr = 32;
  proxy_pool_idle_timeout_secs = 60;
  max_request_headers_bytes = 64 * 1024;
  max_request_body_bytes = 10 * 1024 * 1024;
  max_upstream_response_headers_bytes = 64 * 1024;
  max_upstream_response_body_bytes = 10 * 1024 * 1024;
  cache_dir = none;
  cache_default_ttl_secs = none;
  cache_max_object_bytes = none;
  cache_max_total_bytes = none;
  cache_max_entries = none;
  cache_eviction_policy = none;
  cache_max_ttl_secs = none;
  cache_inactive_secs = none;
}

abbrev pub default_server : ServerConfig
default_server = record {
  listen = lit "0.0.0.0:8080";
  server_name = lit "localhost";
  root = lit "./public";
  index = lit "index.html";
  tls = none;
}

-- A number that is not set is 0, a text that is not set is empty.
abbrev pub or_number : ℕ → ℕ → ℕ
or_number n default = if n == 0 then default else n

abbrev pub or_text : Str → Str → Str
or_text s default = if is_empty s then default else s

abbrev pub or_some : {A : Type 0} → Option A → A → Option A
or_some none default = some default
or_some (some a) default = some a

-- `GlobalConfig::apply_defaults_from`
unfoldable pub global_defaults : GlobalConfig → GlobalConfig → GlobalConfig
global_defaults g defaults = record {
  worker_processes = or_number g.worker_processes defaults.worker_processes;
  worker_connections = or_number g.worker_connections defaults.worker_connections;
  log_level = or_text g.log_level defaults.log_level;
  error_log = or_text g.error_log defaults.error_log;
}

unfoldable pub apply_cache_defaults : HttpConfig → HttpConfig
apply_cache_defaults h = elim h.cache_dir [
  | none ↦ h
  | some dir ↦ record h {
    cache_default_ttl_secs = or_some h.cache_default_ttl_secs 30;
    cache_max_object_bytes = or_some h.cache_max_object_bytes 1_048_576;
  }
]

-- `HttpConfig::apply_defaults_from`
unfoldable pub http_defaults : HttpConfig → HttpConfig → HttpConfig
http_defaults h d = record h {
  access_log = or_text h.access_log d.access_log;
  keepalive_timeout_secs = or_number h.keepalive_timeout_secs d.keepalive_timeout_secs;
  client_read_timeout_secs = or_number h.client_read_timeout_secs d.client_read_timeout_secs;
  proxy_connect_timeout_secs = or_number h.proxy_connect_timeout_secs d.proxy_connect_timeout_secs;
  proxy_read_timeout_secs = or_number h.proxy_read_timeout_secs d.proxy_read_timeout_secs;
  proxy_write_timeout_secs = or_number h.proxy_write_timeout_secs d.proxy_write_timeout_secs;
  proxy_pool_max_per_addr = or_number h.proxy_pool_max_per_addr d.proxy_pool_max_per_addr;
  proxy_pool_idle_timeout_secs =
      or_number h.proxy_pool_idle_timeout_secs d.proxy_pool_idle_timeout_secs;
  max_request_headers_bytes = or_number h.max_request_headers_bytes d.max_request_headers_bytes;
  max_request_body_bytes = or_number h.max_request_body_bytes d.max_request_body_bytes;
  max_upstream_response_headers_bytes =
      or_number h.max_upstream_response_headers_bytes d.max_upstream_response_headers_bytes;
  max_upstream_response_body_bytes =
      or_number h.max_upstream_response_body_bytes d.max_upstream_response_body_bytes;
}

-- `ServerConfig::apply_defaults_from`
unfoldable pub server_defaults : ServerConfig → ServerConfig → ServerConfig
server_defaults s d = record s {
  listen = or_text s.listen d.listen;
  server_name = or_text s.server_name d.server_name;
  root = or_text s.root d.root;
  index = or_text s.index d.index;
}

-- `LocationConfig::apply_defaults_from_server`
unfoldable pub apply_defaults_from_server : LocationConfig → ServerConfig → LocationConfig
apply_defaults_from_server l server = record l {
  root = or_some l.root server.root;
  index = or_some l.index server.index;
}

all_servers : Map Str ServerConfig → Map Str ServerConfig
unfolding server_defaults
all_servers [] = []
all_servers ((name, server) ∷ m) = (name, server_defaults server default_server) ∷ all_servers m

abbrev location_defaults : Option ServerConfig → LocationConfig → LocationConfig
unfolding apply_defaults_from_server
location_defaults none l = l
location_defaults (some server) l = apply_defaults_from_server l server

all_locations : Map Str ServerConfig → Map Str LocationConfig → Map Str LocationConfig
unfolding location_defaults
all_locations servers [] = []
all_locations servers ((name, l) ∷ m) =
    (name, location_defaults (Maps.get l.server servers) l) ∷ all_locations servers m

pub apply_defaults : MiguxConfig → MiguxConfig
unfolding apply_cache_defaults global_defaults http_defaults all_servers all_locations
apply_defaults cfg =
    let servers = all_servers cfg.servers in
    record cfg {
      global = global_defaults cfg.global default_global;
      http = http_defaults (apply_cache_defaults cfg.http) default_http;
      servers = servers;
      location = all_locations servers cfg.location;
    }

-- `MiguxConfig::default()`
pub default_config : MiguxConfig
unfolding apply_defaults
default_config = apply_defaults (record {
  global = default_global;
  http = default_http;
  upstream = [];
  servers = [];
  location = [];
})
