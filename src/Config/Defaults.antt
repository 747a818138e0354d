-- ===== src/Config/Defaults.antt =====
-- What the defaults give: limits that are on, and the same again when they are applied twice.
use migux.Common.{
  ◌<◌, ◌≡◌, refl, ap, ap₂, ◌∙◌, [], ◌∷◌, Option, none, some, arith, Option-cases, inl, inr,
}
use migux.Common.Maps
use migux.Common.Maps.{Map}
use migux.Text.{Str, str_eq}
use migux.Worker.Routing.{LocationConfig}
use migux.Config.{
  MiguxConfig, HttpConfig, ServerConfig, apply_defaults, all_servers, all_locations,
  location_defaults, apply_defaults_from_server, global_defaults, http_defaults,
  apply_cache_defaults, default_global, default_http, GlobalConfig,
}

-- Each limit on a head or a body, each timeout and each setting of the pool is positive, so that the
-- tests `max > 0` of the readers hold.
pub record HasLimits (h : HttpConfig) : Type 0 where
  pub request_headers : 0 < h.max_request_headers_bytes
  pub request_body : 0 < h.max_request_body_bytes
  pub response_headers : 0 < h.max_upstream_response_headers_bytes
  pub response_body : 0 < h.max_upstream_response_body_bytes
  pub pool : 0 < h.proxy_pool_max_per_addr
  pub pool_idle : 0 < h.proxy_pool_idle_timeout_secs
  pub connect_timeout : 0 < h.proxy_connect_timeout_secs
  pub upstream_read_timeout : 0 < h.proxy_read_timeout_secs
  pub upstream_write_timeout : 0 < h.proxy_write_timeout_secs
  pub read_timeout : 0 < h.client_read_timeout_secs
  pub keepalive : 0 < h.keepalive_timeout_secs

http_defaults-HasLimits : (h : HttpConfig) → HasLimits (http_defaults h default_http)
unfolding http_defaults
http_defaults-HasLimits h = record {
  request_headers = ground arith;
  request_body = ground arith;
  response_headers = ground arith;
  response_body = ground arith;
  pool = ground arith;
  pool_idle = ground arith;
  connect_timeout = ground arith;
  upstream_read_timeout = ground arith;
  upstream_write_timeout = ground arith;
  read_timeout = ground arith;
  keepalive = ground arith;
}

servers_again : (m : Map Str ServerConfig) → all_servers (all_servers m) ≡ all_servers m
unfolding all_servers
servers_again [] = refl
servers_again ((name, s) ∷ m) = ground (arith, servers_again m)

location_again :
    (o : Option ServerConfig) (l : LocationConfig)
    → location_defaults o (location_defaults o l) ≡ location_defaults o l
unfolding location_defaults apply_defaults_from_server
location_again none l = refl
location_again (some s) l = ground arith

location_defaults-server :
    (o : Option ServerConfig) (l : LocationConfig) → (location_defaults o l).server ≡ l.server
unfolding location_defaults apply_defaults_from_server
location_defaults-server none l = refl
location_defaults-server (some s) l = refl

locations_again :
    (servers : Map Str ServerConfig) (m : Map Str LocationConfig)
    → all_locations servers (all_locations servers m) ≡ all_locations servers m
unfolding all_locations
locations_again servers [] = refl
locations_again servers ((name, l) ∷ m) =
    let o = Maps.get l.server servers in
    ap₂ (λ l' m'. (name, l') ∷ m')
      (ap (λ n. location_defaults (Maps.get n servers) (location_defaults o l))
          (location_defaults-server o l)
        ∙ location_again o l)
      (locations_again servers m)

http_again :
    (h : HttpConfig)
    → http_defaults (http_defaults h default_http) default_http ≡ http_defaults h default_http
unfolding http_defaults
http_again h = ground arith

cache_again :
    (h : HttpConfig)
    → apply_cache_defaults (http_defaults (apply_cache_defaults h) default_http)
      ≡ http_defaults (apply_cache_defaults h) default_http
unfolding http_defaults apply_cache_defaults
cache_again h = elim (Option-cases h.cache_dir) [
  | inl n ↦ ground (arith, n)
  | inr (d, n) ↦ ground (arith, n)
]

global_again :
    (g : GlobalConfig)
    → global_defaults (global_defaults g default_global) default_global
      ≡ global_defaults g default_global
unfolding global_defaults
global_again g = ground arith

-- After the defaults are filled in, the four limits on heads and bodies, the timeouts of the client,
-- of kept connections, and of connecting to, reading from and writing to an upstream, and the size and
-- the idle time of the pool are positive, whatever was read; and filling them in again changes nothing.
pub apply_defaults_lem :
    (cfg : MiguxConfig)
    → HasLimits (apply_defaults cfg).http
      × (apply_defaults (apply_defaults cfg) ≡ apply_defaults cfg)
unfolding apply_defaults
apply_defaults_lem cfg =
    let servers = all_servers cfg.servers in
    let cache = apply_cache_defaults cfg.http in
    let http = ap (λ h. http_defaults h default_http) (cache_again cfg.http) ∙ http_again cache in
    let location =
      ap (λ s. all_locations s (all_locations servers cfg.location)) (servers_again cfg.servers)
      ∙ locations_again servers cfg.location in
    (
      http_defaults-HasLimits cache,
      λ i. record {
        global = global_again cfg.global i;
        http = http i;
        upstream = cfg.upstream;
        servers = servers_again cfg.servers i;
        location = location i;
      },
    )
