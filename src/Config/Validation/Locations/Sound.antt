-- ===== src/Config/Validation/Locations/Sound.antt =====
-- What a configuration has whose report holds no error.
use migux.Common.{
  ◌≡◌, refl, inl, inr, true, false, [], ◌∷◌, ◌++◌, Option, some, arith, Option-cases, All,
}
use migux.Common.Maps
use migux.Common.Maps.{Map}
use migux.Text.{Str, lit, str_eq, is_empty, starts_with}
use migux.Proxy.Upstream.{UpstreamConfig}
use migux.Worker.Routing.{LocationConfig, LocationType, static, proxy}
use migux.Config.{MiguxConfig, ServerConfig}
use migux.Config.Validation.{Host, validate_http_cache, validate_upstreams}
use migux.Config.Validation.Clean.{clean, clean-append, collect-clean, HasServers, upstreams_lem}
use migux.Config.Validation.Servers.{validate_servers}
use migux.Config.Validation.Servers.Apart.{IsServer, IsApart, validate_servers_lem}
use migux.Config.Validation.Locations.{
  validate, validate_locations, location_messages, path_messages, prefix_messages, type_messages,
  messages, no_messages,
}

-- A proxy location names an upstream of the configuration.
abbrev pub HasUpstream : MiguxConfig → LocationType → Option Str → Type 0
HasUpstream cfg static upstream = Unit
HasUpstream cfg proxy upstream =
    (u : Str) × (c : UpstreamConfig) × (upstream ≡ some u) × (Maps.get u cfg.upstream ≡ some c)

abbrev pub IsLocation : MiguxConfig → LocationConfig → Type 0
IsLocation cfg l =
    ((s : ServerConfig) × (Maps.get l.server cfg.servers ≡ some s))
    × (starts_with l.path (lit "/") ≡ true)
    × HasUpstream cfg l.location_type l.upstream

pub record IsSound (host : Host) (cfg : MiguxConfig) : Type 0 where
  pub some_server : is_empty cfg.servers ≡ false
  pub servers : All (λ s. IsServer host s.1) cfg.servers
  pub apart : All (λ s. IsApart cfg.servers s.1.tls) cfg.servers
  pub upstreams : All (λ u. HasServers u.1) cfg.upstream
  pub locations : All (λ l. IsLocation cfg l.1) cfg.location

path_lem :
    (name path : Str) → clean (path_messages name path) ≡ true → starts_with path (lit "/") ≡ true
unfolding path_messages
path_lem name path h = ground arith

upstream_known :
    (host : Host) (cfg : MiguxConfig) (name : Str) (l : LocationConfig) (server : ServerConfig)
    → l.location_type ≡ proxy
    → clean (type_messages host cfg name l server) ≡ true
    → HasUpstream cfg proxy l.upstream
unfolding type_messages
upstream_known host cfg name l server e h = elim (Option-cases l.upstream) [
  | inl n ↦ absurd (ground (arith, e, n, h))
  | inr (u, k) ↦ elim (Option-cases (Maps.get u cfg.upstream)) [
    | inl n ↦ absurd (ground (arith, e, k, n, h))
    | inr (c, n) ↦ (u, c, k, n)
  ]
]

type_lem :
    (host : Host) (cfg : MiguxConfig) (name : Str) (l : LocationConfig) (server : ServerConfig)
    → clean (type_messages host cfg name l server) ≡ true
    → HasUpstream cfg l.location_type l.upstream
type_lem host cfg name l server h = by_type l.location_type refl
  where
    by_type : (t : LocationType) → l.location_type ≡ t → HasUpstream cfg t l.upstream
    by_type static e = tt
    by_type proxy e = upstream_known host cfg name l server e h

location_lem :
    (host : Host) (cfg : MiguxConfig) (name : Str) (l : LocationConfig)
    → clean (location_messages host cfg name l) ≡ true
    → IsLocation cfg l
unfolding location_messages
location_lem host cfg name l h = elim (Option-cases (Maps.get l.server cfg.servers)) [
  | inl n ↦ absurd (ground (arith, n, h))
  | inr (s, e) ↦
      let path = path_messages name l.path in
      let prefix = prefix_messages name l.path l.strip_prefix in
      let types = type_messages host cfg name l s in
      let h' : clean (path ++ prefix ++ types) ≡ true = ground (arith, e, h) in
      let (a, t) = clean-append (path ++ prefix) types h' in
      let (p, _) = clean-append path prefix a in
      ((s, e), path_lem name l.path p, type_lem host cfg name l s t)
]

locations_lem :
    (host : Host) (cfg : MiguxConfig) (m : Map Str LocationConfig)
    → clean (validate_locations host cfg m) ≡ true
    → All (λ l. IsLocation cfg l.1) m
unfolding validate_locations
locations_lem host cfg [] h = tt
locations_lem host cfg ((name, l) ∷ m) h =
    let (a, b) =
      clean-append (location_messages host cfg name l) (validate_locations host cfg m) h in
    (location_lem host cfg name l a, locations_lem host cfg m b)

-- A configuration whose report holds no error has a server; each server has an address to listen on,
-- and if it has a TLS section, one for TLS and both its files, where the address for TLS is not that
-- of any server; each upstream that is not written as one text in brackets gives the proxy at least
-- one server, and no blank one; and each location names a server of the configuration, has a path
-- that starts with a slash and, if it is a proxy, names an upstream of the configuration.
pub validate-IsSound :
    (host : Host) (cfg : MiguxConfig)
    → is_empty (validate host cfg).errors ≡ true
    → IsSound host cfg
unfolding validate messages
validate-IsSound host cfg h =
    let cache = validate_http_cache host cfg in
    let upstreams = validate_upstreams cfg.upstream in
    let servers = validate_servers host cfg.servers in
    let (all, _) = collect-clean no_messages (messages host cfg) h in
    let (abc, d) =
      clean-append (cache ++ upstreams ++ servers) (validate_locations host cfg cfg.location) all in
    let (ab, c) = clean-append (cache ++ upstreams) servers abc in
    let (_, b) = clean-append cache upstreams ab in
    let (some_server, each, apart) = validate_servers_lem host cfg.servers c in
    record {
      some_server = some_server;
      servers = each;
      apart = apart;
      upstreams = upstreams_lem cfg.upstream b;
      locations = locations_lem host cfg cfg.location d;
    }
