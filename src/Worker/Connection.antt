-- ===== src/Worker/Connection.antt =====
-- crates/migux_core/src/worker/mod.rs and dispatch.rs: a connection of a client, request by request.
-- The static service and the proxy are arguments of the functions that call them, and so are the
-- parser of socket addresses and the numbers of the cache metrics.
pub mod Redirect
pub mod KeepAlive
mod Tests
use migux.Common.{
  ℕ, zero, suc, ◌+◌, Bool, true, false, not, ◌&&◌, ◌||◌, List, [], ◌∷◌, ◌++◌, Option, none, some,
  ltb, ◌==◌, if◌then◌else◌, length, drop,
}
use migux.Text.{Str, lit, same, is_empty, split_once, trim_end_by}
use migux.Decimal.{decimal}
use migux.Stream.{Conn, Client, Sink, Failure, Result, done, err, Run, pure, fail, ◌>>=◌, ◌>>◌}
use migux.Http.{send_404, send_405_with_allow, send_response, send_redirect}
use migux.Config.{HttpConfig, ServerConfig, TlsConfig}
use migux.Worker.Body.{ChunkedBodyError, discard_chunked_body, discard_content_length}
use migux.Worker.Request.{extract_host_header}
use migux.Worker.Request.Read.{ParsedRequest, read_http_request}
use migux.Worker.Routing.{LocationConfig, LocationType, static, proxy, match_location}
use migux.Worker.Connection.Redirect.{build_https_redirect}

pub record ServerRuntime : Type 0 where
  pub name : Str
  pub config : ServerConfig
  pub locations : List LocationConfig

pub record CacheMetrics : Type 0 where
  pub memory_hits : ℕ
  pub memory_misses : ℕ
  pub disk_hits : ℕ
  pub disk_misses : ℕ
  pub disk_evictions : ℕ
  pub disk_evicted_bytes : ℕ
  pub disk_bytes : ℕ
  pub disk_entries : ℕ

-- What a connection depends on. `serve_static_cached` asks of the client's stream that it can be
-- written to, and no more, and does not get the buffer. The proxy also takes from what the client sends.
pub record Services : Type 0 where
  pub decode : Str → Str
  pub from_utf8 : Str → Option Str
  pub port_of : Str → Option ℕ
  pub metrics : CacheMetrics
  pub serve_static :
      ServerConfig → LocationConfig → ParsedRequest → Option Str → Run Sink Failure (Unit {0})
  pub serve_proxy : LocationConfig → ParsedRequest → Option Str → Run Client Failure (Unit {0})

-- The connection's own data.
pub record Peer : Type 0 where
  pub is_tls : Bool
  pub is_loopback : Bool

abbrev subdomains : Option Bool → Bool
subdomains none = false
subdomains (some b) = b

hsts_of : TlsConfig → Option Str
unfolding decimal
hsts_of tls = elim tls.hsts_max_age_secs [
  | none ↦ none
  | some max_age ↦
      if max_age == 0
      then none
      else some (
          lit "max-age="
          ++ decimal max_age
          ++ (if subdomains tls.hsts_include_subdomains then lit "; includeSubDomains" else []))
]

pub build_hsts_header : ServerRuntime → Bool → Option Str
unfolding hsts_of
build_hsts_header server is_tls =
    if not is_tls then none else elim server.config.tls [ none ↦ none | some tls ↦ hsts_of tls ]

-- `let _ =`: the error of a discard is dropped, and what it has taken stays taken.
ignore : Run Conn ChunkedBodyError (Unit {0}) → Run Client Failure (Unit {0})
ignore m c = (record c { conn = (m c.conn).0 }, done tt)

pub discard_body : Services → HttpConfig → ParsedRequest → Run Client Failure (Unit {0})
unfolding ignore
discard_body v http req =
    if req.is_chunked
    then ignore (discard_chunked_body v.from_utf8 http.max_request_body_bytes)
    else if ltb 0 req.content_length
    then ignore (discard_content_length req.content_length)
    else pure tt

pub is_get_or_head : Str → Bool
is_get_or_head method = same method (lit "GET") || same method (lit "HEAD")

on_sink : Run Sink Failure (Unit {0}) → Run Client Failure (Unit {0})
on_sink m c = (record c { sink = (m c.sink).0 }, (m c.sink).1)

-- Whether the connection is closed in any case, of a static location.
dispatch_static :
    Services
    → HttpConfig
    → ServerRuntime
    → LocationConfig
    → ParsedRequest
    → Option Str
    → Run Client Failure Bool
unfolding on_sink discard_body is_get_or_head
dispatch_static v http server location req hsts_header =
    if not (is_get_or_head req.method)
    then send_405_with_allow (lit "GET, HEAD") >> pure true
    else on_sink (v.serve_static server.config location req hsts_header)
      >> discard_body v http req
      >> pure false

-- The same of any location.
pub dispatch_location :
    Services
    → HttpConfig
    → ServerRuntime
    → LocationConfig
    → ParsedRequest
    → Bool
    → Run Client Failure Bool
unfolding dispatch_static build_hsts_header
dispatch_location v http server location req is_tls =
    let hsts_header = build_hsts_header server is_tls in
    elim location.location_type [
      | static ↦ dispatch_static v http server location req hsts_header
      | proxy ↦ v.serve_proxy location req hsts_header >> pure false
    ]

abbrev before_query : Option (Str × Str) → Str → Str
before_query none path = path
before_query (some (l, r)) path = l

unfoldable pub strip_query : Str → Str
unfolding split_once
strip_query path = before_query (split_once b'?' path) path

metrics_json : CacheMetrics → Str
unfolding decimal
metrics_json m =
    lit "{\"memory_hits\":"
    ++ decimal m.memory_hits
    ++ lit ",\"memory_misses\":"
    ++ decimal m.memory_misses
    ++ lit ",\"disk_hits\":"
    ++ decimal m.disk_hits
    ++ lit ",\"disk_misses\":"
    ++ decimal m.disk_misses
    ++ lit ",\"disk_evictions\":"
    ++ decimal m.disk_evictions
    ++ lit ",\"disk_evicted_bytes\":"
    ++ decimal m.disk_evicted_bytes
    ++ lit ",\"disk_bytes\":"
    ++ decimal m.disk_bytes
    ++ lit ",\"disk_entries\":"
    ++ decimal m.disk_entries
    ++ lit "}"

pub is_metrics_path : Str → Bool
unfolding strip_query trim_end_by same
is_metrics_path raw =
    let path = strip_query raw in
    same (if ltb 1 (length path) then trim_end_by (λ c. c == b'/') path else path)
      (lit "/_migux/cache")

-- Whether the request was answered here.
pub maybe_handle_cache_metrics : Services → ParsedRequest → Peer → Run Client Failure Bool
unfolding is_metrics_path metrics_json is_get_or_head
maybe_handle_cache_metrics v req peer =
    if not (is_metrics_path req.path)
    then pure false
    else if not peer.is_loopback
    then send_404 >> pure true
    else if not (is_get_or_head req.method)
    then send_405_with_allow (lit "GET, HEAD") >> pure true
    else send_response (lit "200 OK") (lit "application/json; charset=utf-8")
        (if same req.method (lit "HEAD") then [] else metrics_json v.metrics)
      >> pure true

abbrev or_name : Option Str → Str → Str
or_name none name = name
or_name (some host) name = host

-- The target of the redirect to HTTPS, if the server asks for one.
redirect_target : Services → ServerRuntime → ParsedRequest → Bool → Option Str
redirect_target v server req is_tls = if is_tls then none else elim server.config.tls [
  | none ↦ none
  | some tls ↦
      if tls.redirect_http
      then some (
          build_https_redirect v.port_of
            (or_name (extract_host_header req.headers) server.config.server_name) req.path
            tls.listen)
      else none
]

-- `buf.advance(req.body_start)`
advance : ℕ → Run Client Failure (Unit {0})
advance n c = (record c { conn = record c.conn { buf = drop n c.conn.buf } }, done tt)

-- The dispatch, once the location is known: whether the connection stays open.
pub dispatch_matched :
    Services
    → HttpConfig
    → ServerRuntime
    → LocationConfig
    → ParsedRequest
    → Bool
    → Run Client Failure Bool
unfolding advance dispatch_location
dispatch_matched v http server location req is_tls = do
  advance req.body_start
  force_close ← dispatch_location v http server location req is_tls
  pure (not (force_close || req.close_after))

-- What the loop does with a request. `missing` is the panic of an index out of range.
pub answer_request :
    Services → HttpConfig → ServerRuntime → Peer → ParsedRequest → Run Client Failure Bool
unfolding redirect_target dispatch_matched
answer_request v http server peer req = elim (redirect_target v server req peer.is_tls) [
  | some location ↦ send_redirect location >> pure false
  | none ↦
      if is_empty server.locations
      then send_404 >> pure false
      else elim (match_location server.locations req.path) [
        | none ↦ fail Failure.missing
        | some location ↦ dispatch_matched v http server location req peer.is_tls
      ]
]

-- One round of the loop: whether there is a next one.
after_read :
    Services → HttpConfig → ServerRuntime → Peer → Option ParsedRequest → Run Client Failure Bool
unfolding maybe_handle_cache_metrics answer_request
after_read v http server peer none = pure false
after_read v http server peer (some req) =
    if is_empty req.headers
    then pure false
    else maybe_handle_cache_metrics v req peer >>= λ handled.
        if handled then pure false else answer_request v http server peer req

pub handle_request : Services → HttpConfig → ServerRuntime → Peer → Run Client Failure Bool
unfolding after_read
handle_request v http server peer =
    read_http_request v.decode http >>= λ req. after_read v http server peer req

-- The loop, for as many requests as `rounds` says; `select_default_server` takes the first server.
pub handle_connection :
    Services → HttpConfig → ServerRuntime → Peer → ℕ → Run Client Failure (Unit {0})
unfolding handle_request
handle_connection v http server peer zero = fail Failure.out_of_fuel
handle_connection v http server peer (suc rounds) = handle_request v http server peer >>= λ go_on.
    if go_on then handle_connection v http server peer rounds else pure tt
