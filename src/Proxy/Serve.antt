-- ===== src/Proxy/Serve.antt =====
-- `Proxy::serve` of crates/migux_proxy/src/proxy/mod.rs: one request, tried on the servers of its
-- upstream in turn. What the network answers at each try is the record `Try`; `decode` stands for
-- `String::from_utf8_lossy`. Times are in nanoseconds; the timeouts of connects and writes are answers.
pub mod Steps
pub mod First
pub mod Whole
mod Tests
use migux.Common.{
  ℕ, zero, suc, ◌+◌, ◌*◌, Bool, true, false, not, ◌&&◌, List, [], ◌∷◌, ◌++◌, Option, none, some,
  ◌==◌, if◌then◌else◌,
}
use migux.Common.Maps
use migux.Common.Maps.{Map}
use migux.Text.{Str, lit, str_eq, same}
use migux.Stream.{Event, Conn, Sink, Client, Failure, Result, done, err, Run, fail, ◌>>=◌, ◌>>◌}
use migux.Http.{send_502}
use migux.Config.{HttpConfig, MiguxConfig}
use migux.Worker.Routing.{LocationConfig}
use migux.Proxy.Path.{strip_prefix_path}
use migux.Proxy.Forward.{rewrite_proxy_headers}
use migux.Proxy.Upstream.{UpstreamConfig, choose_upstream_addrs_rr_order}
use migux.Proxy.Health.{
  Healths, HealthPolicy, health_policy, filter_healthy_addrs, record_failure, record_success,
  second,
}
use migux.Proxy.Pool.{
  PooledStream, Pools, new_stream, checkout_upstream_stream, checkin_upstream_stream,
}
use migux.Proxy.Relay.{Relay}
use migux.Proxy.Body.{stream_request_body}
use migux.Proxy.Streaming.{stream_http_response}

-- A connection to an upstream: what it sends, and what it has been sent.
pub record Socket : Type 0 where
  pub events : List Event
  pub sink : Sink

pub data WriteOutcome : Type 0 where
  sent : WriteOutcome
  broken : WriteOutcome
  late : WriteOutcome

-- What happens at a try: the answer to a connect where no connection is in the pool, that to the write
-- of the head, those to a fresh connect and its write after a failed one, and the time.
pub record Try : Type 0 where
  pub connected : Option Socket
  pub write : WriteOutcome
  pub fresh : Option Socket
  pub rewrite : WriteOutcome
  pub now : ℕ

-- The proxy's shared state, and the client of this request.
pub record State : Type 0 where
  pub rr_counters : Map Str ℕ
  pub pools : Pools Socket
  pub health : Healths
  pub client : Client

-- The request and the settings, as `serve` reads them once.
pub record Request : Type 0 where
  pub upstream_name : Str
  pub policy : HealthPolicy
  pub out : Str
  pub method : Str
  pub is_chunked : Bool
  pub content_length : ℕ
  pub hsts_header : Option Str
  pub http : HttpConfig

-- The head of the request has gone out.
abbrev pub put : Str → PooledStream Socket → PooledStream Socket
put out p =
    let sink = p.stream.sink in
    record p { stream = record p.stream { sink = record sink { sent = sink.sent ++ out } } }

-- A fresh connection, after a write that failed or was late.
abbrev pub write_again : Str → Try → Option (PooledStream Socket)
write_again out t = elim t.fresh [
  | none ↦ none
  | some socket ↦ elim t.rewrite [
    | sent ↦ some (put out (new_stream t.now socket))
    | broken ↦ none
    | late ↦ none
  ]
]

abbrev pub write_head : Str → Try → PooledStream Socket → Option (PooledStream Socket)
write_head out t p = elim t.write [
  | sent ↦ some (put out p)
  | broken ↦ write_again out t
  | late ↦ write_again out t
]

-- How a try ends: the next server is tried, the client has its answer, or `serve` returns an error.
pub data Ended : Type 0 where
  next : State → Ended
  answered : State → Ended
  aborted : State → Failure → Ended

failed : Request → Str → ℕ → State → State
failed q addr now s = record s {
  health = record_failure s.health q.upstream_name addr q.policy now;
}

-- The client's body goes to the upstream.
send_body :
    (Str → Str)
    → Request
    → Client
    → PooledStream Socket
    → (Client × PooledStream Socket) × Result Failure (Unit {0})
send_body decode q client p =
    let relay : Relay = record { source = client.conn; target = p.stream.sink } in
    let (relay', result) =
      stream_request_body decode q.is_chunked q.content_length q.http.max_request_body_bytes
        relay in
    (
      (
        record client { conn = relay'.source },
        record p { stream = record p.stream { sink = relay'.target } },
      ),
      result,
    )

-- The upstream's response goes to the client.
send_answer :
    (Str → Str)
    → Request
    → Client
    → PooledStream Socket
    → (Client × PooledStream Socket) × Result Failure Bool
send_answer decode q client p =
    let relay : Relay = record {
      source = record { buf = p.read_buf; events = p.stream.events };
      target = client.sink;
    } in
    let (relay', result) =
      stream_http_response decode q.method q.http.max_upstream_response_headers_bytes
        q.http.max_upstream_response_body_bytes q.hsts_header relay in
    (
      (
        record client { sink = relay'.target },
        record p {
          stream = record p.stream { events = relay'.source.events };
          read_buf = relay'.source.buf;
        },
      ),
      result,
    )

-- The connection goes back to the pool if it may be used again.
succeeded : Request → Str → ℕ → Bool → PooledStream Socket → State → State
succeeded q addr now reusable p s = record s {
  pools =
      if reusable
      then checkin_upstream_stream s.pools addr now p q.http.proxy_pool_max_per_addr
      else s.pools;
  health = record_success s.health q.upstream_name addr;
}

-- The last steps of a try, on what the two streams return.
after_answer :
    Request → Str → ℕ → State → (Client × PooledStream Socket) × Result Failure Bool → Ended
unfolding failed succeeded
after_answer q addr now s ((client, p), err e) =
    next (failed q addr now (record s { client = client }))
after_answer q addr now s ((client, p), done reusable) =
    answered (succeeded q addr now reusable p (record s { client = client }))

after_body :
    (Str → Str)
    → Request
    → Str
    → ℕ
    → State
    → (Client × PooledStream Socket) × Result Failure (Unit {0})
    → Ended
unfolding send_answer after_answer
after_body decode q addr now s ((client, p), err e) = aborted (record s { client = client }) e
after_body decode q addr now s ((client, p), done _) =
    after_answer q addr now s (send_answer decode q client p)

-- The steps after the write of the head, if it has gone out.
pub after_head : (Str → Str) → Request → Str → ℕ → State → Option (PooledStream Socket) → Ended
unfolding send_body after_body failed
after_head decode q addr now s none = next (failed q addr now s)
after_head decode q addr now s (some p) =
    after_body decode q addr now s (send_body decode q s.client p)

after_checkout : (Str → Str) → Request → Str → Try → State → Option (PooledStream Socket) → Ended
unfolding after_head failed
after_checkout decode q addr t s none = next (failed q addr t.now s)
after_checkout decode q addr t s (some p) = after_head decode q addr t.now s (write_head q.out t p)

-- The body of the loop over the servers.
pub try_addr : (Str → Str) → Request → Str → Try → State → Ended
unfolding after_checkout
try_addr decode q addr t s =
    let (pools, found) =
      checkout_upstream_stream s.pools addr t.now (q.http.proxy_pool_idle_timeout_secs * second)
        t.connected in
    after_checkout decode q addr t (record s { pools = pools }) found

-- The loop; with no server left, 502. `tries` gives what happens at each of them in turn.
pub try_all : (Str → Str) → Request → (ℕ → Try) → ℕ → List Str → Run State Failure (Unit {0})
try_all decode q tries i [] s =
    let (client, result) = send_502 s.client in (record s { client = client }, result)
try_all decode q tries i (addr ∷ addrs) s = elim (try_addr decode q addr (tries i) s) [
  | next s' ↦ try_all decode q tries (i + 1) addrs s'
  | answered s' ↦ (s', done tt)
  | aborted s' e ↦ (s', err e)
]

-- What `serve` is called with.
pub record Call : Type 0 where
  pub location : LocationConfig
  pub req_headers : Str
  pub method : Str
  pub req_path : Str
  pub http_version : Str
  pub content_length : ℕ
  pub is_chunked : Bool
  pub client_is_tls : Bool
  pub hsts_header : Option Str
  pub client_ip : Str
  pub now : ℕ

abbrev or_path : Option Str → Str → Str
or_path none path = path
or_path (some prefix) path = prefix

-- The start line and the headers, as they go out.
pub request_head : Call → Str
request_head c =
    c.method
    ++ lit " "
    ++ strip_prefix_path c.req_path (or_path c.location.strip_prefix c.location.path)
    ++ lit " "
    ++ c.http_version
    ++ lit "\r\n"
    ++ rewrite_proxy_headers c.req_headers c.client_ip
        (if c.client_is_tls then lit "https" else lit "http")
        (not (same c.http_version (lit "HTTP/1.0"))) c.content_length
        (c.is_chunked && c.content_length == 0)
    ++ lit "\r\n"

abbrev pub request_of : Call → Str → UpstreamConfig → HttpConfig → Request
request_of c name upstream http = record {
  upstream_name = name;
  policy = health_policy upstream;
  out = request_head c;
  method = c.method;
  is_chunked = c.is_chunked;
  content_length = c.content_length;
  hsts_header = c.hsts_header;
  http = http;
}

-- Once the upstream is known: the order of its servers, without those that are down.
pub serve_upstream :
    (Str → Str)
    → MiguxConfig
    → Call
    → (ℕ → Try)
    → Str
    → UpstreamConfig
    → Run State Failure (Unit {0})
serve_upstream decode cfg c tries name upstream s =
    let (counters, order) = choose_upstream_addrs_rr_order s.rr_counters name upstream in
    let s' : State = record s { rr_counters = counters } in
    elim order [
      | none ↦ (s', err Failure.missing)
      | some addrs ↦
          let (health, candidates) = filter_healthy_addrs s.health name addrs c.now in
          try_all decode (request_of c name upstream cfg.http) tries 0 candidates
            (record s' { health = health })
    ]

pub serve : (Str → Str) → MiguxConfig → Call → (ℕ → Try) → Run State Failure (Unit {0})
serve decode cfg c tries s = elim c.location.upstream [
  | none ↦ (s, err Failure.missing)
  | some name ↦ elim (Maps.get name cfg.upstream) [
    | none ↦ (s, err Failure.missing)
    | some upstream ↦ serve_upstream decode cfg c tries name upstream s
  ]
]
