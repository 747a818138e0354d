-- ===== src/Proxy/Serve/Tests.antt =====
-- A request for which the first server cannot be reached and the second one answers, and the theorems
-- of Proxy.Serve at it.
use migux.Common.{
  ℕ, zero, suc, ◌+◌, ◌≡◌, refl, inr, false, [], ◌∷◌, ◌++◌, none, some, length, arith, ◌≤◌,
}
use migux.Common.Maps.{get}
use migux.Text.{Str, lit, lines, same}
use migux.Headers.{fields}
use migux.Stream.{arrives, Client, done, blank_line, find_window}
use migux.Http.{send_502}
use migux.Config.{MiguxConfig, default_global, default_http}
use migux.Worker.Routing.{LocationConfig, proxy}
use migux.Proxy.Upstream.{UpstreamConfig, many, choose_upstream_addrs_rr_order, normalize_servers}
use migux.Proxy.Health.{record_failure, filter_healthy_addrs, healthy_addrs, is_healthy}
use migux.Proxy.Hsts.{maybe_inject_hsts}
use migux.Proxy.Response.{ResponseInfo, parse_response_headers, is_no_body}
use migux.Proxy.Pool.{PooledStream, checkout_upstream_stream, new_stream}
use migux.Proxy.Body.Whole.{no_body}
use migux.Proxy.Streaming.Whole.{of_length}
use migux.Proxy.Serve.{
  Socket, Try, sent, State, Request, Call, next, request_of, request_head, serve, try_addr, try_all,
  put, failed,
}
use migux.Proxy.Serve.Steps.{Exchange, Answered, Judged, try_addr-Judged}
use migux.Proxy.Serve.First.{no_server, skip, all_failed, try_all-failed}
use migux.Proxy.Serve.Whole.{Answers, begins, serve-Answered}

abbrev ascii : Str → Str
ascii s = s

abbrev location : LocationConfig
location = record {
  server = lit "main";
  path = lit "/";
  location_type = proxy;
  root = none;
  index = none;
  upstream = some (lit "app");
  strip_prefix = none;
  cache = none;
}

abbrev app : UpstreamConfig
app = record {
  server = many (lit "a" ∷ lit "b" ∷ []);
  strategy = none;
  health = record {
    fail_threshold = 3;
    cooldown_secs = 10;
    active = false;
    interval_secs = 5;
    timeout_secs = 1;
  };
}

abbrev cfg : MiguxConfig
cfg = record {
  global = default_global;
  http = default_http;
  upstream = (lit "app", app) ∷ [];
  servers = [];
  location = [];
}

abbrev call : Call
call = record {
  location = location;
  req_headers = lit "GET /x HTTP/1.1\r\nHost: h";
  method = lit "GET";
  req_path = lit "/x";
  http_version = lit "HTTP/1.1";
  content_length = 0;
  is_chunked = false;
  client_is_tls = false;
  hsts_header = none;
  client_ip = lit "10.0.0.1";
  now = 5;
}

abbrev answering : Socket
answering = record {
  events = arrives b'H' (lit "TTP/1.1 200 OK\r\nContent-Length: 2\r\n\r\nhi") ∷ [];
  sink = record { sent = []; room = 500 };
}

-- The first server refuses a connection.
abbrev tries : ℕ → Try
tries zero = record { connected = none; write = sent; fresh = none; rewrite = sent; now = 6 }
tries (suc i) = record {
  connected = some answering;
  write = sent;
  fresh = none;
  rewrite = sent;
  now = 7;
}

abbrev client : Client
client = record {
  conn = record { buf = lit "GET"; events = [] };
  sink = record { sent = []; room = 500 };
}

abbrev state : State
state = record { rr_counters = []; pools = []; health = []; client = client }

abbrev request : Request
request = request_of call (lit "app") app default_http

abbrev reached : State
reached = record state { health = record_failure [] (lit "app") (lit "a") request.policy 6 }

abbrev ready : PooledStream Socket
ready = put (request_head call) (new_stream 7 answering)

abbrev head : Str
head = lit "HTTP/1.1 200 OK\r\nContent-Length: 2"

abbrev info : ResponseInfo
info = record {
  content_length = some 2;
  connection_close = false;
  connection_keep_alive = false;
  is_http10 = false;
  is_chunked = false;
  status_code = some 200;
}

ends : find_window blank_line (head ++ blank_line ++ lit "hi") ≡ some (length head)
unfolding find_window
ends = refl

parsed : parse_response_headers (ascii head) ≡ some info
unfolding parse_response_headers fields lines same
parsed = refl

has_body : is_no_body (lit "GET") info.status_code ≡ false
unfolding is_no_body
has_body = refl

fits : length (maybe_inject_hsts ascii (head ++ blank_line) none) + 2 ≤ 500
unfolding maybe_inject_hsts
fits = omega arith

unreachable : try_addr ascii request (lit "a") (tries 0) state ≡ next reached
unfolding try_addr checkout_upstream_stream get failed
unreachable = refl

abbrev exchanged : Exchange ascii request reached ready
exchanged = record {
  request_body = [];
  next_request = lit "GET";
  comes_in = refl;
  is_body = no_body;
  upstream_room = omega arith;
  head = head;
  body = lit "hi";
  surplus = [];
  info = info;
  head_ends = ends;
  answer = refl;
  head_limit = inr (omega arith);
  parsed = parsed;
  framed = of_length (lit "hi") has_body refl refl (inr (omega arith));
  client_room = fits;
}

-- The second server's turn comes, and it answers.
second_answers : Answers ascii cfg call tries state (lit "b")
unfolding choose_upstream_addrs_rr_order normalize_servers same filter_healthy_addrs healthy_addrs
    is_healthy checkout_upstream_stream get
second_answers = record {
  name = lit "app";
  upstream = app;
  named = refl;
  known = refl;
  order = lit "a" ∷ lit "b" ∷ [];
  chosen = refl;
  before = lit "a" ∷ [];
  after = [];
  candidates = refl;
  reached = reached;
  skips = skip 0 (lit "a") [] state reached reached unreachable (no_server 1 reached);
  found = new_stream 7 answering;
  checkout = refl;
  ready = ready;
  head_sent = refl;
  exchange = exchanged;
}

serve-Answered_example :
    (s' : State) × (serve ascii cfg call tries state ≡ (s', done tt))
    × Answered ascii
        (request_of call second_answers.name second_answers.upstream default_http)
        (lit "b")
        (tries (length second_answers.before)).now
        (begins second_answers)
        second_answers.ready
        second_answers.exchange
        s'
serve-Answered_example = serve-Answered ascii cfg call tries state (lit "b") second_answers

try_addr-Judged_example :
    Judged request (lit "a") 6 state (try_addr ascii request (lit "a") (tries 0) state)
try_addr-Judged_example = try_addr-Judged ascii request (lit "a") (tries 0) state

-- With the first server alone.
try_all-failed_example :
    ((try_all ascii request tries 0 (lit "a" ∷ []) state).0.client ≡ (send_502 reached.client).0)
    × ((try_all ascii request tries 0 (lit "a" ∷ []) state).1 ≡ (send_502 reached.client).1)
    × ((try_all ascii request tries 0 (lit "a" ∷ []) state).0.health
        ≡ all_failed request tries 0 (lit "a" ∷ []) [])
try_all-failed_example =
    try_all-failed ascii request tries (lit "a" ∷ []) state reached
      (skip 0 (lit "a") [] state reached reached unreachable (no_server 1 reached))
