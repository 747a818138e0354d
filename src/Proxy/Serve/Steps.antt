-- ===== src/Proxy/Serve/Steps.antt =====
-- One try: what it leaves behind on every branch, and a whole exchange with a server that answers.
use migux.Common.{
  ℕ, ◌+◌, ◌*◌, ◌≤◌, ◌≡◌, refl, ap, ◌∙◌, ◌⊎◌, Bool, ◌++◌, Option, none, some, length, if◌then◌else◌,
}
use migux.Text.{Str}
use migux.Stream.{Client, Failure, Result, done, err, find_window, blank_line}
use migux.Stream.Incoming.{incoming}
use migux.Proxy.Hsts.{maybe_inject_hsts}
use migux.Proxy.Response.{ResponseInfo, parse_response_headers}
use migux.Proxy.Health.{record_failure, record_success, second}
use migux.Proxy.Pool.{PooledStream, checkout_upstream_stream, checkin_upstream_stream}
use migux.Proxy.Relay.{Relay}
use migux.Proxy.Relay.Lines.{after_write}
use migux.Proxy.Body.{stream_request_body}
use migux.Proxy.Body.Whole.{IsBody, stream_request_body_lem}
use migux.Proxy.Streaming.{is_reusable, stream_http_response}
use migux.Proxy.Streaming.Whole.{Framed, stream_http_response_lem}
use migux.Proxy.Serve.{
  Socket, Try, State, Request, Ended, next, answered, aborted, failed, succeeded, send_body,
  send_answer, after_answer, after_body, after_head, after_checkout, try_addr, write_head,
}

-- The health after a try: a failure of this address where the next server is tried, its success where
-- the client has its answer, and nothing where `serve` gives up.
abbrev pub Judged : Request → Str → ℕ → State → Ended → Type 0
Judged q addr now s (next s') =
    s'.health ≡ record_failure s.health q.upstream_name addr q.policy now
Judged q addr now s (answered s') = s'.health ≡ record_success s.health q.upstream_name addr
Judged q addr now s (aborted s' e) = s'.health ≡ s.health

after_answer-Judged :
    (q : Request) (addr : Str) (now : ℕ) (s : State)
    (r : (Client × PooledStream Socket) × Result Failure Bool)
    → Judged q addr now s (after_answer q addr now s r)
unfolding after_answer failed succeeded
after_answer-Judged q addr now s ((client, p), err e) = refl
after_answer-Judged q addr now s ((client, p), done reusable) = refl

after_body-Judged :
    (decode : Str → Str) (q : Request) (addr : Str) (now : ℕ) (s : State)
    (r : (Client × PooledStream Socket) × Result Failure (Unit {0}))
    → Judged q addr now s (after_body decode q addr now s r)
unfolding after_body
after_body-Judged decode q addr now s ((client, p), err e) = refl
after_body-Judged decode q addr now s ((client, p), done _) =
    after_answer-Judged q addr now s (send_answer decode q client p)

after_head-Judged :
    (decode : Str → Str) (q : Request) (addr : Str) (now : ℕ) (s : State)
    (o : Option (PooledStream Socket))
    → Judged q addr now s (after_head decode q addr now s o)
unfolding after_head failed
after_head-Judged decode q addr now s none = refl
after_head-Judged decode q addr now s (some p) =
    after_body-Judged decode q addr now s (send_body decode q s.client p)

after_checkout-Judged :
    (decode : Str → Str) (q : Request) (addr : Str) (t : Try) (s : State)
    (o : Option (PooledStream Socket))
    → Judged q addr t.now s (after_checkout decode q addr t s o)
unfolding after_checkout failed
after_checkout-Judged decode q addr t s none = refl
after_checkout-Judged decode q addr t s (some p) =
    after_head-Judged decode q addr t.now s (write_head q.out t p)

-- A try judges its server: where the next one is tried, one failure of this address has been recorded;
-- where the client has its answer, its success; where `serve` returns an error, nothing.
pub try_addr-Judged :
    (decode : Str → Str) (q : Request) (addr : Str) (t : Try) (s : State)
    → Judged q addr t.now s (try_addr decode q addr t s)
unfolding try_addr
try_addr-Judged decode q addr t s =
    let (pools, found) =
      checkout_upstream_stream s.pools addr t.now (q.http.proxy_pool_idle_timeout_secs * second)
        t.connected in
    after_checkout-Judged decode q addr t (record s { pools = pools }) found

-- The client's request and a server's answer to it, as they come in at a try.
pub record Exchange (decode : Str → Str) (q : Request) (s : State) (p : PooledStream Socket)
    : Type 0 where
  -- The request's body, and what the client has sent after it.
  pub request_body : Str
  pub next_request : Str
  pub comes_in : incoming s.client.conn ≡ request_body ++ next_request
  pub is_body :
      IsBody decode q.http.max_request_body_bytes q.is_chunked q.content_length request_body
  pub upstream_room : length request_body ≤ p.stream.sink.room
  -- The response's head and body, and what the server has sent after them.
  pub head : Str
  pub body : Str
  pub surplus : Str
  pub info : ResponseInfo
  pub head_ends :
      find_window blank_line (incoming (record { buf = p.read_buf; events = p.stream.events }))
      ≡ some (length head)
  pub answer :
      incoming (record { buf = p.read_buf; events = p.stream.events })
      ≡ (head ++ blank_line) ++ (body ++ surplus)
  pub head_limit :
      (q.http.max_upstream_response_headers_bytes ≡ 0)
      ⊎ (length head + 4 ≤ q.http.max_upstream_response_headers_bytes)
  pub parsed : parse_response_headers (decode head) ≡ some info
  pub framed : Framed decode q.method q.http.max_upstream_response_body_bytes info body
  pub client_room :
      length (maybe_inject_hsts decode (head ++ blank_line) q.hsts_header) + length body
      ≤ s.client.sink.room

-- The state after it: the client has the answer, and its connection the next request; the connection
-- `p'` to the server has taken the request's body, and has the surplus.
pub record Answered (decode : Str → Str) (q : Request) (addr : Str) (now : ℕ) (s : State)
    (p : PooledStream Socket) (x : Exchange decode q s p) (s' : State) : Type 0 where
  pub client_sent :
      s'.client.sink
      ≡ after_write s.client.sink
          (maybe_inject_hsts decode (x.head ++ blank_line) q.hsts_header ++ x.body)
  pub client_left : incoming s'.client.conn ≡ x.next_request
  pub p' : PooledStream Socket
  pub upstream_sent : p'.stream.sink ≡ after_write p.stream.sink x.request_body
  pub upstream_left : incoming (record { buf = p'.read_buf; events = p'.stream.events }) ≡ x.surplus
  pub pooled : s'.pools ≡ (
      if is_reusable x.info
      then checkin_upstream_stream s.pools addr now p' q.http.proxy_pool_max_per_addr
      else s.pools)
  pub health : s'.health ≡ record_success s.health q.upstream_name addr

pub exchange_lem :
    (decode : Str → Str) (q : Request) (addr : Str) (now : ℕ) (s : State) (p : PooledStream Socket)
    (x : Exchange decode q s p)
    → (s' : State) × (after_head decode q addr now s (some p) ≡ answered s')
      × Answered decode q addr now s p x s'
unfolding after_head after_body after_answer succeeded send_body send_answer
exchange_lem decode q addr now s p x =
    let relay : Relay = record { source = s.client.conn; target = p.stream.sink } in
    let (b, left, sent) =
      stream_request_body_lem decode q.http.max_request_body_bytes relay x.next_request x.is_body
        x.upstream_room x.comes_in in
    let back : Relay = record {
      source = record { buf = p.read_buf; events = p.stream.events };
      target = s.client.sink;
    } in
    let (a, left', sent') =
      stream_http_response_lem decode q.method q.http.max_upstream_response_headers_bytes
        q.http.max_upstream_response_body_bytes q.hsts_header back x.head x.surplus x.info
        x.head_ends x.answer x.head_limit x.parsed x.framed x.client_room in
    let there =
      (stream_request_body decode q.is_chunked q.content_length q.http.max_request_body_bytes
        relay).0 in
    let here =
      (stream_http_response decode q.method q.http.max_upstream_response_headers_bytes
        q.http.max_upstream_response_body_bytes q.hsts_header back).0 in
    let client1 : Client = record { conn = there.source; sink = s.client.sink } in
    let client2 : Client = record { conn = there.source; sink = here.target } in
    let p1 : PooledStream Socket = record p { stream = record p.stream { sink = there.target } } in
    let p2 : PooledStream Socket = record {
      stream = record { events = here.source.events; sink = there.target };
      read_buf = here.source.buf;
      last_used = p.last_used;
    } in
    (
      succeeded q addr now (is_reusable x.info) p2 (record s { client = client2 }),
      ap (λ r. after_body decode q addr now s ((client1, p1), r)) b
          ∙ ap (λ r. after_answer q addr now s ((client2, p2), r)) a,
      record {
        client_sent = sent';
        client_left = left;
        p' = p2;
        upstream_sent = sent;
        upstream_left = left';
        pooled = refl;
        health = refl;
      },
    )
