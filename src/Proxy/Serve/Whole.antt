-- ===== src/Proxy/Serve/Whole.antt =====
-- `serve` as a whole: the first server that answers.
use migux.Common.{ℕ, ◌*◌, ◌≡◌, refl, ap, ◌∙◌, List, ◌∷◌, ◌++◌, Option, none, some, length, arith}
use migux.Common.Maps
use migux.Text.{Str, str_eq}
use migux.Stream.{Failure, Result, done, err}
use migux.Config.{MiguxConfig}
use migux.Proxy.Upstream.{UpstreamConfig, choose_upstream_addrs_rr_order}
use migux.Proxy.Health.{filter_healthy_addrs, second}
use migux.Proxy.Pool.{PooledStream, checkout_upstream_stream}
use migux.Proxy.Serve.{
  Socket, Try, State, Call, write_head, try_all, serve_upstream, serve, request_of,
}
use migux.Proxy.Serve.Steps.{Exchange, Answered, exchange_lem}
use migux.Proxy.Serve.First.{Skips, Skips_lem, try_all-answered, try_addr-answered}

-- What leads to an answer by the server `addr`: the upstream is configured, the servers in front of it
-- fail, one after the other, a connection to it takes the head of the request, and it answers.
pub record Answers (decode : Str → Str) (cfg : MiguxConfig) (c : Call) (tries : ℕ → Try) (s : State)
    (addr : Str) : Type 0 where
  pub name : Str
  pub upstream : UpstreamConfig
  pub named : c.location.upstream ≡ some name
  pub known : Maps.get name cfg.upstream ≡ some upstream
  pub order : List Str
  pub chosen : (choose_upstream_addrs_rr_order s.rr_counters name upstream).1 ≡ some order
  pub before : List Str
  pub after : List Str
  pub candidates : (filter_healthy_addrs s.health name order c.now).1 ≡ before ++ addr ∷ after
  -- The state when the server's turn comes.
  pub reached : State
  pub skips :
      Skips decode
        (request_of c name upstream cfg.http)
        tries
        0
        before
        (record s {
          rr_counters = (choose_upstream_addrs_rr_order s.rr_counters name upstream).0;
          health = (filter_healthy_addrs s.health name order c.now).0;
        })
        reached
  pub found : PooledStream Socket
  pub checkout :
      (checkout_upstream_stream reached.pools addr
        (tries (length before)).now
        (cfg.http.proxy_pool_idle_timeout_secs * second)
        (tries (length before)).connected).1
      ≡ some found
  pub ready : PooledStream Socket
  pub head_sent :
      write_head (request_of c name upstream cfg.http).out (tries (length before)) found
      ≡ some ready
  pub exchange :
      Exchange decode
        (request_of c name upstream cfg.http)
        (record reached {
          pools =
              (checkout_upstream_stream reached.pools addr
                (tries (length before)).now
                (cfg.http.proxy_pool_idle_timeout_secs * second)
                (tries (length before)).connected).0;
        })
        ready

-- The state in which the exchange begins.
abbrev pub begins :
    {decode : Str → Str} {cfg : MiguxConfig} {c : Call} {tries : ℕ → Try} {s : State} {addr : Str}
    → Answers decode cfg c tries s addr
    → State
begins {decode} {cfg} {c} {tries} {s} {addr} a = record a.reached {
  pools =
      (checkout_upstream_stream a.reached.pools addr (tries (length a.before)).now
        (cfg.http.proxy_pool_idle_timeout_secs * second) (tries (length a.before)).connected).0;
}

serve-known :
    (decode : Str → Str) (cfg : MiguxConfig) (c : Call) (tries : ℕ → Try) (s : State) {name : Str}
    {upstream : UpstreamConfig}
    → c.location.upstream ≡ some name
    → Maps.get name cfg.upstream ≡ some upstream
    → serve decode cfg c tries s ≡ serve_upstream decode cfg c tries name upstream s
unfolding serve
serve-known decode cfg c tries s {name} h k =
    let run = λ (o : Option UpstreamConfig) (n : Str).
      elim o as (λ _. State × Result Failure (Unit {0})) [
        | none ↦ (s, err Failure.missing)
        | some u ↦ serve_upstream decode cfg c tries n u s
      ] in
    ap
      (λ (o : Option Str). elim o as (λ _. State × Result Failure (Unit {0})) [
        | none ↦ (s, err Failure.missing)
        | some n ↦ run (Maps.get n cfg.upstream) n
      ])
      h
    ∙ ap (λ o. run o name) k

serve_upstream-ordered :
    (decode : Str → Str) (cfg : MiguxConfig) (c : Call) (tries : ℕ → Try) (name : Str)
    (upstream : UpstreamConfig) (s : State) {order candidates : List Str}
    → (choose_upstream_addrs_rr_order s.rr_counters name upstream).1 ≡ some order
    → (filter_healthy_addrs s.health name order c.now).1 ≡ candidates
    → serve_upstream decode cfg c tries name upstream s
      ≡ try_all decode (request_of c name upstream cfg.http) tries 0 candidates (record s {
        rr_counters = (choose_upstream_addrs_rr_order s.rr_counters name upstream).0;
        health = (filter_healthy_addrs s.health name order c.now).0;
      })
unfolding serve_upstream
serve_upstream-ordered decode cfg c tries name upstream s h k = rw (serve_upstream, h) (rw k refl)

-- Where the servers in front of one fail and this one answers, `serve` succeeds: the client gets the
-- answer byte for byte, after what it had got before, the server gets the request's body behind the
-- head, what the client has sent after the body and the server after the answer is left on their
-- connections, the connection to the server is pooled if the answer allows it, and the server's
-- success is recorded.
pub serve-Answered :
    (decode : Str → Str) (cfg : MiguxConfig) (c : Call) (tries : ℕ → Try) (s : State) (addr : Str)
    (a : Answers decode cfg c tries s addr)
    → (s' : State) × (serve decode cfg c tries s ≡ (s', done tt))
      × Answered decode
          (request_of c a.name a.upstream cfg.http)
          addr
          (tries (length a.before)).now
          (begins a)
          a.ready
          a.exchange
          s'
serve-Answered decode cfg c tries s addr a =
    let q = request_of c a.name a.upstream cfg.http in
    let t = tries (length a.before) in
    let (s', e, answered) = exchange_lem decode q addr t.now (begins a) a.ready a.exchange in
    let tried =
      try_addr-answered decode q addr t a.reached s' a.found a.ready a.checkout a.head_sent e in
    let start : State = record s {
      rr_counters = (choose_upstream_addrs_rr_order s.rr_counters a.name a.upstream).0;
      health = (filter_healthy_addrs s.health a.name a.order c.now).0;
    } in
    let all =
      Skips_lem decode q tries 0 (addr ∷ a.after) a.skips
      ∙ ap (λ n. try_all decode q tries n (addr ∷ a.after) a.reached) (omega arith)
      ∙ try_all-answered decode q tries (length a.before) addr a.after a.reached s' tried in
    (
      s',
      serve-known decode cfg c tries s a.named a.known
          ∙ serve_upstream-ordered decode cfg c tries a.name a.upstream s a.chosen a.candidates
          ∙ all,
      answered,
    )
