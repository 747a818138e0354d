-- ===== src/Worker/Connection/KeepAlive.antt =====
-- A request for a static file, from its dispatch to the next request on the connection.
use migux.Common.{
  ℕ, zero, suc, ◌≤◌, ◌≡◌, ◌⊎◌, Option, inl, inr, refl, ap, sym, ◌∙◌, Bool, true, false, not, [],
  ◌∷◌, ◌++◌, length, drop, ltb, Bool-cases, arith, ◌||◌, subst,
}
use migux.Text.{Str}
use migux.Stream.{Client, Sink, Result, Failure, Run, done, err, pure, ◌>>=◌, ◌>>◌}
use migux.Stream.Steps.{>>=-done, >>=-err, Result-cases}
use migux.Stream.Incoming.{incoming, arriving}
use migux.Config.{HttpConfig}
use migux.Worker.Body.Refines.{discard_content_length_lem}
use migux.Worker.Request.Read.{ParsedRequest}
use migux.Worker.Routing.{LocationConfig, static, proxy}
use migux.Worker.Connection.{
  Services, ServerRuntime, build_hsts_header, is_get_or_head, ignore, discard_body, on_sink,
  dispatch_static, dispatch_location, advance, dispatch_matched,
}

drop-append_short : (n : ℕ) (s t : Str) → n ≤ length s → drop n (s ++ t) ≡ drop n s ++ t
drop-append_short zero s t h = refl
drop-append_short (suc n) [] t h = ground arith
drop-append_short (suc n) (b ∷ s) t h = drop-append_short n s t (omega arith)

discarded :
    (v : Services) (http : HttpConfig) (req : ParsedRequest) (c : Client)
    → req.is_chunked ≡ false
    → req.content_length ≤ length (incoming c.conn)
    → ((discard_body v http req c).1 ≡ done tt)
      × ((discard_body v http req c).0.sink ≡ c.sink)
      × (incoming (discard_body v http req c).0.conn ≡ drop req.content_length (incoming c.conn))
unfolding discard_body ignore
discarded v http req c chunked h = rw chunked (elim (Bool-cases (ltb 0 req.content_length)) [
  | inl e ↦ rw e (elim (discard_content_length_lem req.content_length c.conn) [
    | inl (enough, r, i) ↦ (refl, refl, i)
    | inr (short, r) ↦ absurd (omega (arith, short, h))
  ])
  | inr e ↦
      let zero_length : req.content_length ≡ 0 = ground arith in
      rw e (refl, refl, ap (λ n. drop n (incoming c.conn)) (sym zero_length))
])

-- What the dispatch leaves, from what the static service leaves and returns: after an error the error
-- and all that comes in, else the answer `next` and what comes in after the body of `n` bytes.
pub Dispatched :
    ℕ → Bool → Str → Sink × Result Failure (Unit {0}) → Client × Result Failure Bool → Type 0
Dispatched n next bytes (sink, served) (c, r) =
    (c.sink ≡ sink)
    × (((served ≡ done tt) × (r ≡ done next) × (incoming c.conn ≡ drop n bytes))
        ⊎ ((e : Failure) × (served ≡ err e) × (r ≡ err e) × (incoming c.conn ≡ bytes)))

static_branch :
    (v : Services) (http : HttpConfig) (server : ServerRuntime) (location : LocationConfig)
    (req : ParsedRequest) (is_tls : Bool)
    → location.location_type ≡ static
    → dispatch_location v http server location req is_tls
      ≡ dispatch_static v http server location req (build_hsts_header server is_tls)
unfolding dispatch_location
static_branch v http server location req is_tls at_static =
    let hsts_header = build_hsts_header server is_tls in
    ap
      (λ t. elim t as (λ _. Run Client Failure Bool) [
        | static ↦ dispatch_static v http server location req hsts_header
        | proxy ↦ v.serve_proxy location req hsts_header >> pure false
      ])
      at_static

dispatch_static_lem :
    (v : Services) (http : HttpConfig) (server : ServerRuntime) (location : LocationConfig)
    (req : ParsedRequest) (hsts_header : Option Str) (c : Client)
    → is_get_or_head req.method ≡ true
    → req.is_chunked ≡ false
    → req.content_length ≤ length (incoming c.conn)
    → Dispatched req.content_length false
        (incoming c.conn)
        (v.serve_static server.config location req hsts_header c.sink)
        (dispatch_static v http server location req hsts_header c)
unfolding dispatch_static on_sink Dispatched
dispatch_static_lem v http server location req hsts_header c reads chunked h =
    let serve = on_sink (v.serve_static server.config location req hsts_header) in
    let discard = discard_body v http req in
    rw reads (elim (Result-cases (serve c).1) [
      | inl (u, r) ↦
          let (ends, s, i) = discarded v http req (serve c).0 chunked h in
          let body = >>=-done serve (λ _. discard) c r in
          let all = >>=-done (serve >> discard) (λ _. pure false) c (ap (λ p. p.1) body ∙ ends) in
          (
            ap (λ p. p.0.sink) all ∙ (ap (λ p. p.0.sink) body ∙ s),
            inl (
              r,
              ap (λ p. p.1) all,
              ap (λ p. incoming p.0.conn) all ∙ (ap (λ p. incoming p.0.conn) body ∙ i),
            ),
          )
      | inr (e, r) ↦
          let body = >>=-err serve (λ _. discard) c r in
          let all = >>=-err (serve >> discard) (λ _. pure false) c (ap (λ p. p.1) body) in
          (
            ap (λ p. p.0.sink) all ∙ ap (λ p. p.0.sink) body,
            inr (
              e,
              r,
              ap (λ p. p.1) all,
              ap (λ p. incoming p.0.conn) all ∙ ap (λ p. incoming p.0.conn) body,
            ),
          )
    ])

then_next :
    (m : Run Client Failure Bool) (n : ℕ) (bytes : Str) (s : Sink × Result Failure (Unit {0}))
    (close_after : Bool) (c : Client)
    → Dispatched n false bytes s (m c)
    → Dispatched n
        (not close_after)
        bytes
        s
        ((m >>= λ force_close. pure (not (force_close || close_after))) c)
unfolding Dispatched
then_next m n bytes s close_after c (sent, inl (served, r, i)) =
    let all = >>=-done m (λ force_close. pure (not (force_close || close_after))) c r in
    (
      ap (λ p. p.0.sink) all ∙ sent,
      inl (served, ap (λ p. p.1) all, ap (λ p. incoming p.0.conn) all ∙ i),
    )
then_next m n bytes s close_after c (sent, inr (e, served, r, i)) =
    let all = >>=-err m (λ force_close. pure (not (force_close || close_after))) c r in
    (
      ap (λ p. p.0.sink) all ∙ sent,
      inr (e, served, ap (λ p. p.1) all, ap (λ p. incoming p.0.conn) all ∙ i),
    )

-- A GET or HEAD request that is not chunked, on a static location, where its head is in the buffer and
-- the body of its length comes in, whatever the static service does: the client gets what the service writes. If
-- the service succeeds, the dispatch takes exactly the head and the body from the connection, so that
-- the next request begins there, and the connection stays open unless the request asks to close it. If
-- the service fails, so does the dispatch, with the same error, and the body is not taken.
pub dispatch_matched_lem :
    (v : Services) (http : HttpConfig) (server : ServerRuntime) (location : LocationConfig)
    (req : ParsedRequest) (is_tls : Bool) (c : Client)
    → location.location_type ≡ static
    → is_get_or_head req.method ≡ true
    → req.is_chunked ≡ false
    → req.body_start ≤ length c.conn.buf
    → req.content_length ≤ length (drop req.body_start (incoming c.conn))
    → Dispatched req.content_length
        (not req.close_after)
        (drop req.body_start (incoming c.conn))
        (v.serve_static server.config location req (build_hsts_header server is_tls) c.sink)
        (dispatch_matched v http server location req is_tls c)
unfolding dispatch_matched advance
dispatch_matched_lem v http server location req is_tls c at_static reads chunked head body =
    let start = drop-append_short req.body_start c.conn.buf (arriving c.conn.events) head in
    let hsts_header = build_hsts_header server is_tls in
    let c1 = (advance req.body_start c).0 in
    let served = v.serve_static server.config location req hsts_header c.sink in
    let dispatch = dispatch_location v http server location req is_tls in
    let here =
      dispatch_static_lem v http server location req hsts_header c1 reads chunked
        (subst (λ s. req.content_length ≤ length s) start body) in
    let there : Dispatched req.content_length false (drop req.body_start (incoming c.conn)) served
        (dispatch c1) =
      subst (λ s. Dispatched req.content_length false s served (dispatch c1)) (sym start)
        (subst (λ m. Dispatched req.content_length false (incoming c1.conn) served (m c1))
          (sym (static_branch v http server location req is_tls at_static)) here) in
    then_next dispatch req.content_length (drop req.body_start (incoming c.conn)) served
      req.close_after c1 there
