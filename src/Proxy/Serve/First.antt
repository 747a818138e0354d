-- ===== src/Proxy/Serve/First.antt =====
-- The loop over the servers, and `serve` around it: the first server that answers, or 502.
use mathlib.Core.List.{append-nil}
use migux.Common.{
  ℕ, ◌+◌, ◌*◌, ◌≡◌, refl, sym, ap, subst, ◌∙◌, List, [], ◌∷◌, ◌++◌, some, length, arith,
}
use migux.Text.{Str, str_eq}
use migux.Stream.{done}
use migux.Http.{send_502}
use migux.Proxy.Health.{Healths, record_failure, second}
use migux.Proxy.Pool.{PooledStream, checkout_upstream_stream}
use migux.Proxy.Serve.{
  Socket, Try, State, Request, next, answered, write_head, after_head, after_checkout, try_addr,
  try_all,
}
use migux.Proxy.Serve.Steps.{try_addr-Judged, Judged}

-- Each of the servers, tried from the `i`th try on, leads to the next one.
pub data Skips (decode : Str → Str) (q : Request) (tries : ℕ → Try)
    : ℕ → List Str → State → State → Type 0 where
  no_server : (i : ℕ) (s : State) → Skips decode q tries i [] s s
  skip :
      (i : ℕ) (addr : Str) (addrs : List Str) (s s' s'' : State)
      → try_addr decode q addr (tries i) s ≡ next s'
      → Skips decode q tries (i + 1) addrs s' s''
      → Skips decode q tries i (addr ∷ addrs) s s''

-- A failure of each of the servers.
abbrev pub all_failed : Request → (ℕ → Try) → ℕ → List Str → Healths → Healths
all_failed q tries i [] health = health
all_failed q tries i (addr ∷ addrs) health =
    all_failed q tries (i + 1) addrs
      (record_failure health q.upstream_name addr q.policy (tries i).now)

try_all-next :
    (decode : Str → Str) (q : Request) (tries : ℕ → Try) (i : ℕ) (addr : Str) (addrs : List Str)
    (s s' : State)
    → try_addr decode q addr (tries i) s ≡ next s'
    → try_all decode q tries i (addr ∷ addrs) s ≡ try_all decode q tries (i + 1) addrs s'
unfolding try_all
try_all-next decode q tries i addr addrs s s' h = rw (try_all, h) refl

pub Skips_lem :
    (decode : Str → Str) (q : Request) (tries : ℕ → Try) (i : ℕ) {before : List Str}
    (after : List Str) {s s' : State}
    → Skips decode q tries i before s s'
    → try_all decode q tries i (before ++ after) s
      ≡ try_all decode q tries (i + length before) after s'
Skips_lem decode q tries i after (no_server _ s) =
    ap (λ n. try_all decode q tries n after s) (omega arith)
Skips_lem decode q tries i after (skip _ addr addrs s s' s'' h rest) =
    try_all-next decode q tries i addr (addrs ++ after) s s' h
    ∙ Skips_lem decode q tries (i + 1) after rest
    ∙ ap (λ n. try_all decode q tries n after s'') (omega arith)

Skips-health :
    (decode : Str → Str) (q : Request) (tries : ℕ → Try) (i : ℕ) {addrs : List Str} {s s' : State}
    → Skips decode q tries i addrs s s'
    → s'.health ≡ all_failed q tries i addrs s.health
Skips-health decode q tries i (no_server _ s) = refl
Skips-health decode q tries i (skip _ addr addrs s s' s'' h rest) =
    let judged =
      subst (λ e. Judged q addr (tries i).now s e) h (try_addr-Judged decode q addr (tries i) s) in
    Skips-health decode q tries (i + 1) rest ∙ ap (all_failed q tries (i + 1) addrs) judged

-- Where each server leads to the next one, the client gets the 502, after what it may have got before
-- from servers that failed in the middle of an answer; and a failure of each server is recorded, in turn.
pub try_all-failed :
    (decode : Str → Str) (q : Request) (tries : ℕ → Try) (addrs : List Str) (s s' : State)
    → Skips decode q tries 0 addrs s s'
    → ((try_all decode q tries 0 addrs s).0.client ≡ (send_502 s'.client).0)
      × ((try_all decode q tries 0 addrs s).1 ≡ (send_502 s'.client).1)
      × ((try_all decode q tries 0 addrs s).0.health ≡ all_failed q tries 0 addrs s.health)
unfolding try_all
try_all-failed decode q tries addrs s s' skips =
    let e =
      ap (λ l. try_all decode q tries 0 l s) (sym (append-nil addrs))
      ∙ Skips_lem decode q tries 0 [] skips in
    rw e (refl, refl, Skips-health decode q tries 0 skips)

pub try_all-answered :
    (decode : Str → Str) (q : Request) (tries : ℕ → Try) (i : ℕ) (addr : Str) (addrs : List Str)
    (s s' : State)
    → try_addr decode q addr (tries i) s ≡ answered s'
    → try_all decode q tries i (addr ∷ addrs) s ≡ (s', done tt)
unfolding try_all
try_all-answered decode q tries i addr addrs s s' h = rw (try_all, h) refl

pub try_addr-answered :
    (decode : Str → Str) (q : Request) (addr : Str) (t : Try) (s s' : State)
    (p p' : PooledStream Socket)
    → (checkout_upstream_stream s.pools addr t.now
        (q.http.proxy_pool_idle_timeout_secs * second)
        t.connected).1
      ≡ some p
    → write_head q.out t p ≡ some p'
    → after_head decode q addr t.now
        (record s {
          pools =
              (checkout_upstream_stream s.pools addr t.now
                (q.http.proxy_pool_idle_timeout_secs * second)
                t.connected).0;
        })
        (some p')
      ≡ answered s'
    → try_addr decode q addr t s ≡ answered s'
unfolding try_addr after_checkout
try_addr-answered decode q addr t s s' p p' c w h =
    let pools =
      (checkout_upstream_stream s.pools addr t.now (q.http.proxy_pool_idle_timeout_secs * second)
        t.connected).0 in
    let s1 : State = record s { pools = pools } in
    ap (λ o. after_checkout decode q addr t s1 o) c
    ∙ ap (λ o. after_head decode q addr t.now s1 o) w
    ∙ h
