-- ===== src/Worker/Request/Read/Accepted.antt =====
-- What holds of a request that `read_http_request` returns.
use migux.Common.{
  ℕ, ◌≤◌, ◌≡◌, ◌≢◌, refl, sym, ap, ◌∙◌, ◌⊎◌, inl, inr, Bool, true, false, not, ◌&&◌, none, some,
  arith, Bool-cases, length, take, length-take, subst, ltb,
}
use migux.Text.{Str}
use migux.Stream.{Client, Failure, done, Run, pure, ◌>>◌, find_window, blank_line}
use migux.Stream.Steps.{>>=-eq_done}
use migux.Stream.Window.{find_window-append, find_window-length, take-append}
use migux.Stream.Incoming.{arriving, incoming}
use migux.Http.{send_400, send_408, send_413, send_431}
use migux.Config.{HttpConfig}
use migux.Worker.Request.{RequestMetadata, Parsed, ok, HeaderParseError, parse_request_metadata}
use migux.Worker.Request.Read.{
  ParsedRequest, request_of, used_length, HeadOutcome, found, headers_too_large, idle,
  request_timeout, peer_closed, accept, parse_head, after_head, read_head, read_http_request,
}
use migux.Worker.Request.Read.Head.{read_head-IsHead}

-- The request is what the parser says of the head, and its body has at most one framing, within the
-- limit.
pub record IsRequest (decode : Str → Str) (max_body : ℕ) (head : Str) (req : ParsedRequest)
    : Type 0 where
  pub meta : RequestMetadata
  pub parsed : parse_request_metadata (decode head) ≡ ok meta
  pub fields : req ≡ request_of (decode head) (length head) meta
  pub framing :
      ((req.is_chunked ≡ true) × (req.content_length ≡ 0))
      ⊎ ((req.is_chunked ≡ false) × ((max_body ≡ 0) ⊎ (req.content_length ≤ max_body)))

-- A response instead of a request.
sent_instead :
    (m : Run Client Failure (Unit {0})) (c : Client) (req : ParsedRequest)
    → ((m >> pure none) c).1 ≢ done (some req)
sent_instead m c req h =
    let (_, _, e) = >>=-eq_done m (λ _. pure none) c h in cc (sym (ap (λ p. p.1) e) ∙ h)

refused : ℕ → RequestMetadata → Bool
refused max_body meta = not meta.is_chunked && ltb 0 max_body && ltb max_body (used_length meta)

accept-passed :
    (max_body : ℕ) (headers : Str) (headers_end : ℕ) (meta : RequestMetadata) (c : Client)
    → refused max_body meta ≡ false
    → accept max_body headers headers_end meta c
      ≡ (c, done (some (request_of headers headers_end meta)))
unfolding accept refused
accept-passed max_body headers headers_end meta c h = rw h refl

accept-refused :
    (max_body : ℕ) (headers : Str) (headers_end : ℕ) (meta : RequestMetadata) (c : Client)
    → refused max_body meta ≡ true
    → accept max_body headers headers_end meta c ≡ (send_413 >> pure none) c
unfolding accept refused
accept-refused max_body headers headers_end meta c h = rw h refl

accept-some :
    (max_body : ℕ) (headers : Str) (headers_end : ℕ) (meta : RequestMetadata) (c : Client)
    (req : ParsedRequest)
    → (accept max_body headers headers_end meta c).1 ≡ done (some req)
    → ((accept max_body headers headers_end meta c).0 ≡ c)
      × (req ≡ request_of headers headers_end meta)
      × (refused max_body meta ≡ false)
accept-some max_body headers headers_end meta c req h = elim (Bool-cases (refused max_body meta)) [
  | inl r ↦ absurd (
      sent_instead send_413 c req
        (sym (ap (λ p. p.1) (accept-refused max_body headers headers_end meta c r)) ∙ h))
  | inr r ↦
      let e = accept-passed max_body headers headers_end meta c r in
      (ap (λ p. p.0) e, cc (sym (ap (λ p. p.1) e) ∙ h), r)
]

framing_lem :
    (max_body : ℕ) (headers : Str) (headers_end : ℕ) (meta : RequestMetadata) (req : ParsedRequest)
    → req ≡ request_of headers headers_end meta
    → refused max_body meta ≡ false
    → ((req.is_chunked ≡ true) × (req.content_length ≡ 0))
      ⊎ ((req.is_chunked ≡ false) × ((max_body ≡ 0) ⊎ (req.content_length ≤ max_body)))
unfolding refused
framing_lem max_body headers headers_end meta req e r = elim (Bool-cases meta.is_chunked) [
  | inl k ↦ rw e (ground (arith, k))
  | inr k ↦ rw e (ground (arith, k, r))
]

Parsed-cases :
    (r : Parsed)
    → ((m : RequestMetadata) × (r ≡ ok m)) ⊎ ((e : HeaderParseError) × (r ≡ Parsed.err e))
Parsed-cases (ok m) = inl (m, refl)
Parsed-cases (Parsed.err e) = inr (e, refl)

parse_head-some :
    (decode : Str → Str) (max_body p : ℕ) (c : Client) (req : ParsedRequest)
    → p ≤ length c.conn.buf
    → (parse_head decode max_body p c).1 ≡ done (some req)
    → ((parse_head decode max_body p c).0 ≡ c) × IsRequest decode max_body (take p c.conn.buf) req
unfolding parse_head
parse_head-some decode max_body p c req within h =
    let headers = decode (take p c.conn.buf) in
    elim (Parsed-cases (parse_request_metadata headers)) [
      | inl (meta, e) ↦
          let h' : (accept max_body headers p meta c).1 ≡ done (some req) = ground (arith, e, h) in
          let (same, fields, r) = accept-some max_body headers p meta c req h' in
          (
            ground (arith, e, same),
            record {
              meta = meta;
              parsed = e;
              fields =
                  fields
                  ∙ ap (λ n. request_of headers n meta) (sym (length-take p c.conn.buf within));
              framing = framing_lem max_body headers p meta req fields r;
            },
          )
      | inr (e, k) ↦ absurd (sent_instead send_400 c req (ground (arith, k, h)))
    ]

after_head-some :
    (decode : Str → Str) (max_body : ℕ) (outcome : HeadOutcome) (c : Client) (req : ParsedRequest)
    → (after_head decode max_body outcome c).1 ≡ done (some req)
    → (p : ℕ) × (outcome ≡ found p)
unfolding after_head
after_head-some decode max_body (found p) c req h = (p, refl)
after_head-some decode max_body headers_too_large c req h = absurd (sent_instead send_431 c req h)
after_head-some decode max_body idle c req h = cc
after_head-some decode max_body request_timeout c req h = absurd (sent_instead send_408 c req h)
after_head-some decode max_body peer_closed c req h = cc

-- What `read_http_request` returns, whatever the reads were: its head is what comes in up to the
-- first blank line, its fields are what the parser says of the head, at most one framing of the body
-- remains, within the limit, and nothing has been taken from the client or written to it.
pub read_http_request-IsRequest :
    (decode : Str → Str) (http : HttpConfig) (c : Client) (req : ParsedRequest)
    → (read_http_request decode http c).1 ≡ done (some req)
    → (p : ℕ) × (find_window blank_line (incoming c.conn) ≡ some p)
      × IsRequest decode http.max_request_body_bytes (take p (incoming c.conn)) req
      × (incoming (read_http_request decode http c).0.conn ≡ incoming c.conn)
      × ((read_http_request decode http c).0.sink ≡ c.sink)
unfolding read_http_request after_head parse_head
read_http_request-IsRequest decode http c req h =
    let (outcome, r, e) =
      >>=-eq_done (read_head http.max_request_headers_bytes)
        (after_head decode http.max_request_body_bytes) c h in
    let c' = (read_head http.max_request_headers_bytes c).0 in
    let h' = sym (ap (λ q. q.1) e) ∙ h in
    let (p, o) = after_head-some decode http.max_request_body_bytes outcome c' req h' in
    let ((here, same), sink) =
      read_head-IsHead http.max_request_headers_bytes c p (r ∙ ap done o) in
    let bound = find_window-length blank_line c'.conn.buf p here in
    let within : p ≤ length c'.conn.buf = omega arith in
    let (kept, request) = parse_head-some decode http.max_request_body_bytes p c' req within (
      subst (λ o'. (after_head decode http.max_request_body_bytes o' c').1 ≡ done (some req)) o
        h') in
    let end = e ∙ ap (λ o'. after_head decode http.max_request_body_bytes o' c') o in
    let kept' = ap (λ q. q.0) end ∙ kept in
    (
      p,
      sym (ap (find_window blank_line) same)
          ∙ find_window-append blank_line c'.conn.buf (arriving c'.conn.events) p here,
      subst (λ s. IsRequest decode http.max_request_body_bytes s req)
          (sym (take-append p c'.conn.buf (arriving c'.conn.events) within) ∙ ap (take p) same)
          request,
      ap (λ d. incoming d.conn) kept' ∙ same,
      ap (λ d. d.sink) kept' ∙ sink,
    )
