-- ===== src/Proxy/Streaming/Whole.antt =====
-- A whole response of an upstream, as it reaches the client.
use mathlib.Core.List.{append-nil, append_assoc}
use migux.Common.{
  ℕ, ◌+◌, ◌^◌, ◌≤◌, ◌<◌, ◌≡◌, refl, sym, ap, ◌∙◌, ◌⊎◌, inl, inr, Bool, true, false, ◌&&◌, List, [],
  ◌∷◌, ◌++◌, Option, none, some, length, take, drop, length-append, arith, ltb, Option-cases,
  if◌then◌else◌,
}
use migux.Text.{Str}
use migux.Stream.{
  Event, arrives, times_out, fails, Result, done, pure, Failure, find_window, blank_line, read_more,
  bytes_or,
}
use migux.Stream.Steps.{>>=-done}
use migux.Stream.Window.{
  find_window-append, find_window-later, find_window-length, take-append, drop-append, take_prefix,
  drop_prefix,
}
use migux.Stream.Incoming.{arriving, incoming}
use migux.Stream.Chunks.{Chunks}
use migux.Proxy.Relay.{Relay, chunk_size, forward}
use migux.Proxy.Relay.Lines.{after_write, after_write-append, after_write_nil, forward_lem}
use migux.Proxy.Response.{ResponseInfo, parse_response_headers, is_no_body}
use migux.Proxy.Hsts.{maybe_inject_hsts}
use migux.Proxy.Streaming.{
  head_loop, read_response_headers, take_head, stream_body, send_response, stream_http_response,
  is_reusable, stream_chunked_body, stream_content_length,
}
use migux.Proxy.Streaming.Body.{stream_chunked_body_lem, stream_content_length_lem}

-- The head is in the buffer, and nothing has been taken.
IsHead : ℕ → List Event → Str → ℕ → Type 0
IsHead max_headers events buf p =
    let q = head_loop max_headers events buf in
    (q.1 ≡ done p)
    × (find_window blank_line q.0.buf ≡ some p)
    × (incoming q.0 ≡ buf ++ arriving events)

buffered :
    (max_headers : ℕ) (events : List Event) (buf : Str) (p : ℕ)
    → find_window blank_line buf ≡ some p
    → head_loop max_headers events buf ≡ (record { buf = buf; events = events }, done p)
unfolding head_loop
buffered max_headers [] buf p h = ground (arith, h)
buffered max_headers (event ∷ events) buf p h = ground (arith, h)

waits :
    (max_headers b : ℕ) (bs : Str) (events : List Event) (buf : Str)
    → find_window blank_line buf ≡ none
    → (ltb 0 max_headers && ltb max_headers (length buf)) ≡ false
    → head_loop max_headers (arrives b bs ∷ events) buf
      ≡ head_loop max_headers events (buf ++ (b ∷ bs))
unfolding head_loop read_more bytes_or
waits max_headers b bs events buf h k = ground (arith, h, k)

IsHead-buffered :
    (max_headers : ℕ) (events : List Event) (buf : Str) (p i : ℕ)
    → find_window blank_line buf ≡ some i
    → find_window blank_line (buf ++ arriving events) ≡ some p
    → IsHead max_headers events buf p
unfolding IsHead
IsHead-buffered max_headers events buf p i e h =
    let same : i ≡ p = ground (arith, find_window-append blank_line buf (arriving events) i e, h) in
    rw (buffered max_headers events buf i e) (ap done same, e ∙ ap some same, refl)

-- A head within the limit is found.
IsHead_lem :
    (max_headers : ℕ) (events : List Event) (buf : Str) (p : ℕ)
    → find_window blank_line (buf ++ arriving events) ≡ some p
    → (max_headers ≡ 0) ⊎ (p + 4 ≤ max_headers)
    → IsHead max_headers events buf p
unfolding IsHead
IsHead_lem max_headers [] buf p h limit =
    IsHead-buffered max_headers [] buf p p (sym (ap (find_window blank_line) (append-nil buf)) ∙ h)
      h
IsHead_lem max_headers (times_out ∷ events) buf p h limit =
    IsHead-buffered max_headers (times_out ∷ events) buf p p
      (sym (ap (find_window blank_line) (append-nil buf)) ∙ h) h
IsHead_lem max_headers (fails ∷ events) buf p h limit =
    IsHead-buffered max_headers (fails ∷ events) buf p p
      (sym (ap (find_window blank_line) (append-nil buf)) ∙ h) h
IsHead_lem max_headers (arrives b bs ∷ events) buf p h limit =
    elim (Option-cases (find_window blank_line buf)) [
      | inr (i, e) ↦ IsHead-buffered max_headers (arrives b bs ∷ events) buf p i e h
      | inl e ↦
          let join = append_assoc buf (b ∷ bs) (arriving events) in
          let later =
            find_window-later blank_line buf ((b ∷ bs) ++ arriving events) p (omega arith) e h in
          let within : (ltb 0 max_headers && ltb max_headers (length buf)) ≡ false =
            ground (arith, later, limit) in
          let (d, f, i) =
            IsHead_lem max_headers events (buf ++ (b ∷ bs)) p (ap (find_window blank_line) join ∙ h)
              limit in
          rw (waits max_headers b bs events buf e within) (d, f, i ∙ join)
    ]

-- How the body of a response is told from what follows it: no body, chunks, or a length.
pub data Framed (decode : Str → Str) (method : Str) (max_body : ℕ) (info : ResponseInfo)
    : Str → Type 0 where
  no_body : is_no_body method info.status_code ≡ true → Framed decode method max_body info []
  in_chunks :
      (m : ℕ) (body : Str)
      → is_no_body method info.status_code ≡ false
      → info.is_chunked ≡ true
      → Chunks (chunk_size decode) m body
      → (max_body ≡ 0) ⊎ (m ≤ max_body)
      → m + 2 < 2 ^ 64
      → Framed decode method max_body info body
  of_length :
      (body : Str)
      → is_no_body method info.status_code ≡ false
      → info.is_chunked ≡ false
      → info.content_length ≡ some (length body)
      → (max_body ≡ 0) ⊎ (length body ≤ max_body)
      → Framed decode method max_body info body

Sent : Relay → Str → Str → Bool → Relay × Result Failure Bool → Type 0
Sent r bytes rest reusable p =
    (p.1 ≡ done reusable) × (incoming p.0.source ≡ rest) × (p.0.target ≡ after_write r.target bytes)

in_limit :
    (max_body n : ℕ) → (max_body ≡ 0) ⊎ (n ≤ max_body) → (ltb 0 max_body && ltb max_body n) ≡ false
in_limit max_body n h = ground arith

stream_body-chunked :
    (decode : Str → Str) (method : Str) (max_body : ℕ) (info : ResponseInfo) (r : Relay)
    (rest body : Str) (m : ℕ)
    → info.is_chunked ≡ true
    → Chunks (chunk_size decode) m body
    → (max_body ≡ 0) ⊎ (m ≤ max_body)
    → m + 2 < 2 ^ 64
    → length body ≤ r.target.room
    → incoming r.source ≡ body ++ rest
    → Sent r body rest (is_reusable info) (stream_body decode max_body info r)
unfolding stream_body Sent
stream_body-chunked decode method max_body info r rest body m c chunks limit small room e =
    let (d, i, s) = stream_chunked_body_lem decode max_body r rest chunks limit small room e in
    rw (c, >>=-done (stream_chunked_body decode max_body) _ r d) (refl, i, s)

stream_body-length :
    (decode : Str → Str) (method : Str) (max_body : ℕ) (info : ResponseInfo) (r : Relay)
    (rest body : Str)
    → info.is_chunked ≡ false
    → info.content_length ≡ some (length body)
    → (max_body ≡ 0) ⊎ (length body ≤ max_body)
    → length body ≤ r.target.room
    → incoming r.source ≡ body ++ rest
    → Sent r body rest (is_reusable info) (stream_body decode max_body info r)
unfolding stream_body Sent
stream_body-length decode method max_body info r rest body c cl limit room e =
    elim (stream_content_length_lem (length body) r room) [
      | inl (h, d, i, s) ↦
          rw
            (
              c,
              cl,
              in_limit max_body (length body) limit,
              >>=-done (stream_content_length (length body)) _ r d,
            )
            (
              refl,
              i ∙ ap (drop (length body)) e ∙ drop_prefix body rest,
              s
                  ∙ ap (λ t. after_write r.target (take (length body) t)) e
                  ∙ ap (after_write r.target) (take_prefix body rest),
            )
      | inr (h, _, _) ↦ absurd (omega (arith, h, ap length e, length-append body rest))
    ]

Framed-body :
    (decode : Str → Str) (method : Str) (max_body : ℕ) (info : ResponseInfo) (r : Relay)
    (rest : Str) {body : Str}
    → Framed decode method max_body info body
    → length body ≤ r.target.room
    → incoming r.source ≡ body ++ rest
    → Sent r body rest (is_reusable info) (
        (if is_no_body method info.status_code
            then pure (is_reusable info)
            else stream_body decode max_body info)
          r)
unfolding Sent
Framed-body decode method max_body info r rest (no_body n) room e =
    rw n (refl, e, after_write_nil r.target)
Framed-body decode method max_body info r rest (in_chunks m body n c chunks limit small) room e =
    rw n (stream_body-chunked decode method max_body info r rest body m c chunks limit small room e)
Framed-body decode method max_body info r rest (of_length body n c cl limit) room e =
    rw n (stream_body-length decode method max_body info r rest body c cl limit room e)

send_response_lem :
    (decode : Str → Str) (method : Str) (max_body : ℕ) (hsts : Option Str) (head : Str)
    (info : ResponseInfo) (r : Relay) (rest : Str) {body : Str}
    → Framed decode method max_body info body
    → length (maybe_inject_hsts decode head hsts) + length body ≤ r.target.room
    → incoming r.source ≡ body ++ rest
    → Sent r
        (maybe_inject_hsts decode head hsts ++ body)
        rest
        (is_reusable info)
        (send_response decode method max_body hsts head info r)
unfolding send_response Sent
send_response_lem decode method max_body hsts head info r rest {body} framed room e =
    let out = maybe_inject_hsts decode head hsts in
    let wrote = forward_lem out r (omega arith) in
    let r' : Relay = record r { target = after_write r.target out } in
    let (d, i, s) = Framed-body decode method max_body info r' rest framed (omega arith) e in
    rw (>>=-done (forward out) _ r (ap (λ p. p.1) wrote), wrote)
      (d, i, s ∙ after_write-append r.target out body)

-- A response comes in, its head within the limit, its body framed as the head says and within the
-- limit, and `rest` after it, cut into reads in any way, and the client takes it: the client gets the
-- head, with the HSTS header where it is injected, and the body byte for byte; `rest` is what is left
-- for the next response; and the connection may be used again as the head says.
pub stream_http_response_lem :
    (decode : Str → Str) (method : Str) (max_headers max_body : ℕ) (hsts : Option Str) (r : Relay)
    (head rest : Str) (info : ResponseInfo) {body : Str}
    → find_window blank_line (incoming r.source) ≡ some (length head)
    → incoming r.source ≡ (head ++ blank_line) ++ (body ++ rest)
    → (max_headers ≡ 0) ⊎ (length head + 4 ≤ max_headers)
    → parse_response_headers (decode head) ≡ some info
    → Framed decode method max_body info body
    → length (maybe_inject_hsts decode (head ++ blank_line) hsts) + length body ≤ r.target.room
    → ((stream_http_response decode method max_headers max_body hsts r).1 ≡ done (is_reusable info))
      × (incoming (stream_http_response decode method max_headers max_body hsts r).0.source ≡ rest)
      × ((stream_http_response decode method max_headers max_body hsts r).0.target
          ≡ after_write r.target (maybe_inject_hsts decode (head ++ blank_line) hsts ++ body))
unfolding stream_http_response read_response_headers take_head IsHead Sent
stream_http_response_lem decode method max_headers max_body hsts r head rest info {body} f e limit
      parsed framed room =
    let (d, here, same) =
      IsHead_lem max_headers r.source.events r.source.buf (length head) f limit in
    let source = (head_loop max_headers r.source.events r.source.buf).0 in
    let n = length head + 4 in
    let whole : n ≡ length (head ++ blank_line) = omega (arith, length-append head blank_line) in
    let within : n ≤ length source.buf =
      omega (arith, find_window-length blank_line source.buf (length head) here) in
    let all = same ∙ e in
    let kept =
      sym (take-append n source.buf (arriving source.events) within)
      ∙ ap (take n) all
      ∙ ap (λ k. take k ((head ++ blank_line) ++ (body ++ rest))) whole
      ∙ take_prefix (head ++ blank_line) (body ++ rest) in
    let left =
      sym (drop-append n source.buf (arriving source.events) within)
      ∙ ap (drop n) all
      ∙ ap (λ k. drop k ((head ++ blank_line) ++ (body ++ rest))) whole
      ∙ drop_prefix (head ++ blank_line) (body ++ rest) in
    let r2 : Relay = record r { source = record source { buf = drop n source.buf } } in
    rw
      (
        >>=-done (read_response_headers max_headers) _ r d,
        >>=-done (take_head n) _ (read_response_headers max_headers r).0 (ap done kept),
        take_prefix head blank_line,
        parsed,
      )
      (send_response_lem decode method max_body hsts (head ++ blank_line) info r2 rest framed room
        left)
