-- ===== src/Proxy/Streaming.antt =====
-- crates/migux_proxy/src/proxy/response.rs: the response of an upstream, from its socket to the
-- client. `decode` stands for `String::from_utf8_lossy`. A write of no bytes has no effect, as where a
-- loop is left without one.
pub mod Exact
pub mod Body
pub mod Whole
mod Tests
use migux.Common.{
  ℕ, zero, suc, ◌+◌, ◌-◌, ◌%◌, ◌^◌, min, Bool, true, false, not, ◌&&◌, List, [], ◌∷◌, ◌++◌, Option,
  none, some, ltb, ◌==◌, if◌then◌else◌, length, take, drop,
}
use migux.Text.{Str}
use migux.Stream.{
  Event, arrives, times_out, fails, Conn, Sink, write_all, Result, done, err, Run, pure, fail,
  ◌>>=◌, ◌>>◌, Failure, find_window, blank_line, read_more, bytes_or,
}
use migux.Stream.Incoming.{incoming}
use migux.Proxy.Relay.{Relay, read_line, relay_chunks, forward, failure_of}
use migux.Proxy.Response.{ResponseInfo, parse_response_headers, is_no_body}
use migux.Proxy.Hsts.{maybe_inject_hsts}

-- `find_headers_end`, and the loop of `read_response_headers` around it.
head_loop : ℕ → List Event → Str → Conn × Result Failure ℕ
unfolding find_window read_more bytes_or
head_loop max_headers [] buf = elim (find_window blank_line buf) [
  | some pos ↦ (record { buf = buf; events = [] }, done pos)
  | none ↦ (
    record { buf = buf; events = [] },
    err (
        if ltb 0 max_headers && ltb max_headers (length buf)
        then Failure.too_large
        else Failure.closed),
  )
]
head_loop max_headers (event ∷ events) buf = elim (find_window blank_line buf) [
  | some pos ↦ (record { buf = buf; events = event ∷ events }, done pos)
  | none ↦
      if ltb 0 max_headers && ltb max_headers (length buf)
      then (record { buf = buf; events = event ∷ events }, err Failure.too_large)
      else elim (bytes_or failure_of (read_more (some event) buf)) [
        | done buf' ↦ head_loop max_headers events buf'
        | err e ↦ (record { buf = buf; events = events }, err e)
      ]
]

pub read_response_headers : ℕ → Run Relay Failure ℕ
unfolding head_loop
read_response_headers max_headers r =
    let (source, pos) = head_loop max_headers r.source.events r.source.buf in
    (record r { source = source }, pos)

-- The loop of `read_exact_from_buf` and of `stream_content_length`: a round reads if the buffer is
-- empty, and writes what it takes from the buffer.
pub exact_loop : List Event → Str → ℕ → Sink → Relay × Result Failure (Unit {0})
unfolding write_all read_more bytes_or
exact_loop [] buf n sink =
    let k = min n (length buf) in
    let (sink', success) = write_all (take k buf) sink in
    (
      record { source = record { buf = drop k buf; events = [] }; target = sink' },
      if not success
          then err Failure.write_failed
          else if n - k == 0
          then done tt
          else err Failure.closed,
    )
exact_loop (event ∷ events) buf n sink =
    let k = min n (length buf) in
    let (sink', success) = write_all (take k buf) sink in
    let after : Conn = record { buf = drop k buf; events = event ∷ events } in
    if not success
    then (record { source = after; target = sink' }, err Failure.write_failed)
    else if n - k == 0
    then (record { source = after; target = sink' }, done tt)
    else elim (bytes_or failure_of (read_more (some event) (drop k buf))) [
      | done buf' ↦ exact_loop events buf' (n - k) sink'
      | err e ↦
          (record { source = record { buf = drop k buf; events = events }; target = sink' }, err e)
    ]

pub read_exact_from_buf : ℕ → Run Relay Failure (Unit {0})
unfolding exact_loop
read_exact_from_buf remaining r = exact_loop r.source.events r.source.buf remaining r.target

-- A body that ends too early is no error.
abbrev pub complete : Result Failure (Unit {0}) → Result Failure Bool
complete (done _) = done true
complete (err Failure.closed) = done false
complete (err e) = err e

pub stream_content_length : ℕ → Run Relay Failure Bool
unfolding exact_loop
stream_content_length remaining r =
    let (r', result) = exact_loop r.source.events r.source.buf remaining r.target in
    (r', complete result)

-- The reads of `stream_until_eof`: the sum is of machine words.
eof_loop : ℕ → List Event → ℕ → Sink → Relay × Result Failure (Unit {0})
unfolding write_all
eof_loop max_body [] body_bytes sink =
    (record { source = record { buf = []; events = [] }; target = sink }, done tt)
eof_loop max_body (arrives b bs ∷ events) body_bytes sink =
    let total = (body_bytes + suc (length bs)) % 2 ^ 64 in
    let (sink', success) = write_all (b ∷ bs) sink in
    if ltb 0 max_body && ltb max_body total
    then (
      record { source = record { buf = b ∷ bs; events = events }; target = sink },
      err Failure.too_large,
    )
    else elim success [
      | false ↦ (
        record { source = record { buf = []; events = events }; target = sink' },
        err Failure.write_failed,
      )
      | true ↦ eof_loop max_body events total sink'
    ]
eof_loop max_body (times_out ∷ events) body_bytes sink =
    (record { source = record { buf = []; events = events }; target = sink }, err Failure.timed_out)
eof_loop max_body (fails ∷ events) body_bytes sink =
    (record { source = record { buf = []; events = events }; target = sink }, err Failure.io)

pub stream_until_eof : ℕ → Run Relay Failure (Unit {0})
unfolding eof_loop write_all
stream_until_eof max_body r =
    let body_bytes = length r.source.buf in
    let (sink, success) = write_all r.source.buf r.target in
    if ltb 0 max_body && ltb max_body body_bytes then (r, err Failure.too_large) else elim success [
      | false ↦ (
        record { source = record r.source { buf = [] }; target = sink },
        err Failure.write_failed,
      )
      | true ↦ eof_loop max_body r.source.events body_bytes sink
    ]

pub stream_chunked_body : (Str → Str) → ℕ → Run Relay Failure (Unit {0})
unfolding relay_chunks read_line read_exact_from_buf
stream_chunked_body decode max_body r =
    relay_chunks read_line read_exact_from_buf decode max_body (suc (length (incoming r.source))) 0
      r

abbrev pub is_reusable : ResponseInfo → Bool
is_reusable info =
    if info.is_http10
    then info.connection_keep_alive && not info.connection_close
    else not info.connection_close

-- The body, by its framing: whether the connection may be used again.
pub stream_body : (Str → Str) → ℕ → ResponseInfo → Run Relay Failure Bool
unfolding stream_chunked_body stream_content_length stream_until_eof
stream_body decode max_body info =
    if info.is_chunked
    then stream_chunked_body decode max_body >> pure (is_reusable info)
    else elim info.content_length [
      | some cl ↦
          if ltb 0 max_body && ltb max_body cl
          then fail Failure.too_large
          else do all ← stream_content_length cl; pure (all && is_reusable info)
      | none ↦ stream_until_eof max_body >> pure false
    ]

-- `upstream.read_buf.split_to(n)`
take_head : ℕ → Run Relay Failure Str
take_head n r = (
  record r { source = record r.source { buf = drop n r.source.buf } },
  done (take n r.source.buf),
)

-- The head and the body, once the head is parsed.
send_response : (Str → Str) → Str → ℕ → Option Str → Str → ResponseInfo → Run Relay Failure Bool
unfolding forward stream_body
send_response decode method max_body hsts_header headers_bytes info = do
  forward (maybe_inject_hsts decode headers_bytes hsts_header)
  if is_no_body method info.status_code
      then pure (is_reusable info)
      else stream_body decode max_body info

pub stream_http_response : (Str → Str) → Str → ℕ → ℕ → Option Str → Run Relay Failure Bool
unfolding read_response_headers take_head send_response
stream_http_response decode method max_headers max_body hsts_header = do
  headers_end ← read_response_headers max_headers
  headers_bytes ← take_head (headers_end + 4)
  elim (parse_response_headers (decode (take headers_end headers_bytes))) [
    | none ↦ fail Failure.invalid
    | some info ↦ send_response decode method max_body hsts_header headers_bytes info
  ]
