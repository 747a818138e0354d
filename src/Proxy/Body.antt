-- ===== src/Proxy/Body.antt =====
-- The request's body, from the client to an upstream: the functions of
-- crates/migux_proxy/src/proxy/mod.rs after `serve`. A write of no bytes has no effect, as where a
-- loop is left without one.
pub mod Exact
pub mod Whole
mod Tests
use migux.Common.{
  ℕ, zero, suc, ◌+◌, ◌-◌, min, Bool, true, false, ◌&&◌, List, [], ◌∷◌, ◌++◌, ltb, ◌==◌,
  if◌then◌else◌, length, take, drop,
}
use migux.Text.{Str}
use migux.Stream.{
  Event, arrives, times_out, fails, Conn, Sink, write_all, Result, done, err, Run, pure, fail,
  ◌>>=◌, ◌>>◌, Failure,
}
use migux.Stream.Incoming.{incoming}
use migux.Proxy.Relay.{Relay, read_line, relay_chunks}

-- The end of `stream_exact`'s loop, where `remaining` is 0, or nothing comes from the client.
abbrev stopped : ℕ → Failure → Result Failure (Unit {0})
stopped n e = if n == 0 then done tt else err e

-- The reads of `stream_exact`, past what was in the buffer: bytes are written at once, and those
-- that are too many go to the buffer.
socket_loop : List Event → Str → ℕ → Sink → Relay × Result Failure (Unit {0})
unfolding write_all
socket_loop [] buf n sink =
    (record { source = record { buf = buf; events = [] }; target = sink }, stopped n Failure.closed)
socket_loop (arrives b bs ∷ events) buf n sink =
    let (sink', success) = write_all (take n (b ∷ bs)) sink in
    if n == 0
    then (
      record { source = record { buf = buf; events = arrives b bs ∷ events }; target = sink },
      done tt,
    )
    else elim success [
      | false ↦ (
        record { source = record { buf = buf; events = events }; target = sink' },
        err Failure.write_failed,
      )
      | true ↦ socket_loop events (buf ++ drop n (b ∷ bs)) (n - suc (length bs)) sink'
    ]
socket_loop (times_out ∷ events) buf n sink = (
  record {
    source = record { buf = buf; events = if n == 0 then times_out ∷ events else events };
    target = sink;
  },
  stopped n Failure.timed_out,
)
socket_loop (fails ∷ events) buf n sink = (
  record {
    source = record { buf = buf; events = if n == 0 then fails ∷ events else events };
    target = sink;
  },
  stopped n Failure.io,
)

-- What is in the buffer goes first; it is kept if the write fails.
pub stream_exact : ℕ → Run Relay Failure (Unit {0})
unfolding socket_loop write_all
stream_exact remaining r =
    let n = min remaining (length r.source.buf) in
    let (sink, success) = write_all (take n r.source.buf) r.target in
    elim success [
      | false ↦ (record r { target = sink }, err Failure.write_failed)
      | true ↦ socket_loop r.source.events (drop n r.source.buf) (remaining - n) sink
    ]

pub stream_chunked_body : (Str → Str) → ℕ → Run Relay Failure (Unit {0})
unfolding relay_chunks read_line stream_exact
stream_chunked_body decode max_body r =
    relay_chunks read_line stream_exact decode max_body (suc (length (incoming r.source))) 0 r

pub stream_request_body : (Str → Str) → Bool → ℕ → ℕ → Run Relay Failure (Unit {0})
unfolding stream_chunked_body stream_exact
stream_request_body decode is_chunked content_length max_body =
    if is_chunked && content_length == 0
    then stream_chunked_body decode max_body
    else if content_length == 0
    then pure tt
    else if ltb 0 max_body && ltb max_body content_length
    then fail Failure.too_large
    else stream_exact content_length
