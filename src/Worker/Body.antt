-- ===== src/Worker/Body.antt =====
-- crates/migux_core/src/worker/timeouts.rs: reading from a client, and discarding a request's body.
-- A round of a loop takes what is in the buffer and then waits for one read, so the loops recur on
-- the reads of the socket. The loops over lines take fuel: a line has two bytes at least, and the
-- fuel is more than the bytes that can come.
pub mod Refines
pub mod Chunked
mod Tests
use migux.Common.{
  ℕ, zero, suc, ◌+◌, ◌-◌, ◌*◌, ◌%◌, ◌^◌, min, Bool, true, false, ◌&&◌, List, [], ◌∷◌, ◌++◌, Option,
  none, some, ltb, ◌==◌, if◌then◌else◌, length, take, drop,
}
use migux.Text.{Str, same, split, trim, from_str_radix}
use migux.Stream.{
  Event, arrives, times_out, fails, Conn, Result, done, err, Run, pure, fail, ◌>>=◌, ◌>>◌, crlf,
  Ending, read_more, bytes_or,
}
use migux.Stream.Incoming.{incoming}
use migux.Stream.Lines.{line_loop}

-- `out_of_fuel` is the model's own: it is never returned.
pub data ChunkedBodyError : Type 0 where
  timed_out : ChunkedBodyError
  invalid : ChunkedBodyError
  too_large : ChunkedBodyError
  io : ChunkedBodyError
  out_of_fuel : ChunkedBodyError

-- The error of a loop that waits for bytes.
abbrev pub error_of : Ending → ChunkedBodyError
error_of Ending.closed = invalid
error_of Ending.timed_out = timed_out
error_of Ending.failed = io

discard_loop : List Event → Str → ℕ → Conn × Result ChunkedBodyError (Unit {0})
unfolding read_more bytes_or
discard_loop [] buf remaining =
    let n = min remaining (length buf) in
    (record { buf = drop n buf; events = [] }, if remaining - n == 0 then done tt else err invalid)
discard_loop (event ∷ events) buf remaining =
    let n = min remaining (length buf) in
    if remaining - n == 0
    then (record { buf = drop n buf; events = event ∷ events }, done tt)
    else elim (bytes_or error_of (read_more (some event) (drop n buf))) [
      | done buf' ↦ discard_loop events buf' (remaining - n)
      | err e ↦ (record { buf = drop n buf; events = events }, err e)
    ]

pub discard_content_length : ℕ → Run Conn ChunkedBodyError (Unit {0})
unfolding discard_loop
discard_content_length remaining c = discard_loop c.events c.buf remaining

-- The same code under another name.
pub discard_exact : ℕ → Run Conn ChunkedBodyError (Unit {0})
unfolding discard_loop
discard_exact remaining c = discard_loop c.events c.buf remaining

pub read_line_bytes : Run Conn ChunkedBodyError Str
unfolding line_loop
read_line_bytes c = line_loop error_of c.events c.buf

abbrev first_part : List Str → Str
first_part [] = []
first_part (part ∷ parts) = part

-- `from_utf8` says whether bytes are UTF-8. The line ends in a CRLF.
pub chunk_size : (Str → Option Str) → Str → Option ℕ
unfolding split trim from_str_radix
chunk_size from_utf8 line =
    let text = take (length line - 2) line in
    elim (from_utf8 text) [
      | none ↦ none
      | some s ↦ from_str_radix (2 ^ 64) 16 (trim (first_part (split b';' s)))
    ]

-- Lines up to an empty one.
discard_trailers : ℕ → Run Conn ChunkedBodyError (Unit {0})
unfolding read_line_bytes
discard_trailers zero = fail out_of_fuel
discard_trailers (suc fuel) = do
  trailer ← read_line_bytes
  if same trailer crlf then pure tt else discard_trailers fuel

usize_max : ℕ
usize_max = 2 ^ 64 - 1

saturating_add : ℕ → ℕ → ℕ
unfolding usize_max
saturating_add a b = min (a + b) usize_max

discard_chunks : (Str → Option Str) → ℕ → ℕ → ℕ → Run Conn ChunkedBodyError (Unit {0})
unfolding read_line_bytes discard_trailers chunk_size discard_exact saturating_add
discard_chunks from_utf8 max_body zero body_bytes = fail out_of_fuel
discard_chunks from_utf8 max_body (suc fuel) body_bytes = do
  line ← read_line_bytes
  elim (chunk_size from_utf8 line) [
    | none ↦ fail invalid
    | some size ↦
        let total = saturating_add body_bytes size in
        if size == 0
        then discard_trailers fuel
        else if ltb 0 max_body && ltb max_body total
        then fail too_large
        else do discard_exact ((size + 2) % 2 ^ 64); discard_chunks from_utf8 max_body fuel total
  ]

pub discard_chunked_body : (Str → Option Str) → ℕ → Conn → Conn × Result ChunkedBodyError (Unit {0})
unfolding discard_chunks
discard_chunked_body from_utf8 max_body c =
    discard_chunks from_utf8 max_body (suc (length (incoming c))) 0 c
