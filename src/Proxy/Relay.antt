-- ===== src/Proxy/Relay.antt =====
-- The relaying of a body, which crates/migux_proxy/src/proxy/mod.rs and response.rs do by the same
-- text of code, from the client to an upstream and back: reading a line, and the loop over chunks.
-- `decode` stands for `String::from_utf8_lossy`. The loops over lines take fuel, which is more than
-- the bytes that can come.
pub mod Lines
pub mod Chunked
use migux.Common.{
  ℕ, zero, suc, ◌+◌, ◌%◌, ◌^◌, Bool, true, false, ◌&&◌, List, [], ◌∷◌, Option, none, some, ltb,
  ◌==◌, if◌then◌else◌,
}
use migux.Text.{Str, same, split, trim, trim_end_by, from_str_radix}
use migux.Stream.{
  Conn, Sink, write_all, Result, done, err, Run, pure, fail, ◌>>=◌, ◌>>◌, Failure, written, crlf,
  Ending,
}
use migux.Stream.Lines.{line_loop}

-- The peer that is read, and what is written to the other one.
pub record Relay : Type 0 where
  pub source : Conn
  pub target : Sink

-- The error of a loop that waits for bytes.
abbrev pub failure_of : Ending → Failure
failure_of Ending.closed = Failure.closed
failure_of Ending.timed_out = Failure.timed_out
failure_of Ending.failed = Failure.io

unfoldable pub read_line : Run Relay Failure Str
unfolding line_loop
read_line r =
    let (source, line) = line_loop failure_of r.source.events r.source.buf in
    (record r { source = source }, line)

unfoldable pub forward : Str → Run Relay Failure (Unit {0})
unfolding write_all
forward bytes r =
    let (target, success) = write_all bytes r.target in
    written (record r { target = target }) success

abbrev first_part : List Str → Str
first_part [] = []
first_part (part ∷ parts) = part

-- The size of a chunk, from its line with the CRLF.
unfoldable pub chunk_size : (Str → Str) → Str → Option ℕ
unfolding split trim trim_end_by from_str_radix
chunk_size decode line =
    let text = trim_end_by (λ c. c == 10) (trim_end_by (λ c. c == 13) (trim (decode line))) in
    from_str_radix (2 ^ 64) 16 (trim (first_part (split b';' text)))

module _ (line : Run Relay Failure Str) (exact : ℕ → Run Relay Failure (Unit {0})) where
  unfoldable pub relay_trailers : ℕ → Run Relay Failure (Unit {0})
  unfolding forward
  relay_trailers zero = fail Failure.out_of_fuel
  relay_trailers (suc fuel) = do
    trailer ← line
    forward trailer
    if same trailer crlf then pure tt else relay_trailers fuel

  -- What follows the line of a chunk; `next` is the next round. The sums are of machine words, which
  -- wrap around.
  unfoldable pub relay_sized :
      (Str → Str)
      → ℕ
      → ℕ
      → ℕ
      → (ℕ → Run Relay Failure (Unit {0}))
      → Str
      → Run Relay Failure (Unit {0})
  unfolding relay_trailers chunk_size
  relay_sized decode max_body fuel body_bytes next size_line = elim (chunk_size decode size_line) [
    | none ↦ fail Failure.invalid
    | some size ↦
        let total = (body_bytes + size) % 2 ^ 64 in
        if size == 0
        then relay_trailers fuel
        else if ltb 0 max_body && ltb max_body total
        then fail Failure.too_large
        else do exact ((size + 2) % 2 ^ 64); next total
  ]

  unfoldable pub relay_chunks : (Str → Str) → ℕ → ℕ → ℕ → Run Relay Failure (Unit {0})
  unfolding forward relay_sized
  relay_chunks decode max_body zero body_bytes = fail Failure.out_of_fuel
  relay_chunks decode max_body (suc fuel) body_bytes = do
    size_line ← line
    forward size_line
    relay_sized decode max_body fuel body_bytes (λ total. relay_chunks decode max_body fuel total)
        size_line
