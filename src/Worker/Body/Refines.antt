-- ===== src/Worker/Body/Refines.antt =====
-- What the readers of timeouts.rs do, on the bytes that come in, however they are cut into reads.
use mathlib.Core.List.{append-nil}
use migux.Common.{
  ℕ, ◌+◌, ◌-◌, ◌≤◌, ◌<◌, min, ◌≡◌, refl, sym, ap, ◌∙◌, ◌⊎◌, inl, inr, List, [], ◌∷◌, ◌++◌, none,
  some, leb, length, take, drop, length-append, arith, leb→le, Bool-cases,
}
use migux.Text.{Str}
use migux.Stream.{
  Event, arrives, times_out, fails, Conn, done, err, find_window, crlf, read_more, bytes_or,
}
use migux.Stream.Window.{drop-append, drop-append_past, drop_all}
use migux.Stream.Incoming.{arriving, incoming, ending}
use migux.Stream.Lines.{IsLine, IsLine_lem, line_loop-none}
use migux.Worker.Body.{
  ChunkedBodyError, discard_loop, discard_exact, discard_content_length, read_line_bytes, error_of,
}

min-le : (n m : ℕ) → n ≤ m → min n m ≡ n
min-le n m h = omega arith

min-ge : (n m : ℕ) → m ≤ n → min n m ≡ m
min-ge n m h = omega arith

loop_buffered :
    (events : List Event) (buf : Str) (n : ℕ)
    → n ≤ length buf
    → discard_loop events buf n ≡ (record { buf = drop n buf; events = events }, done tt)
unfolding discard_loop
loop_buffered [] buf n h = rw (min-le n (length buf) h) (ground arith)
loop_buffered (event ∷ events) buf n h = rw (min-le n (length buf) h) (ground arith)

loop_arrives :
    (b : ℕ) (bs : Str) (events : List Event) (buf : Str) (n : ℕ)
    → length buf < n
    → discard_loop (arrives b bs ∷ events) buf n ≡ discard_loop events (b ∷ bs) (n - length buf)
unfolding discard_loop read_more bytes_or
loop_arrives b bs events buf n h =
    rw (min-ge n (length buf) (omega arith)) (rw (drop_all buf) (ground arith))

loop_ends :
    (buf : Str) (n : ℕ) → length buf < n → (discard_loop [] buf n).1 ≡ err ChunkedBodyError.invalid
unfolding discard_loop
loop_ends buf n h = rw (min-ge n (length buf) (omega arith)) (ground arith)

Discarded : List Event → Str → ℕ → Type 0
Discarded events buf n =
    ((discard_loop events buf n).1 ≡ done tt)
    × (incoming (discard_loop events buf n).0 ≡ drop n (buf ++ arriving events))

Discarded-buffered :
    (events : List Event) (buf : Str) (n : ℕ) → n ≤ length buf → Discarded events buf n
unfolding Discarded
Discarded-buffered events buf n h =
    rw (loop_buffered events buf n h) (refl, sym (drop-append n buf (arriving events) h))

-- Enough bytes come in: `n` of them are gone, and no others.
Discarded-enough :
    (events : List Event) (buf : Str) (n : ℕ)
    → n ≤ length (buf ++ arriving events)
    → Discarded events buf n
unfolding Discarded
Discarded-enough [] buf n h =
    Discarded-buffered [] buf n (omega (arith, ap length (append-nil buf)))
Discarded-enough (arrives b bs ∷ events) buf n h = elim (Bool-cases (leb n (length buf))) [
  | inl e ↦ Discarded-buffered (arrives b bs ∷ events) buf n (ground arith)
  | inr e ↦
      let more = (b ∷ bs) ++ arriving events in
      let (r, i) =
        Discarded-enough events (b ∷ bs) (n - length buf) (omega (arith, length-append buf more)) in
      rw (loop_arrives b bs events buf n (ground arith))
        (r, i ∙ sym (drop-append_past n buf more (ground arith)))
]
Discarded-enough (times_out ∷ events) buf n h =
    Discarded-buffered (times_out ∷ events) buf n (omega (arith, ap length (append-nil buf)))
Discarded-enough (fails ∷ events) buf n h =
    Discarded-buffered (fails ∷ events) buf n (omega (arith, ap length (append-nil buf)))

discard_loop_short :
    (events : List Event) (buf : Str) (n : ℕ)
    → length (buf ++ arriving events) < n
    → (discard_loop events buf n).1 ≡ err (error_of (ending events))
unfolding discard_loop read_more bytes_or
discard_loop_short [] buf n h = loop_ends buf n (omega (arith, ap length (append-nil buf)))
discard_loop_short (arrives b bs ∷ events) buf n h =
    let more = (b ∷ bs) ++ arriving events in
    rw (loop_arrives b bs events buf n (omega (arith, length-append buf more)))
      (discard_loop_short events (b ∷ bs) (n - length buf) (omega (arith, length-append buf more)))
discard_loop_short (times_out ∷ events) buf n h =
    rw (min-ge n (length buf) (omega (arith, ap length (append-nil buf))))
      (ground (arith, ap length (append-nil buf)))
discard_loop_short (fails ∷ events) buf n h =
    rw (min-ge n (length buf) (omega (arith, ap length (append-nil buf))))
      (ground (arith, ap length (append-nil buf)))

pub read_line_bytes_lem :
    (c : Conn) (i : ℕ)
    → find_window crlf (incoming c) ≡ some i
    → ((read_line_bytes c).1 ≡ done (take (i + 2) (incoming c)))
      × (incoming (read_line_bytes c).0 ≡ drop (i + 2) (incoming c))
unfolding read_line_bytes IsLine
read_line_bytes_lem c i h = IsLine_lem error_of c.events c.buf i h

pub read_line_bytes-none :
    (c : Conn)
    → find_window crlf (incoming c) ≡ none
    → (read_line_bytes c).1 ≡ err (error_of (ending c.events))
unfolding read_line_bytes
read_line_bytes-none c h = line_loop-none error_of c.events c.buf h

pub discard_exact_enough :
    (n : ℕ) (c : Conn)
    → n ≤ length (incoming c)
    → ((discard_exact n c).1 ≡ done tt) × (incoming (discard_exact n c).0 ≡ drop n (incoming c))
unfolding discard_exact Discarded
discard_exact_enough n c h = Discarded-enough c.events c.buf n h

pub discard_exact_short :
    (n : ℕ) (c : Conn)
    → length (incoming c) < n
    → (discard_exact n c).1 ≡ err (error_of (ending c.events))
unfolding discard_exact
discard_exact_short n c h = discard_loop_short c.events c.buf n h

-- `discard_content_length` of `n` bytes succeeds exactly where `n` bytes come in, and leaves the
-- bytes after them; otherwise it returns the error by which the bytes end.
pub discard_content_length_lem :
    (n : ℕ) (c : Conn)
    → ((n ≤ length (incoming c))
        × ((discard_content_length n c).1 ≡ done tt)
        × (incoming (discard_content_length n c).0 ≡ drop n (incoming c)))
      ⊎ ((length (incoming c) < n)
          × ((discard_content_length n c).1 ≡ err (error_of (ending c.events))))
unfolding discard_content_length Discarded
discard_content_length_lem n c = elim (Bool-cases (leb n (length (incoming c)))) [
  | inl e ↦
      let h = leb→le n (length (incoming c)) e in
      let (r, i) = Discarded-enough c.events c.buf n h in inl (h, r, i)
  | inr e ↦
      let h : length (incoming c) < n = ground arith in
      inr (h, discard_loop_short c.events c.buf n h)
]
