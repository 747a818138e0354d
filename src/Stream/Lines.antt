-- ===== src/Stream/Lines.antt =====
-- A line, read from a socket: the same loop stands in crates/migux_core/src/worker/timeouts.rs,
-- crates/migux_proxy/src/proxy/mod.rs and response.rs, each with errors of its own.
use mathlib.Core.List.{append-nil, append_assoc}
use migux.Common.{
  ℕ, ◌+◌, ◌≤◌, ◌≡◌, sym, ap, ◌∙◌, inl, inr, List, [], ◌∷◌, ◌++◌, none, some, length, take, drop,
  arith, Option-cases,
}
use migux.Text.{Str}
use migux.Stream.{
  Event, arrives, times_out, fails, Conn, Result, done, err, find_window, crlf, Ending, closed,
  read_more, bytes_or,
}
use migux.Stream.Window.{find_window-append, find_window-length, take-append, drop-append}
use migux.Stream.Incoming.{arriving, incoming, ending}

-- `error` is the error that the code returns where no line comes in.
module _ {E : Type 0} (error : Ending → E) where
  unfoldable pub line_loop : List Event → Str → Conn × Result E Str
  unfolding find_window read_more bytes_or
  line_loop [] buf = elim (find_window crlf buf) [
    | some end ↦ (record { buf = drop (end + 2) buf; events = [] }, done (take (end + 2) buf))
    | none ↦ (record { buf = buf; events = [] }, err (error closed))
  ]
  line_loop (event ∷ events) buf = elim (find_window crlf buf) [
    | some end ↦
        (record { buf = drop (end + 2) buf; events = event ∷ events }, done (take (end + 2) buf))
    | none ↦ elim (bytes_or error (read_more (some event) buf)) [
      | done buf' ↦ line_loop events buf'
      | err e ↦ (record { buf = buf; events = events }, err e)
    ]
  ]

  line_buffered :
      (events : List Event) (buf : Str) (i : ℕ)
      → find_window crlf buf ≡ some i
      → line_loop events buf
        ≡ (record { buf = drop (i + 2) buf; events = events }, done (take (i + 2) buf))
  unfolding line_loop
  line_buffered [] buf i h = ground (arith, h)
  line_buffered (event ∷ events) buf i h = ground (arith, h)

  unfoldable pub IsLine : List Event → Str → ℕ → Type 0
  IsLine events buf i =
      ((line_loop events buf).1 ≡ done (take (i + 2) (buf ++ arriving events)))
      × (incoming (line_loop events buf).0 ≡ drop (i + 2) (buf ++ arriving events))

  IsLine-buffered :
      (events : List Event) (buf : Str) (i j : ℕ)
      → find_window crlf buf ≡ some j
      → find_window crlf (buf ++ arriving events) ≡ some i
      → IsLine events buf i
  unfolding IsLine
  IsLine-buffered events buf i j h k =
      let same : j ≡ i = ground (arith, find_window-append crlf buf (arriving events) j h, k) in
      let within : i + 2 ≤ length buf = omega (arith, same, find_window-length crlf buf j h) in
      rw (line_buffered events buf i (h ∙ ap some same)) (
        ap done (sym (take-append (i + 2) buf (arriving events) within)),
        sym (drop-append (i + 2) buf (arriving events) within),
      )

  line_waits :
      (b : ℕ) (bs : Str) (events : List Event) (buf : Str)
      → find_window crlf buf ≡ none
      → line_loop (arrives b bs ∷ events) buf ≡ line_loop events (buf ++ (b ∷ bs))
  unfolding line_loop read_more bytes_or
  line_waits b bs events buf h = ground (arith, h)

  -- The first line that comes in is returned, and no byte after it is taken.
  pub IsLine_lem :
      (events : List Event) (buf : Str) (i : ℕ)
      → find_window crlf (buf ++ arriving events) ≡ some i
      → IsLine events buf i
  unfolding IsLine line_loop read_more bytes_or
  IsLine_lem [] buf i h =
      IsLine-buffered [] buf i i (sym (ap (find_window crlf) (append-nil buf)) ∙ h) h
  IsLine_lem (arrives b bs ∷ events) buf i h = elim (Option-cases (find_window crlf buf)) [
    | inl e ↦
        let join = append_assoc buf (b ∷ bs) (arriving events) in
        let (r, c) = IsLine_lem events (buf ++ (b ∷ bs)) i (ap (find_window crlf) join ∙ h) in
        rw (line_waits b bs events buf e)
          (r ∙ ap (λ s. done (take (i + 2) s)) join, c ∙ ap (drop (i + 2)) join)
    | inr (j, e) ↦ IsLine-buffered (arrives b bs ∷ events) buf i j e h
  ]
  IsLine_lem (times_out ∷ events) buf i h =
      IsLine-buffered (times_out ∷ events) buf i i
        (sym (ap (find_window crlf) (append-nil buf)) ∙ h) h
  IsLine_lem (fails ∷ events) buf i h =
      IsLine-buffered (fails ∷ events) buf i i (sym (ap (find_window crlf) (append-nil buf)) ∙ h) h

  -- No line comes in.
  pub line_loop-none :
      (events : List Event) (buf : Str)
      → find_window crlf (buf ++ arriving events) ≡ none
      → (line_loop events buf).1 ≡ err (error (ending events))
  unfolding line_loop read_more bytes_or
  line_loop-none [] buf h = ground (arith, sym (ap (find_window crlf) (append-nil buf)) ∙ h)
  line_loop-none (arrives b bs ∷ events) buf h = elim (Option-cases (find_window crlf buf)) [
    | inl e ↦ rw (line_waits b bs events buf e) (
        line_loop-none events (buf ++ (b ∷ bs))
          (ap (find_window crlf) (append_assoc buf (b ∷ bs) (arriving events)) ∙ h))
    | inr (j, e) ↦
        ground (arith, h, find_window-append crlf buf (arriving (arrives b bs ∷ events)) j e)
  ]
  line_loop-none (times_out ∷ events) buf h =
      ground (arith, sym (ap (find_window crlf) (append-nil buf)) ∙ h)
  line_loop-none (fails ∷ events) buf h =
      ground (arith, sym (ap (find_window crlf) (append-nil buf)) ∙ h)
