-- ===== src/Worker/Body/Chunked.antt =====
-- The discarding of a body in chunks: it ends, and takes the body and nothing after it.
use mathlib.Core.List.{append_assoc}
use migux.Common.{
  ℕ, zero, suc, ◌+◌, ◌^◌, ◌%◌, ◌≤◌, ◌<◌, ◌≡◌, ◌≢◌, refl, sym, ap, ◌∙◌, ◌⊎◌, inl, inr, false, [],
  ◌∷◌, ◌++◌, length, take, drop, length-append, arith, Bool-cases, Option, Option-cases, leb,
  leb→le, ltb, ◌==◌, ◌&&◌, length-drop, if◌then◌else◌,
}
use migux.Text.{Str, contains_char, same, same_self}
use migux.Stream.{Ending, closed, timed_out, failed, Conn, done, err, Run, pure, find_window, crlf}
use migux.Stream.Steps.{>>=-done, >>=-err}
use migux.Stream.Window.{find_window-crlf, find_window-length, take-line, drop-line, drop_prefix}
use migux.Stream.Incoming.{incoming, ending}
use migux.Stream.Chunks.{Trailers, no_more, field, Chunks, last, chunk}
use migux.Worker.Body.{
  ChunkedBodyError, read_line_bytes, discard_exact, discard_trailers, discard_chunks,
  discard_chunked_body, chunk_size, saturating_add, usize_max, error_of,
}
use migux.Worker.Body.Refines.{
  read_line_bytes_lem, read_line_bytes-none, discard_exact_enough, discard_exact_short,
}

-- A line comes in: it is returned, and what follows it stays.
line_lem :
    (c : Conn) (line t : Str)
    → contains_char 13 line ≡ false
    → incoming c ≡ line ++ crlf ++ t
    → ((read_line_bytes c).1 ≡ done (line ++ crlf)) × (incoming (read_line_bytes c).0 ≡ t)
line_lem c line t h e =
    let (r, i) =
      read_line_bytes_lem c (length line) (ap (find_window crlf) e ∙ find_window-crlf line t h) in
    (
      r ∙ ap (λ s. done (take (length line + 2) s)) e ∙ ap done (take-line line t),
      i ∙ ap (drop (length line + 2)) e ∙ drop-line line t,
    )

exact_lem :
    (c : Conn) (n : ℕ) (s t : Str)
    → length s ≡ n
    → incoming c ≡ s ++ t
    → ((discard_exact n c).1 ≡ done tt) × (incoming (discard_exact n c).0 ≡ t)
exact_lem c n s t h e =
    let (r, i) = discard_exact_enough n c (omega (arith, h, ap length e, length-append s t)) in
    (r, i ∙ ap (drop n) e ∙ ap (λ k. drop k (s ++ t)) (sym h) ∙ drop_prefix s t)

no_cr : contains_char 13 [] ≡ false
unfolding contains_char
no_cr = refl

same-crlf :
    (b : ℕ) (line : Str)
    → contains_char 13 (b ∷ line) ≡ false
    → same ((b ∷ line) ++ crlf) crlf ≡ false
unfolding same contains_char
same-crlf b line h = ground arith

-- What the loop over trailers does with one.
after_trailer : ℕ → Str → Run Conn ChunkedBodyError (Unit {0})
after_trailer fuel trailer = if same trailer crlf then pure tt else discard_trailers fuel

trailers_lem :
    (fuel : ℕ) (c : Conn) (rest : Str) {ts : Str}
    → Trailers ts
    → length ts < fuel
    → incoming c ≡ ts ++ rest
    → ((discard_trailers fuel c).1 ≡ done tt) × (incoming (discard_trailers fuel c).0 ≡ rest)
unfolding discard_trailers after_trailer
trailers_lem zero c rest t h e = absurd (omega arith)
trailers_lem (suc fuel) c rest no_more h e =
    let (r, i) = line_lem c [] rest no_cr e in
    rw (>>=-done read_line_bytes (after_trailer fuel) c r) (ground (arith, i, same_self crlf))
trailers_lem (suc fuel) c rest (field b line more n t) h e =
    let (r, i) =
      line_lem c (b ∷ line) (more ++ rest) n (e ∙ append_assoc ((b ∷ line) ++ crlf) more rest) in
    let ih =
      trailers_lem fuel (read_line_bytes c).0 rest t
        (omega (arith, length-append ((b ∷ line) ++ crlf) more)) i in
    rw (>>=-done read_line_bytes (after_trailer fuel) c r) (ground (arith, same-crlf b line n, ih))

sum_fits : (a b : ℕ) → a + b + 2 < 2 ^ 64 → saturating_add a b ≡ a + b
unfolding saturating_add usize_max
sum_fits a b h = omega arith

size_fits : (n : ℕ) → n + 2 < 2 ^ 64 → (n + 2) % 2 ^ 64 ≡ n + 2
size_fits n h = omega arith

in_limit :
    (max_body total more : ℕ)
    → (max_body ≡ 0) ⊎ (total + more ≤ max_body)
    → (ltb 0 max_body && ltb max_body total) ≡ false
in_limit max_body total more h = ground arith

chunks_lem :
    (from_utf8 : Str → Option Str) (max_body fuel body_bytes : ℕ) (c : Conn) (rest : Str) {m : ℕ}
    {body : Str}
    → Chunks (chunk_size from_utf8) m body
    → length body < fuel
    → (max_body ≡ 0) ⊎ (body_bytes + m ≤ max_body)
    → body_bytes + m + 2 < 2 ^ 64
    → incoming c ≡ body ++ rest
    → ((discard_chunks from_utf8 max_body fuel body_bytes c).1 ≡ done tt)
      × (incoming (discard_chunks from_utf8 max_body fuel body_bytes c).0 ≡ rest)
unfolding discard_chunks
chunks_lem from_utf8 max_body zero body_bytes c rest chunks h limit small e = absurd (omega arith)
chunks_lem from_utf8 max_body (suc fuel) body_bytes c rest (last line ts n z t) h limit small e =
    let (r, i) = line_lem c line (ts ++ rest) n (e ∙ append_assoc (line ++ crlf) ts rest) in
    let ih =
      trailers_lem fuel (read_line_bytes c).0 rest t
        (omega (arith, length-append (line ++ crlf) ts, length-append line crlf)) i in
    rw (>>=-done read_line_bytes _ c r) (rw z ih)
chunks_lem from_utf8 max_body (suc fuel) body_bytes c rest
      (chunk k m line content more n z pos len t) h limit small e =
    let (r, i) =
      line_lem c line (content ++ more ++ rest) n
        (e ∙ append_assoc (line ++ crlf) (content ++ more) rest) in
    let (r', i') =
      exact_lem (read_line_bytes c).0 (k + 2) content (more ++ rest) len
        (i ∙ append_assoc content more rest) in
    let total = sum_fits body_bytes k (omega arith) in
    let limit' : (max_body ≡ 0) ⊎ ((body_bytes + k) + m ≤ max_body) = ground arith in
    let ih =
      chunks_lem from_utf8 max_body fuel (body_bytes + k)
        (discard_exact (k + 2) (read_line_bytes c).0).0 rest t
        (omega (arith, length-append (line ++ crlf) (content ++ more), length-append content more))
        limit' (omega arith) i' in
    let positive : (k == 0) ≡ false = ground arith in
    rw (>>=-done read_line_bytes _ c r) (
      rw
        (z, total, positive, in_limit max_body (body_bytes + k) m limit', size_fits k (omega arith))
        (rw (>>=-done (discard_exact (k + 2)) _ (read_line_bytes c).0 r') ih))

-- A body in chunks of `m` bytes of data comes in, within the limit and small enough for a `usize`,
-- and `rest` after it, cut into reads in any way: the body is discarded, and `rest` is what the
-- connection still holds.
pub discard_chunked_body_lem :
    (from_utf8 : Str → Option Str) (max_body : ℕ) (c : Conn) (rest : Str) {m : ℕ} {body : Str}
    → Chunks (chunk_size from_utf8) m body
    → (max_body ≡ 0) ⊎ (m ≤ max_body)
    → m + 2 < 2 ^ 64
    → incoming c ≡ body ++ rest
    → ((discard_chunked_body from_utf8 max_body c).1 ≡ done tt)
      × (incoming (discard_chunked_body from_utf8 max_body c).0 ≡ rest)
unfolding discard_chunked_body
discard_chunked_body_lem from_utf8 max_body c rest {m} {body} chunks limit small e =
    chunks_lem from_utf8 max_body (suc (length (incoming c))) 0 c rest chunks
      (omega (arith, ap length e, length-append body rest)) (ground arith) (omega arith) e

error_of-ne : (e : Ending) → error_of e ≢ ChunkedBodyError.out_of_fuel
error_of-ne closed h = cc
error_of-ne timed_out h = cc
error_of-ne failed h = cc

-- A line takes two bytes at least.
line_cases :
    (c : Conn)
    → ((line : Str) × ((read_line_bytes c).1 ≡ done line)
        × (length (incoming (read_line_bytes c).0) + 2 ≤ length (incoming c)))
      ⊎ ((e : ChunkedBodyError) × ((read_line_bytes c).1 ≡ err e)
          × (e ≢ ChunkedBodyError.out_of_fuel))
line_cases c = elim (Option-cases (find_window crlf (incoming c))) [
  | inl n ↦
      inr (error_of (ending c.events), read_line_bytes-none c n, error_of-ne (ending c.events))
  | inr (i, s) ↦
      let (r, k) = read_line_bytes_lem c i s in
      inl (
        take (i + 2) (incoming c),
        r,
        omega (
          arith,
          ap length k,
          length-drop (i + 2) (incoming c),
          find_window-length crlf (incoming c) i s,
        ),
      )
]

exact_cases :
    (n : ℕ) (c : Conn)
    → (((discard_exact n c).1 ≡ done tt)
        × (length (incoming (discard_exact n c).0) ≤ length (incoming c)))
      ⊎ ((e : ChunkedBodyError) × ((discard_exact n c).1 ≡ err e)
          × (e ≢ ChunkedBodyError.out_of_fuel))
exact_cases n c = elim (Bool-cases (leb n (length (incoming c)))) [
  | inl h ↦
      let (r, k) = discard_exact_enough n c (leb→le n (length (incoming c)) h) in
      inl (r, omega (arith, ap length k, length-drop n (incoming c)))
  | inr h ↦ inr (
    error_of (ending c.events),
    discard_exact_short n c (ground arith),
    error_of-ne (ending c.events),
  )
]

trailers_end :
    (fuel : ℕ) (c : Conn)
    → length (incoming c) < fuel
    → (discard_trailers fuel c).1 ≢ err ChunkedBodyError.out_of_fuel
unfolding discard_trailers after_trailer
trailers_end zero c h = absurd (omega arith)
trailers_end (suc fuel) c h = elim (line_cases c) [
  | inl (line, r, less) ↦
      rw (>>=-done read_line_bytes (after_trailer fuel) c r)
        (ground (arith, trailers_end fuel (read_line_bytes c).0))
  | inr (e, r, ne) ↦ rw (>>=-err read_line_bytes (after_trailer fuel) c r) (λ h. ne (cc))
]

chunks_end :
    (from_utf8 : Str → Option Str) (max_body fuel body_bytes : ℕ) (c : Conn)
    → length (incoming c) < fuel
    → (discard_chunks from_utf8 max_body fuel body_bytes c).1 ≢ err ChunkedBodyError.out_of_fuel
unfolding discard_chunks
chunks_end from_utf8 max_body zero body_bytes c h = absurd (omega arith)
chunks_end from_utf8 max_body (suc fuel) body_bytes c h = elim (line_cases c) [
  | inr (e, r, ne) ↦ rw (>>=-err read_line_bytes _ c r) (λ h. ne (cc))
  | inl (line, r, less) ↦
      let c' = (read_line_bytes c).0 in
      elim (Option-cases (chunk_size from_utf8 line)) [
        | inl n ↦ rw (>>=-done read_line_bytes _ c r) (rw n (ground arith))
        | inr (size, n) ↦
            let total = saturating_add body_bytes size in
            rw (>>=-done read_line_bytes _ c r) (
              rw n (elim (Bool-cases (size == 0)) [
                | inl z ↦ rw z (trailers_end fuel c' (omega arith))
                | inr z ↦ elim (Bool-cases (ltb 0 max_body && ltb max_body total)) [
                  | inl over ↦ rw (z, over) (ground arith)
                  | inr within ↦ elim (exact_cases ((size + 2) % 2 ^ 64) c') [
                    | inl (r', less') ↦
                        rw (z, within, >>=-done (discard_exact ((size + 2) % 2 ^ 64)) _ c' r')
                          (chunks_end from_utf8 max_body fuel total
                            (discard_exact ((size + 2) % 2 ^ 64) c').0 (omega arith))
                    | inr (e, r', ne) ↦
                        rw (z, within, >>=-err (discard_exact ((size + 2) % 2 ^ 64)) _ c' r')
                          (λ h. ne (cc))
                  ]
                ]
              ]))
      ]
]

-- The loop of discard_chunked_body ends on every connection: it never runs out of fuel.
pub discard_chunked_body_ends :
    (from_utf8 : Str → Option Str) (max_body : ℕ) (c : Conn)
    → (discard_chunked_body from_utf8 max_body c).1 ≢ err ChunkedBodyError.out_of_fuel
unfolding discard_chunked_body
discard_chunked_body_ends from_utf8 max_body c =
    chunks_end from_utf8 max_body (suc (length (incoming c))) 0 c (omega arith)
