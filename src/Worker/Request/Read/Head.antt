-- ===== src/Worker/Request/Read/Head.antt =====
-- The loop that reads the head of a request, on the bytes that come in.
use mathlib.Core.List.{append_assoc}
use migux.Common.{
  ℕ, ◌≡◌, ◌≢◌, refl, sym, ap, ◌∙◌, inl, inr, false, List, [], ◌∷◌, ◌++◌, none, some, arith,
  Bool-cases, Option-cases,
}
use migux.Text.{Str}
use migux.Stream.{
  Event, arrives, times_out, fails, Conn, Client, done, find_window, blank_line, read_more,
}
use migux.Stream.Incoming.{arriving, incoming}
use migux.Worker.Request.Read.{found, head_loop, read_head, find_headers_end, over_limit}

-- The head is found at `p`: it is in the buffer, and is the first that comes in; no byte is taken.
abbrev pub IsHead : Conn → Str → ℕ → Type 0
IsHead c bytes p = (find_window blank_line c.buf ≡ some p) × (incoming c ≡ bytes)

head_buffered :
    (max_headers : ℕ) (events : List Event) (buf : Str) (i : ℕ)
    → find_window blank_line buf ≡ some i
    → head_loop max_headers events buf ≡ (record { buf = buf; events = events }, done (found i))
unfolding head_loop find_headers_end
head_buffered max_headers [] buf i h = ground (arith, h)
head_buffered max_headers (event ∷ events) buf i h = ground (arith, h)

head_waits :
    (max_headers b : ℕ) (bs : Str) (events : List Event) (buf : Str)
    → find_window blank_line buf ≡ none
    → over_limit max_headers buf ≡ false
    → head_loop max_headers (arrives b bs ∷ events) buf
      ≡ head_loop max_headers events (buf ++ (b ∷ bs))
unfolding head_loop find_headers_end read_more
head_waits max_headers b bs events buf h k = ground (arith, h, k)

-- Without a blank line in the buffer, only bytes that arrive in time can bring the head.
not_yet :
    (max_headers : ℕ) (event : Event) (events : List Event) (buf : Str) (p : ℕ)
    → find_window blank_line buf ≡ none
    → (head_loop max_headers (event ∷ events) buf).1 ≡ done (found p)
    → (over_limit max_headers buf ≡ false) × ((b : ℕ) × (bs : Str) × (event ≡ arrives b bs))
unfolding head_loop find_headers_end read_more
not_yet max_headers (arrives b bs) events buf p n h =
    let within : over_limit max_headers buf ≡ false =
      elim (Bool-cases (over_limit max_headers buf)) [
        | inl e ↦ absurd (ground (arith, n, e, h))
        | inr e ↦ e
      ] in
    (within, (b, bs, refl))
not_yet max_headers times_out events buf p n h = ground (arith, n, h)
not_yet max_headers fails events buf p n h = ground (arith, n, h)

closed_lem :
    (max_headers : ℕ) (buf : Str) (p : ℕ)
    → find_window blank_line buf ≡ none
    → (head_loop max_headers [] buf).1 ≢ done (found p)
unfolding head_loop find_headers_end
closed_lem max_headers buf p n h = ground (arith, n, h)

IsHead-buffered :
    (max_headers : ℕ) (events : List Event) (buf : Str) (p i : ℕ)
    → find_window blank_line buf ≡ some i
    → (head_loop max_headers events buf).1 ≡ done (found p)
    → IsHead (head_loop max_headers events buf).0 (buf ++ arriving events) p
IsHead-buffered max_headers events buf p i e h =
    let here = head_buffered max_headers events buf i e in
    let same : i ≡ p = ground (arith, sym (ap (λ r. r.1) here) ∙ h) in
    rw here (e ∙ ap some same, refl)

head_loop-IsHead :
    (max_headers : ℕ) (events : List Event) (buf : Str) (p : ℕ)
    → (head_loop max_headers events buf).1 ≡ done (found p)
    → IsHead (head_loop max_headers events buf).0 (buf ++ arriving events) p
head_loop-IsHead max_headers [] buf p h = elim (Option-cases (find_window blank_line buf)) [
  | inl n ↦ absurd (closed_lem max_headers buf p n h)
  | inr (i, e) ↦ IsHead-buffered max_headers [] buf p i e h
]
head_loop-IsHead max_headers (arrives b bs ∷ events) buf p h =
    elim (Option-cases (find_window blank_line buf)) [
      | inl n ↦
          let (within, _) = not_yet max_headers (arrives b bs) events buf p n h in
          let wait = head_waits max_headers b bs events buf n within in
          let (e, i) =
            head_loop-IsHead max_headers events (buf ++ (b ∷ bs)) p
              (sym (ap (λ r. r.1) wait) ∙ h) in
          rw wait (e, i ∙ append_assoc buf (b ∷ bs) (arriving events))
      | inr (i, e) ↦ IsHead-buffered max_headers (arrives b bs ∷ events) buf p i e h
    ]
head_loop-IsHead max_headers (times_out ∷ events) buf p h =
    elim (Option-cases (find_window blank_line buf)) [
      | inl n ↦ let (_, (b, bs, e)) = not_yet max_headers times_out events buf p n h in cc
      | inr (i, e) ↦ IsHead-buffered max_headers (times_out ∷ events) buf p i e h
    ]
head_loop-IsHead max_headers (fails ∷ events) buf p h =
    elim (Option-cases (find_window blank_line buf)) [
      | inl n ↦ let (_, (b, bs, e)) = not_yet max_headers fails events buf p n h in cc
      | inr (i, e) ↦ IsHead-buffered max_headers (fails ∷ events) buf p i e h
    ]

pub read_head-IsHead :
    (max_headers : ℕ) (c : Client) (p : ℕ)
    → (read_head max_headers c).1 ≡ done (found p)
    → IsHead (read_head max_headers c).0.conn (incoming c.conn) p
      × ((read_head max_headers c).0.sink ≡ c.sink)
unfolding read_head
read_head-IsHead max_headers c p h =
    let (e, i) = head_loop-IsHead max_headers c.conn.events c.conn.buf p h in ((e, i), refl)
