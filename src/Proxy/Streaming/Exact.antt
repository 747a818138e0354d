-- ===== src/Proxy/Streaming/Exact.antt =====
-- The loop of `read_exact_from_buf` and `stream_content_length` relays the bytes that it is asked for,
-- and no others.
use migux.Common.{
  ℕ, ◌-◌, ◌≤◌, ◌<◌, min, ◌≡◌, refl, sym, ap, ◌∙◌, inl, inr, List, [], ◌∷◌, ◌++◌, length, take, drop,
  length-append, arith, Bool-cases, leb,
}
use mathlib.Core.List.{append-nil}
use migux.Text.{Str}
use migux.Stream.{Event, arrives, times_out, fails, Sink, done, err, read_more, bytes_or}
use migux.Stream.Window.{
  take-append, drop-append, take-append_past, drop-append_past, take_all, drop_past, take_prefix,
  drop_prefix, length-take-le,
}
use migux.Stream.Incoming.{arriving, incoming, ending}
use migux.Proxy.Relay.{failure_of}
use migux.Proxy.Relay.Lines.{after_write, after_write-append, write_all_lem, RelaysExactly}
use migux.Proxy.Streaming.{exact_loop, read_exact_from_buf}

min-le : (n m : ℕ) → n ≤ m → min n m ≡ n
min-le n m h = omega arith

min-ge : (n m : ℕ) → m ≤ n → min n m ≡ m
min-ge n m h = omega arith

-- The buffer holds what is asked for.
loop_buffered :
    (events : List Event) (buf : Str) (n : ℕ) (sink : Sink)
    → n ≤ length buf
    → n ≤ sink.room
    → exact_loop events buf n sink ≡ (
      record {
        source = record { buf = drop n buf; events = events };
        target = after_write sink (take n buf);
      },
      done tt,
    )
unfolding exact_loop
loop_buffered [] buf n sink h room =
    let wrote = write_all_lem (take n buf) sink (omega (arith, length-take-le n buf)) in
    ground (arith, min-le n (length buf) h, wrote)
loop_buffered (event ∷ events) buf n sink h room =
    let wrote = write_all_lem (take n buf) sink (omega (arith, length-take-le n buf)) in
    ground (arith, min-le n (length buf) h, wrote)

-- The buffer is written, and a read brings more.
loop_arrives :
    (b : ℕ) (bs : Str) (events : List Event) (buf : Str) (n : ℕ) (sink : Sink)
    → length buf < n
    → length buf ≤ sink.room
    → exact_loop (arrives b bs ∷ events) buf n sink
      ≡ exact_loop events (b ∷ bs) (n - length buf) (after_write sink buf)
unfolding exact_loop read_more bytes_or
loop_arrives b bs events buf n sink h room =
    let all = take_all (length buf) buf (omega arith) in
    let none = drop_past (length buf) buf (omega arith) in
    let wrote = write_all_lem buf sink room in
    ground (arith, min-ge n (length buf) (omega arith), all, none, wrote)

-- `n` bytes of what comes in are written, and what follows them is left.
unfoldable pub Sent : List Event → Str → ℕ → Sink → Type 0
Sent events buf n sink =
    let p = exact_loop events buf n sink in
    (p.1 ≡ done tt)
    × (incoming p.0.source ≡ drop n (buf ++ arriving events))
    × (p.0.target ≡ after_write sink (take n (buf ++ arriving events)))

Sent-buffered :
    (events : List Event) (buf : Str) (n : ℕ) (sink : Sink)
    → n ≤ length buf
    → n ≤ sink.room
    → Sent events buf n sink
unfolding Sent
Sent-buffered events buf n sink h room = rw (loop_buffered events buf n sink h room) (
  refl,
  sym (drop-append n buf (arriving events) h),
  ap (after_write sink) (sym (take-append n buf (arriving events) h)),
)

pub Sent_lem :
    (events : List Event) (buf : Str) (n : ℕ) (sink : Sink)
    → n ≤ length (buf ++ arriving events)
    → n ≤ sink.room
    → Sent events buf n sink
unfolding Sent
Sent_lem [] buf n sink h room =
    Sent-buffered [] buf n sink (omega (arith, ap length (append-nil buf))) room
Sent_lem (times_out ∷ events) buf n sink h room =
    Sent-buffered (times_out ∷ events) buf n sink (omega (arith, ap length (append-nil buf))) room
Sent_lem (fails ∷ events) buf n sink h room =
    Sent-buffered (fails ∷ events) buf n sink (omega (arith, ap length (append-nil buf))) room
Sent_lem (arrives b bs ∷ events) buf n sink h room =
    let more = (b ∷ bs) ++ arriving events in
    elim (Bool-cases (leb n (length buf))) [
      | inl e ↦ Sent-buffered (arrives b bs ∷ events) buf n sink (ground arith) room
      | inr e ↦
          let past : length buf < n = ground arith in
          let (r, i, s) =
            Sent_lem events (b ∷ bs) (n - length buf) (after_write sink buf)
              (omega (arith, length-append buf more)) (omega arith) in
          rw (loop_arrives b bs events buf n sink past (omega arith)) (
            r,
            i ∙ sym (drop-append_past n buf more (omega arith)),
            s
                ∙ after_write-append sink buf (take (n - length buf) more)
                ∙ ap (after_write sink) (sym (take-append_past n buf more (omega arith))),
          )
    ]

pub read_exact-RelaysExactly : RelaysExactly read_exact_from_buf
unfolding Sent read_exact_from_buf
read_exact-RelaysExactly r n s t h room e =
    let (q, i, w) =
      Sent_lem r.source.events r.source.buf n r.target
        (omega (arith, ap length e, length-append s t)) room in
    let cut = ap (drop n) e ∙ ap (λ k. drop k (s ++ t)) (sym h) ∙ drop_prefix s t in
    let kept = ap (take n) e ∙ ap (λ k. take k (s ++ t)) (sym h) ∙ take_prefix s t in
    (q, i ∙ cut, w ∙ ap (after_write r.target) kept)

-- Fewer bytes come in: all of them are written.
unfoldable pub Short : List Event → Str → ℕ → Sink → Type 0
Short events buf n sink =
    let p = exact_loop events buf n sink in
    (p.1 ≡ err (failure_of (ending events)))
    × (p.0.target ≡ after_write sink (buf ++ arriving events))

loop_ends :
    (events : List Event) (buf : Str) (n : ℕ) (sink : Sink)
    → arriving events ≡ []
    → length buf < n
    → length buf ≤ sink.room
    → Short events buf n sink
unfolding Short exact_loop read_more bytes_or
loop_ends [] buf n sink a h room =
    let all = take_all (length buf) buf (omega arith) in
    let wrote = write_all_lem buf sink room in
    ground (arith, min-ge n (length buf) (omega arith), all, wrote, append-nil buf)
loop_ends (arrives b bs ∷ events) buf n sink a h room = absurd (cc)
loop_ends (times_out ∷ events) buf n sink a h room =
    let all = take_all (length buf) buf (omega arith) in
    let wrote = write_all_lem buf sink room in
    ground (arith, min-ge n (length buf) (omega arith), all, wrote, append-nil buf)
loop_ends (fails ∷ events) buf n sink a h room =
    let all = take_all (length buf) buf (omega arith) in
    let wrote = write_all_lem buf sink room in
    ground (arith, min-ge n (length buf) (omega arith), all, wrote, append-nil buf)

pub Short_lem :
    (events : List Event) (buf : Str) (n : ℕ) (sink : Sink)
    → length (buf ++ arriving events) < n
    → length (buf ++ arriving events) ≤ sink.room
    → Short events buf n sink
unfolding Short
Short_lem [] buf n sink h room =
    let size = ap length (append-nil buf) in
    loop_ends [] buf n sink refl (omega (arith, size)) (omega (arith, size))
Short_lem (times_out ∷ events) buf n sink h room =
    let size = ap length (append-nil buf) in
    loop_ends (times_out ∷ events) buf n sink refl (omega (arith, size)) (omega (arith, size))
Short_lem (fails ∷ events) buf n sink h room =
    let size = ap length (append-nil buf) in
    loop_ends (fails ∷ events) buf n sink refl (omega (arith, size)) (omega (arith, size))
Short_lem (arrives b bs ∷ events) buf n sink h room =
    let more = (b ∷ bs) ++ arriving events in
    let sizes = length-append buf more in
    let (r, s) =
      Short_lem events (b ∷ bs) (n - length buf) (after_write sink buf) (omega (arith, sizes))
        (omega (arith, sizes)) in
    rw (loop_arrives b bs events buf n sink (omega (arith, sizes)) (omega (arith, sizes)))
      (r, s ∙ after_write-append sink buf more)
