-- ===== src/Proxy/Body/Exact.antt =====
-- `stream_exact` relays the bytes that it is asked for, and no others.
use migux.Common.{
  ℕ, zero, suc, ◌-◌, ◌≤◌, ◌<◌, min, ◌≡◌, refl, sym, ap, ap₂, ◌∙◌, inl, inr, false, List, [], ◌∷◌,
  ◌++◌, length, take, drop, length-append, arith, Bool-cases, leb, ◌==◌,
}
use migux.Text.{Str}
use migux.Stream.{Event, arrives, times_out, fails, Sink, write_all, done}
use migux.Stream.Window.{
  take-append, drop-append, take-append_past, drop-append_past, take_all, drop_past, take_prefix,
  drop_prefix, length-take-le,
}
use migux.Stream.Incoming.{arriving, incoming}
use migux.Proxy.Relay.{Relay}
use migux.Proxy.Relay.Lines.{after_write, after_write-append, write_all_lem, RelaysExactly}
use migux.Proxy.Body.{socket_loop, stream_exact}

socket_zero :
    (events : List Event) (buf : Str) (sink : Sink)
    → socket_loop events buf 0 sink
      ≡ (record { source = record { buf = buf; events = events }; target = sink }, done tt)
unfolding socket_loop
socket_zero [] buf sink = refl
socket_zero (arrives b bs ∷ events) buf sink = refl
socket_zero (times_out ∷ events) buf sink = refl
socket_zero (fails ∷ events) buf sink = refl

-- One read, of which all that is asked for is written.
socket_step :
    (b : ℕ) (bs : Str) (events : List Event) (buf : Str) (n : ℕ) (sink : Sink)
    → 0 < n
    → n ≤ sink.room
    → socket_loop (arrives b bs ∷ events) buf n sink
      ≡ socket_loop events
          (buf ++ drop n (b ∷ bs))
          (n - suc (length bs))
          (after_write sink (take n (b ∷ bs)))
unfolding socket_loop
socket_step b bs events buf n sink h room =
    let few = length-take-le n (b ∷ bs) in
    let wrote = write_all_lem (take n (b ∷ bs)) sink (omega (arith, few)) in
    let positive : (n == 0) ≡ false = ground arith in ground (arith, positive, wrote)

-- `n` bytes of what arrives are written, and what follows them is left.
Sent : List Event → ℕ → Sink → Type 0
Sent events n sink =
    let p = socket_loop events [] n sink in
    (p.1 ≡ done tt)
    × (incoming p.0.source ≡ drop n (arriving events))
    × (p.0.target ≡ after_write sink (take n (arriving events)))

Sent-zero : (events : List Event) (sink : Sink) → Sent events 0 sink
unfolding Sent write_all
Sent-zero events sink = rw (socket_zero events [] sink) (refl, refl, write_nil)
  where
    write_nil : sink ≡ after_write sink []
    write_nil = ap (λ p. p.0) (write_all_lem [] sink (omega arith))

Sent_lem :
    (events : List Event) (n : ℕ) (sink : Sink)
    → n ≤ length (arriving events)
    → n ≤ sink.room
    → Sent events n sink
unfolding Sent
Sent_lem events zero sink h room = Sent-zero events sink
Sent_lem [] (suc n) sink h room = absurd (omega arith)
Sent_lem (times_out ∷ events) (suc n) sink h room = absurd (omega arith)
Sent_lem (fails ∷ events) (suc n) sink h room = absurd (omega arith)
Sent_lem (arrives b bs ∷ events) (suc n) sink h room =
    let bytes = b ∷ bs in
    let step = socket_step b bs events [] (suc n) sink (omega arith) room in
    let few = length-take-le (suc n) bytes in
    elim (Bool-cases (leb (suc n) (length bytes))) [
      | inl e ↦
          let k : suc n - length bytes ≡ 0 = ground arith in
          let within : suc n ≤ length bytes = ground arith in
          rw
            (
              step,
              k,
              socket_zero events (drop (suc n) bytes) (after_write sink (take (suc n) bytes)),
            )
            (
              refl,
              sym (drop-append (suc n) bytes (arriving events) within),
              ap (after_write sink) (sym (take-append (suc n) bytes (arriving events) within)),
            )
      | inr e ↦
          let past : length bytes ≤ suc n = ground arith in
          let (r, i, s) =
            Sent_lem events (suc n - length bytes) (after_write sink bytes)
              (omega (arith, length-append bytes (arriving events))) (omega arith) in
          let step' =
            step
            ∙ ap₂ (λ d w. socket_loop events d (suc n - length bytes) (after_write sink w))
                (drop_past (suc n) bytes past) (take_all (suc n) bytes past) in
          rw step' (
            r,
            i ∙ sym (drop-append_past (suc n) bytes (arriving events) past),
            s
                ∙ after_write-append sink bytes (take (suc n - length bytes) (arriving events))
                ∙ ap (after_write sink)
                    (sym (take-append_past (suc n) bytes (arriving events) past)),
          )
    ]

min-le : (n m : ℕ) → n ≤ m → min n m ≡ n
min-le n m h = omega arith

min-ge : (n m : ℕ) → m ≤ n → min n m ≡ m
min-ge n m h = omega arith

-- The bytes of the buffer are written first.
stream_exact_step :
    (r : Relay) (n k : ℕ)
    → min n (length r.source.buf) ≡ k
    → k ≤ r.target.room
    → stream_exact n r
      ≡ socket_loop r.source.events
          (drop k r.source.buf)
          (n - k)
          (after_write r.target (take k r.source.buf))
unfolding stream_exact
stream_exact_step r n k e room =
    let few = length-take-le k r.source.buf in
    let wrote = write_all_lem (take k r.source.buf) r.target (omega (arith, few)) in
    ground (arith, e, wrote)

-- `n` bytes of what comes in are written, and what follows them is left.
Streamed : Relay → ℕ → Type 0
Streamed r n =
    let p = stream_exact n r in
    (p.1 ≡ done tt)
    × (incoming p.0.source ≡ drop n (incoming r.source))
    × (p.0.target ≡ after_write r.target (take n (incoming r.source)))

Streamed_lem :
    (r : Relay) (n : ℕ) → n ≤ length (incoming r.source) → n ≤ r.target.room → Streamed r n
unfolding Streamed Sent
Streamed_lem r n h room =
    let buf = r.source.buf in
    let events = r.source.events in
    elim (Bool-cases (leb n (length buf))) [
      | inl e ↦
          let within : n ≤ length buf = ground arith in
          let none_left : n - n ≡ 0 = omega arith in
          rw
            (
              stream_exact_step r n n (min-le n (length buf) within) room,
              none_left,
              socket_zero events (drop n buf) (after_write r.target (take n buf)),
            )
            (
              refl,
              sym (drop-append n buf (arriving events) within),
              ap (after_write r.target) (sym (take-append n buf (arriving events) within)),
            )
      | inr e ↦
          let past : length buf ≤ n = ground arith in
          let (q, i, s) =
            Sent_lem events (n - length buf) (after_write r.target buf)
              (omega (arith, length-append buf (arriving events))) (omega arith) in
          let step =
            stream_exact_step r n (length buf) (min-ge n (length buf) past) (omega arith)
            ∙ ap₂ (λ d w. socket_loop events d (n - length buf) (after_write r.target w))
                (drop_past (length buf) buf (omega arith))
                (take_all (length buf) buf (omega arith)) in
          rw step (
            q,
            i ∙ sym (drop-append_past n buf (arriving events) past),
            s
                ∙ after_write-append r.target buf (take (n - length buf) (arriving events))
                ∙ ap (after_write r.target) (sym (take-append_past n buf (arriving events) past)),
          )
    ]

pub stream_exact-RelaysExactly : RelaysExactly stream_exact
unfolding Streamed Sent
stream_exact-RelaysExactly r n s t h room e =
    let (q, i, w) = Streamed_lem r n (omega (arith, ap length e, length-append s t)) room in
    let cut = ap (drop n) e ∙ ap (λ k. drop k (s ++ t)) (sym h) ∙ drop_prefix s t in
    let kept = ap (take n) e ∙ ap (λ k. take k (s ++ t)) (sym h) ∙ take_prefix s t in
    (q, i ∙ cut, w ∙ ap (after_write r.target) kept)
