-- ===== src/Proxy/Streaming/Body.antt =====
-- The body of a response, by each of its framings.
use migux.Common.{
  ℕ, suc, ◌+◌, ◌^◌, ◌%◌, ◌≤◌, ◌<◌, ◌≡◌, refl, ap, ◌∙◌, ◌⊎◌, inl, inr, true, List, [], ◌∷◌, ◌++◌,
  length, take, drop, length-append, arith, leb, leb→le, Bool-cases,
}
use migux.Text.{Str}
use migux.Stream.{Event, arrives, times_out, fails, Sink, done, err, closed}
use migux.Stream.Incoming.{arriving, incoming, ending}
use migux.Stream.Chunks.{Chunks}
use migux.Proxy.Relay.{Relay, chunk_size, failure_of, read_line}
use migux.Proxy.Relay.Lines.{after_write, after_write-append, write_all_lem, read_line-ReadsLines}
use migux.Proxy.Relay.Chunked.{Relayed, relay_chunks_lem}
use migux.Proxy.Streaming.{
  stream_content_length, complete, stream_until_eof, eof_loop, stream_chunked_body,
  read_exact_from_buf,
}
use migux.Proxy.Streaming.Exact.{Sent, Sent_lem, Short, Short_lem, read_exact-RelaysExactly}

-- A body in chunks comes in, within the limit and small enough for a `usize`, and `rest` after it,
-- and the client takes it: it is written to the client byte for byte, and `rest` is what is left.
pub stream_chunked_body_lem :
    (decode : Str → Str) (max_body : ℕ) (r : Relay) (rest : Str) {m : ℕ} {body : Str}
    → Chunks (chunk_size decode) m body
    → (max_body ≡ 0) ⊎ (m ≤ max_body)
    → m + 2 < 2 ^ 64
    → length body ≤ r.target.room
    → incoming r.source ≡ body ++ rest
    → Relayed r body rest (stream_chunked_body decode max_body r)
unfolding stream_chunked_body
stream_chunked_body_lem decode max_body r rest {m} {body} chunks limit small room e =
    relay_chunks_lem read_line read_exact_from_buf read_line-ReadsLines read_exact-RelaysExactly
      decode max_body (suc (length (incoming r.source))) 0 r rest chunks
      (omega (arith, ap length e, length-append body rest)) (ground arith) (omega arith) room e

eof_step :
    (b : ℕ) (bs : Str) (events : List Event) (body_bytes : ℕ) (sink : Sink)
    → length (b ∷ bs) ≤ sink.room
    → eof_loop 0 (arrives b bs ∷ events) body_bytes sink
      ≡ eof_loop 0 events ((body_bytes + suc (length bs)) % 2 ^ 64) (after_write sink (b ∷ bs))
unfolding eof_loop
eof_step b bs events body_bytes sink h = ground (arith, write_all_lem (b ∷ bs) sink h)

eof_loop_lem :
    (events : List Event) (body_bytes : ℕ) (sink : Sink)
    → ending events ≡ closed
    → length (arriving events) ≤ sink.room
    → ((eof_loop 0 events body_bytes sink).1 ≡ done tt)
      × ((eof_loop 0 events body_bytes sink).0.target ≡ after_write sink (arriving events))
unfolding eof_loop
eof_loop_lem [] body_bytes sink e room = (refl, ap (λ p. p.0) (write_all_lem [] sink (omega arith)))
eof_loop_lem (times_out ∷ events) body_bytes sink e room = absurd (cc)
eof_loop_lem (fails ∷ events) body_bytes sink e room = absurd (cc)
eof_loop_lem (arrives b bs ∷ events) body_bytes sink e room =
    let sizes = length-append (b ∷ bs) (arriving events) in
    let total = (body_bytes + suc (length bs)) % 2 ^ 64 in
    let (r, s) = eof_loop_lem events total (after_write sink (b ∷ bs)) e (omega (arith, sizes)) in
    rw (eof_step b bs events body_bytes sink (omega (arith, sizes)))
      (r, s ∙ after_write-append sink (b ∷ bs) (arriving events))

buffer_first :
    (r : Relay)
    → length r.source.buf ≤ r.target.room
    → stream_until_eof 0 r
      ≡ eof_loop 0 r.source.events (length r.source.buf) (after_write r.target r.source.buf)
unfolding stream_until_eof
buffer_first r h = ground (arith, write_all_lem r.source.buf r.target h)

-- Without a limit and a length, all that comes in until the upstream closes is written to the client.
pub stream_until_eof_lem :
    (r : Relay)
    → ending r.source.events ≡ closed
    → length (incoming r.source) ≤ r.target.room
    → ((stream_until_eof 0 r).1 ≡ done tt)
      × ((stream_until_eof 0 r).0.target ≡ after_write r.target (incoming r.source))
stream_until_eof_lem r e room =
    let buf = r.source.buf in
    let more = arriving r.source.events in
    let sizes = length-append buf more in
    let (d, s) =
      eof_loop_lem r.source.events (length buf) (after_write r.target buf) e
        (omega (arith, sizes)) in
    rw (buffer_first r (omega (arith, sizes))) (d, s ∙ after_write-append r.target buf more)

-- A body with a length, for a client that takes it: where it comes in whole, it is written to the
-- client, and what follows it is left; where it does not, what comes in is written, and the end of
-- the bytes decides: `false`, where the upstream has closed, and else an error.
pub stream_content_length_lem :
    (n : ℕ) (r : Relay)
    → n ≤ r.target.room
    → ((n ≤ length (incoming r.source))
        × ((stream_content_length n r).1 ≡ done true)
        × (incoming (stream_content_length n r).0.source ≡ drop n (incoming r.source))
        × ((stream_content_length n r).0.target
            ≡ after_write r.target (take n (incoming r.source))))
      ⊎ ((length (incoming r.source) < n)
          × ((stream_content_length n r).1 ≡ complete (err (failure_of (ending r.source.events))))
          × ((stream_content_length n r).0.target ≡ after_write r.target (incoming r.source)))
unfolding stream_content_length Sent Short
stream_content_length_lem n r room = elim (Bool-cases (leb n (length (incoming r.source)))) [
  | inl e ↦
      let h = leb→le n (length (incoming r.source)) e in
      let (d, i, s) = Sent_lem r.source.events r.source.buf n r.target h room in
      inl (h, ap complete d, i, s)
  | inr e ↦
      let h : length (incoming r.source) < n = ground arith in
      let (d, s) = Short_lem r.source.events r.source.buf n r.target h (omega arith) in
      inr (h, ap complete d, s)
]
