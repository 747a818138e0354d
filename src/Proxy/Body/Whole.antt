-- ===== src/Proxy/Body/Whole.antt =====
-- The whole body of a request, as it reaches the upstream.
use migux.Common.{
  ℕ, ◌+◌, ◌^◌, ◌≤◌, ◌<◌, ◌≡◌, refl, ap, ◌⊎◌, Bool, true, false, ◌&&◌, [], ◌++◌, length,
  length-append, arith, ltb, ◌==◌, suc,
}
use migux.Text.{Str}
use migux.Stream.Incoming.{incoming}
use migux.Stream.Chunks.{Chunks}
use migux.Proxy.Relay.{Relay, chunk_size, read_line}
use migux.Proxy.Relay.Lines.{after_write_nil, read_line-ReadsLines}
use migux.Proxy.Relay.Chunked.{Relayed, relay_chunks_lem}
use migux.Proxy.Body.{stream_exact, stream_chunked_body, stream_request_body}
use migux.Proxy.Body.Exact.{stream_exact-RelaysExactly}

-- How the worker tells a request's body from what follows it.
pub data IsBody (decode : Str → Str) (max_body : ℕ) : Bool → ℕ → Str → Type 0 where
  in_chunks :
      (m : ℕ) (body : Str)
      → Chunks (chunk_size decode) m body
      → (max_body ≡ 0) ⊎ (m ≤ max_body)
      → m + 2 < 2 ^ 64
      → IsBody decode max_body true 0 body
  of_length :
      (is_chunked : Bool) (body : Str)
      → 0 < length body
      → (max_body ≡ 0) ⊎ (length body ≤ max_body)
      → IsBody decode max_body is_chunked (length body) body
  no_body : IsBody decode max_body false 0 []

chunked_lem :
    (decode : Str → Str) (max_body m : ℕ) (r : Relay) (rest body : Str)
    → Chunks (chunk_size decode) m body
    → (max_body ≡ 0) ⊎ (m ≤ max_body)
    → m + 2 < 2 ^ 64
    → length body ≤ r.target.room
    → incoming r.source ≡ body ++ rest
    → Relayed r body rest (stream_chunked_body decode max_body r)
unfolding stream_chunked_body
chunked_lem decode max_body m r rest body chunks limit small room e =
    relay_chunks_lem read_line stream_exact read_line-ReadsLines stream_exact-RelaysExactly decode
      max_body (suc (length (incoming r.source))) 0 r rest chunks
      (omega (arith, ap length e, length-append body rest)) (ground arith) (omega arith) room e

in_limit :
    (max_body n : ℕ) → (max_body ≡ 0) ⊎ (n ≤ max_body) → (ltb 0 max_body && ltb max_body n) ≡ false
in_limit max_body n h = ground arith

not_empty :
    (is_chunked : Bool) (n : ℕ) → 0 < n → ((is_chunked && n == 0) ≡ false) × ((n == 0) ≡ false)
not_empty is_chunked n h = ground arith

-- The body of a request comes in, in chunks or of the length that the worker found, within the limit,
-- and `rest` after it, cut into reads in any way, and the upstream takes it: the upstream gets the body
-- byte for byte, and `rest`, the next request, is what the client's connection still holds.
pub stream_request_body_lem :
    (decode : Str → Str) (max_body : ℕ) (r : Relay) (rest : Str) {is_chunked : Bool}
    {content_length : ℕ} {body : Str}
    → IsBody decode max_body is_chunked content_length body
    → length body ≤ r.target.room
    → incoming r.source ≡ body ++ rest
    → Relayed r body rest (stream_request_body decode is_chunked content_length max_body r)
unfolding stream_request_body
stream_request_body_lem decode max_body r rest (in_chunks m body chunks limit small) room e =
    chunked_lem decode max_body m r rest body chunks limit small room e
stream_request_body_lem decode max_body r rest (of_length is_chunked body pos limit) room e =
    let (a, b) = not_empty is_chunked (length body) pos in
    rw (a, b, in_limit max_body (length body) limit)
      (stream_exact-RelaysExactly r (length body) body rest refl room e)
stream_request_body_lem decode max_body r rest no_body room e = (refl, e, after_write_nil r.target)
