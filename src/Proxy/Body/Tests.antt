-- ===== src/Proxy/Body/Tests.antt =====
-- A request's body that is relayed, and the theorem of Proxy.Body at it.
use migux.Common.{◌+◌, ◌≡◌, refl, inr, true, [], ◌∷◌, ◌++◌, arith}
use migux.Text.{Str, lit, contains_char}
use migux.Stream.{arrives, err, Failure, crlf}
use migux.Stream.Chunks.{Chunks, chunk, last, no_more}
use migux.Proxy.Relay.{Relay, chunk_size}
use migux.Proxy.Relay.Chunked.{Relayed}
use migux.Proxy.Body.{stream_request_body}
use migux.Proxy.Body.Whole.{in_chunks, stream_request_body_lem}

abbrev ascii : Str → Str
ascii s = s

abbrev body : Str
body = (lit "3" ++ crlf) ++ ((lit "abc" ++ crlf) ++ ((lit "0" ++ crlf) ++ crlf))

abbrev relay : Relay
relay = record {
  source = record {
    buf = b'3' ∷ 13 ∷ [];
    events =
        arrives 10 (lit "ab") ∷ arrives b'c' (13 ∷ 10 ∷ b'0' ∷ 13 ∷ 10 ∷ 13 ∷ 10 ∷ lit "GET") ∷ [];
  };
  target = record { sent = lit "head"; room = 100 };
}

body-Chunks : Chunks (chunk_size ascii) (3 + 0) body
unfolding chunk_size contains_char
body-Chunks =
    chunk 3 0 (lit "3") (lit "abc" ++ crlf) ((lit "0" ++ crlf) ++ crlf) refl refl (omega arith)
      (omega arith) (last (lit "0") crlf refl refl no_more)

stream_request_body_example :
    Relayed relay body (lit "GET") (stream_request_body ascii true 0 8 relay)
stream_request_body_example =
    stream_request_body_lem ascii 8 relay (lit "GET")
      (in_chunks 3 body body-Chunks (inr (omega arith)) (omega arith)) (omega arith) refl

-- A body over the limit ends in an error.
over_limit : (stream_request_body ascii true 0 2 relay).1 ≡ err Failure.too_large
unfolding stream_request_body
over_limit = refl
