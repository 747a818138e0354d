-- ===== src/Worker/Body/Tests.antt =====
-- Bodies that are discarded, and the theorems of Worker.Body at concrete inputs.
use migux.Common.{
  ◌+◌, ◌≤◌, ◌<◌, ◌≡◌, ◌≢◌, ◌⊎◌, inr, refl, Option, some, [], ◌∷◌, ◌++◌, length, drop, arith,
}
use migux.Text.{Str, lit, contains_char}
use migux.Stream.{arrives, times_out, Conn, done, err, crlf}
use migux.Stream.Incoming.{incoming, ending}
use migux.Stream.Chunks.{Chunks, chunk, last, no_more}
use migux.Worker.Body.{
  ChunkedBodyError, discard_chunked_body, discard_content_length, chunk_size, error_of,
}
use migux.Worker.Body.Refines.{discard_content_length_lem}
use migux.Worker.Body.Chunked.{discard_chunked_body_lem, discard_chunked_body_ends}

abbrev utf8 : Str → Option Str
utf8 s = some s

-- A body in one chunk, cut in the middle of a line end, and the start of the next request.
abbrev chunked_conn : Conn
chunked_conn = record {
  buf = b'5' ∷ b';' ∷ b'a' ∷ 13 ∷ [];
  events =
      arrives 10 (lit "hel")
      ∷ arrives b'l' (b'o' ∷ 13 ∷ 10 ∷ b'0' ∷ 13 ∷ 10 ∷ 13 ∷ 10 ∷ lit "GET")
      ∷ times_out
      ∷ [];
}

abbrev chunked_body : Str
chunked_body = ((lit "5;a" ++ crlf) ++ ((lit "hello" ++ crlf) ++ ((lit "0" ++ crlf) ++ crlf)))

chunked_body-Chunks : Chunks (chunk_size utf8) (5 + 0) chunked_body
unfolding chunk_size contains_char
chunked_body-Chunks =
    chunk 5 0 (lit "5;a") (lit "hello" ++ crlf) ((lit "0" ++ crlf) ++ crlf) refl refl (omega arith)
      (omega arith) (last (lit "0") crlf refl refl no_more)

discard_chunked_body_example :
    ((discard_chunked_body utf8 8 chunked_conn).1 ≡ done tt)
    × (incoming (discard_chunked_body utf8 8 chunked_conn).0 ≡ lit "GET")
discard_chunked_body_example =
    discard_chunked_body_lem utf8 8 chunked_conn (lit "GET") chunked_body-Chunks (inr (omega arith))
      (omega arith) refl

discard_chunked_body_ends_example :
    (discard_chunked_body utf8 8 chunked_conn).1 ≢ err ChunkedBodyError.out_of_fuel
discard_chunked_body_ends_example = discard_chunked_body_ends utf8 8 chunked_conn

discard_content_length_example :
    ((2 ≤ length (incoming chunked_conn))
      × ((discard_content_length 2 chunked_conn).1 ≡ done tt)
      × (incoming (discard_content_length 2 chunked_conn).0 ≡ drop 2 (incoming chunked_conn)))
    ⊎ ((length (incoming chunked_conn) < 2)
        × ((discard_content_length 2 chunked_conn).1 ≡ err (error_of (ending chunked_conn.events))))
discard_content_length_example = discard_content_length_lem 2 chunked_conn

-- A body over the limit is refused at its first chunk.
discard_over_limit : (discard_chunked_body utf8 4 chunked_conn).1 ≡ err ChunkedBodyError.too_large
unfolding discard_chunked_body
discard_over_limit = refl

discard_waits : (discard_content_length 30 chunked_conn).1 ≡ err ChunkedBodyError.timed_out
unfolding discard_content_length
discard_waits = refl
