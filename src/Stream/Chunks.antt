-- ===== src/Stream/Chunks.antt =====
-- The grammar of a body in chunks (RFC 9112, section 7.1), for any reading `size` of a chunk's first
-- line. It is what the three loops over chunks are compared with.
use migux.Common.{ℕ, ◌+◌, ◌<◌, ◌≡◌, false, ◌∷◌, ◌++◌, Option, some, length}
use migux.Text.{Str, contains_char}
use migux.Stream.{crlf}

-- Lines that are not empty, up to an empty one.
pub data Trailers : Str → Type 0 where
  no_more : Trailers crlf
  field :
      (b : ℕ) (line rest : Str)
      → contains_char 13 (b ∷ line) ≡ false
      → Trailers rest
      → Trailers ((b ∷ line) ++ crlf ++ rest)

-- The chunks of a body: the number of bytes of data, and all the bytes of the body. The two bytes
-- after the data of a chunk are any.
pub data Chunks (size : Str → Option ℕ) : ℕ → Str → Type 0 where
  last :
      (line trailers : Str)
      → contains_char 13 line ≡ false
      → size (line ++ crlf) ≡ some 0
      → Trailers trailers
      → Chunks size 0 (line ++ crlf ++ trailers)
  chunk :
      (n m : ℕ) (line content rest : Str)
      → contains_char 13 line ≡ false
      → size (line ++ crlf) ≡ some n
      → 0 < n
      → length content ≡ n + 2
      → Chunks size m rest
      → Chunks size (n + m) (line ++ crlf ++ (content ++ rest))
