-- ===== src/Worker/Request/Read.antt =====
-- `read_http_request` of crates/migux_core/src/worker/request.rs: the head of the next request, read
-- from the client. The two timeouts of the code are events of the socket. `decode` stands for
-- `String::from_utf8_lossy`.
pub mod Head
pub mod Accepted
mod Tests
use migux.Common.{
  ℕ, zero, suc, ◌+◌, Bool, true, false, not, ◌&&◌, List, [], ◌∷◌, ◌++◌, Option, none, some, ltb,
  if◌then◌else◌, length, take,
}
use migux.Text.{Str, is_empty}
use migux.Stream.{
  Event, arrives, times_out, fails, Conn, Client, Failure, Result, done, err, Run, pure, fail,
  ◌>>=◌, ◌>>◌, find_window, blank_line, ReadOutcome, read, timeout, read_more,
}
use migux.Http.{send_400, send_408, send_413, send_431}
use migux.Config.{HttpConfig}
use migux.Worker.Request.{RequestMetadata, Parsed, ok, parse_request_metadata}

pub record ParsedRequest : Type 0 where
  pub headers : Str
  pub method : Str
  pub path : Str
  pub http_version : Str
  pub content_length : ℕ
  pub is_chunked : Bool
  pub close_after : Bool
  pub body_start : ℕ

-- How the first loop ends: with the position of the blank line, or without a request.
pub data HeadOutcome : Type 0 where
  found : ℕ → HeadOutcome
  headers_too_large : HeadOutcome
  idle : HeadOutcome
  request_timeout : HeadOutcome
  peer_closed : HeadOutcome

unfoldable pub find_headers_end : Str → Option ℕ
unfolding find_window
find_headers_end buf = find_window blank_line buf

over_limit : ℕ → Str → Bool
over_limit max_headers buf = ltb 0 max_headers && ltb max_headers (length buf)

head_loop : ℕ → List Event → Str → Conn × Result Failure HeadOutcome
unfolding find_headers_end read_more over_limit
head_loop max_headers [] buf = elim (find_headers_end buf) [
  | some pos ↦ (record { buf = buf; events = [] }, done (found pos))
  | none ↦ (
    record { buf = buf; events = [] },
    done (if over_limit max_headers buf then headers_too_large else peer_closed),
  )
]
head_loop max_headers (event ∷ events) buf = elim (find_headers_end buf) [
  | some pos ↦ (record { buf = buf; events = event ∷ events }, done (found pos))
  | none ↦
      let waited : Conn = record { buf = buf; events = events } in
      if over_limit max_headers buf
      then (record { buf = buf; events = event ∷ events }, done headers_too_large)
      else elim (read_more (some event) buf) [
        | none ↦ (waited, err Failure.io)
        | some (timeout, buf') ↦ (waited, done (if is_empty buf then idle else request_timeout))
        | some (read zero, buf') ↦ (waited, done peer_closed)
        | some (read (suc n), buf') ↦ head_loop max_headers events buf'
      ]
]

pub read_head : ℕ → Run Client Failure HeadOutcome
unfolding head_loop
read_head max_headers c =
    let (conn, r) = head_loop max_headers c.conn.events c.conn.buf in (record c { conn = conn }, r)

-- The length is of no use beside chunks.
abbrev pub used_length : RequestMetadata → ℕ
used_length meta = if meta.is_chunked then 0 else meta.content_length

abbrev pub request_of : Str → ℕ → RequestMetadata → ParsedRequest
request_of headers headers_end meta = record {
  headers = headers;
  method = meta.method;
  path = meta.path;
  http_version = meta.http_version;
  content_length = used_length meta;
  is_chunked = meta.is_chunked;
  close_after = meta.close_after;
  body_start = headers_end + 4;
}

-- The last steps: a length is held against the limit.
accept : ℕ → Str → ℕ → RequestMetadata → Run Client Failure (Option ParsedRequest)
accept max_body headers headers_end meta =
    if not meta.is_chunked && ltb 0 max_body && ltb max_body (used_length meta)
    then send_413 >> pure none
    else pure (some (request_of headers headers_end meta))

parse_head : (Str → Str) → ℕ → ℕ → Run Client Failure (Option ParsedRequest)
unfolding accept
parse_head decode max_body pos c =
    let headers = decode (take pos c.conn.buf) in
    elim (parse_request_metadata headers) [
      | ok meta ↦ accept max_body headers pos meta c
      | Parsed.err e ↦ (send_400 >> pure none) c
    ]

-- What the loop's outcome leads to.
after_head : (Str → Str) → ℕ → HeadOutcome → Run Client Failure (Option ParsedRequest)
unfolding parse_head
after_head decode max_body (found pos) = parse_head decode max_body pos
after_head decode max_body headers_too_large = send_431 >> pure none
after_head decode max_body idle = pure none
after_head decode max_body request_timeout = send_408 >> pure none
after_head decode max_body peer_closed = pure none

pub read_http_request : (Str → Str) → HttpConfig → Run Client Failure (Option ParsedRequest)
unfolding read_head after_head
read_http_request decode http = do
  outcome ← read_head http.max_request_headers_bytes
  after_head decode http.max_request_body_bytes outcome
