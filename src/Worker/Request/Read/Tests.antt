-- ===== src/Worker/Request/Read/Tests.antt =====
-- Heads that are read, and the theorem of Worker.Request.Read at a concrete input.
use migux.Common.{ℕ, ◌≡◌, refl, false, [], ◌∷◌, some, take}
use migux.Text.{Str, lit, lines, same, split_whitespace}
use migux.Headers.{fields}
use migux.Config.{HttpConfig, default_http}
use migux.Worker.Request.{
  parse_request_metadata, finish, scan_error, scan, scan_field, is_valid_host, metadata,
}
use migux.Stream.{arrives, Client, done, find_window, blank_line}
use migux.Stream.Incoming.{incoming}
use migux.Worker.Request.Read.{ParsedRequest, read_http_request}
use migux.Worker.Request.Read.Accepted.{IsRequest, read_http_request-IsRequest}

abbrev ascii : Str → Str
ascii s = s

abbrev limits : HttpConfig
limits = record default_http { max_request_headers_bytes = 64; max_request_body_bytes = 8 }

-- A request in two reads.
abbrev two_reads : Client
two_reads = record {
  conn = record {
    buf = [];
    events =
        arrives b'P' (lit "OST /a HTTP/1.1\r\nHost: h\r\nContent-")
        ∷ arrives b'L' (lit "ength: 2\r\n\r\nhi")
        ∷ [];
  };
  sink = record { sent = []; room = 1000 };
}

abbrev read_request : ParsedRequest
read_request = record {
  headers = lit "POST /a HTTP/1.1\r\nHost: h\r\nContent-Length: 2";
  method = lit "POST";
  path = lit "/a";
  http_version = lit "HTTP/1.1";
  content_length = 2;
  is_chunked = false;
  close_after = false;
  body_start = 48;
}

read_two_reads : (read_http_request ascii limits two_reads).1 ≡ done (some read_request)
unfolding read_http_request parse_request_metadata finish scan_error scan fields lines scan_field
    same is_valid_host metadata split_whitespace
read_two_reads = refl

read_http_request-IsRequest_example :
    (p : ℕ) × (find_window blank_line (incoming two_reads.conn) ≡ some p)
    × IsRequest ascii 8 (take p (incoming two_reads.conn)) read_request
    × (incoming (read_http_request ascii limits two_reads).0.conn ≡ incoming two_reads.conn)
    × ((read_http_request ascii limits two_reads).0.sink ≡ two_reads.sink)
read_http_request-IsRequest_example =
    read_http_request-IsRequest ascii limits two_reads read_request read_two_reads
