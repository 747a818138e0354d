-- ===== src/Worker/Request/Tests.antt =====
-- The theorems of the request parser on three requests.
use migux.Common.{◌≡◌, ◌⊎◌, refl, true, false}
use migux.Text.{Str, lit, same, lines, split_whitespace}
use migux.Headers.{fields}
use migux.Worker.Request.{
  ok, RequestMetadata, parse_request_metadata, header_fields, is_valid_host, finish, scan_error,
  scan, scan_field, is_valid_token, metadata,
}
use migux.Worker.Request.Loop.{has_field, Lengths, Hosts}
use migux.Worker.Request.Framing.{request_framing, request-Lengths, request_host}

abbrev chunked_request : Str
chunked_request = lit "POST /a HTTP/1.1\r\nHost: x\r\nTransfer-Encoding: chunked\r\n\r\n"

abbrev chunked_post : RequestMetadata
chunked_post = record {
  method = lit "POST";
  path = lit "/a";
  http_version = lit "HTTP/1.1";
  content_length = 0;
  close_after = false;
  is_chunked = true;
}

chunked_request-parse : parse_request_metadata chunked_request ≡ ok chunked_post
unfolding parse_request_metadata finish scan_error scan fields lines scan_field same is_valid_host
    is_valid_token metadata split_whitespace
chunked_request-parse = refl

request_framing_example :
    (chunked_post.is_chunked ≡ has_field (lit "transfer-encoding") (header_fields chunked_request))
    × ((chunked_post.is_chunked ≡ false)
        ⊎ ((has_field (lit "content-length") (header_fields chunked_request) ≡ false)
            × (chunked_post.content_length ≡ 0)))
request_framing_example = request_framing chunked_request chunked_post chunked_request-parse

abbrev sized_request : Str
sized_request = lit "POST /a HTTP/1.1\r\nHost: x\r\nContent-Length: 12, 12\r\n\r\n"

abbrev sized_post : RequestMetadata
sized_post = record {
  method = lit "POST";
  path = lit "/a";
  http_version = lit "HTTP/1.1";
  content_length = 12;
  close_after = false;
  is_chunked = false;
}

sized_request-parse : parse_request_metadata sized_request ≡ ok sized_post
unfolding parse_request_metadata finish scan_error scan fields lines scan_field same is_valid_host
    metadata split_whitespace
sized_request-parse = refl

request-Lengths_example :
    Lengths 12 (header_fields sized_request)
    × ((has_field (lit "content-length") (header_fields sized_request) ≡ true)
        ⊎ (sized_post.content_length ≡ 0))
request-Lengths_example = request-Lengths sized_request sized_post sized_request-parse

request_host_example :
    ((same (lit "HTTP/1.1") (lit "HTTP/1.1") ≡ false)
      ⊎ (has_field (lit "host") (header_fields sized_request) ≡ true))
    × ((has_field (lit "host") (header_fields sized_request) ≡ false)
        ⊎ ((host : Str) × (is_valid_host host ≡ true) × Hosts host (header_fields sized_request)))
request_host_example = request_host sized_request sized_post sized_request-parse
