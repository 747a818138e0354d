-- ===== src/Proxy/Response/Tests.antt =====
-- The length of a response that gives it twice.
use migux.Common.{◌≡◌, refl, false, some}
use migux.Text.{Str, lit, same, lines, starts_with, split_whitespace}
use migux.Headers.{fields}
use migux.Proxy.Response.{
  ResponseInfo, parse_response_headers, response_fields, finish_info, fields_info, status_line_info,
}
use migux.Proxy.Response.Lengths.{Agreed, parse_response_headers-Agreed}

abbrev response : Str
response = lit "HTTP/1.1 200 OK\r\nContent-Length: 5\r\nContent-Length: 5,5\r\n"

abbrev info : ResponseInfo
info = record {
  content_length = some 5;
  connection_close = false;
  connection_keep_alive = false;
  is_http10 = false;
  is_chunked = false;
  status_code = some 200;
}

response-parse : parse_response_headers response ≡ some info
unfolding parse_response_headers finish_info fields_info status_line_info lines fields same
    split_whitespace starts_with
response-parse = refl

parse_response_headers-Agreed_example : Agreed (some 5) (response_fields response)
parse_response_headers-Agreed_example = parse_response_headers-Agreed response info response-parse
