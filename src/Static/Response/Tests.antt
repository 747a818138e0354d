-- ===== src/Static/Response/Tests.antt =====
-- A response of the static service, and the theorem of Static.Response at its head.
use migux.Common.{◌≡◌, refl, true, [], ◌∷◌, some, length}
use migux.Text.{lit}
use migux.Decimal.{decimal}
use migux.Static.Response.{ResponseHead, header_len_hint, to_string, not_found}
use migux.Static.Response.Head.{header_len_hint_lem}

abbrev page : ResponseHead
page = record {
  status = lit "200 OK";
  content_type = some (lit "text/html");
  content_length = 1234;
  keep_alive = true;
  extra_headers = (lit "ETag", lit "W/\"1\"") ∷ [];
}

header_len_hint_example : header_len_hint page ≡ length (to_string page)
header_len_hint_example = header_len_hint_lem page

rendered :
    to_string page
    ≡ lit
        "HTTP/1.1 200 OK\r\nContent-Length: 1234\r\nContent-Type: text/html\r\nETag: W/\"1\"\r\nConnection: keep-alive\r\n\r\n"
unfolding to_string decimal
rendered = refl

not_found_text :
    not_found true
    ≡ lit
        "HTTP/1.1 404 Not Found\r\nContent-Length: 13\r\nContent-Type: text/plain; charset=utf-8\r\nConnection: keep-alive\r\n\r\n404 Not Found"
unfolding not_found decimal
not_found_text = refl
