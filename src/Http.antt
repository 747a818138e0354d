-- ===== src/Http.antt =====
-- crates/migux_http/src/responses.rs: the responses with fixed texts, as they are written to a
-- client. `flush` has no effect on what is written.
use migux.Common.{ℕ, ◌++◌, length}
use migux.Text.{Str, lit}
use migux.Decimal.{decimal}
use migux.Stream.{Client, Failure, Run, ◌>>◌, send}

unfoldable pub response_head : Str → Str → ℕ → Str
unfolding decimal
response_head status content_type len =
    lit "HTTP/1.1 "
    ++ status
    ++ lit "\r\nServer: migux/0.1.0\r\nContent-Type: "
    ++ content_type
    ++ lit "\r\nContent-Length: "
    ++ decimal len
    ++ lit "\r\nConnection: close\r\n\r\n"

unfoldable pub send_response : Str → Str → Str → Run Client Failure (Unit {0})
unfolding response_head send
send_response status content_type body = do
  send (response_head status content_type (length body))
  send body

unfoldable pub send_text_response : Str → Str → Run Client Failure (Unit {0})
unfolding send_response
send_text_response status body = send_response status (lit "text/plain; charset=utf-8") body

unfoldable pub send_404 : Run Client Failure (Unit {0})
unfolding send_text_response
send_404 = send_text_response (lit "404 Not Found") (lit "404 Not Found\n")

unfoldable pub send_501 : Run Client Failure (Unit {0})
unfolding send_text_response
send_501 = send_text_response (lit "501 Not Implemented") (lit "501 Not Implemented (proxy TODO)\n")

unfoldable pub send_500 : Run Client Failure (Unit {0})
unfolding send_text_response
send_500 = send_text_response (lit "500 Internal Server Error") (lit "Internal Server Error\n")

unfoldable pub send_502 : Run Client Failure (Unit {0})
unfolding send_text_response
send_502 = send_text_response (lit "502 Bad Gateway") (lit "502 Bad Gateway\n")

unfoldable pub send_405 : Run Client Failure (Unit {0})
unfolding send_text_response
send_405 = send_text_response (lit "405 Method Not Allowed") (lit "405 Method Not Allowed\n")

unfoldable pub send_405_with_allow : Str → Run Client Failure (Unit {0})
unfolding send
send_405_with_allow allow = send (
    lit "HTTP/1.1 405 Method Not Allowed\r\nServer: migux/0.1.0\r\nAllow: "
    ++ allow
    ++ lit "\r\nContent-Length: 0\r\nConnection: close\r\n\r\n")

unfoldable pub send_400 : Run Client Failure (Unit {0})
unfolding send_text_response
send_400 = send_text_response (lit "400 Bad Request") (lit "400 Bad Request\n")

unfoldable pub send_408 : Run Client Failure (Unit {0})
unfolding send_text_response
send_408 = send_text_response (lit "408 Request Timeout") (lit "408 Request Timeout\n")

unfoldable pub send_413 : Run Client Failure (Unit {0})
unfolding send_text_response
send_413 = send_text_response (lit "413 Payload Too Large") (lit "413 Payload Too Large\n")

unfoldable pub send_431 : Run Client Failure (Unit {0})
unfolding send_text_response
send_431 =
    send_text_response (lit "431 Request Header Fields Too Large")
      (lit "431 Request Header Fields Too Large\n")

unfoldable pub send_redirect : Str → Run Client Failure (Unit {0})
unfolding send
send_redirect location = send (
    lit "HTTP/1.1 301 Moved Permanently\r\nServer: migux/0.1.0\r\nLocation: "
    ++ location
    ++ lit "\r\nContent-Length: 0\r\nConnection: close\r\n\r\n")
