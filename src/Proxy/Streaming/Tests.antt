-- ===== src/Proxy/Streaming/Tests.antt =====
-- Responses that are relayed, and the theorems of Proxy.Streaming at them.
use migux.Common.{
  ◌+◌, ◌≤◌, ◌<◌, ◌≡◌, refl, ◌⊎◌, inr, true, false, [], ◌∷◌, ◌++◌, none, some, length, take, drop,
  arith,
}
use migux.Text.{Str, lit, lines, same}
use migux.Headers.{fields}
use migux.Stream.{arrives, times_out, done, err, blank_line, find_window}
use migux.Stream.Incoming.{incoming, ending}
use migux.Proxy.Relay.{Relay, failure_of}
use migux.Proxy.Relay.Lines.{after_write}
use migux.Proxy.Response.{ResponseInfo, parse_response_headers, is_no_body}
use migux.Proxy.Hsts.{maybe_inject_hsts}
use migux.Proxy.Streaming.{stream_http_response, stream_content_length, is_reusable, complete}
use migux.Proxy.Streaming.Body.{stream_content_length_lem}
use migux.Proxy.Streaming.Whole.{of_length, stream_http_response_lem}

abbrev ascii : Str → Str
ascii s = s

abbrev head : Str
head = lit "HTTP/1.1 200 OK\r\nContent-Length: 2"

abbrev info : ResponseInfo
info = record {
  content_length = some 2;
  connection_close = false;
  connection_keep_alive = false;
  is_http10 = false;
  is_chunked = false;
  status_code = some 200;
}

-- A response in two reads, and the start of the next one.
abbrev relay : Relay
relay = record {
  source = record {
    buf = lit "HTTP/1.1 200 OK\r\nCont";
    events = arrives b'e' (lit "nt-Length: 2\r\n\r\nhiHTTP") ∷ times_out ∷ [];
  };
  target = record { sent = []; room = 200 };
}

ends : find_window blank_line (incoming relay.source) ≡ some (length head)
unfolding find_window
ends = refl

parsed : parse_response_headers (ascii head) ≡ some info
unfolding parse_response_headers fields lines same
parsed = refl

has_body : is_no_body (lit "GET") info.status_code ≡ false
unfolding is_no_body
has_body = refl

fits : length (maybe_inject_hsts ascii (head ++ blank_line) none) + 2 ≤ 200
unfolding maybe_inject_hsts
fits = omega arith

stream_http_response_example :
    ((stream_http_response ascii (lit "GET") 64 8 none relay).1 ≡ done (is_reusable info))
    × (incoming (stream_http_response ascii (lit "GET") 64 8 none relay).0.source ≡ lit "HTTP")
    × ((stream_http_response ascii (lit "GET") 64 8 none relay).0.target
        ≡ after_write relay.target (maybe_inject_hsts ascii (head ++ blank_line) none ++ lit "hi"))
stream_http_response_example =
    stream_http_response_lem ascii (lit "GET") 64 8 none relay head (lit "HTTP") info ends refl
      (inr (omega arith)) parsed (of_length (lit "hi") has_body refl refl (inr (omega arith))) fits

stream_content_length_example :
    ((9 ≤ length (incoming relay.source))
      × ((stream_content_length 9 relay).1 ≡ done true)
      × (incoming (stream_content_length 9 relay).0.source ≡ drop 9 (incoming relay.source))
      × ((stream_content_length 9 relay).0.target
          ≡ after_write relay.target (take 9 (incoming relay.source))))
    ⊎ ((length (incoming relay.source) < 9)
        × ((stream_content_length 9 relay).1
            ≡ complete (err (failure_of (ending relay.source.events))))
        × ((stream_content_length 9 relay).0.target
            ≡ after_write relay.target (incoming relay.source)))
stream_content_length_example = stream_content_length_lem 9 relay (omega arith)
