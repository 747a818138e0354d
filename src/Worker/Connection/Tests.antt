-- ===== src/Worker/Connection/Tests.antt =====
-- Connections at concrete inputs, and the theorem of Worker.Connection.KeepAlive at a request.
use migux.Common.{◌≡◌, refl, true, false, [], ◌∷◌, some, none, drop, arith}
use migux.Text.{lit, same}
use migux.Stream.{arrives, Client, Sink, Failure, Run, done, err, write_all, written}
use migux.Decimal.{decimal}
use migux.Static.Response.{not_found}
use migux.Stream.Incoming.{incoming}
use migux.Config.{default_http, default_server}
use migux.Worker.Request.Read.{ParsedRequest}
use migux.Worker.Routing.{LocationConfig, static}
use migux.Worker.Connection.{
  Services, ServerRuntime, is_get_or_head, dispatch_matched, is_metrics_path,
}
use migux.Worker.Connection.KeepAlive.{Dispatched, dispatch_matched_lem}

-- A service that writes a rendered page, and fails where it is not taken whole.
abbrev page : LocationConfig → Run Sink Failure (Unit {0})
page l s = let (s', success) = write_all (not_found true) s in written s' success

abbrev services : Services
services = record {
  decode = λ s. s;
  from_utf8 = λ s. some s;
  port_of = λ s. none;
  metrics = record {
    memory_hits = 1;
    memory_misses = 2;
    disk_hits = 3;
    disk_misses = 4;
    disk_evictions = 5;
    disk_evicted_bytes = 6;
    disk_bytes = 7;
    disk_entries = 8;
  };
  serve_static = λ server l req hsts. page l;
  serve_proxy = λ l req hsts c. (c, done tt);
}

abbrev files : LocationConfig
files = record {
  server = lit "main";
  path = lit "/";
  location_type = static;
  root = none;
  index = none;
  upstream = none;
  strip_prefix = none;
  cache = none;
}

abbrev main_server : ServerRuntime
main_server = record { name = lit "main"; config = default_server; locations = files ∷ [] }

abbrev request : ParsedRequest
request = record {
  headers = lit "GET /a HTTP/1.1\r\nHost: h\r\nContent-Length: 2";
  method = lit "GET";
  path = lit "/a";
  http_version = lit "HTTP/1.1";
  content_length = 2;
  is_chunked = false;
  close_after = false;
  body_start = 47;
}

-- A request whose body comes in two reads, and the next request; its head has been read.
abbrev head_read : Client
head_read = record {
  conn = record {
    buf = lit "GET /a HTTP/1.1\r\nHost: h\r\nContent-Length: 2\r\n\r\nh";
    events = arrives b'i' (lit "GET /b HTTP/1.1\r\nHost: h\r\n\r\n") ∷ [];
  };
  sink = record { sent = []; room = 1000 };
}

dispatch_matched_example :
    Dispatched 2 true
      (drop 47 (incoming head_read.conn))
      (page files (record { sent = []; room = 1000 }))
      (dispatch_matched services default_http main_server files request false head_read)
unfolding is_get_or_head same
dispatch_matched_example =
    dispatch_matched_lem services default_http main_server files request false head_read refl refl
      refl (omega arith) (omega arith)

-- The page does not reach a client that takes nothing.
dispatch_fails :
    (dispatch_matched services default_http main_server files request false
      (record head_read { sink = record { sent = []; room = 0 } })).1
    ≡ err Failure.write_failed
unfolding dispatch_matched is_get_or_head same write_all not_found decimal
dispatch_fails = refl

metrics_path : is_metrics_path (lit "/_migux/cache/?x=1") ≡ true
unfolding is_metrics_path
metrics_path = refl
