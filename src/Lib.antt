-- ===== src/Lib.antt =====
-- migux, a web server and reverse proxy in Rust: a model of its core logic.
--
-- The parts. The worker (crates/migux_core/src/worker) reads HTTP/1 requests from a connection, parses
-- them, chooses a location, and hands them to the static file service (crates/migux_static) or to the
-- proxy (crates/migux_proxy). The static service keeps rendered responses in a cache on disk. The
-- proxy chooses an upstream server by turns, leaves out those that failed lately, takes a connection
-- from a pool, relays the request's body and the response, and goes on to the next server after an
-- error. The configuration (crates/migux_config) is filled in and validated before all this.
--
-- The files.
--   Common: names of the libraries, Boolean tests, lists measured by the native numbers, and
--     association lists for hash maps. A map has one entry for a key.
--   Text: Rust's `str` as lists of code points: trim, split, lines, parse, starts_with. Laws and Lines
--     hold their laws.
--   Headers: header lines, comma lists and `ContentLengthState`, as request.rs has them.
--   Decimal: printed and parsed numbers.
--   Stream: sockets as the events that their reads meet, the monad of functions on a connection, the
--     search for a line end or a blank line, and writes. Incoming says what bytes come in, Lines and
--     Chunks how they are divided.
--   Http: crates/migux_http/src/responses.rs.
--   Config: the data and the defaults of crates/migux_config/src. Config/Validation: validation.rs.
--   Worker/Request: crates/migux_core/src/worker/request.rs, `parse_request_metadata` and
--     `extract_host_header`. The loop of the first is `scan` over the header fields, with its variables
--     in `Scan`; the checks after it are `scan_error`. Groups, Fields and Loop hold the loop's laws, Framing
--     what an accepted request satisfies.
--     Worker/Request/Read is `read_http_request` of the same file.
--   Worker/Body: crates/migux_core/src/worker/timeouts.rs.
--   Worker/Connection: crates/migux_core/src/worker/mod.rs and dispatch.rs, with the target of a redirect
--     in Redirect.
--   Cache/Index: crates/migux_static/src/cache.rs, `DiskCacheIndex`: `insert`, `touch`, `remove`,
--     `pop_lru`, `detach`, `attach_to_tail`. Queue is the abstract queue, and `Reps` of Refines says
--     that an index represents one.
--   Cache/Evict: `evict_to_limits`, `evict_inactive` and the loop of `put`, which is `make_room`.
--   Cache/Disk: `DiskCache::get`, `put` and `touch` (`touch_entry`). The clock, the answers of the
--     file system and the bytes it reads are the record `Env`; the file operations of a call are its
--     result. Each call runs alone: the lock is held while the index changes, and `get` takes it twice,
--     which the model does in one step. Disk/History runs lists of calls.
--   Cache/Load: `parse_meta_record`, `load_from_disk`, `ensure_loaded`, `reset` and `lock_index`. What
--     the directory holds is a list of `MetaFile`; the directory's path is compared as it is spelled.
--   Cache/Memory: `MemoryCache`.
--   Worker/Routing: crates/migux_core/src/worker/routing.rs.
--   Static/Fs: crates/migux_static/src/fs.rs, on the bytes of a path. Segments reads a path's segments
--     character by character, Safety says which files a request can name.
--   Static/Conditional: crates/migux_static/src/conditional.rs, the `If-None-Match` header; a panic is
--     a value of its own. Modified: `If-Modified-Since`.
--   Static/Etag: crates/migux_static/src/etag.rs, `weak_etag_size_mtime`.
--   Proxy/Forward: crates/migux_proxy/src/proxy/headers.rs, `rewrite_proxy_headers`.
--   Proxy/Response: crates/migux_proxy/src/proxy/response.rs, `parse_response_headers` and
--     `is_no_body`. Proxy/Hsts: `maybe_inject_hsts` of the same file, and in Lost
--     what becomes of its header.
--     Proxy/Streaming: the rest of it, `stream_http_response` and the streams of bodies.
--   Proxy/Body: crates/migux_proxy/src/proxy/mod.rs, `stream_request_body`. Proxy/Relay: the chunks of
--     mod.rs and response.rs, which differ in how they read a line and exact bytes.
--   Proxy/Serve: crates/migux_proxy/src/proxy/mod.rs, `Proxy::serve`. What connecting, the clock and the
--     upstream do in a try is its argument.
--   Static/Response: crates/migux_static/src/response.rs.
--   Proxy/Path, Proxy/Upstream, Proxy/Health, Proxy/Pool: the files of that name in
--     crates/migux_proxy/src/proxy. Time is an argument; a socket is a type parameter.
--
-- Sockets. The reads of a socket are a list of events: bytes that come, a timeout, an error; after the
-- last one the peer has closed. Each read takes one event, so a list is one interleaving of the peer
-- with the reads. What a peer still accepts is `room` of Sink, and a write beyond it fails. Timeouts of
-- any length are the event.
--
-- Numbers. u64 and usize are natural numbers with the wrap or the saturation of the source written
-- out: `saturating_add`, `% 2 ^ 64` for `fetch_add`, for the sum in `put` and for the sums on the sizes
-- of chunks.
--
-- Fuel. The eviction loops run on fuel, one round for each entry and one more, since every round
-- that goes on takes an entry. The loops on the chunks and the trailers of a body run on the number
-- of bytes that come in and one: each round takes at least a line end. The digits of a number are
-- printed on the number and one, since each digit divides it by ten. The loop of a connection runs
-- for a number of requests, which is an argument. All other loops are structural, those on sockets
-- on the events.
--
-- Parameters. The decoders of bytes (`from_utf8_lossy`, `from_utf8`), the parsers of dates and of
-- socket addresses and the file tests of the validation, and what connecting gives are arguments of
-- the definitions that use them. Worker/Connection takes the static service and the proxy as the
-- record `Services`; the service is a function on what the client accepts, since all that it asks of
-- the client's stream is to be written to, and it may fail.
--
-- Not modelled: sockets, TLS, tasks and HTTP/2 themselves, which are calls of tokio, rustls and h2;
-- the master, which starts them; the static service in service.rs, which reads files and composes
-- the modelled parts, with ranges; active health checks; the reading and the printing of
-- configuration files; logging.
pub mod Common
pub mod Text
pub mod Decimal
pub mod Stream
pub mod Http
pub mod Headers
pub mod Cache
pub mod Worker
pub mod Proxy
pub mod Config
pub mod Static
