-- ===== src/Static/Response.antt =====
-- crates/migux_static/src/response.rs: the responses of the static service, as bytes.
pub mod Head
mod Tests
use migux.Common.{
  ℕ, zero, suc, ◌+◌, ◌/◌, Bool, true, false, ◌&&◌, List, [], ◌∷◌, ◌++◌, Option, none, some, ltb,
  ◌==◌, if◌then◌else◌, length,
}
use migux.Text.{Str, lit, is_empty}
use migux.Decimal.{decimal}

abbrev pub http_version : Str
http_version = lit "HTTP/1.1"

abbrev pub crlf : Str
crlf = lit "\r\n"

pub record ResponseHead : Type 0 where
  pub status : Str
  pub content_type : Option Str
  pub content_length : ℕ
  pub keep_alive : Bool
  pub extra_headers : List (Str × Str)

unfoldable pub connection_value : Bool → Str
connection_value keep_alive = if keep_alive then lit "keep-alive" else lit "close"

-- The loop divides the number until it has one digit; each round makes it smaller.
decimal_len_from : ℕ → ℕ → ℕ → ℕ
decimal_len_from zero value len = len
decimal_len_from (suc fuel) value len =
    let rest = decimal_len_from fuel (value / 10) (len + 1) in if ltb value 10 then len else rest

pub decimal_len : ℕ → ℕ
unfolding decimal_len_from
decimal_len value = decimal_len_from (suc value) value 1

-- `write_status_line` and `write_header` append to the text.
pub write_status_line : Str → Str → Str
write_status_line out status = out ++ (http_version ++ lit " " ++ status ++ crlf)

pub write_header : Str → Str → Str → Str
write_header out name value = out ++ (name ++ lit ": " ++ value ++ crlf)

write_extra : Str → List (Str × Str) → Str
unfolding write_header
write_extra out [] = out
write_extra out ((name, value) ∷ hs) = write_extra (write_header out name value) hs

write_type : Str → Option Str → Str
unfolding write_header
write_type out none = out
write_type out (some ct) = write_header out (lit "Content-Type") ct

pub to_string : ResponseHead → Str
unfolding write_status_line write_header write_extra write_type connection_value
to_string h =
    let line = write_status_line [] h.status in
    let sized = write_header line (lit "Content-Length") (decimal h.content_length) in
    let typed = write_type sized h.content_type in
    let extra = write_extra typed h.extra_headers in
    write_header extra (lit "Connection") (connection_value h.keep_alive) ++ crlf

header_len : Str → Str → ℕ
header_len name value = length name + 2 + length value + length crlf

extra_len : List (Str × Str) → ℕ
unfolding header_len
extra_len [] = 0
extra_len ((name, value) ∷ hs) = header_len name value + extra_len hs

type_len : Option Str → ℕ
unfolding header_len
type_len none = 0
type_len (some ct) = header_len (lit "Content-Type") ct

pub header_len_hint : ResponseHead → ℕ
unfolding decimal_len header_len extra_len type_len connection_value
header_len_hint h =
    (length http_version + 1 + length h.status + length crlf)
    + (length (lit "Content-Length") + 2 + decimal_len h.content_length + length crlf)
    + type_len h.content_type
    + extra_len h.extra_headers
    + header_len (lit "Connection") (connection_value h.keep_alive)
    + length crlf

abbrev or_nothing : Option Str → Str
or_nothing none = []
or_nothing (some body) = body

pub write_response : ResponseHead → Option Str → Str
unfolding to_string
write_response head body = to_string head ++ or_nothing body

pub build_empty : Str → Bool → List (Str × Str) → Str
unfolding write_response
build_empty status keep_alive extra_headers =
    write_response
      (record {
        status = status;
        content_type = none;
        content_length = 0;
        keep_alive = keep_alive;
        extra_headers = extra_headers;
      })
      none

abbrev is_none : Option Str → Bool
is_none none = true
is_none (some s) = false

pub build_with_headers : Str → Option Str → ℕ → Bool → List (Str × Str) → Option Str → Str
unfolding build_empty write_response
build_with_headers status content_type content_length keep_alive extra_headers body =
    if is_none body && content_length == 0 && is_none content_type
    then build_empty status keep_alive extra_headers
    else write_response
        (record {
          status = status;
          content_type = content_type;
          content_length = content_length;
          keep_alive = keep_alive;
          extra_headers = extra_headers;
        })
        body

pub build : Str → Option Str → Str → Bool → Str
unfolding build_with_headers
build status content_type body keep_alive =
    build_with_headers status content_type (length body) keep_alive [] (some body)

pub plain_text : Str → Str → Bool → Str
unfolding build
plain_text status body keep_alive =
    build status (some (lit "text/plain; charset=utf-8")) body keep_alive

unfoldable pub not_found : Bool → Str
unfolding plain_text
not_found keep_alive = plain_text (lit "404 Not Found") (lit "404 Not Found") keep_alive

pub internal_error : Bool → Str
unfolding plain_text
internal_error keep_alive =
    plain_text (lit "500 Internal Server Error") (lit "500 Internal Server Error") keep_alive
