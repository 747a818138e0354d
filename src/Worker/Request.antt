-- ===== src/Worker/Request.antt =====
-- crates/migux_core/src/worker/request.rs: the metadata of a request, from its header block.
pub mod Groups
pub mod Fields
pub mod Loop
pub mod Framing
pub mod Read
mod Tests
use migux.Common.{
  ℕ, Bool, true, false, not, ◌&&◌, ◌||◌, List, [], ◌∷◌, ◌++◌, Option, none, some, leb, ltb, ◌==◌,
  if◌then◌else◌, all, any, get_elem?,
}
use migux.Text.{
  Str, lit, same, is_empty, is_whitespace, trim, lines, split_whitespace, contains_char,
}
use migux.Headers.{ContentLengthState, no_length, add, fields, split_header_tokens}

pub record RequestMetadata : Type 0 where
  pub method : Str
  pub path : Str
  pub http_version : Str
  pub content_length : ℕ
  pub close_after : Bool
  pub is_chunked : Bool

pub data HeaderParseError : Type 0 where
  invalid_content_length conflicting_content_length invalid_host conflicting_host missing_host :
      HeaderParseError
  invalid_transfer_encoding transfer_encoding_content_length : HeaderParseError

pub data Parsed : Type 0 where
  ok : RequestMetadata → Parsed
  err : HeaderParseError → Parsed

-- The variables of the loop over the header lines.
pub record Scan : Type 0 where
  pub content_length : ContentLengthState
  pub connection_close : Bool
  pub connection_keep_alive : Bool
  pub is_chunked : Bool
  pub host_value : Option Str
  pub host_conflict : Bool
  pub transfer_encoding_present : Bool
  pub transfer_encoding_invalid : Bool
  pub transfer_encoding_last : Option Str

abbrev pub no_headers : Scan
no_headers = record {
  content_length = no_length;
  connection_close = false;
  connection_keep_alive = false;
  is_chunked = false;
  host_value = none;
  host_conflict = false;
  transfer_encoding_present = false;
  transfer_encoding_invalid = false;
  transfer_encoding_last = none;
}

-- `is_control`: the general category Cc.
unfoldable pub is_control : ℕ → Bool
is_control c = leb c 31 || (leb 127 c && leb c 159)

abbrev is_alphanumeric : ℕ → Bool
is_alphanumeric c =
    (leb b'0' c && leb c b'9') || (leb b'a' c && leb c b'z') || (leb b'A' c && leb c b'Z')

host_char : ℕ → Bool
host_char c =
    is_alphanumeric c || c == b'.' || c == b'-' || c == b':' || c == b'[' || c == b']' || c == b'_'

unfoldable pub is_valid_host : Str → Bool
unfolding trim contains_char is_whitespace is_control host_char
is_valid_host host =
    let h = trim host in
    if is_empty h
    then false
    else if contains_char b'/' h || contains_char 92 h
    then false
    else if any (λ c. is_whitespace c || is_control c) h
    then false
    else all host_char h

token_char : ℕ → Bool
token_char c =
    c == 33
    || c == 35
    || c == 36
    || c == 37
    || c == 38
    || c == 39
    || c == 42
    || c == 43
    || c == 45
    || c == 46
    || c == 94
    || c == 95
    || c == 96
    || c == 124
    || c == 126
    || is_alphanumeric c

unfoldable pub is_valid_token : Str → Bool
unfolding token_char
is_valid_token = all token_char

-- The loops over the tokens of a `Connection` and of a `Transfer-Encoding` value.
pub scan_connection : Scan → List Str → Scan
scan_connection s [] = s
scan_connection s (token ∷ tokens) =
    scan_connection
      (if same token (lit "close")
        then record s { connection_close = true }
        else if same token (lit "keep-alive")
        then record s { connection_keep_alive = true }
        else s)
      tokens

pub scan_encoding : Scan → List Str → Scan
scan_encoding s [] = s
scan_encoding s (token ∷ tokens) =
    scan_encoding
      (record s {
        transfer_encoding_invalid =
            if is_valid_token token then s.transfer_encoding_invalid else true;
        is_chunked = if same token (lit "chunked") then true else s.is_chunked;
        transfer_encoding_last = some token;
      })
      tokens

pub scan_host : Scan → Str → Scan
scan_host s value = elim s.host_value [
  | none ↦ record s { host_value = some value }
  | some host ↦ if same host value then s else record s { host_conflict = true }
]

pub encoding_field : Scan → List Str → Scan
unfolding scan_encoding
encoding_field s [] = record s {
  transfer_encoding_present = true;
  transfer_encoding_invalid = true;
}
encoding_field s (token ∷ tokens) =
    scan_encoding (record s { transfer_encoding_present = true }) (token ∷ tokens)

-- The body of the loop, for one header with its name in lower case.
pub scan_field : Scan → Str → Str → Scan
unfolding scan_host encoding_field scan_connection add split_header_tokens
scan_field s name value =
    if same name (lit "content-length")
    then record s { content_length = add s.content_length value }
    else if same name (lit "host")
    then scan_host s value
    else if same name (lit "connection") || same name (lit "proxy-connection")
    then scan_connection s (split_header_tokens value)
    else if same name (lit "transfer-encoding")
    then encoding_field s (split_header_tokens value)
    else s

pub scan : Scan → List (Str × Str) → Scan
scan s [] = s
scan s ((name, value) ∷ fs) = scan (scan_field s name value) fs

abbrev or_else : Option Str → Str → Str
or_else none d = d
or_else (some s) d = s

-- The request line's words, with the defaults for those that are missing.
abbrev pub word : List Str → ℕ → Str → Str
word ws n d = or_else (get_elem? ws n) d

-- The `Host` header is there and valid, or is not asked for.
host_error : Str → Option Str → Option HeaderParseError
host_error version none = if same version (lit "HTTP/1.1") then some missing_host else none
host_error version (some host) = if is_valid_host host then none else some invalid_host

encoding_error : Scan → Option HeaderParseError
encoding_error s =
    if not s.transfer_encoding_present
    then none
    else if s.transfer_encoding_invalid
    then some invalid_transfer_encoding
    else if not (same (or_else s.transfer_encoding_last []) (lit "chunked"))
    then some invalid_transfer_encoding
    else elim s.content_length.value [
      | none ↦ none
      | some _ ↦ some transfer_encoding_content_length
    ]

-- The checks after the loop, in their order.
scan_error : Str → Scan → Option HeaderParseError
unfolding host_error encoding_error
scan_error version s =
    if s.host_conflict then some conflicting_host else elim (host_error version s.host_value) [
      | some e ↦ some e
      | none ↦
          if s.content_length.invalid
          then some (
              if s.content_length.conflict
              then conflicting_content_length
              else invalid_content_length)
          else encoding_error s
    ]

abbrev or_zero : Option ℕ → ℕ
or_zero none = 0
or_zero (some n) = n

metadata : List Str → Scan → RequestMetadata
metadata words s = record {
  method = word words 0 (lit "-");
  path = word words 1 (lit "/");
  http_version = word words 2 (lit "HTTP/1.1");
  content_length = or_zero s.content_length.value;
  close_after =
      if same (word words 2 (lit "HTTP/1.1")) (lit "HTTP/1.0")
      then not s.connection_keep_alive || s.connection_close
      else s.connection_close;
  is_chunked = s.is_chunked;
}

finish : List Str → Scan → Parsed
finish words s = elim (scan_error (word words 2 (lit "HTTP/1.1")) s) [
  | some e ↦ err e
  | none ↦ ok (metadata words s)
]

-- The request line and the lines after it.
abbrev first_line : List Str → Str
first_line [] = []
first_line (line ∷ lines) = line

abbrev rest_lines : List Str → List Str
rest_lines [] = []
rest_lines (line ∷ lines) = lines

-- The words of the request line, and the headers that the loop sees.
abbrev pub request_words : Str → List Str
request_words headers = split_whitespace (first_line (lines headers))

abbrev pub header_fields : Str → List (Str × Str)
header_fields headers = fields (rest_lines (lines headers))

pub parse_request_metadata : Str → Parsed
parse_request_metadata headers =
    finish (request_words headers) (scan no_headers (header_fields headers))

find_host : List (Str × Str) → Option Str
find_host [] = none
find_host ((name, value) ∷ fs) =
    let later = find_host fs in
    if same name (lit "host")
    then (if not (is_empty value) && is_valid_host value then some value else later)
    else later

pub extract_host_header : Str → Option Str
unfolding find_host
extract_host_header headers = find_host (header_fields headers)
