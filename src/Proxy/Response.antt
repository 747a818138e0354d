-- ===== src/Proxy/Response.antt =====
-- crates/migux_proxy/src/proxy/response.rs: what the proxy reads from the headers of an upstream's
-- response, from their text on. `ContentLengthState` and the split into tokens are those of Headers.
pub mod Lengths
mod Tests
use migux.Common.{
  ℕ, ◌+◌, ◌^◌, Bool, true, false, not, ◌&&◌, ◌||◌, List, [], ◌∷◌, Option, none, some, ◌==◌, leb,
  ltb, if◌then◌else◌, get_elem?,
}
use migux.Text.{
  Str, lit, same, lines, starts_with, split_whitespace, from_str_radix, eq_ignore_ascii_case,
}
use migux.Headers.{ContentLengthState, no_length, add, fields, split_header_tokens}

pub record ResponseInfo : Type 0 where
  pub content_length : Option ℕ
  pub connection_close : Bool
  pub connection_keep_alive : Bool
  pub is_http10 : Bool
  pub is_chunked : Bool
  pub status_code : Option ℕ

-- The second word of the status line, as a `u16`.
status_of : List Str → Option ℕ
unfolding from_str_radix
status_of words = elim (get_elem? words 1) [ none ↦ none | some s ↦ from_str_radix (2 ^ 16) 10 s ]

status_line_info : List Str → ResponseInfo
unfolding status_of starts_with split_whitespace
status_line_info [] = record {
  content_length = none;
  connection_close = false;
  connection_keep_alive = false;
  is_http10 = false;
  is_chunked = false;
  status_code = none;
}
status_line_info (status_line ∷ rest) = record {
  content_length = none;
  connection_close = false;
  connection_keep_alive = false;
  is_http10 = starts_with status_line (lit "HTTP/1.0");
  is_chunked = false;
  status_code = status_of (split_whitespace status_line);
}

connection_info : ResponseInfo → List Str → ResponseInfo
connection_info info [] = info
connection_info info (token ∷ tokens) =
    connection_info
      (if same token (lit "close")
        then record info { connection_close = true }
        else if same token (lit "keep-alive")
        then record info { connection_keep_alive = true }
        else info)
      tokens

encoding_info : ResponseInfo → List Str → ResponseInfo
encoding_info info [] = info
encoding_info info (token ∷ tokens) =
    encoding_info (if same token (lit "chunked") then record info { is_chunked = true } else info)
      tokens

-- The body of the loop: the state of the lengths, and the information.
field_info : ContentLengthState × ResponseInfo → Str → Str → ContentLengthState × ResponseInfo
unfolding connection_info encoding_info add split_header_tokens
field_info (state, info) name value =
    if same name (lit "content-length")
    then (add state value, info)
    else if same name (lit "connection")
    then (state, connection_info info (split_header_tokens value))
    else if same name (lit "transfer-encoding")
    then (state, encoding_info info (split_header_tokens value))
    else (state, info)

fields_info :
    ContentLengthState × ResponseInfo → List (Str × Str) → ContentLengthState × ResponseInfo
unfolding field_info
fields_info acc [] = acc
fields_info acc ((name, value) ∷ fs) = fields_info (field_info acc name value) fs

abbrev rest_lines : List Str → List Str
rest_lines [] = []
rest_lines (line ∷ rest) = rest

abbrev pub response_fields : Str → List (Str × Str)
response_fields header_str = fields (rest_lines (lines header_str))

-- `none` is an error: the lengths are invalid, or in conflict.
finish_info : ContentLengthState × ResponseInfo → Option ResponseInfo
finish_info (state, info) =
    if state.invalid then none else some (record info { content_length = state.value })

unfoldable pub parse_response_headers : Str → Option ResponseInfo
unfolding finish_info fields_info status_line_info
parse_response_headers header_str =
    finish_info
      (fields_info (no_length, status_line_info (lines header_str)) (response_fields header_str))

unfoldable pub is_no_body : Str → Option ℕ → Bool
unfolding eq_ignore_ascii_case
is_no_body method status_code =
    if eq_ignore_ascii_case method (lit "HEAD") then true else elim status_code [
      | none ↦ false
      | some code ↦ (leb 100 code && ltb code 200) || code == 204 || code == 304
    ]
