-- ===== src/Static/Response/Head.antt =====
-- The rendered head of a response.
use migux.Common.{
  ℕ, zero, suc, ◌+◌, ◌/◌, ◌%◌, ◌<◌, ◌≡◌, inl, inr, List, [], ◌∷◌, ◌++◌, Option, none, some, ltb,
  length, length-append, arith, Bool-cases,
}
use migux.Text.{Str, lit}
use migux.Decimal.{decimal, decimal_from}
use migux.Static.Response.{
  ResponseHead, decimal_len, decimal_len_from, write_status_line, write_header, write_extra,
  write_type, to_string, header_len, extra_len, type_len, header_len_hint, connection_value, crlf,
  http_version,
}

decimal_len_from_lem :
    (fuel n acc : ℕ)
    → n < fuel
    → decimal_len_from fuel n acc + 1 ≡ acc + length (decimal_from fuel n)
unfolding decimal_len_from decimal_from
decimal_len_from_lem zero n acc h = absurd (omega arith)
decimal_len_from_lem (suc fuel) n acc h = elim (Bool-cases (ltb n 10)) [
  | inl e ↦ rw e (omega arith)
  | inr e ↦
      let ih = decimal_len_from_lem fuel (n / 10) (acc + 1) (ground arith) in
      rw e (omega (arith, ih, length-append (decimal_from fuel (n / 10)) ((n % 10 + b'0') ∷ [])))
]

decimal_len_lem : (n : ℕ) → decimal_len n ≡ length (decimal n)
unfolding decimal_len decimal
decimal_len_lem n = omega (arith, decimal_len_from_lem (suc n) n 1)

write_header_len :
    (out name value : Str)
    → length (write_header out name value) ≡ length out + header_len name value
unfolding write_header header_len
write_header_len out name value = omega (
  arith,
  length-append out (name ++ lit ": " ++ value ++ crlf),
  length-append (name ++ lit ": " ++ value) crlf,
  length-append (name ++ lit ": ") value,
  length-append name (lit ": "),
)

write_extra_len :
    (hs : List (Str × Str)) (out : Str) → length (write_extra out hs) ≡ length out + extra_len hs
unfolding write_extra extra_len
write_extra_len [] out = omega arith
write_extra_len ((name, value) ∷ hs) out =
    omega (arith, write_extra_len hs (write_header out name value), write_header_len out name value)

write_type_len :
    (ct : Option Str) (out : Str) → length (write_type out ct) ≡ length out + type_len ct
unfolding write_type type_len
write_type_len none out = omega arith
write_type_len (some ct) out = write_header_len out (lit "Content-Type") ct

write_line_len :
    (status : Str)
    → length (write_status_line [] status) ≡ length http_version + 1 + length status + length crlf
unfolding write_status_line
write_line_len status = omega (
  arith,
  length-append (http_version ++ lit " " ++ status) crlf,
  length-append (http_version ++ lit " ") status,
)

sized_len :
    (line : Str) (n : ℕ)
    → length (write_header line (lit "Content-Length") (decimal n))
      ≡ length line + (length (lit "Content-Length") + 2 + length (decimal n) + length crlf)
unfolding header_len
sized_len line n = write_header_len line (lit "Content-Length") (decimal n)

-- The capacity that the code reserves is exactly the length of the head that it then writes, for every
-- status, content type, length and list of headers.
pub header_len_hint_lem : (h : ResponseHead) → header_len_hint h ≡ length (to_string h)
unfolding header_len_hint to_string
header_len_hint_lem h =
    let line = write_status_line [] h.status in
    let sized = write_header line (lit "Content-Length") (decimal h.content_length) in
    let typed = write_type sized h.content_type in
    let extra = write_extra typed h.extra_headers in
    let last = write_header extra (lit "Connection") (connection_value h.keep_alive) in
    omega (
      arith,
      write_line_len h.status,
      decimal_len_lem h.content_length,
      sized_len line h.content_length,
      write_type_len h.content_type sized,
      write_extra_len h.extra_headers typed,
      write_header_len extra (lit "Connection") (connection_value h.keep_alive),
      length-append last crlf,
    )
