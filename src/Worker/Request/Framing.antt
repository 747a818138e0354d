-- ===== src/Worker/Request/Framing.antt =====
-- What an accepted request says of its own framing and host: the checks after the loop.
use migux.Common.{
  ◌≡◌, refl, ap, ◌∙◌, ◌⊎◌, inl, inr, true, false, List, [], none, some, arith, Bool-cases,
  Option-cases, ◌∷◌, if◌then◌else◌,
}
use migux.Text.{Str, lit, is_empty, trim, trim_by, trim_start_by, trim_end_by, same, same→eq}
use migux.Worker.Request.{
  Scan, RequestMetadata, ok, scan, header_fields, request_words, parse_request_metadata, finish,
  scan_error, host_error, encoding_error, metadata, is_valid_host, find_host, extract_host_header,
  no_headers, word,
}
use migux.Worker.Request.Loop.{
  has_field, Lengths, Hosts, scan-present, scan-Chunked, scan-Lengths, scan-none, scan-Hosts,
  scan-host, scan-host_none, scan-no_length, Lengths-none, no_headers-Chunked,
}

-- The checks after the loop, all passed.
record Accepted (version : Str) (s : Scan) : Type 0 where
  conflict : s.host_conflict ≡ false
  host : host_error version s.host_value ≡ none
  length : s.content_length.invalid ≡ false
  encoding : encoding_error s ≡ none

scan_error-Accepted : (version : Str) (s : Scan) → scan_error version s ≡ none → Accepted version s
unfolding scan_error
scan_error-Accepted version s h = record {
  conflict = ground (arith, h);
  host = ground (arith, h);
  length = ground (arith, h);
  encoding = ground (arith, h);
}

empty_chunked : same [] (lit "chunked") ≡ false
unfolding same
empty_chunked = refl

encoding_ok :
    (s : Scan)
    → encoding_error s ≡ none
    → s.transfer_encoding_present ≡ true
    → (s.transfer_encoding_last ≡ some (lit "chunked")) × (s.content_length.value ≡ none)
unfolding encoding_error
encoding_ok s h p = elim (Option-cases s.transfer_encoding_last) [
  | inl none_last ↦ absurd (ground (arith, h, p, none_last, empty_chunked))
  | inr (last, e) ↦
      let c : same last (lit "chunked") ≡ true = ground (arith, h, p, e) in
      (e ∙ ap some (same→eq last (lit "chunked") c), ground (arith, h, p, e, c))
]

finish_ok :
    (words : List Str) (s : Scan) (m : RequestMetadata)
    → finish words s ≡ ok m
    → Accepted (word words 2 (lit "HTTP/1.1")) s × (m ≡ metadata words s)
unfolding finish
finish_ok words s m h = elim (Option-cases (scan_error (word words 2 (lit "HTTP/1.1")) s)) [
  | inl e ↦ (scan_error-Accepted _ s e, ground (arith, e, h))
  | inr (x, e) ↦ absurd (ground (arith, e, h))
]

-- An accepted request is taken as chunked exactly if it has a `Transfer-Encoding` header, and a
-- chunked one has no `Content-Length` header, and length 0.
pub request_framing :
    (headers : Str) (m : RequestMetadata)
    → parse_request_metadata headers ≡ ok m
    → (m.is_chunked ≡ has_field (lit "transfer-encoding") (header_fields headers))
      × ((m.is_chunked ≡ false)
          ⊎ ((has_field (lit "content-length") (header_fields headers) ≡ false)
              × (m.content_length ≡ 0)))
unfolding parse_request_metadata metadata
request_framing headers m h =
    let fs = header_fields headers in
    let s = scan no_headers fs in
    let (a, e) = finish_ok (request_words headers) s m h in
    let c = scan-Chunked fs no_headers no_headers-Chunked in
    let p = scan-present fs no_headers in
    let chunked : m.is_chunked ≡ s.is_chunked = ap (λ k. k.is_chunked) e in
    let length = ap (λ k. k.content_length) e in
    elim (Bool-cases s.transfer_encoding_present) [
      | inl y ↦
          let (last, no_value) = encoding_ok s a.encoding y in
          let (no_field, _, _) = scan-none fs no_headers a.length no_value in
          (
            ground (arith, chunked, c.last_sets, last, p, y),
            inr (no_field, ground (arith, length, no_value)),
          )
      | inr n ↦ (
        ground (arith, chunked, c.needs_field, p, n),
        inl (ground (arith, chunked, c.needs_field, n)),
      )
    ]

-- Each part of each `Content-Length` header of an accepted request is empty or the request's length.
-- Without such a header the length is 0.
pub request-Lengths :
    (headers : Str) (m : RequestMetadata)
    → parse_request_metadata headers ≡ ok m
    → Lengths m.content_length (header_fields headers)
      × ((has_field (lit "content-length") (header_fields headers) ≡ true) ⊎ (m.content_length ≡ 0))
unfolding parse_request_metadata metadata
request-Lengths headers m h =
    let fs = header_fields headers in
    let s = scan no_headers fs in
    let (a, e) = finish_ok (request_words headers) s m h in
    let length = ap (λ k. k.content_length) e in
    (
      elim (Option-cases s.content_length.value) [
        | inl v ↦ Lengths-none m.content_length fs (scan-none fs no_headers a.length v).0
        | inr (n, v) ↦
            let m_n : m.content_length ≡ n = ground (arith, length, v) in
            rw m_n (scan-Lengths n fs no_headers a.length v).0
      ],
      elim (Bool-cases (has_field (lit "content-length") fs)) [
        | inl field ↦ inl field
        | inr no_field ↦
            inr (ground (arith, length, ap (λ k. k.value) (scan-no_length fs no_headers no_field)))
      ],
    )

-- An accepted request of version HTTP/1.1 has a `Host` header, and the `Host` headers of an accepted
-- request of any version are all the same text, which is a valid host.
pub request_host :
    (headers : Str) (m : RequestMetadata)
    → parse_request_metadata headers ≡ ok m
    → ((same m.http_version (lit "HTTP/1.1") ≡ false)
        ⊎ (has_field (lit "host") (header_fields headers) ≡ true))
      × ((has_field (lit "host") (header_fields headers) ≡ false)
          ⊎ ((host : Str) × (is_valid_host host ≡ true) × Hosts host (header_fields headers)))
unfolding parse_request_metadata metadata host_error
request_host headers m h =
    let fs = header_fields headers in
    let s = scan no_headers fs in
    let (a, e) = finish_ok (request_words headers) s m h in
    let version = ap (λ k. k.http_version) e in
    elim (Option-cases s.host_value) [
      | inl v ↦ (inl (ground (arith, a.host, v, version)), inl (scan-host_none fs no_headers v).0)
      | inr (host, v) ↦ (
        elim (Bool-cases (has_field (lit "host") fs)) [
          | inl k ↦ inr k
          | inr k ↦ absurd (ground (arith, v, scan-host fs no_headers k))
        ],
        inr (host, ground (arith, a.host, v), (scan-Hosts host fs no_headers a.conflict v).0),
      )
    ]

valid_not_empty : (host : Str) → is_valid_host host ≡ true → is_empty host ≡ false
unfolding is_valid_host trim trim_by trim_start_by trim_end_by
valid_not_empty [] h = ground (arith, h)
valid_not_empty (c ∷ host) h = refl

find_host-Hosts :
    (host : Str) (fs : List (Str × Str))
    → is_valid_host host ≡ true
    → Hosts host fs
    → find_host fs ≡ (if has_field (lit "host") fs then some host else none)
unfolding find_host
find_host-Hosts host [] valid all_same = refl
find_host-Hosts host ((name, value) ∷ fs) valid all_same = elim all_same.0 [
  | inl not_host ↦ ground (arith, not_host, find_host-Hosts host fs valid all_same.1)
  | inr is_host ↦
      ground (
        arith,
        is_host,
        valid,
        valid_not_empty host valid,
        find_host-Hosts host fs valid all_same.1,
      )
]

find_host-none : (fs : List (Str × Str)) → has_field (lit "host") fs ≡ false → find_host fs ≡ none
unfolding find_host
find_host-none [] h = refl
find_host-none ((name, value) ∷ fs) h = ground (arith, h, find_host-none fs)

-- For an accepted request `extract_host_header` gives the valid host that all its `Host` headers say,
-- and nothing if it has none.
pub extract_host_header-ok :
    (headers : Str) (m : RequestMetadata)
    → parse_request_metadata headers ≡ ok m
    → ((has_field (lit "host") (header_fields headers) ≡ false)
        × (extract_host_header headers ≡ none))
      ⊎ ((host : Str) × (is_valid_host host ≡ true)
          × Hosts host (header_fields headers)
          × (extract_host_header headers ≡ some host))
unfolding extract_host_header
extract_host_header-ok headers m h =
    let (_, hosts) = request_host headers m h in
    elim (Bool-cases (has_field (lit "host") (header_fields headers))) [
      | inr no_host ↦ inl (no_host, find_host-none (header_fields headers) no_host)
      | inl some_host ↦ elim hosts [
        | inl no_host ↦ absurd (ground (arith, some_host, no_host))
        | inr (host, valid, all_same) ↦ inr (
          host,
          valid,
          all_same,
          find_host-Hosts host (header_fields headers) valid all_same ∙ ground (arith, some_host),
        )
      ]
    ]
