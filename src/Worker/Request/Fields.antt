-- ===== src/Worker/Request/Fields.antt =====
-- What one pass over the header fields does to each group of the loop's variables.
use migux.Common.{
  ◌≡◌, refl, subst, inl, inr, Bool, true, false, ◌||◌, none, some, if◌then◌else◌, arith, Bool-cases,
}
use migux.Text.{Str, lit, same}
use migux.Headers.{add, split_header_tokens}
use migux.Worker.Request.{Scan, scan_connection, scan_host, encoding_field, scan_field}
use migux.Worker.Request.Groups.{
  SameHost, Chunked, scan_connection-keeps, scan_host-keeps, encoding_field-keeps,
  encoding_field-Chunked, SameEncoding-Chunked, same_apart,
}

-- The names that the loop looks for are not one another.
abbrev Apart : Str → Str → Type 0
Apart a b = same a b ≡ false

length_host : Apart (lit "content-length") (lit "host")
unfolding same
length_host = refl

length_encoding : Apart (lit "content-length") (lit "transfer-encoding")
unfolding same
length_encoding = refl

host_encoding : Apart (lit "host") (lit "transfer-encoding")
unfolding same
host_encoding = refl

connection_encoding : Apart (lit "connection") (lit "transfer-encoding")
unfolding same
connection_encoding = refl

proxy_encoding : Apart (lit "proxy-connection") (lit "transfer-encoding")
unfolding same
proxy_encoding = refl

-- What a name is among the three that the checks after the loop are about.
pub record Named (name : Str) (length host encoding : Bool) : Type 0 where
  pub is_length : same name (lit "content-length") ≡ length
  pub is_host : same name (lit "host") ≡ host
  pub is_encoding : same name (lit "transfer-encoding") ≡ encoding

-- The branches of the loop's body, with what the name is in each.
pub scan_field_cases :
    (P : Scan → Type 0) (s : Scan) (name value : Str)
    → (Named name true false false → P (record s { content_length = add s.content_length value }))
    → (Named name false true false → P (scan_host s value))
    → (Named name false false false → P (scan_connection s (split_header_tokens value)))
    → (Named name false false true → P (encoding_field s (split_header_tokens value)))
    → (Named name false false false → P s)
    → P (scan_field s name value)
unfolding scan_field
scan_field_cases P s name value p_length p_host p_connection p_encoding p_other =
    elim (Bool-cases (same name (lit "content-length"))) [
      | inl c ↦ subst P (ground (arith, c)) (
          p_length (record {
            is_length = c;
            is_host = same_apart name (lit "content-length") (lit "host") c length_host;
            is_encoding =
                same_apart name (lit "content-length") (lit "transfer-encoding") c length_encoding;
          }))
      | inr c ↦ elim (Bool-cases (same name (lit "host"))) [
        | inl h ↦ subst P (ground (arith, c, h)) (
            p_host (record {
              is_length = c;
              is_host = h;
              is_encoding = same_apart name (lit "host") (lit "transfer-encoding") h host_encoding;
            }))
        | inr h ↦ elim (Bool-cases (same name (lit "connection"))) [
          | inl k ↦ subst P (ground (arith, c, h, k)) (
              p_connection (record {
                is_length = c;
                is_host = h;
                is_encoding =
                    same_apart name (lit "connection") (lit "transfer-encoding") k
                      connection_encoding;
              }))
          | inr k ↦ elim (Bool-cases (same name (lit "proxy-connection"))) [
            | inl k' ↦ subst P (ground (arith, c, h, k, k')) (
                p_connection (record {
                  is_length = c;
                  is_host = h;
                  is_encoding =
                      same_apart name (lit "proxy-connection") (lit "transfer-encoding") k'
                        proxy_encoding;
                }))
            | inr k' ↦ elim (Bool-cases (same name (lit "transfer-encoding"))) [
              | inl e ↦
                  subst P (ground (arith, c, h, k, k', e))
                    (p_encoding (record { is_length = c; is_host = h; is_encoding = e }))
              | inr e ↦
                  subst P (ground (arith, c, h, k, k', e))
                    (p_other (record { is_length = c; is_host = h; is_encoding = e }))
            ]
          ]
        ]
      ]
    ]

-- The lengths after a field: one more is added by a `Content-Length`, and by nothing else.
pub scan_field-length :
    (s : Scan) (name value : Str)
    → (scan_field s name value).content_length
      ≡ (if same name (lit "content-length") then add s.content_length value else s.content_length)
unfolding scan_host encoding_field
scan_field-length s name value =
    scan_field_cases
      (λ t. t.content_length ≡ (
        if same name (lit "content-length") then add s.content_length value else s.content_length))
      s name value (λ n. ground (arith, n.is_length))
      (λ n. elim s.host_value [
        | none ↦ ground (arith, n.is_length)
        | some h ↦ ground (arith, n.is_length)
      ])
      (λ n.
        let (l, _, _) = scan_connection-keeps s (split_header_tokens value) in
        ground (arith, n.is_length, l.length))
      (λ n.
        let (l, _, _) = encoding_field-keeps s (split_header_tokens value) in
        ground (arith, n.is_length, l.length))
      (λ n. ground (arith, n.is_length))

-- A `Transfer-Encoding` is noted, and nothing else is taken for one.
pub scan_field-present :
    (s : Scan) (name value : Str)
    → (scan_field s name value).transfer_encoding_present
      ≡ (same name (lit "transfer-encoding") || s.transfer_encoding_present)
unfolding scan_host
scan_field-present s name value =
    scan_field_cases
      (λ t.
        t.transfer_encoding_present
        ≡ (same name (lit "transfer-encoding") || s.transfer_encoding_present))
      s name value (λ n. ground (arith, n.is_encoding))
      (λ n. elim s.host_value [
        | none ↦ ground (arith, n.is_encoding)
        | some h ↦ ground (arith, n.is_encoding)
      ])
      (λ n.
        let (_, _, e) = scan_connection-keeps s (split_header_tokens value) in
        ground (arith, n.is_encoding, e.is_present))
      (λ n.
        let (_, _, p) = encoding_field-keeps s (split_header_tokens value) in
        ground (arith, n.is_encoding, p))
      (λ n. ground (arith, n.is_encoding))

pub scan_field-Chunked :
    (s : Scan) (name value : Str) → Chunked s → Chunked (scan_field s name value)
unfolding scan_host
scan_field-Chunked s name value c =
    scan_field_cases Chunked s name value
      (λ n. record { last_sets = c.last_sets; needs_field = c.needs_field })
      (λ n. SameEncoding-Chunked s _ (scan_host-keeps s value) c)
      (λ n.
        let (_, _, e) = scan_connection-keeps s (split_header_tokens value) in
        SameEncoding-Chunked s _ e c)
      (λ n. encoding_field-Chunked s (split_header_tokens value) c) (λ n. c)

-- The host after a field: a `Host` field is compared with the one before, nothing else touches it.
pub scan_field-host :
    (s : Scan) (name value : Str)
    → SameHost (if same name (lit "host") then scan_host s value else s) (scan_field s name value)
scan_field-host s name value =
    scan_field_cases (λ t. SameHost (if same name (lit "host") then scan_host s value else s) t) s
      name value
      (λ n. record { value = ground (arith, n.is_host); conflict = ground (arith, n.is_host) })
      (λ n. record { value = ground (arith, n.is_host); conflict = ground (arith, n.is_host) })
      (λ n.
        let (_, h, _) = scan_connection-keeps s (split_header_tokens value) in
        record {
          value = ground (arith, n.is_host, h.value);
          conflict = ground (arith, n.is_host, h.conflict);
        })
      (λ n.
        let (_, h, _) = encoding_field-keeps s (split_header_tokens value) in
        record {
          value = ground (arith, n.is_host, h.value);
          conflict = ground (arith, n.is_host, h.conflict);
        })
      (λ n. record { value = ground (arith, n.is_host); conflict = ground (arith, n.is_host) })
