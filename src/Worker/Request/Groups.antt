-- ===== src/Worker/Request/Groups.antt =====
-- The groups of the loop's variables, and which of them each branch of its body leaves alone.
use migux.Common.{◌≡◌, refl, true, false, List, [], ◌∷◌, some, if◌then◌else◌, arith}
use migux.Text.{Str, lit, same, same→eq, same_self}
use migux.Worker.Request.{
  Scan, scan_connection, scan_encoding, scan_host, encoding_field, is_valid_token,
}

-- The three groups of variables, each left alone.
pub record SameLength (s t : Scan) : Type 0 where
  pub length : t.content_length ≡ s.content_length

pub record SameHost (s t : Scan) : Type 0 where
  pub value : t.host_value ≡ s.host_value
  pub conflict : t.host_conflict ≡ s.host_conflict

pub record SameEncoding (s t : Scan) : Type 0 where
  pub chunked : t.is_chunked ≡ s.is_chunked
  pub is_present : t.transfer_encoding_present ≡ s.transfer_encoding_present
  pub is_invalid : t.transfer_encoding_invalid ≡ s.transfer_encoding_invalid
  pub last_token : t.transfer_encoding_last ≡ s.transfer_encoding_last

pub scan_connection-keeps :
    (s : Scan) (tokens : List Str)
    → SameLength s (scan_connection s tokens)
      × SameHost s (scan_connection s tokens)
      × SameEncoding s (scan_connection s tokens)
unfolding scan_connection
scan_connection-keeps s [] = (
  record { length = refl },
  record { value = refl; conflict = refl },
  record { chunked = refl; is_present = refl; is_invalid = refl; last_token = refl },
)
scan_connection-keeps s (token ∷ tokens) =
    let (l, h, e) =
      scan_connection-keeps
        (if same token (lit "close")
          then record s { connection_close = true }
          else if same token (lit "keep-alive")
          then record s { connection_keep_alive = true }
          else s)
        tokens in
    (
      record { length = ground (arith, l.length) },
      record { value = ground (arith, h.value); conflict = ground (arith, h.conflict) },
      record {
        chunked = ground (arith, e.chunked);
        is_present = ground (arith, e.is_present);
        is_invalid = ground (arith, e.is_invalid);
        last_token = ground (arith, e.last_token);
      },
    )

scan_encoding-keeps :
    (s : Scan) (tokens : List Str)
    → SameLength s (scan_encoding s tokens)
      × SameHost s (scan_encoding s tokens)
      × ((scan_encoding s tokens).transfer_encoding_present ≡ s.transfer_encoding_present)
unfolding scan_encoding
scan_encoding-keeps s [] =
    (record { length = refl }, record { value = refl; conflict = refl }, refl)
scan_encoding-keeps s (token ∷ tokens) =
    let (l, h, p) =
      scan_encoding-keeps
        (record s {
          transfer_encoding_invalid =
              if is_valid_token token then s.transfer_encoding_invalid else true;
          is_chunked = if same token (lit "chunked") then true else s.is_chunked;
          transfer_encoding_last = some token;
        })
        tokens in
    (record { length = l.length }, record { value = h.value; conflict = h.conflict }, p)

pub same_apart : (name a b : Str) → same name a ≡ true → same a b ≡ false → same name b ≡ false
same_apart name a b h d = rw (same→eq name a h) d

pub encoding_field-keeps :
    (s : Scan) (tokens : List Str)
    → SameLength s (encoding_field s tokens)
      × SameHost s (encoding_field s tokens)
      × ((encoding_field s tokens).transfer_encoding_present ≡ true)
unfolding encoding_field
encoding_field-keeps s [] =
    (record { length = refl }, record { value = refl; conflict = refl }, refl)
encoding_field-keeps s (token ∷ tokens) =
    let (l, h, p) =
      scan_encoding-keeps (record s { transfer_encoding_present = true }) (token ∷ tokens) in
    (record { length = l.length }, record { value = h.value; conflict = h.conflict }, p)

-- A last encoding `chunked` has set `is_chunked`, and only a `Transfer-Encoding` sets it.
pub record Chunked (s : Scan) : Type 0 where
  pub last_sets : s.transfer_encoding_last ≡ some (lit "chunked") → s.is_chunked ≡ true
  pub needs_field : s.is_chunked ≡ true → s.transfer_encoding_present ≡ true

pub SameEncoding-Chunked : (s t : Scan) → SameEncoding s t → Chunked s → Chunked t
SameEncoding-Chunked s t e c = record {
  last_sets = λ k. ground (arith, c.last_sets, e.chunked, e.last_token, k);
  needs_field = λ k. ground (arith, c.needs_field, e.chunked, e.is_present, k);
}

pub scan_host-keeps : (s : Scan) (value : Str) → SameEncoding s (scan_host s value)
unfolding scan_host
scan_host-keeps s value = record {
  chunked = ground arith;
  is_present = ground arith;
  is_invalid = ground arith;
  last_token = ground arith;
}

some-same : (s t : Str) → some s ≡ some t → same s t ≡ true
some-same s t e = let k : s ≡ t = cc in rw k (same_self t)

scan_encoding-Chunked :
    (tokens : List Str) (s : Scan)
    → s.transfer_encoding_present ≡ true
    → Chunked s
    → Chunked (scan_encoding s tokens)
unfolding scan_encoding
scan_encoding-Chunked [] s p c = c
scan_encoding-Chunked (token ∷ tokens) s p c = scan_encoding-Chunked tokens _ p (record {
  last_sets = λ e. ground (arith, some-same token (lit "chunked") e);
  needs_field = λ _. p;
})

pub encoding_field-Chunked :
    (s : Scan) (tokens : List Str) → Chunked s → Chunked (encoding_field s tokens)
unfolding encoding_field
encoding_field-Chunked s [] c = record { last_sets = c.last_sets; needs_field = λ _. refl }
encoding_field-Chunked s (token ∷ tokens) c =
    scan_encoding-Chunked (token ∷ tokens) (record s { transfer_encoding_present = true }) refl
      (record { last_sets = c.last_sets; needs_field = λ _. refl })
