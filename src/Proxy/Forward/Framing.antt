-- ===== src/Proxy/Forward/Framing.antt =====
-- The headers by which the upstream frames a request and knows its client are the proxy's own.
use migux.Common.{
  ℕ, ◌≡◌, refl, ap, ◌∙◌, Bool, true, false, ◌||◌, List, [], ◌∷◌, ◌++◌, Option, none, some,
  if◌then◌else◌, filter, arith, Bool-cases, Option-cases, inl, inr,
}
use migux.Decimal.{decimal}
use migux.Text.{Str, lit, same, same→eq, to_ascii_lowercase}
use migux.Headers.{header_line}
use migux.Proxy.Forward.{is_forwarded, is_hop_by_hop, passed_on, upstream_headers, added}

-- The headers of a name, which is in lower case.
abbrev pub named : Str → List (Str × Str) → List (Str × Str)
named name = filter (λ h. same (to_ascii_lowercase h.0) name)

named-append :
    (name : Str) (xs ys : List (Str × Str)) → named name (xs ++ ys) ≡ named name xs ++ named name ys
named-append name [] ys = refl
named-append name (x ∷ xs) ys = ground (arith, named-append name xs ys)

-- A header of a name that is dropped is not passed on.
named-passed_on :
    (name : Str) (tokens lines : List Str)
    → (is_forwarded name || is_hop_by_hop name) ≡ true
    → named name (passed_on tokens lines) ≡ []
unfolding passed_on
named-passed_on name tokens [] d = refl
named-passed_on name tokens (line ∷ rest) d = elim (Option-cases (header_line line)) [
  | inl e ↦ ground (arith, e, named-passed_on name tokens rest d)
  | inr ((n, v), e) ↦ elim (Bool-cases (same (to_ascii_lowercase n) name)) [
    | inr differs ↦ ground (arith, e, differs, named-passed_on name tokens rest d)
    | inl agrees ↦
        let lower = same→eq (to_ascii_lowercase n) name agrees in
        ground (arith, e, lower, d, named-passed_on name tokens rest d)
  ]
]

-- What is said of the headers `hs`, as a function of what the proxy decided.
abbrev pub FramedBy : Str → Bool → ℕ → Bool → List (Str × Str) → Type 0
FramedBy client_ip keep_alive body_len is_chunked hs =
    (named (lit "connection") hs
      ≡ (lit "Connection", if keep_alive then lit "keep-alive" else lit "close") ∷ [])
    × (named (lit "x-forwarded-for") hs ≡ (lit "X-Forwarded-For", client_ip) ∷ [])
    × (named (lit "transfer-encoding") hs
        ≡ (if is_chunked then (lit "Transfer-Encoding", lit "chunked") ∷ [] else []))
    × (named (lit "content-length") hs
        ≡ (if is_chunked then [] else (lit "Content-Length", decimal body_len) ∷ []))

added-FramedBy :
    (client_ip scheme : Str) (keep_alive : Bool) (body_len : ℕ) (is_chunked : Bool)
    (host : Option Str)
    → FramedBy client_ip keep_alive body_len is_chunked
        (added client_ip scheme keep_alive body_len is_chunked host)
unfolding same to_ascii_lowercase
added-FramedBy ip scheme ka n true none = (refl, refl, refl, refl)
added-FramedBy ip scheme ka n true (some h) = (refl, refl, refl, refl)
added-FramedBy ip scheme ka n false none = (refl, refl, refl, refl)
added-FramedBy ip scheme ka n false (some h) = (refl, refl, refl, refl)

own :
    (name : Str) (tokens lines : List Str) (more : List (Str × Str))
    → (is_forwarded name || is_hop_by_hop name) ≡ true
    → named name (passed_on tokens lines ++ more) ≡ named name more
own name tokens lines more d =
    named-append name (passed_on tokens lines) more
    ∙ ap (λ hs. hs ++ named name more) (named-passed_on name tokens lines d)

-- For any request, the upstream sees one `Connection` header, which says what the proxy decided; one
-- `X-Forwarded-For` header, with the client's address; and a `Transfer-Encoding` header alone for a
-- chunked body, a `Content-Length` header alone, with the length of the body, for any other.
pub upstream_headers-FramedBy :
    (req_headers client_ip scheme : Str) (keep_alive : Bool) (body_len : ℕ) (is_chunked : Bool)
    → FramedBy client_ip keep_alive body_len is_chunked
        (upstream_headers req_headers client_ip scheme keep_alive body_len is_chunked)
unfolding upstream_headers same is_forwarded is_hop_by_hop
upstream_headers-FramedBy req client_ip scheme keep_alive body_len is_chunked =
    let (a, b, c, d) = added-FramedBy client_ip scheme keep_alive body_len is_chunked _ in
    (
      own (lit "connection") _ _ _ refl ∙ a,
      own (lit "x-forwarded-for") _ _ _ refl ∙ b,
      own (lit "transfer-encoding") _ _ _ refl ∙ c,
      own (lit "content-length") _ _ _ refl ∙ d,
    )
