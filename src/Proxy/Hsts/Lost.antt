-- ===== src/Proxy/Hsts/Lost.antt =====
-- What becomes of the header that `maybe_inject_hsts` adds.
use mathlib.Core.List.{append_assoc}
use migux.Common.{
  ℕ, ◌-◌, ◌≡◌, refl, sym, ap, ◌∙◌, Bool, true, false, ◌||◌, List, [], ◌∷◌, ◌++◌, some, length,
  length-append, take, any, arith, Bool-cases, Option-cases, inl, inr,
}
use migux.Text.{
  to_ascii_lowercase, Str, lit, same, is_empty, lines, trim, trim_start_by, trim_end_by,
  is_whitespace,
}
use migux.Text.Lines.{
  lacks, lacks-append, split_once-first, whole_lines, lines-last, trim-stop, trim_start-lacks,
}
use migux.Stream.Window.{take_prefix}
use migux.Headers.{fields, header_line}
use migux.Proxy.Hsts.{headers_contain_hsts, maybe_inject_hsts, rest_lines}

abbrev hsts_field : Str × Str → Bool
hsts_field f = same f.0 (lit "strict-transport-security")

-- The name of a header line is what stands before its first colon.
header_line_lem :
    (name value : Str)
    → lacks b':' name ≡ true
    → header_line (name ++ b':' ∷ value)
      ≡ some (trim (trim_start_by is_whitespace name), trim (trim_end_by is_whitespace value))
unfolding header_line
header_line_lem name value h =
    let start = trim_start_by is_whitespace name in
    let rest = trim_end_by is_whitespace value in
    rw (trim-stop b':' refl name value) (
      rw (not_empty start rest)
        (rw (split_once-first b':' start rest (trim_start-lacks b':' name h)) refl))
  where
    not_empty : (s t : Str) → is_empty (s ++ b':' ∷ t) ≡ false
    not_empty [] t = refl
    not_empty (x ∷ s) t = refl

one_field :
    (name v w : Str)
    → lacks b':' name ≡ true
    → any hsts_field (fields ((name ++ b':' ∷ v) ∷ []))
      ≡ any hsts_field (fields ((name ++ b':' ∷ w) ∷ []))
unfolding fields
one_field name v w h = rw (header_line_lem name v h, any) (rw (header_line_lem name w h, any) refl)

same_fields :
    (ls : List Str) (l m : Str)
    → any hsts_field (fields (l ∷ [])) ≡ any hsts_field (fields (m ∷ []))
    → any hsts_field (fields (ls ++ l ∷ [])) ≡ any hsts_field (fields (ls ++ m ∷ []))
unfolding fields
same_fields [] l m h = h
same_fields (x ∷ ls) l m h = elim (Option-cases (header_line x)) [
  | inl n ↦ rw (n, any) (same_fields ls l m h)
  | inr (f, n) ↦
      rw (n, any) (ap (λ b. hsts_field (to_ascii_lowercase f.0, f.1) || b) (same_fields ls l m h))
]

skip_first :
    (ls : List Str) (l m : Str)
    → any hsts_field (fields (l ∷ [])) ≡ any hsts_field (fields (m ∷ []))
    → any hsts_field (fields (rest_lines (ls ++ l ∷ [])))
      ≡ any hsts_field (fields (rest_lines (ls ++ m ∷ [])))
skip_first [] l m h = refl
skip_first (x ∷ ls) l m h = same_fields ls l m h

reads :
    (decode : List ℕ → Str) (head : List ℕ)
    → decode head ≡ head
    → headers_contain_hsts decode (head ++ lit "\r\n\r\n")
      ≡ any hsts_field (fields (rest_lines (lines head)))
unfolding headers_contain_hsts
reads decode head h =
    let size : length (head ++ lit "\r\n\r\n") - 4 ≡ length head =
      omega (arith, length-append head (lit "\r\n\r\n")) in
    ap (λ s. any hsts_field (fields (rest_lines (lines (decode s)))))
      (ap (λ n. take n (head ++ lit "\r\n\r\n")) size ∙ take_prefix head (lit "\r\n\r\n"))
    ∙ ap (λ s. any hsts_field (fields (rest_lines (lines s)))) h

no_new_field :
    (before name v w : Str)
    → lacks b':' name ≡ true
    → lacks 10 name ≡ true
    → lacks 10 v ≡ true
    → lacks 10 w ≡ true
    → any hsts_field (fields (rest_lines (lines (before ++ 10 ∷ (name ++ b':' ∷ v)))))
      ≡ any hsts_field (fields (rest_lines (lines (before ++ 10 ∷ (name ++ b':' ∷ w)))))
no_new_field before name v w colon n p q =
    ap (λ ls. any hsts_field (fields (rest_lines ls))) (by_lines v p)
    ∙ skip_first (whole_lines before) (name ++ b':' ∷ v) (name ++ b':' ∷ w)
        (one_field name v w colon)
    ∙ ap (λ ls. any hsts_field (fields (rest_lines ls))) (sym (by_lines w q))
  where
    not_empty : (s t : Str) → is_empty (s ++ b':' ∷ t) ≡ false
    not_empty [] t = refl
    not_empty (x ∷ s) t = refl

    by_lines :
        (t : Str)
        → lacks 10 t ≡ true
        → lines (before ++ 10 ∷ (name ++ b':' ∷ t)) ≡ whole_lines before ++ (name ++ b':' ∷ t) ∷ []
    by_lines t h =
        lines-last before (name ++ b':' ∷ t) (lacks-append 10 name (b':' ∷ t) n h)
          (not_empty name t)

-- The header goes behind the value of the last line.
glued :
    (before name value s : Str)
    → before ++ 10 ∷ (name ++ b':' ∷ value) ++ s ≡ before ++ 10 ∷ (name ++ b':' ∷ (value ++ s))
glued before name value s =
    append_assoc before (10 ∷ (name ++ b':' ∷ value)) s
    ∙ ap (λ t. before ++ 10 ∷ t) (append_assoc name (b':' ∷ value) s)

injected :
    (decode : List ℕ → Str) (head hsts_value : List ℕ)
    → headers_contain_hsts decode (head ++ lit "\r\n\r\n") ≡ false
    → maybe_inject_hsts decode (head ++ lit "\r\n\r\n") (some hsts_value)
      ≡ head ++ (lit "Strict-Transport-Security: " ++ hsts_value) ++ lit "\r\n\r\n"
unfolding maybe_inject_hsts
injected decode head hsts_value h =
    let size : length (head ++ lit "\r\n\r\n") - 4 ≡ length head =
      omega (arith, length-append head (lit "\r\n\r\n")) in
    let cut : take (length (head ++ lit "\r\n\r\n") - 4) (head ++ lit "\r\n\r\n") ≡ head =
      ap (λ n. take n (head ++ lit "\r\n\r\n")) size ∙ take_prefix head (lit "\r\n\r\n") in
    rw (h, maybe_inject_hsts)
      (ap (λ t. t ++ lit "Strict-Transport-Security: " ++ hsts_value ++ lit "\r\n\r\n") cut
        ∙ ap (λ t. t ++ lit "\r\n\r\n")
            (append_assoc head (lit "Strict-Transport-Security: ") hsts_value))

-- The header is lost. Where the decoder leaves a head as it is, with and without the new header at its
-- end, as it does in ASCII, where the last line of the head has a colon, and where the value is on one
-- line: what goes to the client has a `Strict-Transport-Security` header, by the code's own test for it,
-- exactly if the upstream has sent one, since the new header only lengthens the last line's value.
pub maybe_inject_hsts-lost :
    (decode : List ℕ → Str) (before name value hsts_value : List ℕ)
    → lacks b':' name ≡ true
    → lacks 10 name ≡ true
    → lacks 10 value ≡ true
    → lacks 10 hsts_value ≡ true
    → let head = before ++ 10 ∷ (name ++ b':' ∷ value) in
      let longer =
        before
        ++ 10 ∷ (name ++ b':' ∷ (value ++ (lit "Strict-Transport-Security: " ++ hsts_value))) in
      decode head ≡ head
      → decode longer ≡ longer
      → headers_contain_hsts decode
          (maybe_inject_hsts decode (head ++ lit "\r\n\r\n") (some hsts_value))
        ≡ headers_contain_hsts decode (head ++ lit "\r\n\r\n")
unfolding maybe_inject_hsts
maybe_inject_hsts-lost decode before name value hsts_value colon n p q d e =
    let head = before ++ 10 ∷ (name ++ b':' ∷ value) in
    let header = lit "Strict-Transport-Security: " ++ hsts_value in
    let longer = before ++ 10 ∷ (name ++ b':' ∷ (value ++ header)) in
    let one_line : lacks 10 (value ++ header) ≡ true =
      lacks-append 10 value header p
        (lacks-append 10 (lit "Strict-Transport-Security: ") hsts_value refl q) in
    elim (Bool-cases (headers_contain_hsts decode (head ++ lit "\r\n\r\n"))) [
      | inl c ↦ rw c c
      | inr c ↦
          ap (headers_contain_hsts decode) (
            injected decode head hsts_value c
            ∙ ap (λ t. t ++ lit "\r\n\r\n") (glued before name value header))
          ∙ reads decode longer e
          ∙ no_new_field before name (value ++ header) value colon n one_line p
          ∙ sym (reads decode head d)
    ]
