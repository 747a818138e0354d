-- ===== src/Static/Conditional/OwnTag.antt =====
-- A client that sends back the server's tag is told that nothing changed.
use migux.Common.{
  ℕ, ◌≡◌, refl, ap, ◌∙◌, Bool, true, false, ◌||◌, [], ◌∷◌, ◌++◌, some, ◌==◌, length, arith,
}
use migux.Text.{
  Str, lit, same, same_self, is_empty, is_whitespace, trim, trim_by, trim_start_by, trim_end_by,
  starts_with, split, contains_char,
}
use migux.Proxy.Upstream.{ends_with_char, inner}
use migux.Static.Conditional.{
  strip_weak, unquote, is_quoted, unless_blank, normalize_etag_token, tags_from,
  parse_if_none_match_value, parse_if_none_match, combined_tags, tags, should_return_not_modified,
  satisfied,
}

trim_end-last :
    (p : ℕ → Bool) (s : Str) (c : ℕ) → p c ≡ false → trim_end_by p (s ++ c ∷ []) ≡ s ++ c ∷ []
unfolding trim_end_by
trim_end-last p [] c h = ground (arith, h)
trim_end-last p (x ∷ []) c h = ground (arith, h)
trim_end-last p (x ∷ y ∷ s) c h = ground (arith, trim_end-last p (y ∷ s) c h)

trim-ends :
    (d c : ℕ) (s : Str)
    → is_whitespace d ≡ false
    → is_whitespace c ≡ false
    → trim (d ∷ s ++ c ∷ []) ≡ d ∷ s ++ c ∷ []
unfolding trim trim_by trim_start_by
trim-ends d c s hd hc =
    ap (trim_end_by is_whitespace) {x = trim_start_by is_whitespace (d ∷ s ++ c ∷ [])}
      {y = d ∷ s ++ c ∷ []} (ground (arith, hd))
    ∙ trim_end-last is_whitespace (d ∷ s) c hc

ends_with-last : (c : ℕ) (s : Str) → ends_with_char c (s ++ c ∷ []) ≡ true
unfolding ends_with_char
ends_with-last c [] = ground arith
ends_with-last c (x ∷ []) = ground arith
ends_with-last c (x ∷ y ∷ s) = ends_with-last c (y ∷ s)

inner-append : (c : ℕ) (s : Str) → inner (b'x' ∷ s ++ c ∷ []) ≡ s
inner-append c [] = refl
inner-append c (x ∷ []) = refl
inner-append c (x ∷ y ∷ s) = ap (◌∷◌ x) (inner-append c (y ∷ s))

split-one : (c : ℕ) (s : Str) → contains_char c s ≡ false → split c s ≡ s ∷ []
unfolding split contains_char
split-one c [] h = refl
split-one c (x ∷ s) h = ground (arith, h, split-one c s)

-- The tag as the header `ETag` writes it.
abbrev pub weak : Str → Str
weak value = b'W' ∷ b'/' ∷ 34 ∷ value ++ 34 ∷ []

weak-trim : (value : Str) → trim (weak value) ≡ weak value
unfolding is_whitespace
weak-trim value = trim-ends b'W' 34 (b'/' ∷ 34 ∷ value) refl refl

strip_weak-weak : (value : Str) → strip_weak (weak value) ≡ 34 ∷ value ++ 34 ∷ []
unfolding strip_weak starts_with is_whitespace
strip_weak-weak value = trim-ends 34 34 value refl refl

unquote-quoted : (value : Str) → unquote (34 ∷ value ++ 34 ∷ []) ≡ some value
unfolding unquote is_quoted starts_with
unquote-quoted value =
    ground (arith, ends_with-last 34 (34 ∷ value), inner-append 34 value, length_two value)
  where
    length_two : (s : Str) → (length (34 ∷ s ++ 34 ∷ []) == 1) ≡ false
    length_two [] = refl
    length_two (x ∷ s) = ground arith

contains-last :
    (c : ℕ) (s : Str)
    → contains_char c s ≡ false
    → (34 == c) ≡ false
    → contains_char c (s ++ 34 ∷ []) ≡ false
unfolding contains_char
contains-last c [] h ne = ground (arith, ne)
contains-last c (x ∷ s) h ne = ground (arith, h, ne, contains-last c s)

module _ (value : Str) (trimmed : trim value ≡ value) (nonempty : is_empty value ≡ false)
    (no_comma : contains_char b',' value ≡ false) where
  normalize-weak : normalize_etag_token (weak value) ≡ some (some value)
  unfolding normalize_etag_token unless_blank
  normalize-weak =
      ground
        (arith, weak-trim value, strip_weak-weak value, unquote-quoted value, trimmed, nonempty)

  split-weak : split b',' (weak value) ≡ weak value ∷ []
  unfolding contains_char
  split-weak = split-one b',' (weak value) (contains-last b',' value no_comma refl)

  parse-weak : parse_if_none_match_value (weak value) ≡ tags (value ∷ [])
  unfolding parse_if_none_match_value tags_from same
  parse-weak = ground (arith, weak-trim value, split-weak, normalize-weak)

-- For a `GET` or `HEAD` whose `If-None-Match` headers join to the weak tag of a value that is not
-- empty, not padded with blanks and without a comma, the test against this value holds.
pub should_return_not_modified-weak :
    (method headers value : Str)
    → (same method (lit "GET") || same method (lit "HEAD")) ≡ true
    → combined_tags headers ≡ weak value
    → trim value ≡ value
    → is_empty value ≡ false
    → contains_char b',' value ≡ false
    → should_return_not_modified method headers value ≡ some true
unfolding should_return_not_modified parse_if_none_match satisfied
should_return_not_modified-weak method headers value m e trimmed nonempty no_comma =
    ground (arith, m, e, parse-weak value trimmed nonempty no_comma, same_self value)
