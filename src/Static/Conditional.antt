-- ===== src/Static/Conditional.antt =====
-- crates/migux_static/src/conditional.rs: the header `If-None-Match`, and `If-Modified-Since` in Modified.
pub mod OwnTag
pub mod Modified
mod Tests
use migux.Common.{
  ℕ, Bool, true, false, not, ◌&&◌, ◌||◌, List, [], ◌∷◌, ◌++◌, Option, none, some, ◌==◌,
  if◌then◌else◌, length, drop, any,
}
use migux.Text.{Str, lit, same, is_empty, trim, starts_with, split, lines}
use migux.Headers.{fields}
use migux.Proxy.Upstream.{ends_with_char, inner}

-- What the parse of the header gives: a panic, `None`, or one of the two values of `IfNoneMatch`.
pub data IfNoneMatch : Type 0 where
  panics no_condition any_tag : IfNoneMatch
  tags : List Str → IfNoneMatch

strip_weak : Str → Str
unfolding trim starts_with
strip_weak tag =
    if starts_with tag (lit "W/") || starts_with tag (lit "w/") then trim (drop 2 tag) else tag

is_quoted : Str → Bool
unfolding starts_with ends_with_char
is_quoted tag =
    (starts_with tag (34 ∷ []) && ends_with_char 34 tag)
    || (starts_with tag (39 ∷ []) && ends_with_char 39 tag)

-- `&tag[1..tag.len() - 1]` on a quoted text; on one quote alone it panics: `none`.
unquote : Str → Option Str
unfolding is_quoted
unquote tag =
    if is_quoted tag then (if length tag == 1 then none else some (inner tag)) else some tag

-- The last step: a text that is blank is no tag.
unless_blank : Option Str → Option (Option Str)
unfolding trim
unless_blank none = none
unless_blank (some tag) = if is_empty (trim tag) then some none else some (some (trim tag))

pub normalize_etag_token : Str → Option (Option Str)
unfolding unless_blank unquote strip_weak trim
normalize_etag_token token =
    if is_empty (trim token) then some none else unless_blank (unquote (strip_weak (trim token)))

-- The loop over the tokens, from the tags found so far.
tags_from : List Str → List Str → IfNoneMatch
unfolding normalize_etag_token trim
tags_from found [] = if is_empty found then no_condition else tags found
tags_from found (token ∷ rest) =
    let skip = tags_from found rest in
    if is_empty (trim token)
    then skip
    else if same (trim token) (lit "*")
    then any_tag
    else elim (normalize_etag_token (trim token)) [
      | none ↦ panics
      | some none ↦ skip
      | some (some tag) ↦ tags_from (found ++ tag ∷ []) rest
    ]

parse_if_none_match_value : Str → IfNoneMatch
unfolding tags_from trim split
parse_if_none_match_value value =
    if is_empty (trim value)
    then no_condition
    else if same (trim value) (lit "*")
    then any_tag
    else tags_from [] (split b',' (trim value))

combine : Str → List (Str × Str) → Str
combine combined [] = combined
combine combined ((name, value) ∷ fs) =
    combine
      (if same name (lit "if-none-match")
        then (if is_empty combined then value else combined ++ b',' ∷ value)
        else combined)
      fs

abbrev pub after_first : List Str → List Str
after_first [] = []
after_first (line ∷ rest) = rest

-- The values of all the `If-None-Match` headers, joined by commas.
pub combined_tags : Str → Str
unfolding combine
combined_tags headers = combine [] (fields (after_first (lines headers)))

parse_if_none_match : Str → IfNoneMatch
unfolding parse_if_none_match_value
parse_if_none_match headers =
    if is_empty (combined_tags headers)
    then no_condition
    else parse_if_none_match_value (combined_tags headers)

-- `none` is the panic.
satisfied : IfNoneMatch → Str → Option Bool
satisfied panics etag_value = none
satisfied no_condition etag_value = some false
satisfied any_tag etag_value = some true
satisfied (tags found) etag_value = some (any (λ tag. same tag etag_value) found)

pub should_return_not_modified : Str → Str → Str → Option Bool
unfolding parse_if_none_match satisfied
should_return_not_modified method headers etag_value =
    if not (same method (lit "GET")) && not (same method (lit "HEAD"))
    then some false
    else satisfied (parse_if_none_match headers) etag_value
