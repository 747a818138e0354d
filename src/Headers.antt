-- ===== src/Headers.antt =====
-- What the HTTP/1 parsers share: crates/migux_core/src/worker/request.rs,
-- crates/migux_proxy/src/proxy/headers.rs and response.rs and crates/migux_static/src/conditional.rs
-- read header lines and comma lists in the same way, by the same text of code.
pub mod Lengths
use migux.Common.{
  ℕ, Bool, true, false, not, ◌&&◌, ◌||◌, List, [], ◌∷◌, ◌++◌, Option, none, some, ◌==◌,
  if◌then◌else◌,
}
use migux.Text.{Str, is_empty, trim, trim_by, split, split_once, to_ascii_lowercase, parse_u64}

-- A line that is not empty and has a colon: its name and its value, both trimmed.
unfoldable pub header_line : Str → Option (Str × Str)
unfolding trim split_once
header_line line = if is_empty (trim line) then none else elim (split_once b':' (trim line)) [
  | none ↦ none
  | some (name, value) ↦ some (trim name, trim value)
]

-- The header lines in order, with their names in lower case.
unfoldable pub fields : List Str → List (Str × Str)
unfolding header_line to_ascii_lowercase
fields [] = []
fields (line ∷ lines) = elim (header_line line) [
  | none ↦ fields lines
  | some (name, value) ↦ (to_ascii_lowercase name, value) ∷ fields lines
]

is_quote : ℕ → Bool
is_quote c = c == 34 || c == 39

keep_tokens : List Str → List Str
unfolding trim trim_by is_quote to_ascii_lowercase
keep_tokens [] = []
keep_tokens (token ∷ tokens) =
    if is_empty (trim token)
    then keep_tokens tokens
    else to_ascii_lowercase (trim_by is_quote (trim token)) ∷ keep_tokens tokens

unfoldable pub split_header_tokens : Str → List Str
unfolding keep_tokens split
split_header_tokens value = keep_tokens (split b',' value)

pub record ContentLengthState : Type 0 where
  pub value : Option ℕ
  pub invalid : Bool
  pub conflict : Bool

abbrev pub no_length : ContentLengthState
no_length = record { value = none; invalid = false; conflict = false }

-- One length of a list, as parsed.
add_length : ContentLengthState → Option ℕ → ContentLengthState
add_length s none = record s { invalid = true }
add_length s (some len) = elim s.value [
  | none ↦ record s { value = some len }
  | some prev ↦ if prev == len then s else record s { conflict = true; invalid = true }
]

-- The loop over the parts of a list.
add_parts : ContentLengthState → List Str → ContentLengthState
unfolding add_length trim parse_u64
add_parts s [] = s
add_parts s (part ∷ parts) =
    add_parts (if is_empty (trim part) then s else add_length s (parse_u64 (trim part))) parts

-- Some part is not empty.
any_part : List Str → Bool
unfolding trim
any_part [] = false
any_part (part ∷ parts) = not (is_empty (trim part)) || any_part parts

unfoldable pub add : ContentLengthState → Str → ContentLengthState
unfolding add_parts any_part split
add s raw =
    let s' = add_parts s (split b',' raw) in
    if any_part (split b',' raw) then s' else record s' { invalid = true }
