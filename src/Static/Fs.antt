-- ===== src/Static/Fs.antt =====
-- crates/migux_static/src/fs.rs: from a request path to a file below the root. A path is the list of
-- its UTF-8 bytes; what the check decodes is one character for each byte.
pub mod Segments
pub mod Safety
mod Tests
use migux.Common.{
  ℕ, ◌+◌, ◌*◌, ◌-◌, Bool, true, false, not, ◌&&◌, ◌||◌, List, [], ◌∷◌, ◌++◌, Option, none, some,
  ◌==◌, leb, if◌then◌else◌, length, drop, any,
}
use migux.Text.{Str, lit, same, is_empty, starts_with, split, contains_char}

from_hex : ℕ → Option ℕ
from_hex byte =
    if leb b'0' byte && leb byte b'9'
    then some (byte - b'0')
    else if leb b'a' byte && leb byte b'f'
    then some (byte - b'a' + 10)
    else if leb b'A' byte && leb byte b'F'
    then some (byte - b'A' + 10)
    else none

-- The value of two digits; on four bits `(h1 << 4) | h2` is the sum.
hex_value : Option ℕ → Option ℕ → Option ℕ
hex_value (some h1) (some h2) = some (h1 * 16 + h2)
hex_value (some h1) none = none
hex_value none h2 = none

-- What an escape stands for in the check.
unescaped : ℕ → ℕ → ℕ → Str
unescaped value a b =
    if value == b'.' || value == b'/' || value == 92 then value ∷ [] else b'%' ∷ a ∷ b ∷ []

pub decode_path_for_check : Str → Str
decode_path_for_check [] = []
decode_path_for_check (c ∷ []) = c ∷ []
decode_path_for_check (c ∷ a ∷ []) = c ∷ a ∷ []
decode_path_for_check (c ∷ a ∷ b ∷ s) =
    let plain = decode_path_for_check (a ∷ b ∷ s) in
    let escape = decode_path_for_check s in
    if c == b'%'
    then elim (hex_value (from_hex a) (from_hex b)) [
      | none ↦ c ∷ plain
      | some value ↦ unescaped value a b ++ escape
    ]
    else c ∷ plain

-- `contains` for two characters in a row.
contains_pair : ℕ → ℕ → Str → Bool
contains_pair c d [] = false
contains_pair c d (x ∷ s) = (x == c && starts_with s (d ∷ [])) || contains_pair c d s

-- Some segment is "..".
abbrev pub climbs : Str → Bool
climbs path = any (λ segment. same segment (lit "..")) (split b'/' path)

pub is_safe_request_path : Str → Bool
unfolding contains_pair contains_char
is_safe_request_path path =
    let decoded = decode_path_for_check path in
    if contains_pair b'/' b'/' decoded
    then false
    else if contains_char 92 decoded
    then false
    else not (climbs decoded)

abbrev first_part : List Str → Str → Str
first_part [] path = path
first_part (p ∷ ps) path = p

pub strip_query : Str → Str
unfolding split
strip_query path = first_part (split b'?' path) path

-- The rest of the path after the location's, without a slash before it, or the index.
below : Str → Str → Str
below tail index =
    let tail' = if starts_with tail (b'/' ∷ []) then drop 1 tail else tail in
    if is_empty tail' then index else tail'

pub resolve_relative_path : Str → Str → Str → Option Str
unfolding below
resolve_relative_path path location_path index =
    let req_path = strip_query path in
    if not (is_safe_request_path req_path)
    then none
    else if same req_path (lit "/") && same location_path (lit "/")
    then some index
    else if same req_path location_path
    then some index
    else if starts_with req_path location_path
    then some (below (drop (length location_path) req_path) index)
    else none
