-- ===== src/Static/Conditional/Modified.antt =====
-- crates/migux_static/src/conditional.rs: the header `If-Modified-Since`. The parser of dates gives
-- the seconds from the epoch to the date.
mod Tests
use migux.Common.{
  ℕ, ◌*◌, ◌/◌, ◌^◌, Bool, true, false, not, ◌&&◌, List, [], ◌∷◌, Option, none, some, leb,
  if◌then◌else◌,
}
use migux.Text.{Str, lit, same, is_empty, lines}
use migux.Headers.{fields}
use migux.Static.Etag.{SystemTime, before_epoch, since_epoch}
use migux.Static.Conditional.{after_first}

unfoldable pub truncate_to_seconds : SystemTime → ℕ
truncate_to_seconds before_epoch = 0
truncate_to_seconds (since_epoch nanos) = nanos / 10 ^ 9

-- The first such header decides.
first_date : (Str → Option ℕ) → List (Str × Str) → Option ℕ
first_date parse_http_date [] = none
first_date parse_http_date ((name, value) ∷ fs) =
    if same name (lit "if-modified-since")
    then (if is_empty value then none else parse_http_date value)
    else first_date parse_http_date fs

unfoldable pub parse_if_modified_since : (Str → Option ℕ) → Str → Option ℕ
unfolding first_date
parse_if_modified_since parse_http_date headers =
    first_date parse_http_date (fields (after_first (lines headers)))

abbrev not_after : Option SystemTime → ℕ → Bool
unfolding truncate_to_seconds
not_after none client_date = false
not_after (some mtime) client_date = leb (truncate_to_seconds mtime) client_date

pub should_return_not_modified_if_modified_since :
    (Str → Option ℕ) → Str → Str → Option SystemTime → Bool
unfolding parse_if_modified_since not_after
should_return_not_modified_if_modified_since parse_http_date method headers file_mtime =
    if not (same method (lit "GET")) && not (same method (lit "HEAD"))
    then false
    else elim (parse_if_modified_since parse_http_date headers) [
      | none ↦ false
      | some client_date ↦ not_after file_mtime client_date
    ]
