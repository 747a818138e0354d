-- ===== src/Static/Conditional/Tests.antt =====
-- A conditional request with the tag of a file.
use migux.Common.{◌≡◌, refl, true, false, ◌||◌, some}
use migux.Text.{Str, lit, same, trim, lines, contains_char}
use migux.Headers.{fields}
use migux.Static.Conditional.{combined_tags, should_return_not_modified}
use migux.Static.Conditional.OwnTag.{weak, should_return_not_modified-weak}

abbrev request : Str
request = lit "GET /a HTTP/1.1\r\nHost: x\r\nIf-None-Match: W/\"12-34\"\r\n"

abbrev value : Str
value = lit "12-34"

request-combined : combined_tags request ≡ weak value
unfolding combined_tags fields lines same
request-combined = refl

value-trim : trim value ≡ value
unfolding trim
value-trim = refl

value-contains : contains_char b',' value ≡ false
unfolding contains_char
value-contains = refl

is_get : (same (lit "GET") (lit "GET") || same (lit "GET") (lit "HEAD")) ≡ true
unfolding same
is_get = refl

should_return_not_modified-weak_example :
    should_return_not_modified (lit "GET") request value ≡ some true
should_return_not_modified-weak_example =
    should_return_not_modified-weak (lit "GET") request value is_get request-combined value-trim
      refl value-contains
