-- ===== src/Static/Conditional/Modified/Tests.antt =====
-- A conditional request with a date.
use migux.Common.{ℕ, ◌≡◌, refl, true, false, Option, some}
use migux.Text.{Str, lit, lines, same}
use migux.Headers.{fields}
use migux.Static.Etag.{since_epoch}
use migux.Static.Conditional.Modified.{should_return_not_modified_if_modified_since}

abbrev date : Str → Option ℕ
date s = some 5

abbrev request : Str
request = lit "GET /a HTTP/1.1\r\nHost: x\r\nIf-Modified-Since: five\r\n"

not_modified :
    should_return_not_modified_if_modified_since date
      (lit "GET")
      request
      (some (since_epoch 5_999_999_999))
    ≡ true
unfolding should_return_not_modified_if_modified_since fields lines same
not_modified = refl

modified :
    should_return_not_modified_if_modified_since date
      (lit "GET")
      request
      (some (since_epoch 6_000_000_000))
    ≡ false
unfolding should_return_not_modified_if_modified_since fields lines same
modified = refl
