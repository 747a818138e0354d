-- ===== src/Proxy/Hsts/Tests.antt =====
-- A response with one header.
use migux.Common.{ℕ, ◌≡◌, refl, List, ◌++◌, some}
use migux.Text.{Str, lit, same, lines}
use migux.Headers.{fields}
use migux.Proxy.Hsts.{headers_contain_hsts, maybe_inject_hsts}
use migux.Proxy.Hsts.Lost.{maybe_inject_hsts-lost}

abbrev as_ascii : List ℕ → Str
as_ascii bytes = bytes

abbrev head : List ℕ
head = lit "HTTP/1.1 200 OK\r\nServer: x"

maybe_inject_hsts-lost_example :
    headers_contain_hsts as_ascii
      (maybe_inject_hsts as_ascii (head ++ lit "\r\n\r\n") (some (lit "max-age=1")))
    ≡ headers_contain_hsts as_ascii (head ++ lit "\r\n\r\n")
maybe_inject_hsts-lost_example =
    maybe_inject_hsts-lost as_ascii (lit "HTTP/1.1 200 OK\r") (lit "Server") (lit " x")
      (lit "max-age=1") refl refl refl refl refl refl

glued_line :
    maybe_inject_hsts as_ascii (head ++ lit "\r\n\r\n") (some (lit "max-age=1"))
    ≡ head ++ lit "Strict-Transport-Security: max-age=1\r\n\r\n"
unfolding maybe_inject_hsts fields lines same
glued_line = refl
