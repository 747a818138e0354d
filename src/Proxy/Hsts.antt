-- ===== src/Proxy/Hsts.antt =====
-- crates/migux_proxy/src/proxy/response.rs, `maybe_inject_hsts`: a security header for the client. The
-- bytes of the headers end in two line breaks; how they are read as a text is an argument.
pub mod Lost
mod Tests
use migux.Common.{
  ℕ, ◌-◌, Bool, List, [], ◌∷◌, ◌++◌, Option, none, some, if◌then◌else◌, length, take, any,
}
use migux.Text.{Str, lit, same, lines}
use migux.Headers.{fields}

abbrev pub rest_lines : List Str → List Str
rest_lines [] = []
rest_lines (line ∷ rest) = rest

pub headers_contain_hsts : (List ℕ → Str) → List ℕ → Bool
headers_contain_hsts decode headers_bytes =
    any (λ f. same f.0 (lit "strict-transport-security"))
      (fields (rest_lines (lines (decode (take (length headers_bytes - 4) headers_bytes)))))

unfoldable pub maybe_inject_hsts : (List ℕ → Str) → List ℕ → Option Str → List ℕ
unfolding headers_contain_hsts
maybe_inject_hsts decode headers_bytes none = headers_bytes
maybe_inject_hsts decode headers_bytes (some hsts_value) =
    if headers_contain_hsts decode headers_bytes
    then headers_bytes
    else take (length headers_bytes - 4) headers_bytes
      ++ lit "Strict-Transport-Security: "
      ++ hsts_value
      ++ lit "\r\n\r\n"
