-- ===== src/Static/Fs/Tests.antt =====
-- The theorems of the path checks on two locations.
use migux.Common.{◌≡◌, ◌⊎◌, refl, true, false, ◌++◌, some}
use migux.Text.{lit, same, split, starts_with}
use migux.Proxy.Upstream.{ends_with_char}
use migux.Static.Fs.{
  climbs, is_safe_request_path, strip_query, resolve_relative_path, decode_path_for_check,
}
use migux.Static.Fs.Safety.{resolve-safe, resolve-climbs}

assets-slash : ends_with_char b'/' (lit "/assets/") ≡ true
unfolding ends_with_char
assets-slash = refl

assets-resolve :
    resolve_relative_path (lit "/assets/a.css") (lit "/assets/") (lit "index.html")
    ≡ some (lit "a.css")
unfolding resolve_relative_path is_safe_request_path decode_path_for_check strip_query starts_with
    same
assets-resolve = refl

resolve-safe_example : (lit "a.css" ≡ lit "index.html") ⊎ (climbs (lit "a.css") ≡ false)
resolve-safe_example =
    resolve-safe (lit "/assets/a.css") (lit "/assets/") (lit "index.html") (lit "a.css")
      assets-slash assets-resolve

no_query : strip_query (lit "/static" ++ lit "../etc") ≡ lit "/static" ++ lit "../etc"
unfolding strip_query
no_query = refl

passes : is_safe_request_path (lit "/static" ++ lit "../etc") ≡ true
unfolding is_safe_request_path decode_path_for_check starts_with split same
passes = refl

not_root : same (lit "/static") (lit "/") ≡ false
unfolding same
not_root = refl

resolve-climbs_example :
    resolve_relative_path (lit "/static" ++ lit "../etc") (lit "/static") (lit "index.html")
    ≡ some (lit "../etc")
resolve-climbs_example =
    resolve-climbs (lit "/static") (lit "/etc") (lit "index.html") no_query passes not_root
