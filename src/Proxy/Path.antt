-- ===== src/Proxy/Path.antt =====
-- crates/migux_proxy/src/proxy/path.rs
use migux.Common.{◌≡◌, [], ◌∷◌, ◌++◌, if◌then◌else◌, length, drop, arith, ◌==◌}
use migux.Text.{Str, starts_with, is_empty}
use migux.Text.Laws.{starts_with-append, drop-append}

pub strip_prefix_path : Str → Str → Str
strip_prefix_path req_path location_path =
    if starts_with req_path location_path
    then (let tail = drop (length location_path) req_path in
        if is_empty tail
        then b'/' ∷ []
        else if starts_with tail (b'/' ∷ [])
        then tail
        else b'/' ∷ tail)
    else req_path

-- What follows the location, with a slash before it.
abbrev pub rooted : Str → Str
rooted [] = b'/' ∷ []
rooted (c ∷ t) = if c == b'/' then c ∷ t else b'/' ∷ c ∷ t

-- A path that starts with the location's loses exactly this prefix, and gets a slash in front
-- where the rest has none.
pub strip_prefix_path_under : (loc tail : Str) → strip_prefix_path (loc ++ tail) loc ≡ rooted tail
unfolding strip_prefix_path starts_with
strip_prefix_path_under loc [] = ground (arith, starts_with-append loc [], drop-append loc [])
strip_prefix_path_under loc (c ∷ t) =
    ground (arith, starts_with-append loc (c ∷ t), drop-append loc (c ∷ t))
