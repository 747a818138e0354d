-- ===== src/Static/Fs/Safety.antt =====
-- Which files a request can name.
use migux.Common.{
  ℕ, ◌≡◌, refl, sym, ap, ◌∙◌, ◌⊎◌, inl, inr, true, false, ◌&&◌, [], ◌∷◌, ◌++◌, some, ◌==◌, length,
  drop, arith, Bool-cases,
}
use migux.Text.{Str, lit, same, starts_with}
use migux.Text.Laws.{starts_with-drop, starts_with-append, drop-append}
use migux.Proxy.Upstream.{ends_with_char}
use migux.Static.Fs.{
  climbs, decode_path_for_check, is_safe_request_path, strip_query, below, resolve_relative_path,
}
use migux.Static.Fs.Segments.{Reading, at_start, dot, other, reads, reads-climbs, reads-decode}

reads-append :
    (r : Reading) (loc t : Str)
    → ends_with_char b'/' loc ≡ true
    → reads r (loc ++ t) ≡ false
    → reads at_start t ≡ false
unfolding reads ends_with_char
reads-append r [] t e h = ground (arith, e)
reads-append r (c ∷ []) t e h = ground (arith, e, h)
reads-append r (c ∷ d ∷ s) t e h = ground (
  arith,
  e,
  h,
  reads-append at_start (d ∷ s) t,
  reads-append (dot r) (d ∷ s) t,
  reads-append other (d ∷ s) t,
)

-- A path that passes the check has no segment "..".
safe-climbs : (path : Str) → is_safe_request_path path ≡ true → climbs path ≡ false
unfolding is_safe_request_path
safe-climbs path h = elim (Bool-cases (climbs path)) [
  | inr clean ↦ clean
  | inl found ↦
      let decoded : climbs (decode_path_for_check path) ≡ true =
        sym (reads-climbs (decode_path_for_check path))
        ∙ reads-decode at_start path (reads-climbs path ∙ found) in
      absurd (ground (arith, h, decoded))
]

reads_after :
    (c : ℕ) (t : Str)
    → (c == b'/') ≡ true
    → reads at_start (c ∷ t) ≡ false
    → reads at_start t ≡ false
unfolding reads
reads_after c t slash h = ground (arith, slash, h)

below-climbs :
    (tail index : Str)
    → climbs tail ≡ false
    → (below tail index ≡ index) ⊎ (climbs (below tail index) ≡ false)
unfolding below starts_with
below-climbs [] index h = inl (ground arith)
below-climbs (c ∷ []) index h = elim (Bool-cases (c == b'/')) [
  | inl slash ↦ inl (ground (arith, slash))
  | inr plain ↦ inr (ap climbs {y = c ∷ []} (ground (arith, plain)) ∙ h)
]
below-climbs (c ∷ d ∷ t) index h = elim (Bool-cases (c == b'/')) [
  | inl slash ↦ inr (
      ap climbs {y = d ∷ t} (ground (arith, slash))
      ∙ sym (reads-climbs (d ∷ t))
      ∙ reads_after c (d ∷ t) slash (reads-climbs (c ∷ d ∷ t) ∙ h))
  | inr plain ↦ inr (ap climbs {y = c ∷ d ∷ t} (ground (arith, plain)) ∙ h)
]

resolved :
    (path loc index rel : Str)
    → is_safe_request_path (strip_query path) ≡ true
    → starts_with (strip_query path) loc ≡ true
    → resolve_relative_path path loc index ≡ some rel
    → (rel ≡ index) ⊎ (rel ≡ below (drop (length loc) (strip_query path)) index)
unfolding resolve_relative_path
resolved path loc index rel safe inside h =
    let req = strip_query path in
    elim (Bool-cases (same req (lit "/") && same loc (lit "/"))) [
      | inl root ↦ inl (ground (arith, h, safe, root))
      | inr deeper ↦ elim (Bool-cases (same req loc)) [
        | inl here ↦ inl (ground (arith, h, safe, deeper, here))
        | inr further ↦ inr (ground (arith, h, safe, deeper, further, inside))
      ]
    ]

-- Where the location's path ends in a slash and a request path is resolved to a file, the file is
-- the index or a path without a segment "..".
pub resolve-safe :
    (path location_path index rel : Str)
    → ends_with_char b'/' location_path ≡ true
    → resolve_relative_path path location_path index ≡ some rel
    → (rel ≡ index) ⊎ (climbs rel ≡ false)
unfolding resolve_relative_path
resolve-safe path loc index rel e h =
    let req = strip_query path in
    elim (Bool-cases (is_safe_request_path req)) [
      | inr unsafe ↦ absurd (ground (arith, h, unsafe))
      | inl safe ↦ elim (Bool-cases (starts_with req loc)) [
        | inr outside ↦ inl (ground (arith, h, safe, outside))
        | inl inside ↦
            let tail = drop (length loc) req in
            let clean : climbs tail ≡ false =
              sym (reads-climbs tail)
              ∙ reads-append at_start loc tail e (
                  ap (reads at_start) (sym (starts_with-drop req loc inside))
                  ∙ reads-climbs req
                  ∙ safe-climbs req safe) in
            elim (below-climbs tail index clean) [
              | inl is_index ↦ inl (ground (arith, h, safe, inside, is_index))
              | inr stays ↦ elim (resolved path loc index rel safe inside h) [
                | inl is_index ↦ inl is_index
                | inr is_below ↦ inr (ap climbs is_below ∙ stays)
              ]
            ]
      ]
    ]

same-append : (loc : Str) (c : ℕ) (t : Str) → same (loc ++ c ∷ t) loc ≡ false
unfolding same
same-append [] c t = refl
same-append (d ∷ loc) c t = ground (arith, same-append loc c t)

-- A path that goes on after the location's, which is not "/", with "..", that has no query and passes
-- the check, names the file that follows the location's path: it starts with "..".
pub resolve-climbs :
    (loc tail index : Str)
    → strip_query (loc ++ b'.' ∷ b'.' ∷ tail) ≡ loc ++ b'.' ∷ b'.' ∷ tail
    → is_safe_request_path (loc ++ b'.' ∷ b'.' ∷ tail) ≡ true
    → same loc (lit "/") ≡ false
    → resolve_relative_path (loc ++ b'.' ∷ b'.' ∷ tail) loc index ≡ some (b'.' ∷ b'.' ∷ tail)
unfolding resolve_relative_path below starts_with
resolve-climbs loc tail index q safe root =
    rw (resolve_relative_path, q, safe, root)
      (ground (
        arith,
        same-append loc b'.' (b'.' ∷ tail),
        starts_with-append loc (b'.' ∷ b'.' ∷ tail),
        drop-append loc (b'.' ∷ b'.' ∷ tail),
      ))
