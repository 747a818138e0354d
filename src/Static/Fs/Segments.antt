-- ===== src/Static/Fs/Segments.antt =====
-- Segments of a path read off character by character, through the decoding of the check.
use migux.Common.{
  ℕ, ◌≡◌, refl, ◌∙◌, Bool, true, false, ◌||◌, List, [], ◌∷◌, ◌++◌, some, ◌==◌, if◌then◌else◌, any,
  arith, Bool-cases, Option-cases, inl, inr,
}
use migux.Text.{Str, lit, same, split}
use migux.Static.Fs.{climbs, decode_path_for_check, unescaped, from_hex, hex_value}

-- How far the current segment is on the way to "..".
pub data Reading : Type 0 where
  at_start one_dot two_dots other : Reading

abbrev pub dot : Reading → Reading
dot at_start = one_dot
dot one_dot = two_dots
dot two_dots = other
dot other = other

abbrev pub is_two : Reading → Bool
is_two at_start = false
is_two one_dot = false
is_two two_dots = true
is_two other = false

-- Some segment is "..", the first one read from the state.
unfoldable pub reads : Reading → Str → Bool
reads r [] = is_two r
reads r (c ∷ s) =
    if c == b'/'
    then is_two r || reads at_start s
    else if c == b'.'
    then reads (dot r) s
    else reads other s

-- What is left to read of the first segment.
abbrev first_climbs : Reading → Str → Bool
first_climbs at_start s = same s (lit "..")
first_climbs one_dot s = same s (lit ".")
first_climbs two_dots s = same s []
first_climbs other s = false

abbrev segments_climb : Reading → List Str → Bool
segments_climb r [] = false
segments_climb r (s ∷ ss) = first_climbs r s || any (λ segment. same segment (lit "..")) ss

split-cons : (s : Str) → (x : Str) × (xs : List Str) × (split b'/' s ≡ x ∷ xs)
unfolding split
split-cons [] = ([], [], refl)
split-cons (c ∷ s) =
    let (x, xs, e) = split-cons s in
    elim (Bool-cases (c == b'/')) [
      | inl slash ↦ ([], split b'/' s, ground (arith, slash))
      | inr plain ↦ (c ∷ x, xs, ground (arith, plain, e))
    ]

reads-segments : (r : Reading) (s : Str) → reads r s ≡ segments_climb r (split b'/' s)
unfolding reads split same
reads-segments at_start [] = refl
reads-segments one_dot [] = refl
reads-segments two_dots [] = refl
reads-segments other [] = refl
reads-segments at_start (c ∷ s) =
    let (x, xs, e) = split-cons s in
    ground (arith, e, reads-segments at_start s, reads-segments one_dot s, reads-segments other s)
reads-segments one_dot (c ∷ s) =
    let (x, xs, e) = split-cons s in
    ground (arith, e, reads-segments at_start s, reads-segments two_dots s, reads-segments other s)
reads-segments two_dots (c ∷ s) =
    let (x, xs, e) = split-cons s in
    ground (arith, e, reads-segments at_start s, reads-segments other s)
reads-segments other (c ∷ s) =
    let (x, xs, e) = split-cons s in
    ground (arith, e, reads-segments at_start s, reads-segments other s)

reads_other : (r : Reading) (s : Str) → reads other s ≡ true → reads r s ≡ true
unfolding reads
reads_other r [] h = ground (arith, h)
reads_other r (c ∷ s) h = ground (arith, reads_other (dot r) s, reads_other r s)

-- A digit is neither a slash nor a dot.
Plain : ℕ → Type 0
Plain c = ((c == b'/') ≡ false) × ((c == b'.') ≡ false)

hex-Plain : (a b v : ℕ) → hex_value (from_hex a) (from_hex b) ≡ some v → Plain a × Plain b
unfolding hex_value from_hex Plain
hex-Plain a b v h = ground (arith, h)

reads-unescaped :
    (r : Reading) (v a b : ℕ) (s : Str)
    → Plain a
    → Plain b
    → reads other s ≡ true
    → reads r (unescaped v a b ++ s) ≡ true
unfolding reads unescaped Plain
reads-unescaped r v a b s pa pb h =
    ground (arith, pa, pb, reads_other at_start s h, reads_other (dot r) s h)

-- Decoding hides no "..".
pub reads-decode :
    (r : Reading) (s : Str) → reads r s ≡ true → reads r (decode_path_for_check s) ≡ true
unfolding reads decode_path_for_check
reads-decode r [] h = h
reads-decode r (c ∷ []) h = h
reads-decode r (c ∷ a ∷ []) h = h
reads-decode r (c ∷ a ∷ b ∷ s) h = elim (Bool-cases (c == b'%')) [
  | inl percent ↦ elim (Option-cases (hex_value (from_hex a) (from_hex b))) [
    | inl e ↦ ground (arith, percent, e, h, reads-decode other (a ∷ b ∷ s))
    | inr (v, e) ↦
        let (pa, pb) = hex-Plain a b v e in
        let inside : reads other s ≡ true = unfold Plain in ground (arith, percent, pa, pb, h) in
        ground (
          arith,
          percent,
          e,
          reads-unescaped r v a b (decode_path_for_check s) pa pb (reads-decode other s inside),
        )
  ]
  | inr plain ↦ ground (
    arith,
    plain,
    h,
    reads-decode at_start (a ∷ b ∷ s),
    reads-decode (dot r) (a ∷ b ∷ s),
    reads-decode other (a ∷ b ∷ s),
  )
]

-- What is read from the start of a path is whether a segment is "..".
pub reads-climbs : (s : Str) → reads at_start s ≡ climbs s
reads-climbs s = let (x, xs, e) = split-cons s in reads-segments at_start s ∙ ground (arith, e)
