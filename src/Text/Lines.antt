-- ===== src/Text/Lines.antt =====
-- Laws of lines and of trimming around a separator.
use migux.Common.{
  ℕ, ◌≡◌, ap, ◌∙◌, refl, Bool, true, false, not, List, [], ◌∷◌, ◌++◌, ◌==◌, some, map, all, arith,
  Bool-cases, inl, inr,
}
use migux.Text.{
  Str, is_empty, trim, trim_start_by, trim_end_by, is_whitespace, split, split_once, lines,
  finish_lines, strip_cr, on_head,
}

-- No character of the text is this one.
abbrev pub lacks : ℕ → Str → Bool
lacks c s = all (λ x. not (x == c)) s

pub split_once-first :
    (c : ℕ) (s t : Str) → lacks c s ≡ true → split_once c (s ++ c ∷ t) ≡ some (s, t)
unfolding split_once
split_once-first c [] t h = ground arith
split_once-first c (x ∷ s) t h = ground (arith, h, split_once-first c s t)

pub lacks-append :
    (c : ℕ) (s t : Str) → lacks c s ≡ true → lacks c t ≡ true → lacks c (s ++ t) ≡ true
lacks-append c [] t h k = k
lacks-append c (x ∷ s) t h k = ground (arith, h, lacks-append c s t, k)

split-whole : (c : ℕ) (s : Str) → lacks c s ≡ true → split c s ≡ s ∷ []
unfolding split
split-whole c [] h = refl
split-whole c (x ∷ s) h =
    let ih : split c s ≡ s ∷ [] = split-whole c s (ground (arith, h)) in
    let here : (x == c) ≡ false = ground (arith, h) in rw here (rw ih refl)

on_head-append :
    (x : ℕ) (s : Str) (c : ℕ) (more : List Str)
    → on_head x (split c s ++ more) ≡ on_head x (split c s) ++ more
unfolding split
on_head-append x [] c more = refl
on_head-append x (y ∷ s) c more = elim (Bool-cases (y == c)) [
  | inl e ↦ rw e refl
  | inr e ↦ rw e (heads (split c s))
]
  where
    heads :
        (parts : List Str)
        → on_head x (on_head y parts ++ more) ≡ on_head x (on_head y parts) ++ more
    heads [] = refl
    heads (p ∷ ps) = refl

split-append : (c : ℕ) (s t : Str) → split c (s ++ c ∷ t) ≡ split c s ++ split c t
unfolding split
split-append c [] t = ground arith
split-append c (x ∷ s) t = elim (Bool-cases (x == c)) [
  | inl e ↦ rw e (ap (◌∷◌ []) (split-append c s t))
  | inr e ↦ rw e (ap (on_head x) (split-append c s t) ∙ on_head-append x s c (split c t))
]

finish_lines-last :
    (parts : List Str) (last : Str)
    → is_empty last ≡ false
    → finish_lines (parts ++ last ∷ []) ≡ map strip_cr parts ++ last ∷ []
unfolding finish_lines
finish_lines-last [] last h = rw h refl
finish_lines-last (p ∷ []) last h = rw h refl
finish_lines-last (p ∷ q ∷ parts) last h =
    ap (◌∷◌ (strip_cr p)) (finish_lines-last (q ∷ parts) last h)

-- The lines of a text that ends with a line end.
pub whole_lines : Str → List Str
whole_lines s = map strip_cr (split 10 s)

pub lines-last :
    (before last : Str)
    → lacks 10 last ≡ true
    → is_empty last ≡ false
    → lines (before ++ 10 ∷ last) ≡ whole_lines before ++ last ∷ []
unfolding lines whole_lines
lines-last before last h k =
    ap finish_lines
      (split-append 10 before last ∙ ap (◌++◌ (split 10 before)) (split-whole 10 last h))
    ∙ finish_lines-last (split 10 before) last k

-- Trimming stops at a character that is not white space.
module _ (c : ℕ) (black : is_whitespace c ≡ false) where
  trim_start-stop :
      (s t : Str)
      → trim_start_by is_whitespace (s ++ c ∷ t) ≡ trim_start_by is_whitespace s ++ c ∷ t
  unfolding trim_start_by
  trim_start-stop [] t = rw black refl
  trim_start-stop (x ∷ s) t = elim (Bool-cases (is_whitespace x)) [
    | inl e ↦ rw e (trim_start-stop s t)
    | inr e ↦ rw e refl
  ]

  not_empty : (s t : Str) → is_empty (s ++ c ∷ t) ≡ false
  not_empty [] t = refl
  not_empty (x ∷ s) t = refl

  trim_end-stop :
      (s t : Str) → trim_end_by is_whitespace (s ++ c ∷ t) ≡ s ++ c ∷ trim_end_by is_whitespace t
  unfolding trim_end_by
  trim_end-stop [] t = ground (arith, black)
  trim_end-stop (x ∷ s) t =
      rw (trim_end-stop s t) (rw (not_empty s (trim_end_by is_whitespace t)) refl)

  pub trim-stop :
      (s t : Str)
      → trim (s ++ c ∷ t) ≡ trim_start_by is_whitespace s ++ c ∷ trim_end_by is_whitespace t
  unfolding trim
  trim-stop s t =
      ap (trim_end_by is_whitespace) (trim_start-stop s t)
      ∙ trim_end-stop (trim_start_by is_whitespace s) t

pub trim_start-lacks :
    (c : ℕ) (s : Str) → lacks c s ≡ true → lacks c (trim_start_by is_whitespace s) ≡ true
unfolding trim_start_by
trim_start-lacks c [] h = refl
trim_start-lacks c (x ∷ s) h = elim (Bool-cases (is_whitespace x)) [
  | inl e ↦ rw e (trim_start-lacks c s (ground (arith, h)))
  | inr e ↦ rw e h
]
