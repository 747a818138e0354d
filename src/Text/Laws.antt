-- ===== src/Text/Laws.antt =====
-- Laws of the text functions.
use migux.Common.{
  ℕ, ◌≡◌, ap, ◌∙◌, refl, Bool, true, [], ◌∷◌, ◌++◌, length, drop, arith, Bool-cases, inl, inr,
}
use migux.Text.{Str, starts_with, trim, trim_start_by, trim_end_by, is_whitespace}

-- A text that starts with another is the other and a rest.
pub starts_with-drop : (s p : Str) → starts_with s p ≡ true → s ≡ p ++ drop (length p) s
unfolding starts_with
starts_with-drop s [] h = refl
starts_with-drop [] (d ∷ p) h = ground arith
starts_with-drop (c ∷ s) (d ∷ p) h = ground (arith, starts_with-drop s p)

pub starts_with-append : (p t : Str) → starts_with (p ++ t) p ≡ true
unfolding starts_with
starts_with-append [] t = refl
starts_with-append (d ∷ p) t = ground (arith, starts_with-append p t)

pub drop-append : (p t : Str) → drop (length p) (p ++ t) ≡ t
drop-append [] t = refl
drop-append (d ∷ p) t = drop-append p t

module _ (p : ℕ → Bool) where
  trim_end_again : (s : Str) → trim_end_by p (trim_end_by p s) ≡ trim_end_by p s
  unfolding trim_end_by
  trim_end_again [] = refl
  trim_end_again (c ∷ s) = ground (arith, trim_end_again s)

  trim_start-trim_end :
      (s : Str)
      → trim_start_by p (trim_end_by p (trim_start_by p s)) ≡ trim_end_by p (trim_start_by p s)
  unfolding trim_end_by trim_start_by
  trim_start-trim_end [] = refl
  trim_start-trim_end (c ∷ s) = elim (Bool-cases (p c)) [
    | inl e ↦ rw e (trim_start-trim_end s)
    | inr e ↦ ground (arith, e)
  ]

-- A text that has been trimmed stays as it is.
pub trim_again : (s : Str) → trim (trim s) ≡ trim s
unfolding trim
trim_again s =
    ap (trim_end_by is_whitespace) (trim_start-trim_end is_whitespace s)
    ∙ trim_end_again is_whitespace (trim_start_by is_whitespace s)
