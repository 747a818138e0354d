-- ===== src/Headers/Lengths.antt =====
-- `ContentLengthState` after several `Content-Length` values: valid only if every part is one number.
use migux.Common.{
  ℕ, ◌≡◌, refl, ◌⊎◌, true, false, List, [], ◌∷◌, Option, none, some, arith, Bool-cases,
  Option-cases, inl, inr,
}
use migux.Text.{Str, is_empty, trim, split, parse_u64}
use migux.Headers.{ContentLengthState, add_length, add_parts, any_part, add}

-- Every part that is not empty is the number `n`.
abbrev pub Says : ℕ → List Str → Type 0
Says n [] = Unit
Says n (part ∷ parts) =
    ((is_empty (trim part) ≡ true) ⊎ (parse_u64 (trim part) ≡ some n)) × Says n parts

add_length-valid :
    (s : ContentLengthState) (o : Option ℕ)
    → (add_length s o).invalid ≡ false
    → (n : ℕ) × (o ≡ some n)
      × ((add_length s o).value ≡ some n)
      × (s.invalid ≡ false)
      × ((s.value ≡ none) ⊎ (s.value ≡ some n))
unfolding add_length
add_length-valid s none h = cc
add_length-valid s (some n) h = (n, refl, ground arith, ground arith, ground arith)

module _ (n : ℕ) where
  add_length-eq :
      (s : ContentLengthState) (o : Option ℕ)
      → (add_length s o).invalid ≡ false
      → ((add_length s o).value ≡ none) ⊎ ((add_length s o).value ≡ some n)
      → (o ≡ some n) × (s.invalid ≡ false) × ((s.value ≡ none) ⊎ (s.value ≡ some n))
  unfolding add_length
  add_length-eq s none h v = cc
  add_length-eq s (some k) h v = ground arith

  add_parts-Says :
      (s : ContentLengthState) (parts : List Str)
      → (add_parts s parts).invalid ≡ false
      → (add_parts s parts).value ≡ some n
      → Says n parts × (s.invalid ≡ false) × ((s.value ≡ none) ⊎ (s.value ≡ some n))
  unfolding add_parts
  add_parts-Says s [] h v = (tt, h, inr v)
  add_parts-Says s (part ∷ parts) h v = elim (Bool-cases (is_empty (trim part))) [
    | inl blank ↦
        let (says, ok, val) =
          add_parts-Says s parts (ground (arith, blank)) (ground (arith, blank)) in
        ((inl blank, says), ok, val)
    | inr word ↦
        let s' = add_length s (parse_u64 (trim part)) in
        let (says, ok, val) =
          add_parts-Says s' parts (ground (arith, word)) (ground (arith, word)) in
        let (reads, ok', val') = add_length-eq s (parse_u64 (trim part)) ok val in
        ((inr reads, says), ok', val')
  ]

add_parts-none :
    (s : ContentLengthState) (parts : List Str)
    → (add_parts s parts).invalid ≡ false
    → (add_parts s parts).value ≡ none
    → (any_part parts ≡ false) × (s.value ≡ none) × (s.invalid ≡ false)
unfolding add_parts any_part
add_parts-none s [] h v = (refl, v, h)
add_parts-none s (part ∷ parts) h v = elim (Bool-cases (is_empty (trim part))) [
  | inl blank ↦
      let (none_left, val, ok) =
        add_parts-none s parts (ground (arith, blank)) (ground (arith, blank)) in
      (ground (arith, blank, none_left), val, ok)
  | inr word ↦
      let s' = add_length s (parse_u64 (trim part)) in
      let (none_left, val, ok) =
        add_parts-none s' parts (ground (arith, word)) (ground (arith, word)) in
      let (k, _, val', _, _) = add_length-valid s (parse_u64 (trim part)) ok in
      ground (arith, val, val')
]

-- A value that leaves the state valid is a list of one number, the state's, which is the number that
-- it held before, if it held one.
pub add-Says :
    (s : ContentLengthState) (raw : Str)
    → (add s raw).invalid ≡ false
    → (n : ℕ) × ((add s raw).value ≡ some n)
      × Says n (split b',' raw)
      × (s.invalid ≡ false)
      × ((s.value ≡ none) ⊎ (s.value ≡ some n))
unfolding add
add-Says s raw h = elim (Option-cases (add_parts s (split b',' raw)).value) [
  | inl v ↦
      let (none_left, _, _) = add_parts-none s (split b',' raw) (ground (arith, h)) v in
      absurd (ground (arith, h, none_left))
  | inr (n, v) ↦
      let (says, ok, val) = add_parts-Says n s (split b',' raw) (ground (arith, h)) v in
      (n, ground (arith, v), says, ok, val)
]
