-- ===== src/Stream/Window.antt =====
-- Where a pattern first stands in a buffer, as more of the stream arrives.
use migux.Common.{
  none, ◌<◌, ℕ, zero, suc, ◌+◌, ◌-◌, ◌≤◌, ◌≡◌, refl, ap, ◌∙◌, sym, true, false, List, [], ◌∷◌, ◌++◌,
  some, arith, length, length-append, take, drop, Bool-cases, Option-cases, inl, inr,
}
use migux.Text.{Str, starts_with, contains_char}
use migux.Stream.{find_window, crlf}

pub starts_with-append : (s p t : Str) → starts_with s p ≡ true → starts_with (s ++ t) p ≡ true
unfolding starts_with
starts_with-append s [] t h = refl
starts_with-append [] (d ∷ p) t h = ground arith
starts_with-append (c ∷ s) (d ∷ p) t h = ground (arith, starts_with-append s p t)

pub starts_with-length : (s p : Str) → starts_with s p ≡ true → length p ≤ length s
unfolding starts_with
starts_with-length s [] h = omega arith
starts_with-length [] (d ∷ p) h = ground arith
starts_with-length (c ∷ s) (d ∷ p) h = ground (arith, starts_with-length s p)

-- A window that is there lies in the buffer.
pub find_window-length : (p s : Str) (i : ℕ) → find_window p s ≡ some i → i + length p ≤ length s
unfolding find_window
find_window-length p [] i h = ground arith
find_window-length p (b ∷ bs) i h = elim (Bool-cases (starts_with (b ∷ bs) p)) [
  | inl e ↦ ground (arith, e, starts_with-length (b ∷ bs) p e)
  | inr e ↦ elim (Option-cases (find_window p bs)) [
    | inl n ↦ ground (arith, e, n)
    | inr (j, n) ↦ ground (arith, e, n, find_window-length p bs j n)
  ]
]

starts_with-short :
    (s p t : Str)
    → starts_with s p ≡ false
    → starts_with (s ++ t) p ≡ true
    → length s + 1 ≤ length p
unfolding starts_with
starts_with-short s [] t h k = ground arith
starts_with-short [] (d ∷ p) t h k = omega arith
starts_with-short (c ∷ s) (d ∷ p) t h k = ground (arith, starts_with-short s p t)

-- The first window stays the first when more bytes arrive.
pub find_window-append :
    (p s t : Str) (i : ℕ) → find_window p s ≡ some i → find_window p (s ++ t) ≡ some i
unfolding find_window
find_window-append p [] t i h = ground arith
find_window-append p (b ∷ bs) t i h = elim (Bool-cases (starts_with (b ∷ bs) p)) [
  | inl e ↦ ground (arith, e, starts_with-append (b ∷ bs) p t e)
  | inr e ↦ elim (Option-cases (find_window p bs)) [
    | inl n ↦ ground (arith, e, n)
    | inr (j, n) ↦
        let within = find_window-length p bs j n in
        elim (Bool-cases (starts_with ((b ∷ bs) ++ t) p)) [
          | inl l ↦ absurd (omega (arith, starts_with-short (b ∷ bs) p t e l, within))
          | inr l ↦ ground (arith, e, n, l, find_window-append p bs t j n)
        ]
  ]
]

-- A line without a carriage return ends at its CRLF.
pub find_window-crlf :
    (line rest : Str)
    → contains_char 13 line ≡ false
    → find_window crlf (line ++ crlf ++ rest) ≡ some (length line)
unfolding find_window contains_char starts_with
find_window-crlf [] rest h = refl
find_window-crlf (c ∷ line) rest h = ground (arith, find_window-crlf line rest)

pub take-append {ℓ} :
    {A : Type ℓ} (n : ℕ) (s t : List A) → n ≤ length s → take n (s ++ t) ≡ take n s
take-append zero s t h = refl
take-append (suc n) [] t h = absurd (omega arith)
take-append (suc n) (x ∷ s) t h = ap (◌∷◌ x) (take-append n s t (omega arith))

pub drop-append {ℓ} :
    {A : Type ℓ} (n : ℕ) (s t : List A) → n ≤ length s → drop n (s ++ t) ≡ drop n s ++ t
drop-append zero s t h = refl
drop-append (suc n) [] t h = absurd (omega arith)
drop-append (suc n) (x ∷ s) t h = drop-append n s t (omega arith)

-- A count that goes past the first part.
pub take-append_past {ℓ} :
    {A : Type ℓ} (n : ℕ) (s t : List A)
    → length s ≤ n
    → take n (s ++ t) ≡ s ++ take (n - length s) t
take-append_past n [] t h = ap (λ k. take k t) (omega arith)
take-append_past zero (x ∷ s) t h = absurd (omega arith)
take-append_past (suc n) (x ∷ s) t h =
    ap (◌∷◌ x) (take-append_past n s t (omega arith) ∙ ap (λ k. s ++ take k t) (omega arith))

pub drop-append_past {ℓ} :
    {A : Type ℓ} (n : ℕ) (s t : List A) → length s ≤ n → drop n (s ++ t) ≡ drop (n - length s) t
drop-append_past n [] t h = ap (λ k. drop k t) (omega arith)
drop-append_past zero (x ∷ s) t h = absurd (omega arith)
drop-append_past (suc n) (x ∷ s) t h =
    drop-append_past n s t (omega arith) ∙ ap (λ k. drop k t) (omega arith)

pub drop_all {ℓ} : {A : Type ℓ} (s : List A) → drop (length s) s ≡ []
drop_all [] = refl
drop_all (x ∷ s) = drop_all s

pub take_prefix {ℓ} : {A : Type ℓ} (s t : List A) → take (length s) (s ++ t) ≡ s
take_prefix [] t = refl
take_prefix (x ∷ s) t = ap (◌∷◌ x) (take_prefix s t)

pub drop_prefix {ℓ} : {A : Type ℓ} (s t : List A) → drop (length s) (s ++ t) ≡ t
drop_prefix [] t = refl
drop_prefix (x ∷ s) t = drop_prefix s t

-- A line and its CRLF.
pub take-line : (line t : Str) → take (length line + 2) (line ++ crlf ++ t) ≡ line ++ crlf
take-line line t =
    ap (λ n. take n (line ++ crlf ++ t)) (sym (length-append line crlf))
    ∙ take_prefix (line ++ crlf) t

pub drop-line : (line t : Str) → drop (length line + 2) (line ++ crlf ++ t) ≡ t
drop-line line t =
    ap (λ n. drop n (line ++ crlf ++ t)) (sym (length-append line crlf))
    ∙ drop_prefix (line ++ crlf) t

pub take_all {ℓ} : {A : Type ℓ} (n : ℕ) (s : List A) → length s ≤ n → take n s ≡ s
take_all zero [] h = refl
take_all zero (x ∷ s) h = absurd (omega arith)
take_all (suc n) [] h = refl
take_all (suc n) (x ∷ s) h = ap (◌∷◌ x) (take_all n s (omega arith))

pub drop_past {ℓ} : {A : Type ℓ} (n : ℕ) (s : List A) → length s ≤ n → drop n s ≡ []
drop_past zero [] h = refl
drop_past zero (x ∷ s) h = absurd (omega arith)
drop_past (suc n) [] h = refl
drop_past (suc n) (x ∷ s) h = drop_past n s (omega arith)

pub length-take-le {ℓ} : {A : Type ℓ} (n : ℕ) (s : List A) → length (take n s) ≤ n
length-take-le zero s = omega arith
length-take-le (suc n) [] = omega arith
length-take-le (suc n) (x ∷ s) = omega (arith, length-take-le n s)

starts_with-short_of :
    (s p t : Str) → starts_with (s ++ t) p ≡ true → length p ≤ length s → starts_with s p ≡ true
unfolding starts_with
starts_with-short_of s [] t h k = refl
starts_with-short_of [] (d ∷ p) t h k = absurd (omega arith)
starts_with-short_of (c ∷ s) (d ∷ p) t h k = ground (arith, starts_with-short_of s p t)

-- A window that only more bytes bring ends after those that are there.
pub find_window-later :
    (p s t : Str) (i : ℕ)
    → 0 < length p
    → find_window p s ≡ none
    → find_window p (s ++ t) ≡ some i
    → length s < i + length p
unfolding find_window
find_window-later p [] t i pos n h = omega arith
find_window-later p (b ∷ bs) t i pos n h = elim (Bool-cases (starts_with (b ∷ bs) p)) [
  | inl e ↦ absurd (ground (arith, e, n))
  | inr e ↦ elim (Option-cases (find_window p bs)) [
    | inr (j, k) ↦ absurd (ground (arith, e, n, k))
    | inl k ↦ elim (Bool-cases (starts_with ((b ∷ bs) ++ t) p)) [
      | inl l ↦ ground (arith, e, l, h, starts_with-short_of (b ∷ bs) p t l)
      | inr l ↦ elim (Option-cases (find_window p (bs ++ t))) [
        | inl m ↦ absurd (ground (arith, l, m, h))
        | inr (j, m) ↦ ground (arith, l, m, h, find_window-later p bs t j pos k m)
      ]
    ]
  ]
]
