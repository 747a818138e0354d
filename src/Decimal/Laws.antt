-- ===== src/Decimal/Laws.antt =====
-- A number that is written out is read back.
use migux.Common.{
  ℕ, zero, suc, ◌+◌, ◌*◌, ◌/◌, ◌%◌, ◌^◌, ◌<◌, ◌≡◌, refl, sym, ap, ◌∙◌, inl, inr, false, ◌==◌, [],
  ◌∷◌, ◌++◌, none, some, ltb, if◌then◌else◌, ==_iff, subst, ◌≢◌, arith, Bool-cases, Option-cases,
}
use migux.Text.{Str, is_empty, digit, parse_digits, from_str_radix, parse_u64}
use migux.Decimal.{decimal_from, decimal}

digit_decimal : (d : ℕ) → d < 10 → digit 10 (d + b'0') ≡ some d
unfolding digit
digit_decimal d h = ground arith

parse_digit_step :
    (bound acc c v : ℕ) (s : Str)
    → digit 10 c ≡ some v
    → parse_digits 10 bound acc (c ∷ s)
      ≡ (if ltb (acc * 10 + v) bound then parse_digits 10 bound (acc * 10 + v) s else none)
unfolding parse_digits
parse_digit_step bound acc c v s h = ground (arith, h)

parse_digits_last :
    (bound acc d v : ℕ) (s : Str)
    → d < 10
    → v * 10 + d < bound
    → parse_digits 10 bound acc s ≡ some v
    → parse_digits 10 bound acc (s ++ (d + b'0') ∷ []) ≡ some (v * 10 + d)
unfolding parse_digits
parse_digits_last bound acc d v [] h k e =
    let here : acc ≡ v = cc in
    parse_digit_step bound acc (d + b'0') d [] (digit_decimal d h) ∙ ground (arith, here)
parse_digits_last bound acc d v (c ∷ s) h k e = elim (Option-cases (digit 10 c)) [
  | inl n ↦ ground (arith, n)
  | inr (x, n) ↦ ground (arith, n, parse_digits_last bound (acc * 10 + x) d v s)
]

parse-decimal_from :
    (bound fuel n : ℕ)
    → n < fuel
    → n < bound
    → parse_digits 10 bound 0 (decimal_from fuel n) ≡ some n
unfolding decimal_from parse_digits
parse-decimal_from bound zero n h k = absurd (omega arith)
parse-decimal_from bound (suc fuel) n h k = elim (Bool-cases (ltb n 10)) [
  | inl e ↦
      rw e
        (ground (arith, parse_digit_step bound 0 (n + b'0') n [] (digit_decimal n (ground arith))))
  | inr e ↦
      let ih = parse-decimal_from bound fuel (n / 10) (ground arith) (ground arith) in
      rw e (
        parse_digits_last bound 0 (n % 10) (n / 10) (decimal_from fuel (n / 10)) (omega arith)
          (omega arith) ih
        ∙ ap some (omega arith))
]

from_digits :
    (bound n : ℕ) (s : Str)
    → is_empty s ≡ false
    → parse_digits 10 bound 0 s ≡ some n
    → from_str_radix bound 10 s ≡ some n
unfolding from_str_radix parse_digits digit
from_digits bound n [] h e = cc
from_digits bound n (c ∷ s) h e = elim (Bool-cases (c == b'+')) [
  | inl p ↦ absurd (plus c ((==_iff c b'+').0 p) e)
  | inr p ↦ rw p e
]
  where
    plus : (c : ℕ) → c ≡ b'+' → parse_digits 10 bound 0 (c ∷ s) ≢ some n
    plus c p k = ground (arith, subst (λ d. parse_digits 10 bound 0 (d ∷ s) ≡ some n) p k)

decimal_from-not_empty : (fuel n : ℕ) → is_empty (decimal_from (suc fuel) n) ≡ false
unfolding decimal_from
decimal_from-not_empty fuel n = elim (Bool-cases (ltb n 10)) [
  | inl e ↦ rw e refl
  | inr e ↦ rw e (append-not_empty (decimal_from fuel (n / 10)) (n % 10 + b'0'))
]
  where
    append-not_empty : (s : Str) (c : ℕ) → is_empty (s ++ c ∷ []) ≡ false
    append-not_empty [] c = refl
    append-not_empty (d ∷ s) c = refl

-- A number that a machine word holds is read back as itself.
pub parse_u64-decimal : (n : ℕ) → n < 2 ^ 64 → parse_u64 (decimal n) ≡ some n
unfolding parse_u64 decimal
parse_u64-decimal n h =
    from_digits (2 ^ 64) n (decimal_from (suc n) n) (decimal_from-not_empty n n)
      (parse-decimal_from (2 ^ 64) (suc n) n (omega arith) h)

-- Numbers that are written out alike are the same.
pub decimal-injective : (n m : ℕ) → decimal n ≡ decimal m → n ≡ m
unfolding decimal
decimal-injective n m h =
    let bound = suc (n + m) in
    let read_n = parse-decimal_from bound (suc n) n (omega arith) (omega arith) in
    let read_m = parse-decimal_from bound (suc m) m (omega arith) (omega arith) in
    cc (sym read_n ∙ ap (parse_digits 10 bound 0) h ∙ read_m)
