-- ===== src/Text.antt =====
-- What the code uses of Rust's `str`: a text is the list of its characters' code points.
pub mod Laws
pub mod Lines
use Prim.Native.Char.{code}
use Prim.Native.String.{String}
use migux.Common.{
  ℕ, zero, suc, ◌+◌, ◌-◌, ◌*◌, ◌^◌, ◌≡◌, refl, ap, ◌↔◌, Bool, true, false, not, ◌&&◌, ◌||◌, List,
  [], ◌∷◌, ◌++◌, map, reverse, Option, none, some, ltb, leb, ◌==◌, ==_iff, if◌then◌else◌, length,
  all, Eq, arith,
}

abbrev pub Str : Type 0
Str = List ℕ

-- A literal of the source.
abbrev pub lit : String → Str
lit String.[] = []
lit (String.◌∷◌ c s) = code c ∷ lit s

unfoldable pub same : Str → Str → Bool
same [] [] = true
same [] (d ∷ t) = false
same (c ∷ s) [] = false
same (c ∷ s) (d ∷ t) = c == d && same s t

pub same→eq : (s t : Str) → same s t ≡ true → s ≡ t
unfolding same
same→eq [] [] h = refl
same→eq [] (d ∷ t) h = ground arith
same→eq (c ∷ s) [] h = ground arith
same→eq (c ∷ s) (d ∷ t) h = ground (arith, same→eq s t)

pub same_self : (s : Str) → same s s ≡ true
unfolding same
same_self [] = refl
same_self (c ∷ s) = ground (arith, same_self s)

pub same_iff : (s t : Str) → (same s t ≡ true) ↔ (s ≡ t)
same_iff s t = (same→eq s t, λ e. rw e (same_self t))

instance abbrev pub str_eq : Eq Str
str_eq = record { beq = same; beq_iff = same_iff }

abbrev pub is_empty {ℓ} : {A : Type ℓ} → List A → Bool
is_empty [] = true
is_empty (x ∷ xs) = false

-- `char::is_whitespace`: the property `White_Space` of Unicode.
unfoldable pub is_whitespace : ℕ → Bool
is_whitespace c =
    (leb 9 c && leb c 13)
    || c == 32
    || c == 0x85
    || c == 0xa0
    || c == 0x1680
    || (leb 0x2000 c && leb c 0x200a)
    || c == 0x2028
    || c == 0x2029
    || c == 0x202f
    || c == 0x205f
    || c == 0x3000

-- `trim_start_matches` and `trim_end_matches` with a test on characters.
unfoldable pub trim_start_by : (ℕ → Bool) → Str → Str
trim_start_by p [] = []
trim_start_by p (c ∷ s) = if p c then trim_start_by p s else c ∷ s

unfoldable pub trim_end_by : (ℕ → Bool) → Str → Str
trim_end_by p [] = []
trim_end_by p (c ∷ s) = let rest = trim_end_by p s in if is_empty rest && p c then [] else c ∷ rest

unfoldable pub trim_by : (ℕ → Bool) → Str → Str
unfolding trim_start_by trim_end_by
trim_by p s = trim_end_by p (trim_start_by p s)

unfoldable pub trim : Str → Str
unfolding trim_by is_whitespace
trim s = trim_by is_whitespace s

unfoldable pub starts_with : Str → Str → Bool
starts_with s [] = true
starts_with [] (d ∷ p) = false
starts_with (c ∷ s) (d ∷ p) = c == d && starts_with s p

abbrev on_head : ℕ → List Str → List Str
on_head c [] = (c ∷ []) ∷ []
on_head c (s ∷ ss) = (c ∷ s) ∷ ss

-- `split` at a character: one part more than there are separators.
unfoldable pub split : ℕ → Str → List Str
split c [] = [] ∷ []
split c (x ∷ s) = let rest = split c s in if x == c then [] ∷ rest else on_head x rest

-- `split_once` at a character.
unfoldable pub split_once : ℕ → Str → Option (Str × Str)
split_once c [] = none
split_once c (x ∷ s) =
    let rest = split_once c s in
    if x == c then some ([], s) else elim rest [ none ↦ none | some (l, r) ↦ some (x ∷ l, r) ]

abbrev strip_cr : Str → Str
strip_cr [] = []
strip_cr (c ∷ []) = if c == 13 then [] else c ∷ []
strip_cr (c ∷ d ∷ s) = c ∷ strip_cr (d ∷ s)

finish_lines : List Str → List Str
finish_lines [] = []
finish_lines (l ∷ []) = if is_empty l then [] else l ∷ []
finish_lines (l ∷ m ∷ ls) = strip_cr l ∷ finish_lines (m ∷ ls)

-- `lines`: each line loses its end, "\n" or "\r\n"; an empty last line is none.
unfoldable pub lines : Str → List Str
unfolding finish_lines split
lines s = finish_lines (split 10 s)

keep_parts : List Str → List Str
keep_parts [] = []
keep_parts (s ∷ ss) = if is_empty s then keep_parts ss else s ∷ keep_parts ss

split_by : (ℕ → Bool) → Str → List Str
split_by p [] = [] ∷ []
split_by p (x ∷ s) = let rest = split_by p s in if p x then [] ∷ rest else on_head x rest

unfoldable pub split_whitespace : Str → List Str
unfolding keep_parts split_by is_whitespace
split_whitespace s = keep_parts (split_by is_whitespace s)

unfoldable pub to_ascii_lower : ℕ → ℕ
to_ascii_lower c = if leb b'A' c && leb c b'Z' then c + 32 else c

unfoldable pub to_ascii_lowercase : Str → Str
unfolding to_ascii_lower
to_ascii_lowercase [] = []
to_ascii_lowercase (c ∷ s) = to_ascii_lower c ∷ to_ascii_lowercase s

unfoldable pub eq_ignore_ascii_case : Str → Str → Bool
unfolding same to_ascii_lowercase
eq_ignore_ascii_case s t = same (to_ascii_lowercase s) (to_ascii_lowercase t)

unfoldable pub contains_char : ℕ → Str → Bool
contains_char c [] = false
contains_char c (x ∷ s) = x == c || contains_char c s

-- The value of a digit in a radix of at most 16.
unfoldable pub digit : ℕ → ℕ → Option ℕ
digit radix c =
    let v =
      if leb b'0' c && leb c b'9'
      then c - b'0'
      else if leb b'a' c && leb c b'f'
      then c - b'a' + 10
      else if leb b'A' c && leb c b'F'
      then c - b'A' + 10
      else radix in
    if ltb v radix then some v else none

-- The digits of a number below `bound`, after `acc`.
unfoldable pub parse_digits : ℕ → ℕ → ℕ → Str → Option ℕ
unfolding digit
parse_digits radix bound acc [] = some acc
parse_digits radix bound acc (c ∷ s) = elim (digit radix c) [
  | none ↦ none
  | some v ↦
      let rest = parse_digits radix bound (acc * radix + v) s in
      if ltb (acc * radix + v) bound then rest else none
]

-- `from_str_radix` of an unsigned type: an optional "+", at least one digit, no overflow.
unfoldable pub from_str_radix : ℕ → ℕ → Str → Option ℕ
unfolding parse_digits
from_str_radix bound radix [] = none
from_str_radix bound radix (c ∷ s) =
    if c == b'+'
    then if is_empty s then none else parse_digits radix bound 0 s
    else parse_digits radix bound 0 (c ∷ s)

-- `parse::<usize>` and `parse::<u64>` on a 64-bit machine.
unfoldable pub parse_u64 : Str → Option ℕ
unfolding from_str_radix
parse_u64 s = from_str_radix (2 ^ 64) 10 s
