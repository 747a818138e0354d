-- ===== src/Cache/Index/Queue.antt =====
-- What the index promises: a queue of distinct keys with their data, least recently used first.
use migux.Common.{
  ℕ, ◌+◌, ◌≡◌, Bool, false, ◌||◌, List, [], ◌∷◌, Option, none, some, ◌==◌, if◌then◌else◌,
}

pub record Item : Type 0 where
  pub size : ℕ
  pub expires_at : ℕ
  pub last_access : ℕ

abbrev pub Queue : Type 0
Queue = List (ℕ × Item)

abbrev pub has : ℕ → Queue → Bool
has k [] = false
has k ((j, _) ∷ q) = j == k || has k q

abbrev pub Distinct : Queue → Type 0
Distinct [] = Unit
Distinct ((k, _) ∷ q) = (has k q ≡ false) × Distinct q

abbrev pub find : ℕ → Queue → Option Item
find k [] = none
find k ((j, a) ∷ q) = if j == k then some a else find k q

abbrev pub delete : ℕ → Queue → Queue
delete k [] = []
delete k ((j, a) ∷ q) = let rest = delete k q in if j == k then q else (j, a) ∷ rest

abbrev pub total : Queue → ℕ
total [] = 0
total ((_, a) ∷ q) = a.size + total q

abbrev pub head_key : Queue → Option ℕ
head_key [] = none
head_key ((k, _) ∷ q) = some k

-- The last key, or `p` where there is none.
abbrev pub last_key : Option ℕ → Queue → Option ℕ
last_key p [] = p
last_key p ((k, _) ∷ q) = last_key (some k) q

abbrev pub at_time : ℕ → Item → Item
at_time now a = record a { last_access = now }
