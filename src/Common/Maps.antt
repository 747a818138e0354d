-- ===== src/Common/Maps.antt =====
-- `HashMap` and `DashMap` as association lists: what the code sees of them is `get`, `insert`,
-- `remove`, `get_mut` and `len`, and their laws.
use Prim.Native.Nat.{suc, ◌≤◌}
use mathlib.Core.Path.{◌≡◌, refl}
use mathlib.Core.Option
use mathlib.Core.Option.{Option, none, some}
use mathlib.Core.List.{List, [], ◌∷◌}
use native.Mathlib.Omega.{arith}
use migux.Common.Tests.{if◌then◌else◌, Eq}
use migux.Common.Lists.{length}

abbrev pub Map {ℓ κ} : Type ℓ → Type κ → Type (ℓ ⊔ κ)
Map K V = List (K × V)

module _ {ℓ κ} {K : Type ℓ} {V : Type κ} ⦃e : Eq K⦄ where
  unfoldable pub get : K → Map K V → Option V
  get k [] = none
  get k ((j, v) ∷ m) = if e.beq j k then some v else get k m

  unfoldable pub insert : K → V → Map K V → Map K V
  insert k v [] = (k, v) ∷ []
  insert k v ((j, w) ∷ m) = if e.beq j k then (k, v) ∷ m else (j, w) ∷ insert k v m

  unfoldable pub remove : K → Map K V → Map K V
  remove k [] = []
  remove k ((j, w) ∷ m) = let rest = remove k m in if e.beq j k then rest else (j, w) ∷ rest

  -- An assignment through `get_mut`.
  unfoldable pub modify : K → (V → V) → Map K V → Map K V
  modify k f [] = []
  modify k f ((j, w) ∷ m) = if e.beq j k then (j, f w) ∷ m else (j, w) ∷ modify k f m

  pub get-insert :
      (j k : K) (v : V) (m : Map K V)
      → get j (insert k v m) ≡ (if e.beq k j then some v else get j m)
  unfolding get insert
  get-insert j k v [] = refl
  get-insert j k v ((i, w) ∷ m) =
      ground (arith, get-insert j k v m, e.beq_iff i k, e.beq_iff k j, e.beq_iff i j)

  pub get-remove :
      (j k : K) (m : Map K V) → get j (remove k m) ≡ (if e.beq k j then none else get j m)
  unfolding get remove
  get-remove j k [] = ground arith
  get-remove j k ((i, w) ∷ m) =
      ground (arith, get-remove j k m, e.beq_iff i k, e.beq_iff k j, e.beq_iff i j)

  pub get-modify :
      (j k : K) (f : V → V) (m : Map K V)
      → get j (modify k f m) ≡ (if e.beq k j then Option.map f (get j m) else get j m)
  unfolding get modify
  get-modify j k f [] = ground arith
  get-modify j k f ((i, w) ∷ m) =
      ground (arith, get-modify j k f m, e.beq_iff i k, e.beq_iff k j, e.beq_iff i j)

  -- Each key stands once, as in a hash map.
  unfoldable pub Uniq : Map K V → Type κ
  Uniq [] = Unit
  Uniq ((k, v) ∷ m) = (get k m ≡ none) × Uniq m

  pub insert-Uniq : (k : K) (v : V) (m : Map K V) → Uniq m → Uniq (insert k v m)
  unfolding Uniq get insert
  insert-Uniq k v [] u = ground arith
  insert-Uniq k v ((i, w) ∷ m) u =
      ground (arith, insert-Uniq k v m, get-insert i k v m, e.beq_iff i k, e.beq_iff k i)

  pub modify-Uniq : (k : K) (f : V → V) (m : Map K V) → Uniq m → Uniq (modify k f m)
  unfolding Uniq get modify
  modify-Uniq k f [] u = ground arith
  modify-Uniq k f ((i, w) ∷ m) u =
      ground (arith, modify-Uniq k f m, get-modify i k f m, e.beq_iff i k, e.beq_iff k i)

  pub remove-Uniq : (k : K) (m : Map K V) → Uniq m → Uniq (remove k m)
  unfolding Uniq get remove
  remove-Uniq k [] u = ground arith
  remove-Uniq k ((i, w) ∷ m) u = ground (arith, remove-Uniq k m, get-remove i k m)

  pub length-modify : (k : K) (f : V → V) (m : Map K V) → length (modify k f m) ≡ length m
  unfolding modify
  length-modify k f [] = refl
  length-modify k f ((i, w) ∷ m) = ground (arith, length-modify k f m)

  pub length-insert :
      (k : K) (v : V) (m : Map K V) → get k m ≡ none → length (insert k v m) ≡ suc (length m)
  unfolding get insert
  length-insert k v [] h = refl
  length-insert k v ((i, w) ∷ m) h = ground (arith, length-insert k v m)

  pub remove_absent : (k : K) (m : Map K V) → get k m ≡ none → remove k m ≡ m
  unfolding get remove
  remove_absent k [] h = refl
  remove_absent k ((i, w) ∷ m) h = ground (arith, remove_absent k m)

  pub length-remove :
      (k : K) (v : V) (m : Map K V)
      → Uniq m
      → get k m ≡ some v
      → suc (length (remove k m)) ≡ length m
  unfolding get remove Uniq
  length-remove k v [] u h = ground arith
  length-remove k v ((i, w) ∷ m) u h =
      ground (arith, length-remove k v m, remove_absent k m, e.beq_iff i k)

  pub length-remove-le : (k : K) (m : Map K V) → length (remove k m) ≤ length m
  unfolding remove
  length-remove-le k [] = ground arith
  length-remove-le k ((i, w) ∷ m) = ground (arith, length-remove-le k m)
