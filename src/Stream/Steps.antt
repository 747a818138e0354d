-- ===== src/Stream/Steps.antt =====
-- A chain of steps, by what its first step returns.
use migux.Common.{◌≡◌, ◌⊎◌, inl, inr, ap, sym, refl}
use migux.Stream.{Result, done, err, Run, ◌>>=◌}

pub >>=-done :
    {S E A B : Type 0} (m : Run S E A) (f : A → Run S E B) (s : S) {a : A}
    → (m s).1 ≡ done a
    → (m >>= f) s ≡ f a (m s).0
>>=-done {S} {E} {A} {B} m f s {a} h =
    ap
      (λ (r : Result E A). elim r as (λ _. S × Result E B) [
        | done a' ↦ f a' (m s).0
        | err e ↦ ((m s).0, err e)
      ])
      h

pub >>=-err :
    {S E A B : Type 0} (m : Run S E A) (f : A → Run S E B) (s : S) {e : E}
    → (m s).1 ≡ err e
    → (m >>= f) s ≡ ((m s).0, err e)
>>=-err {S} {E} {A} {B} m f s {e} h =
    ap
      (λ (r : Result E A). elim r as (λ _. S × Result E B) [
        | done a' ↦ f a' (m s).0
        | err e' ↦ ((m s).0, err e')
      ])
      h

pub Result-cases :
    {E A : Type 0} (r : Result E A) → ((a : A) × (r ≡ done a)) ⊎ ((e : E) × (r ≡ err e))
Result-cases (done a) = inl (a, refl)
Result-cases (err e) = inr (e, refl)

-- A chain that succeeds: its first step has succeeded.
pub >>=-eq_done :
    {S E A B : Type 0} (m : Run S E A) (f : A → Run S E B) (s : S) {b : B}
    → ((m >>= f) s).1 ≡ done b
    → (a : A) × ((m s).1 ≡ done a) × ((m >>= f) s ≡ f a (m s).0)
>>=-eq_done m f s h = elim (Result-cases (m s).1) [
  | inl (a, r) ↦ (a, r, >>=-done m f s r)
  | inr (e, r) ↦ absurd (cc (sym (ap (λ p. p.1) (>>=-err m f s r)), h))
]
