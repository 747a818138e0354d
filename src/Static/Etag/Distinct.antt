-- ===== src/Static/Etag/Distinct.antt =====
-- What an ETag tells of a file.
use migux.Common.{
  ℕ, zero, suc, ◌+◌, ◌/◌, ◌%◌, ◌≡◌, refl, ap, sym, ◌∙◌, inl, inr, true, [], ◌∷◌, some, ltb,
  Bool-cases, arith,
}
use migux.Text.Lines.{lacks, lacks-append, split_once-first}
use migux.Text.{split_once}
use migux.Decimal.{decimal, decimal_from}
use migux.Decimal.Laws.{decimal-injective}
use migux.Static.Etag.{Metadata, nanos, etag_value, weak_etag_size_mtime}

decimal_from-no_dash : (fuel n : ℕ) → lacks b'-' (decimal_from fuel n) ≡ true
unfolding decimal_from
decimal_from-no_dash zero n = refl
decimal_from-no_dash (suc fuel) n = elim (Bool-cases (ltb n 10)) [
  | inl e ↦ rw e (ground arith)
  | inr e ↦ rw e (
      lacks-append b'-' (decimal_from fuel (n / 10)) ((n % 10 + b'0') ∷ [])
        (decimal_from-no_dash fuel (n / 10)) (ground arith))
]

etag_value-split : (n m : ℕ) → split_once b'-' (etag_value n m) ≡ some (decimal n, decimal m)
unfolding etag_value decimal
etag_value-split n m =
    split_once-first b'-' (decimal n) (decimal m) (decimal_from-no_dash (suc n) n)

-- Files with the same ETag have the same size and the same time of modification, to the nanosecond,
-- where a time that is missing or before the epoch counts as the epoch.
pub weak_etag_size_mtime-injective :
    (a b : Metadata)
    → (weak_etag_size_mtime a).value ≡ (weak_etag_size_mtime b).value
    → (a.len ≡ b.len) × (nanos a.modified ≡ nanos b.modified)
unfolding weak_etag_size_mtime
weak_etag_size_mtime-injective a b h =
    let both =
      sym (etag_value-split a.len (nanos a.modified))
      ∙ ap (split_once b'-') h
      ∙ etag_value-split b.len (nanos b.modified) in
    (
      decimal-injective a.len b.len (cc both),
      decimal-injective (nanos a.modified) (nanos b.modified) (cc both),
    )
