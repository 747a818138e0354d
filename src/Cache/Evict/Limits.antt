-- ===== src/Cache/Evict/Limits.antt =====
-- What is left after each eviction loop of the disk cache.
use migux.Common.{
  ℕ, ◌+◌, ◌-◌, ◌%◌, ◌^◌, ◌≤◌, ◌≡◌, refl, sym, ap, ◌∙◌, ◌⊎◌, inl, inr, Bool, false, [], ◌∷◌, ◌++◌,
  some, ltb, ◌==◌, length, arith, Bool-cases, not, ◌&&◌,
}
use migux.Common.Tests.{nat_eq}
use migux.Cache.Index.{CacheSettings, DiskCacheIndex, exceeds_limits, u64_max}
use migux.Cache.Index.Queue.{Queue, total}
use migux.Cache.Index.Linked.{node_at}
use migux.Cache.Index.Refines.{Reps}
use migux.Cache.Evict.{
  Evictions, Evicted, rounds, evict_to_limits, make_room, evict_inactive, head_inactive,
}
use migux.Cache.Evict.Queue.{Evicts, evict_while_lem, stop_here}

-- A queue exceeds the limits of the settings.
abbrev pub over : CacheSettings → Queue → Bool
over s q = exceeds_limits s (total q) (length q)

not_over_empty : (s : CacheSettings) → over s [] ≡ false
unfolding exceeds_limits
not_over_empty s = ground arith

not_over : (s : CacheSettings) (q : Queue) → (over s q ≡ false) ⊎ (q ≡ []) → over s q ≡ false
not_over s q (inl e) = e
not_over s q (inr e) = rw e (not_over_empty s)

-- On an index that represents a queue, `evict_to_limits` ends within the limits, having taken
-- entries from the front alone, each while the limits were exceeded, with their keys in this
-- order and the counters raised modulo 2^64.
pub evict_to_limits_lem :
    (s : CacheSettings) (idx : DiskCacheIndex) (q : Queue) (c : Evictions)
    → Reps idx q
    → (out : Evicted) × (evict_to_limits s idx c ≡ some out)
      × (e : Evicts (over s) q c out) × (over s e.rest ≡ false)
unfolding evict_to_limits
evict_to_limits_lem s idx q c r =
    let (out, run, e) =
      evict_while_lem (λ i. exceeds_limits s i.total_bytes (length i.entries)) (over s)
        (λ i q r. ground (arith, r.bytes, r.count)) (rounds idx) idx q c r
        (omega (arith, r.count)) in
    (out, run, e, not_over s e.rest e.ends)

-- The test of the loop in `put`, on a queue.
abbrev pub over_with : CacheSettings → ℕ → Queue → Bool
over_with s size q = exceeds_limits s ((total q + size) % 2 ^ 64) (length q + 1)

-- An object that passes `put`'s own check fits where nothing else is.
fits_alone :
    (s : CacheSettings) (size : ℕ)
    → size ≤ u64_max
    → (s.max_total_bytes ≡ 0) ⊎ (size ≤ s.max_total_bytes)
    → over_with s size [] ≡ false
unfolding exceeds_limits
fits_alone s size h (inl e) = ground arith
fits_alone s size h (inr e) = ground arith

no_wrap : (a b : ℕ) → a + b ≤ u64_max → (a + b) % 2 ^ 64 ≡ a + b
no_wrap a b h = omega arith

total-append-le : (xs ys : Queue) → total ys ≤ total (xs ++ ys)
total-append-le [] ys = omega arith
total-append-le ((k, a) ∷ xs) ys = omega (arith, total-append-le xs ys)

-- On an index that is a queue whose bytes and `size` are a `u64` together, and for a `size`
-- within the limit on bytes, the loop of `put` ends, as `Evicts` says, within the limits for what
-- is left and one more entry of `size` bytes.
pub make_room_lem :
    (s : CacheSettings) (size : ℕ) (idx : DiskCacheIndex) (q : Queue) (c : Evictions)
    → Reps idx q
    → total q + size ≤ u64_max
    → (s.max_total_bytes ≡ 0) ⊎ (size ≤ s.max_total_bytes)
    → (out : Evicted) × (make_room s size idx c ≡ some out)
      × (e : Evicts (over_with s size) q c out) × (exceeds_limits s
            (total e.rest + size)
            (length e.rest + 1)
          ≡ false)
unfolding make_room
make_room_lem s size idx q c r h small =
    let (out, run, e) =
      evict_while_lem
        (λ i. exceeds_limits s ((i.total_bytes + size) % 2 ^ 64) (length i.entries + 1))
        (over_with s size) (λ i q r. ground (arith, r.bytes, r.count)) (rounds idx) idx q c r
        (omega (arith, r.count)) in
    (
      out,
      run,
      e,
      ap (λ t. exceeds_limits s t (length e.rest + 1))
            (sym (
              no_wrap (total e.rest) size
                (omega (arith, h, total-append-le e.gone e.rest, ap total e.split))))
          ∙ room e.rest e.ends,
    )
  where
    room : (q : Queue) → (over_with s size q ≡ false) ⊎ (q ≡ []) → over_with s size q ≡ false
    room q (inl e) = e
    room q (inr e) = rw e (fits_alone s size (omega arith) small)

abbrev pub stale : ℕ → ℕ → Queue → Bool
stale now secs [] = false
stale now secs ((k, a) ∷ q) = ltb secs (now - a.last_access)

head_inactive-stale :
    (now secs : ℕ) (idx : DiskCacheIndex) (q : Queue)
    → Reps idx q
    → head_inactive now secs idx ≡ stale now secs q
unfolding head_inactive node_at
head_inactive-stale now secs idx [] r = ground (arith, r.head)
head_inactive-stale now secs idx ((k, a) ∷ q) r = ground (arith, r.head, r.nodes k)

abbrev pub idle : ℕ → ℕ → Queue → Bool
idle now secs q = not (secs == 0) && stale now secs q

fresh_front :
    (now secs : ℕ) (q : Queue)
    → (secs == 0) ≡ false
    → (idle now secs q ≡ false) ⊎ (q ≡ [])
    → stale now secs q ≡ false
fresh_front now secs [] on e = refl
fresh_front now secs ((k, a) ∷ q) on (inl e) = ground arith
fresh_front now secs ((k, a) ∷ q) on (inr e) = cc

-- On an index that represents a queue, `evict_inactive` ends, having taken entries from the front
-- alone, each while the first was idle for longer than `inactive_secs`; with `inactive_secs` not
-- 0 the first entry left is not.
pub evict_inactive_lem :
    (now secs : ℕ) (idx : DiskCacheIndex) (q : Queue) (c : Evictions)
    → Reps idx q
    → (out : Evicted) × (evict_inactive now secs idx c ≡ some out)
      × (e : Evicts (idle now secs) q c out) × ((secs ≡ 0) ⊎ (stale now secs e.rest ≡ false))
unfolding evict_inactive
evict_inactive_lem now secs idx q c r = elim (Bool-cases (secs == 0)) [
  | inl off ↦ (
    record { index = idx; counters = c; keys = [] },
    ground (arith, off),
    stop_here (idle now secs) idx q c r (inl (ground (arith, off))),
    inl (ground arith),
  )
  | inr on ↦
      let (out, run, e) =
        evict_while_lem (head_inactive now secs) (idle now secs)
          (λ i q r. head_inactive-stale now secs i q r ∙ ground (arith, on)) (rounds idx) idx q c r
          (omega (arith, r.count)) in
      (out, ground (arith, on, run), e, inr (fresh_front now secs e.rest on e.ends))
]
