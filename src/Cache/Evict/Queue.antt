-- ===== src/Cache/Evict/Queue.antt =====
-- What an eviction loop does to the queue: it takes entries from the front, each while the test
-- still holds, and ends where the test fails or nothing is left.
use migux.Common.{
  ℕ, zero, suc, ◌+◌, ◌%◌, ◌^◌, ◌<◌, ◌≡◌, refl, sym, ap, ◌∙◌, ◌⊎◌, inl, inr, Bool, true, false, List,
  [], ◌∷◌, ◌++◌, Option, none, some, length, arith, Bool-cases,
}
use migux.Cache.Index.{DiskEntryMeta, DiskCacheIndex, pop_lru}
use migux.Cache.Index.Queue.{Item, Queue, total}
use migux.Cache.Index.Refines.{Reps}
use migux.Cache.Index.Touch.{popped, pop_lru_queue, pop_lru_empty}
use migux.Cache.Evict.{Evictions, Evicted, counted, push_key, evict_while}

abbrev pub keys_of : Queue → List ℕ
keys_of [] = []
keys_of ((k, _) ∷ q) = k ∷ keys_of q

-- The test holds of every queue from which an entry is taken.
abbrev pub Needed : (Queue → Bool) → Queue → Queue → Type 0
Needed full [] rest = Unit
Needed full (x ∷ gone) rest = (full ((x ∷ gone) ++ rest) ≡ true) × Needed full gone rest

pub record Evicts (full : Queue → Bool) (q : Queue) (c : Evictions) (out : Evicted) : Type 0 where
  pub gone : Queue
  pub rest : Queue
  pub split : q ≡ gone ++ rest
  pub holds : Reps out.index rest
  pub named : out.keys ≡ keys_of gone
  pub ends : (full rest ≡ false) ⊎ (rest ≡ [])
  pub needed : Needed full gone rest
  pub counts : out.counters.count % 2 ^ 64 ≡ (c.count + length gone) % 2 ^ 64
  pub sizes : out.counters.bytes % 2 ^ 64 ≡ (c.bytes + total gone) % 2 ^ 64

popped-some :
    (o : Option (ℕ × DiskEntryMeta)) (k : ℕ) (a : Item)
    → popped o ≡ some (k, a)
    → (m : DiskEntryMeta) × (o ≡ some (k, m)) × (m.size ≡ a.size)
popped-some none k a h = cc
popped-some (some (j, m)) k a h = (m, ground arith, ground arith)

module _ (full : Queue → Bool) where
  pub stop_here :
      (idx : DiskCacheIndex) (q : Queue) (c : Evictions)
      → Reps idx q
      → (full q ≡ false) ⊎ (q ≡ [])
      → Evicts full q c (record { index = idx; counters = c; keys = [] })
  stop_here idx q c r e = record {
    gone = [];
    rest = q;
    split = refl;
    holds = r;
    named = refl;
    ends = e;
    needed = tt;
    counts = omega arith;
    sizes = omega arith;
  }

  take_one :
      (k : ℕ) (a : Item) (q : Queue) (c : Evictions) (m : DiskEntryMeta) (out : Evicted)
      → m.size ≡ a.size
      → full ((k, a) ∷ q) ≡ true
      → Evicts full q (counted c m) out
      → Evicts full ((k, a) ∷ q) c (push_key k out)
  take_one k a q c m out s h e = record {
    gone = (k, a) ∷ e.gone;
    rest = e.rest;
    split = ap (◌∷◌ (k, a)) e.split;
    holds = e.holds;
    named = ap (◌∷◌ k) e.named;
    ends = e.ends;
    needed = (ap full (sym (ap (◌∷◌ (k, a)) e.split)) ∙ h, e.needed);
    counts = omega (arith, e.counts);
    sizes = omega (arith, e.sizes);
  }

module _ (test : DiskCacheIndex → Bool) (full : Queue → Bool)
    (agree : (idx : DiskCacheIndex) (q : Queue) → Reps idx q → test idx ≡ full q) where
  -- With more fuel than entries the loop ends so.
  pub evict_while_lem :
      (fuel : ℕ) (idx : DiskCacheIndex) (q : Queue) (c : Evictions)
      → Reps idx q
      → length q < fuel
      → (out : Evicted) × (evict_while test fuel idx c ≡ some out) × Evicts full q c out
  unfolding evict_while
  evict_while_lem zero idx q c r h = absurd (omega arith)
  evict_while_lem (suc fuel) idx [] c r h = elim (Bool-cases (test idx)) [
    | inl more ↦ (
      record { index = idx; counters = c; keys = [] },
      ground (arith, more, pop_lru_empty idx r),
      stop_here full idx [] c r (inr refl),
    )
    | inr done ↦ (
      record { index = idx; counters = c; keys = [] },
      rw (done, evict_while) refl,
      stop_here full idx [] c r (inr refl),
    )
  ]
  evict_while_lem (suc fuel) idx ((k, a) ∷ q) c r h = elim (Bool-cases (test idx)) [
    | inl more ↦
        let (r', top) = pop_lru_queue idx k a q r in
        let (m, e, s) = popped-some (pop_lru idx).1 k a top in
        let (out, run, ev) =
          evict_while_lem fuel (pop_lru idx).0 q (counted c m) r' (omega arith) in
        (
          push_key k out,
          rw (more, evict_while, e, run) refl,
          take_one full k a q c m out s (sym (agree idx ((k, a) ∷ q) r) ∙ more) ev,
        )
    | inr done ↦ (
      record { index = idx; counters = c; keys = [] },
      rw (done, evict_while) refl,
      stop_here full idx ((k, a) ∷ q) c r (inl (sym (agree idx ((k, a) ∷ q) r) ∙ done)),
    )
  ]
