-- ===== src/Cache/Index/Attach.antt =====
-- `attach_to_tail` ends the queue with the floating entry; `insert`, `touch` and `pop_lru` are the
-- operations of the queue.
use migux.Common.{
  ℕ, ◌+◌, ◌≡◌, refl, sym, ap, ◌∙◌, [], ◌∷◌, ◌++◌, Option, none, some, arith, if◌then◌else◌, length,
  length-append,
}
use migux.Common.Maps
use migux.Common.Maps.{Uniq, get-modify, modify-Uniq, length-modify}
use migux.Common.Tests.{nat_eq}
use mathlib.Core.Option
use migux.Cache.Index.{
  DiskEntryMeta, DiskCacheIndex, attach_to_tail, link_tail, or_else, is_key, set_next,
}
use migux.Cache.Index.Queue.{Item, Queue, total, head_key, last_key}
use migux.Cache.Index.Linked.{node_at-append}
use migux.Cache.Index.Refines.{Reps, Floats, item_of, append-Distinct}

module _ (k : ℕ) (idx : DiskCacheIndex) where
  link_tail-fields :
      (t : Option ℕ)
      → let l = link_tail t k idx in
        ((j : ℕ)
          → Maps.get j l.entries ≡ (
              if is_key t j
              then Option.map (set_next (some k)) (Maps.get j idx.entries)
              else Maps.get j idx.entries))
        × (Uniq idx.entries → Uniq l.entries)
        × (length l.entries ≡ length idx.entries)
        × (l.lru_head ≡ elim t [ none ↦ some k | some _ ↦ idx.lru_head ])
        × (l.total_bytes ≡ idx.total_bytes)
  unfolding link_tail
  link_tail-fields none = (λ j. refl, λ u. u, refl, refl, refl)
  link_tail-fields (some t) = (
    λ j. get-modify j t (set_next (some k)) idx.entries,
    λ u. modify-Uniq t (set_next (some k)) idx.entries u,
    length-modify t (set_next (some k)) idx.entries,
    refl,
    refl,
  )

last_key-append :
    (k : ℕ) (a : Item) (p : Option ℕ) (q : Queue) → last_key p (q ++ (k, a) ∷ []) ≡ some k
last_key-append k a p [] = refl
last_key-append k a p ((i, b) ∷ q) = last_key-append k a (some i) q

head_key-append :
    (k : ℕ) (a : Item) (q : Queue)
    → head_key (q ++ (k, a) ∷ []) ≡ elim (head_key q) [ none ↦ some k | some h ↦ some h ]
head_key-append k a [] = refl
head_key-append k a ((i, b) ∷ q) = refl

last_key-none : (i : ℕ) (q : Queue) → (x : ℕ) × (last_key (some i) q ≡ some x)
last_key-none i [] = (i, refl)
last_key-none i ((j, b) ∷ q) = last_key-none j q

total-append : (k : ℕ) (a : Item) (q : Queue) → total (q ++ (k, a) ∷ []) ≡ total q + a.size
total-append k a [] = omega arith
total-append k a ((i, b) ∷ q) = omega (arith, total-append k a q)

-- The head that `attach_to_tail` leaves, from the ends `t` and `h` that it finds.
head_after :
    (k : ℕ) (a : Item) (q : Queue) (t h : Option ℕ)
    → t ≡ last_key none q
    → h ≡ head_key q
    → or_else (elim t [ none ↦ some k | some _ ↦ h ]) k ≡ head_key (q ++ (k, a) ∷ [])
head_after k a [] t h et eh = ground arith
head_after k a ((i, b) ∷ q) t h et eh = ground (arith, last_key-none i q)

module _ (idx : DiskCacheIndex) (k : ℕ) (e : DiskEntryMeta) (q : Queue) (f : Floats idx k e q) where
  pub attach_to_tail-Reps : Reps (attach_to_tail idx k) (q ++ (k, item_of e) ∷ [])
  unfolding attach_to_tail
  attach_to_tail-Reps =
      let l = link_tail idx.lru_tail k idx in
      let (nodes, uniq, len, first, sum) = link_tail-fields k idx idx.lru_tail in
      record {
        distinct = append-Distinct k (item_of e) q f.distinct f.fresh;
        nodes = λ j.
            get-modify j k (λ e. record e { prev = idx.lru_tail; next = none }) l.entries
            ∙ ground (
              arith,
              nodes j,
              f.nodes j,
              f.tail,
              node_at-append j k (item_of e) none q f.distinct f.fresh tt,
            );
        head =
            ap (λ h. or_else h k) first
            ∙ head_after k (item_of e) q idx.lru_tail idx.lru_head f.tail f.head;
        tail = sym (last_key-append k (item_of e) none q);
        uniq = modify-Uniq k _ l.entries (uniq f.uniq);
        count = omega (
          arith,
          length-modify k (λ e. record e { prev = idx.lru_tail; next = none }) l.entries,
          length-append q ((k, item_of e) ∷ []),
          f.count,
        );
        bytes = omega (arith, total-append k (item_of e) q, f.bytes);
        fits = omega (arith, total-append k (item_of e) q, f.fits);
      }
