-- ===== src/Cache/Load/Loaded.antt =====
-- A loaded index is a queue within the limits.
use migux.Common.{
  ℕ, ◌+◌, ◌≤◌, ◌≡◌, refl, ap, ◌∙◌, inl, inr, Bool, true, false, List, [], ◌∷◌, ◌++◌, Option, none,
  some, arith, Bool-cases,
}
use migux.Common.Maps
use migux.Common.Maps.{Uniq}
use migux.Common.Tests.{nat_eq}
use migux.Text.{same}
use migux.Cache.Index.{
  DiskEntryMeta, CacheSettings, DiskCacheIndex, exceeds_limits, insert, u64_max,
}
use migux.Cache.Index.Queue.{Queue, delete, total}
use migux.Cache.Index.Linked.{node_at}
use migux.Cache.Index.Refines.{Reps, item_of}
use migux.Cache.Index.Operations.{insert_queue}
use migux.Cache.Evict.{Evictions, Evicted}
use migux.Cache.Evict.Limits.{over, evict_to_limits_lem}
use migux.Cache.Disk.{FileOp, remove_all}
use migux.Cache.Disk.Put.{total-delete-le, total-append}
use migux.Cache.Load.{
  MetaFile, loaded_entries, stale_keys, put_in_order, sort_by_access, insert_all, emptied,
  load_from_disk, ensure_loaded, lock_index,
}

abbrev pub sizes : List (ℕ × DiskEntryMeta) → ℕ
sizes [] = 0
sizes ((_, meta) ∷ es) = meta.size + sizes es

sizes-put_in_order :
    (e : ℕ × DiskEntryMeta) (es : List (ℕ × DiskEntryMeta))
    → sizes (put_in_order e es) ≡ e.1.size + sizes es
unfolding put_in_order
sizes-put_in_order e [] = refl
sizes-put_in_order e (f ∷ fs) = ground (arith, sizes-put_in_order e fs)

sizes-sort_by_access : (es : List (ℕ × DiskEntryMeta)) → sizes (sort_by_access es) ≡ sizes es
unfolding sort_by_access
sizes-sort_by_access [] = refl
sizes-sort_by_access (e ∷ es) =
    sizes-put_in_order e (sort_by_access es) ∙ ap (λ n. e.1.size + n) (sizes-sort_by_access es)

insert_all-Reps :
    (es : List (ℕ × DiskEntryMeta)) (idx : DiskCacheIndex) (q : Queue)
    → Reps idx q
    → total q + sizes es ≤ u64_max
    → (q' : Queue) × Reps (insert_all idx es) q'
unfolding insert_all
insert_all-Reps [] idx q r fits = (q, r)
insert_all-Reps ((key, meta) ∷ es) idx q r fits =
    insert_all-Reps es (insert idx key meta) (delete key q ++ (key, item_of meta) ∷ [])
      (insert_queue idx key q r meta (omega (arith, fits, total-delete-le key q)))
      (omega (
        arith,
        fits,
        total-delete-le key q,
        total-append (delete key q) ((key, item_of meta) ∷ []),
      ))

emptied-Reps : (idx : DiskCacheIndex) (is_loaded : Bool) → Reps (emptied idx is_loaded) []
unfolding emptied node_at Maps.get Uniq
emptied-Reps idx is_loaded = record {
  distinct = tt;
  nodes = λ j. refl;
  head = refl;
  tail = refl;
  uniq = tt;
  count = refl;
  bytes = refl;
  fits = omega arith;
}

-- The sizes of the entries that the directory gives.
abbrev pub sizes_of : ℕ → CacheSettings → Option (List MetaFile) → ℕ
sizes_of now s none = 0
sizes_of now s (some files) = sizes (loaded_entries now s files)

-- An index that is a queue within the limits.
pub record Within (s : CacheSettings) (idx : DiskCacheIndex) : Type 0 where
  pub queue : Queue
  pub holds : Reps idx queue
  pub within : over s queue ≡ false

empty_within : (s : CacheSettings) → over s [] ≡ false
unfolding exceeds_limits
empty_within s = ground arith

-- Loading ends, and leaves a queue within the limits, if the sizes of all the entries are a `u64`
-- together.
load_from_disk-Within :
    (now : ℕ) (s : CacheSettings) (dir : Option (List MetaFile)) (idx : DiskCacheIndex)
    (c : Evictions)
    → sizes_of now s dir ≤ u64_max
    → (out : Evicted × List FileOp) × (load_from_disk now s dir idx c ≡ some out)
      × Within s out.0.index
unfolding load_from_disk
load_from_disk-Within now s none idx c fits = (
  (record { index = emptied idx true; counters = c; keys = [] }, []),
  refl,
  record { queue = []; holds = emptied-Reps idx true; within = empty_within s },
)
load_from_disk-Within now s (some files) idx c fits =
    let es = sort_by_access (loaded_entries now s files) in
    let (q, r) =
      insert_all-Reps es (emptied idx true) [] (emptied-Reps idx true)
        (omega (arith, fits, sizes-sort_by_access (loaded_entries now s files))) in
    let (out, run, e, w) = evict_to_limits_lem s (insert_all (emptied idx true) es) q c r in
    (
      (out, remove_all (stale_keys now s files ++ out.keys)),
      rw (load_from_disk, run) refl,
      record { queue = e.rest; holds = e.holds; within = w },
    )

-- On an index that is a queue within the limits, and where the sizes of the entries that the
-- directory gives are a `u64` together, `lock_index` ends with an index that is a queue within
-- the limits, whether it loads the directory or not.
pub lock_index-Within :
    (cache_dir : List ℕ) (now : ℕ) (s : CacheSettings) (dir : Option (List MetaFile))
    (idx : DiskCacheIndex) (c : Evictions)
    → Within s idx
    → sizes_of now s dir ≤ u64_max
    → (out : Evicted × List FileOp) × (lock_index cache_dir now s dir idx c ≡ some out)
      × Within s out.0.index
unfolding lock_index ensure_loaded
lock_index-Within cache_dir now s dir idx c w fits =
    elim (Bool-cases (same idx.cache_dir cache_dir)) [
      | inl here ↦ elim (Bool-cases idx.loaded) [
        | inl done ↦
            ((record { index = idx; counters = c; keys = [] }, []), ground (arith, here, done), w)
        | inr not_yet ↦
            let (out, run, w') = load_from_disk-Within now s dir idx c fits in
            (out, ground (arith, here, not_yet, run), w')
      ]
      | inr moved ↦
          let idx' = record (emptied idx false) { cache_dir = cache_dir } in
          let (out, run, w') = load_from_disk-Within now s dir idx' c fits in
          (out, ground (arith, moved, run), w')
    ]
