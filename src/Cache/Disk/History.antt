-- ===== src/Cache/Disk/History.antt =====
-- Histories of calls of the disk cache, each with the time and the file system that it meets.
use migux.Common.{
  ℕ, ◌+◌, ◌≤◌, ◌<◌, ◌≡◌, refl, ap, inl, inr, false, List, [], ◌∷◌, ◌++◌, Option, none, some, length,
  length-append, arith, All, Option-cases,
}
use mathlib.Core.Option
use migux.Cache.Index.{CacheSettings, u64_max, exceeds_limits}
use migux.Cache.Index.Queue.{Item, Queue, find, delete, total, at_time}
use migux.Cache.Index.Refines.{Reps}
use migux.Cache.Evict.Limits.{over}
use migux.Cache.Disk.{Env, Disk, FileOp, get, touch_entry, put}
use migux.Cache.Disk.Access.{after_get, after_touch, get_lem, touch_entry_lem}
use migux.Cache.Disk.Put.{put-Kept, over_mono, total-delete-le, total-append, length-delete-le}

pub data Call : Type 0 where
  gets touches : ℕ → Call
  puts : ℕ → List ℕ → ℕ → Call

pub call : CacheSettings → Env × Call → Disk → Option Disk
call s (env, gets k) d = some (get env s d k).0
call s (env, touches k) d = some (touch_entry env s d k).0
call s (env, puts k response ttl) d = Option.map (λ out. out.0) (put env s d k response ttl)

pub run : CacheSettings → List (Env × Call) → Disk → Option Disk
run s [] d = some d
run s (c ∷ cs) d = elim (call s c d) [ none ↦ none | some d' ↦ run s cs d' ]

-- The index is a queue within the limits.
pub record Healthy (s : CacheSettings) (d : Disk) : Type 0 where
  pub queue : Queue
  pub holds : Reps d.index queue
  pub within : over s queue ≡ false

-- The byte counter cannot overflow: an object and a full cache fit in a `u64` together.
abbrev pub Fits : CacheSettings → Env × Call → Type 0
Fits s (env, gets k) = Unit
Fits s (env, touches k) = Unit
Fits s (env, puts k response ttl) = s.max_total_bytes + length response ≤ u64_max

capped :
    (s : CacheSettings) (q : Queue)
    → 0 < s.max_total_bytes
    → over s q ≡ false
    → total q ≤ s.max_total_bytes
unfolding exceeds_limits
capped s q h w = ground arith

total-found :
    (k : ℕ) (a : Item) (q : Queue) → find k q ≡ some a → total (delete k q) + a.size ≡ total q
total-found k a [] h = cc
total-found k a ((i, b) ∷ q) h = ground (arith, total-found k a q)

length-found :
    (k : ℕ) (a : Item) (q : Queue) → find k q ≡ some a → length (delete k q) + 1 ≡ length q
length-found k a [] h = cc
length-found k a ((i, b) ∷ q) h = ground (arith, length-found k a q)

module _ (s : CacheSettings) where
  smaller : (k : ℕ) (q : Queue) → over s q ≡ false → over s (delete k q) ≡ false
  smaller k q = over_mono s _ _ _ _ (total-delete-le k q) (length-delete-le k q)

  moved :
      (k now : ℕ) (a : Item) (q : Queue)
      → find k q ≡ some a
      → over s q ≡ false
      → over s (delete k q ++ (k, at_time now a) ∷ []) ≡ false
  moved k now a q h =
      over_mono s _ _ _ _
        (omega (arith, total-append (delete k q) ((k, at_time now a) ∷ []), total-found k a q h))
        (omega (arith, length-append (delete k q) ((k, at_time now a) ∷ []), length-found k a q h))

  get_within :
      (env : Env) (k : ℕ) (q : Queue) → over s q ≡ false → over s (after_get env s k q) ≡ false
  get_within env k q w = elim (Option-cases (find k q)) [
    | inl lost ↦ ground (arith, lost)
    | inr (a, found) ↦ ground (arith, found, smaller k q, moved k env.now a q found)
  ]

  touch_within : (now k : ℕ) (q : Queue) → over s q ≡ false → over s (after_touch now s k q) ≡ false
  touch_within now k q w = elim (Option-cases (find k q)) [
    | inl lost ↦ ground (arith, lost)
    | inr (a, found) ↦ ground (arith, found, smaller k q, moved k now a q found)
  ]

  -- Every call of the cache ends, and leaves the index a queue within the limits.
  pub call-Healthy :
      (c : Env × Call) (d : Disk)
      → 0 < s.max_total_bytes
      → Fits s c
      → Healthy s d
      → (d' : Disk) × (call s c d ≡ some d') × Healthy s d'
  unfolding call
  call-Healthy (env, gets k) d cap fits h = (
    (get env s d k).0,
    refl,
    record {
      queue = after_get env s k h.queue;
      holds = (get_lem env s d k h.queue h.holds).0;
      within = get_within env k h.queue h.within;
    },
  )
  call-Healthy (env, touches k) d cap fits h = (
    (touch_entry env s d k).0,
    refl,
    record {
      queue = after_touch env.now s k h.queue;
      holds = touch_entry_lem env s d k h.queue h.holds;
      within = touch_within env.now k h.queue h.within;
    },
  )
  call-Healthy (env, puts k response ttl) d cap fits h =
      let room : total h.queue + length response ≤ u64_max =
        omega (arith, capped s h.queue cap h.within) in
      let (out, run, kept) = put-Kept env s d k response ttl h.queue h.holds room in
      (
        out.0,
        ap (Option.map (λ (o : Disk × List FileOp). o.0)) run,
        record { queue = kept.queue; holds = kept.holds; within = kept.within h.within },
      )

  -- From an index that is a queue within the limits, every list of calls of `get`, `touch` and
  -- `put`, each with its own time and file system, ends and leaves such an index, if there is a
  -- limit on the bytes and the size of each object put is a `u64` together with this limit.
  pub run-Healthy :
      (cs : List (Env × Call)) (d : Disk)
      → 0 < s.max_total_bytes
      → All (Fits s) cs
      → Healthy s d
      → (d' : Disk) × (run s cs d ≡ some d') × Healthy s d'
  unfolding run
  run-Healthy [] d cap fits h = (d, refl, h)
  run-Healthy (c ∷ cs) d cap fits h =
      let (d', e, h') = call-Healthy c d cap fits.0 h in
      let (d'', e', h'') = run-Healthy cs d' cap fits.1 h' in (d'', rw (e, run) e', h'')
