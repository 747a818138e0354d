-- ===== src/Cache/Evict.antt =====
-- crates/migux_static/src/cache.rs: the eviction loops of `DiskCacheIndex`, and the one in
-- `DiskCache::put`, which have one body: take the least recently used entry, count it, note its key.
pub mod Queue
pub mod Limits
use migux.Common.{
  ℕ, zero, suc, ◌+◌, ◌-◌, ◌%◌, ◌^◌, Bool, true, false, List, [], ◌∷◌, Option, none, some, ltb, ◌==◌,
  if◌then◌else◌, length,
}
use migux.Common.Maps
use migux.Common.Tests.{nat_eq}
use migux.Cache.Index.{DiskEntryMeta, CacheSettings, DiskCacheIndex, exceeds_limits, pop_lru}
use mathlib.Core.Option

-- The counters `DISK_EVICTIONS` and `DISK_EVICTED_BYTES`; `fetch_add` wraps.
pub record Evictions : Type 0 where
  pub count : ℕ
  pub bytes : ℕ

abbrev pub fetch_add : ℕ → ℕ → ℕ
fetch_add a b = (a + b) % 2 ^ 64

abbrev pub counted : Evictions → DiskEntryMeta → Evictions
counted c m = record { count = fetch_add c.count 1; bytes = fetch_add c.bytes m.size }

pub record Evicted : Type 0 where
  pub index : DiskCacheIndex
  pub counters : Evictions
  pub keys : List ℕ

abbrev push_key : ℕ → Evicted → Evicted
push_key k out = record out { keys = k ∷ out.keys }

-- `while full(index) { let Some((key, meta)) = index.pop_lru() else { break }; ... }`; `none` means
-- that the fuel ran out. The keys come out in the order in which the loop pushes them.
pub evict_while : (DiskCacheIndex → Bool) → ℕ → DiskCacheIndex → Evictions → Option Evicted
evict_while full zero idx c = none
evict_while full (suc fuel) idx c =
    let stop = some (record { index = idx; counters = c; keys = [] }) in
    let (idx', top) = pop_lru idx in
    elim (full idx) [
      | false ↦ stop
      | true ↦ elim top [
        | none ↦ some (record { index = idx'; counters = c; keys = [] })
        | some (k, m) ↦ Option.map (push_key k) (evict_while full fuel idx' (counted c m))
      ]
    ]

-- One round for each entry, and one more to see the end.
abbrev pub rounds : DiskCacheIndex → ℕ
rounds idx = suc (length idx.entries)

pub evict_to_limits : CacheSettings → DiskCacheIndex → Evictions → Option Evicted
evict_to_limits s idx c =
    evict_while (λ i. exceeds_limits s i.total_bytes (length i.entries)) (rounds idx) idx c

-- The loop of `put` makes room for one more entry of `size` bytes; the sum is a `u64`.
pub make_room : CacheSettings → ℕ → DiskCacheIndex → Evictions → Option Evicted
make_room s size idx c =
    evict_while (λ i. exceeds_limits s ((i.total_bytes + size) % 2 ^ 64) (length i.entries + 1))
      (rounds idx) idx c

-- The head of the list has not been used for more than `inactive_secs`.
head_inactive : ℕ → ℕ → DiskCacheIndex → Bool
head_inactive now inactive_secs idx = elim idx.lru_head [
  | none ↦ false
  | some k ↦ elim (Maps.get k idx.entries) [
    | none ↦ false
    | some e ↦ ltb inactive_secs (now - e.last_access)
  ]
]

pub evict_inactive : ℕ → ℕ → DiskCacheIndex → Evictions → Option Evicted
evict_inactive now inactive_secs idx c =
    let loop = evict_while (head_inactive now inactive_secs) (rounds idx) idx c in
    if inactive_secs == 0 then some (record { index = idx; counters = c; keys = [] }) else loop
