-- ===== src/Cache/Memory.antt =====
-- crates/migux_static/src/cache.rs, `MemoryCache`. Times and durations are in nanoseconds; the lock is
-- never poisoned, since nothing that holds it panics.
use migux.Common.{
  ℕ, ◌+◌, ◌/◌, ◌≡◌, false, List, Option, none, some, leb, ◌==◌, if◌then◌else◌, arith, Bool-cases,
  inl, inr,
}
use migux.Common.Maps
use migux.Common.Maps.{Map, get-insert}
use migux.Common.Tests.{nat_eq}
use migux.Cache.Evict.{fetch_add}

pub record CacheEntry : Type 0 where
  pub response : List ℕ
  pub expires_at : ℕ

-- The statics `STATIC_CACHE`, `MEMORY_HITS` and `MEMORY_MISSES`.
pub record Memory : Type 0 where
  pub map : Map ℕ CacheEntry
  pub hits : ℕ
  pub misses : ℕ

abbrev drop_and_miss : Memory → ℕ → Memory × Option (List ℕ)
drop_and_miss c key =
    (record c { map = Maps.remove key c.map; misses = fetch_add c.misses 1 }, none)

pub memory_get : Memory → ℕ → ℕ → Memory × Option (List ℕ)
memory_get c key now = elim (Maps.get key c.map) [
  | none ↦ drop_and_miss c key
  | some entry ↦
      if leb now entry.expires_at
      then (record c { hits = fetch_add c.hits 1 }, some entry.response)
      else drop_and_miss c key
]

pub memory_put : Memory → ℕ → List ℕ → ℕ → ℕ → Memory
memory_put c key response ttl now = if ttl / 1_000_000_000 == 0 then c else record c {
  map = Maps.insert key (record { response = response; expires_at = now + ttl }) c.map;
}

-- After a `put` with a time to live of at least a second, `get` of its key answers the response until
-- the time is over and nothing afterwards, and `get` of any other key answers as before.
pub memory_get-memory_put :
    (c : Memory) (key other : ℕ) (response : List ℕ) (ttl now later : ℕ)
    → (ttl / 1_000_000_000 == 0) ≡ false
    → (memory_get (memory_put c key response ttl now) other later).1 ≡ (
        if key == other
        then (if leb later (now + ttl) then some response else none)
        else (memory_get c other later).1)
unfolding memory_get memory_put
memory_get-memory_put c key other response ttl now later h =
    let e = get-insert other key (record { response = response; expires_at = now + ttl }) c.map in
    elim (Bool-cases (key == other)) [
      | inl one ↦ ground (arith, e, h, one)
      | inr two ↦ ground (arith, e, h, two)
    ]
