-- ===== src/Cache/Index.antt =====
-- crates/migux_static/src/cache.rs, `DiskCacheIndex`: a hash map whose entries are linked into a
-- list by `prev` and `next` keys, least recently used first. Counters are `u64`.
pub mod Queue
pub mod Linked
pub mod Refines
pub mod Attach
pub mod Operations
pub mod Touch
use migux.Common.{
  ℕ, ◌+◌, ◌-◌, min, Bool, true, false, ◌&&◌, ◌||◌, List, [], ◌∷◌, ◌++◌, Option, none, some, ltb,
  ◌==◌, if◌then◌else◌, length,
}
use migux.Common.Maps
use migux.Common.Maps.{Map}
use migux.Common.Tests.{nat_eq}
use mathlib.Core.Option

abbrev pub u64_max : ℕ
u64_max = 18446744073709551615

abbrev pub saturating_add : ℕ → ℕ → ℕ
saturating_add a b = min (a + b) u64_max

pub record DiskEntryMeta : Type 0 where
  pub size : ℕ
  pub expires_at : ℕ
  pub last_access : ℕ
  pub prev : Option ℕ
  pub next : Option ℕ

pub record DiskMetaRecord : Type 0 where
  pub expires_at : ℕ
  pub last_access : ℕ
  pub size : ℕ

pub record CacheSettings : Type 0 where
  pub max_total_bytes : ℕ
  pub max_entries : ℕ
  pub inactive_secs : ℕ

unfoldable pub exceeds_limits : CacheSettings → ℕ → ℕ → Bool
exceeds_limits s total_bytes entries =
    if ltb 0 s.max_total_bytes && ltb s.max_total_bytes total_bytes
    then true
    else if ltb 0 s.max_entries && ltb s.max_entries entries
    then true
    else false

pub record DiskCacheIndex : Type 0 where
  pub cache_dir : List ℕ
  pub entries : Map ℕ DiskEntryMeta
  pub lru_head : Option ℕ
  pub lru_tail : Option ℕ
  pub total_bytes : ℕ
  pub loaded : Bool

unfoldable pub new : List ℕ → DiskCacheIndex
new dir = record {
  cache_dir = dir;
  entries = [];
  lru_head = none;
  lru_tail = none;
  total_bytes = 0;
  loaded = false;
}

-- `opt == Some(key)`
abbrev pub is_key : Option ℕ → ℕ → Bool
is_key none k = false
is_key (some j) k = j == k

abbrev pub set_prev : Option ℕ → DiskEntryMeta → DiskEntryMeta
set_prev p e = record e { prev = p }

abbrev pub set_next : Option ℕ → DiskEntryMeta → DiskEntryMeta
set_next n e = record e { next = n }

abbrev pub set_access : ℕ → DiskEntryMeta → DiskEntryMeta
set_access now e = record e { last_access = now }

-- The two blocks that `remove` and `detach` share: the neighbours of an entry take each other.
link_prev : Option ℕ → Option ℕ → DiskCacheIndex → DiskCacheIndex
link_prev none next idx = record idx { lru_head = next }
link_prev (some p) next idx = record idx { entries = Maps.modify p (set_next next) idx.entries }

link_next : Option ℕ → Option ℕ → DiskCacheIndex → DiskCacheIndex
link_next prev none idx = record idx { lru_tail = prev }
link_next prev (some n) idx = record idx { entries = Maps.modify n (set_prev prev) idx.entries }

unlink : DiskEntryMeta → DiskCacheIndex → DiskCacheIndex
unfolding link_prev link_next
unlink e idx = link_next e.prev e.next (link_prev e.prev e.next idx)

pub remove : DiskCacheIndex → ℕ → DiskCacheIndex × Option DiskEntryMeta
remove idx k = elim (Maps.get k idx.entries) [
  | none ↦ (idx, none)
  | some e ↦
      let u = unlink e idx in
      (
        record u { total_bytes = u.total_bytes - e.size; entries = Maps.remove k u.entries },
        Maps.get k u.entries,
      )
]

pub detach : DiskCacheIndex → ℕ → DiskCacheIndex
detach idx k = elim (Maps.get k idx.entries) [
  | none ↦ idx
  | some e ↦
      let u = unlink e idx in
      record u { entries = Maps.modify k (λ e. record e { prev = none; next = none }) u.entries }
]

-- The old tail, or the head of an empty list, comes to point at `k`.
link_tail : Option ℕ → ℕ → DiskCacheIndex → DiskCacheIndex
link_tail none k idx = record idx { lru_head = some k }
link_tail (some t) k idx = record idx { entries = Maps.modify t (set_next (some k)) idx.entries }

abbrev or_else : Option ℕ → ℕ → Option ℕ
or_else none k = some k
or_else (some h) k = some h

pub attach_to_tail : DiskCacheIndex → ℕ → DiskCacheIndex
unfolding link_tail
attach_to_tail idx k =
    let l = link_tail idx.lru_tail k idx in
    record l {
      entries = Maps.modify k (λ e. record e { prev = idx.lru_tail; next = none }) l.entries;
      lru_tail = some k;
      lru_head = or_else l.lru_head k;
    }

pub insert : DiskCacheIndex → ℕ → DiskEntryMeta → DiskCacheIndex
insert idx k meta =
    let r = (remove idx k).0 in
    attach_to_tail
      (record r {
        total_bytes = saturating_add r.total_bytes meta.size;
        entries = Maps.insert k (record meta { prev = none; next = none }) r.entries;
      })
      k

pub record_of : DiskEntryMeta → DiskMetaRecord
record_of e = record { expires_at = e.expires_at; last_access = e.last_access; size = e.size }

-- Moving to the tail, unless the entry is the tail.
refresh : DiskCacheIndex → ℕ → DiskCacheIndex
refresh idx k = if is_key idx.lru_tail k then idx else attach_to_tail (detach idx k) k

pub touch : DiskCacheIndex → ℕ → ℕ → DiskCacheIndex × Option DiskMetaRecord
touch idx k now = elim (Maps.get k idx.entries) [
  | none ↦ (idx, none)
  | some _ ↦
      let i = refresh (record idx { entries = Maps.modify k (set_access now) idx.entries }) k in
      (i, Option.map record_of (Maps.get k i.entries))
]

pub pop_lru : DiskCacheIndex → DiskCacheIndex × Option (ℕ × DiskEntryMeta)
pop_lru idx = elim idx.lru_head [
  | none ↦ (idx, none)
  | some k ↦ let (i, meta) = remove idx k in (i, Option.map (λ m. (k, m)) meta)
]
