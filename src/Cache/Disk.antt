-- ===== src/Cache/Disk.antt =====
-- crates/migux_static/src/cache.rs, `DiskCache`: `get`, `put` and `touch`, each a function of the
-- locked index, of the time and of what the file system answers. The file operations that a call
-- makes are the list that it returns.
pub mod Access
pub mod Put
pub mod History
use migux.Common.{
  ℕ, zero, suc, ◌+◌, ◌-◌, ◌%◌, ◌^◌, min, Bool, true, false, not, ◌&&◌, ◌||◌, List, [], ◌∷◌, ◌++◌,
  Option, none, some, ltb, ◌==◌, if◌then◌else◌, length,
}
use mathlib.Core.Option
use migux.Common.Maps
use migux.Common.Tests.{nat_eq}
use migux.Cache.Index.{
  DiskEntryMeta, DiskMetaRecord, CacheSettings, DiskCacheIndex, exceeds_limits, saturating_add,
  remove, insert, touch, record_of,
}
use migux.Cache.Evict.{Evictions, Evicted, evict_inactive, make_room, fetch_add}

-- The two files of an entry.
pub data File : Type 0 where
  data_file meta_file : File

-- The number is the key that names the files. `write_data` and `write_meta` write the temporary files
-- that the renames put in place; `write_atomic` writes the metadata and renames it at once.
pub data FileOp : Type 0 where
  create_dir : FileOp
  write_data : ℕ → List ℕ → FileOp
  write_meta write_atomic : ℕ → DiskMetaRecord → FileOp
  rename_temp remove_temp remove_file : File → ℕ → FileOp

-- The clock and the answers of the file system.
pub record Env : Type 0 where
  pub now : ℕ
  pub ok : FileOp → Bool
  pub read_data : ℕ → Option (List ℕ)

-- The statics behind the disk cache.
pub record Disk : Type 0 where
  pub index : DiskCacheIndex
  pub evictions : Evictions
  pub hits : ℕ
  pub misses : ℕ

abbrev miss : Disk → Disk
miss d = record d { misses = fetch_add d.misses 1 }

abbrev hit : Disk → Disk
hit d = record d { hits = fetch_add d.hits 1 }

-- `remove_file` on both files of an entry, the results ignored.
abbrev pub remove_files : ℕ → List FileOp
remove_files k = remove_file data_file k ∷ remove_file meta_file k ∷ []

abbrev pub remove_all : List ℕ → List FileOp
remove_all [] = []
remove_all (k ∷ ks) = remove_files k ++ remove_all ks

abbrev write_back : ℕ → Option DiskMetaRecord → List FileOp
write_back k none = []
write_back k (some r) = write_atomic k r ∷ []

-- The entry is past its time, or has not been used for too long.
unfoldable pub is_expired : ℕ → CacheSettings → DiskEntryMeta → Bool
is_expired now s e =
    (e.expires_at == 0 || ltb e.expires_at now)
    || (ltb 0 s.inactive_secs && ltb s.inactive_secs (now - e.last_access))

-- The part after the lock is released, for an entry that is not expired.
read_entry : Env → Disk → ℕ → Option DiskMetaRecord → Disk × Option (List ℕ) × List FileOp
read_entry env d k meta = elim (env.read_data k) [
  | none ↦ (miss (record d { index = (remove d.index k).0 }), none, [])
  | some bytes ↦ (hit d, some bytes, write_back k meta)
]

pub get : Env → CacheSettings → Disk → ℕ → Disk × Option (List ℕ) × List FileOp
unfolding read_entry
get env s d k = elim (Maps.get k d.index.entries) [
  | none ↦ (miss d, none, [])
  | some e ↦
      if is_expired env.now s e
      then (miss (record d { index = (remove d.index k).0 }), none, remove_files k)
      else let (index, meta) = touch d.index k env.now in
        read_entry env (record d { index = index }) k meta
]

pub touch_entry : Env → CacheSettings → Disk → ℕ → Disk × List FileOp
touch_entry env s d k = elim (Maps.get k d.index.entries) [
  | none ↦ (d, [])
  | some e ↦
      if is_expired env.now s e
      then (record d { index = (remove d.index k).0 }, remove_files k)
      else let (index, meta) = touch d.index k env.now in
        (record d { index = index }, write_back k meta)
]

abbrev pub new_entry : Env → ℕ → ℕ → DiskEntryMeta
new_entry env size ttl = record {
  size = size;
  expires_at = saturating_add env.now ttl;
  last_access = env.now;
  prev = none;
  next = none;
}

-- The renames, with what each failure undoes; on success the entry goes into the index, and the
-- files of the evicted keys go last.
commit : Env → Disk → ℕ → DiskEntryMeta → List ℕ → Disk × List FileOp
commit env d k m evicted =
    if not (env.ok (rename_temp data_file k))
    then (
      d,
      remove_files k
          ++ (rename_temp data_file k ∷ remove_temp data_file k ∷ remove_temp meta_file k ∷ []),
    )
    else if not (env.ok (rename_temp meta_file k))
    then (
      d,
      remove_files k
          ++ (rename_temp data_file k
              ∷ rename_temp meta_file k
              ∷ remove_file data_file k
              ∷ remove_temp meta_file k
              ∷ []),
    )
    else (
      record d { index = insert d.index k m },
      remove_files k ++ (rename_temp data_file k ∷ rename_temp meta_file k ∷ remove_all evicted),
    )

-- The block under the lock, from the index without the key.
make_and_commit :
    Env → CacheSettings → Disk → ℕ → DiskEntryMeta → Evicted → Option (Disk × List FileOp)
unfolding commit
make_and_commit env s d k m first = elim (make_room s m.size first.index first.counters) [
  | none ↦ none
  | some second ↦
      let d' = record d { index = second.index; evictions = second.counters } in
      if exceeds_limits s ((second.index.total_bytes + m.size) % 2 ^ 64)
        (length second.index.entries + 1)
      then some (d', remove_temp data_file k ∷ remove_temp meta_file k ∷ [])
      else some (commit env d' k m (first.keys ++ second.keys))
]

pub store : Env → CacheSettings → Disk → ℕ → DiskEntryMeta → Option (Disk × List FileOp)
unfolding make_and_commit
store env s d k m = elim (evict_inactive env.now s.inactive_secs (remove d.index k).0 d.evictions) [
  | none ↦ none
  | some first ↦ make_and_commit env s d k m first
]

abbrev before : List FileOp → Option (Disk × List FileOp) → Option (Disk × List FileOp)
before ops none = none
before ops (some (d, more)) = some (d, ops ++ more)

abbrev pub writes : ℕ → List ℕ → DiskMetaRecord → List FileOp
writes k response r = create_dir ∷ write_data k response ∷ write_meta k r ∷ []

-- `none` would mean that a loop has run out of fuel.
pub put : Env → CacheSettings → Disk → ℕ → List ℕ → ℕ → Option (Disk × List FileOp)
put env s d k response ttl =
    let m = new_entry env (length response) ttl in
    if ttl == 0
    then some (d, [])
    else if not (env.ok create_dir)
    then some (d, create_dir ∷ [])
    else if ltb 0 s.max_total_bytes && ltb s.max_total_bytes (length response)
    then some (d, create_dir ∷ [])
    else if not (env.ok (write_data k response))
    then some (d, create_dir ∷ write_data k response ∷ [])
    else if not (env.ok (write_meta k (record_of m)))
    then some (d, writes k response (record_of m) ++ (remove_temp data_file k ∷ []))
    else before (writes k response (record_of m)) (store env s d k m)
