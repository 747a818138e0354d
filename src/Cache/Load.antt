-- ===== src/Cache/Load.antt =====
-- crates/migux_static/src/cache.rs: the metadata of an entry, and how the index is loaded from the
-- files of the cache directory.
pub mod Loaded
mod Tests
use migux.Common.{
  ℕ, zero, suc, ◌+◌, ◌-◌, ◌^◌, Bool, true, false, not, ◌&&◌, ◌||◌, List, [], ◌∷◌, ◌++◌, Option,
  none, some, ltb, leb, ◌==◌, if◌then◌else◌, length,
}
use migux.Text.{Str, lit, same, is_empty, trim, split_once, lines, parse_u64, from_str_radix}
use migux.Cache.Index.{DiskEntryMeta, DiskMetaRecord, CacheSettings, DiskCacheIndex, insert}
use migux.Cache.Evict.{Evictions, Evicted, evict_to_limits}
use migux.Cache.Disk.{FileOp, remove_all}

-- The three variables of the loop over the lines.
pub record MetaFields : Type 0 where
  pub expires_at : Option ℕ
  pub last_access : Option ℕ
  pub size : Option ℕ

meta_field : MetaFields → Str → Str → MetaFields
unfolding parse_u64
meta_field f key value =
    if same key (lit "expires_at")
    then record f { expires_at = parse_u64 value }
    else if same key (lit "last_access")
    then record f { last_access = parse_u64 value }
    else if same key (lit "size")
    then record f { size = parse_u64 value }
    else f

-- `none` is the early return on a line without "=".
meta_fields : MetaFields → List Str → Option MetaFields
unfolding meta_field trim split_once
meta_fields f [] = some f
meta_fields f (line ∷ rest) =
    let same_fields = meta_fields f rest in
    if is_empty (trim line) then same_fields else elim (split_once b'=' (trim line)) [
      | none ↦ none
      | some (key, value) ↦ meta_fields (meta_field f (trim key) (trim value)) rest
    ]

abbrev or_value : Option ℕ → ℕ → ℕ
or_value none d = d
or_value (some n) d = n

finish_record : Option MetaFields → Option DiskMetaRecord
finish_record none = none
finish_record (some f) = elim f.expires_at [
  | none ↦ none
  | some expires_at ↦ some (record {
    expires_at = expires_at;
    last_access = or_value f.last_access expires_at;
    size = or_value f.size 0;
  })
]

pub parse_meta_record : Str → Option DiskMetaRecord
unfolding finish_record meta_fields lines
parse_meta_record meta_str = elim (parse_u64 (trim meta_str)) [
  | some expires_at ↦ some (record { expires_at = expires_at; last_access = expires_at; size = 0 })
  | none ↦
      finish_record (
        meta_fields (record { expires_at = none; last_access = none; size = none })
          (lines meta_str))
]

-- A file of the directory with the extension "meta": the name before it, the text of the file, if it
-- can be read and is UTF-8, and the length of the data file of the key, if there is one.
pub record MetaFile : Type 0 where
  pub stem : Str
  pub text : Option Str
  pub data_len : Option ℕ

key_from_meta_path : Str → Option ℕ
unfolding from_str_radix
key_from_meta_path stem = from_str_radix (2 ^ 64) 16 stem

-- What the loop over the directory makes of a file.
pub data Outcome : Type 0 where
  skipped : Outcome
  stale : ℕ → Outcome
  loaded : ℕ → DiskEntryMeta → Outcome

sized : ℕ → CacheSettings → DiskMetaRecord → ℕ → Outcome
sized key s record_read data_len =
    let size = if record_read.size == 0 then data_len else record_read.size in
    if ltb 0 s.max_total_bytes && ltb s.max_total_bytes size
    then stale key
    else loaded key (record {
      size = size;
      expires_at = record_read.expires_at;
      last_access = record_read.last_access;
      prev = none;
      next = none;
    })

read_record : ℕ → ℕ → CacheSettings → DiskMetaRecord → Option ℕ → Outcome
unfolding sized
read_record now key s r data_len =
    if r.expires_at == 0 || ltb r.expires_at now
    then stale key
    else if ltb 0 s.inactive_secs && ltb s.inactive_secs (now - r.last_access)
    then stale key
    else elim data_len [ none ↦ stale key | some len ↦ sized key s r len ]

pub read_file : ℕ → CacheSettings → MetaFile → Outcome
unfolding read_record key_from_meta_path parse_meta_record
read_file now s file = elim (key_from_meta_path file.stem) [
  | none ↦ skipped
  | some key ↦ elim file.text [
    | none ↦ stale key
    | some text ↦ elim (parse_meta_record text) [
      | none ↦ stale key
      | some r ↦ read_record now key s r file.data_len
    ]
  ]
]

stale_keys : ℕ → CacheSettings → List MetaFile → List ℕ
stale_keys now s [] = []
stale_keys now s (file ∷ files) = elim (read_file now s file) [
  | skipped ↦ stale_keys now s files
  | stale key ↦ key ∷ stale_keys now s files
  | loaded key meta ↦ stale_keys now s files
]

pub loaded_entries : ℕ → CacheSettings → List MetaFile → List (ℕ × DiskEntryMeta)
loaded_entries now s [] = []
loaded_entries now s (file ∷ files) = elim (read_file now s file) [
  | skipped ↦ loaded_entries now s files
  | stale key ↦ loaded_entries now s files
  | loaded key meta ↦ (key, meta) ∷ loaded_entries now s files
]

-- `sort_by_key` on the last access, which is stable.
pub put_in_order : ℕ × DiskEntryMeta → List (ℕ × DiskEntryMeta) → List (ℕ × DiskEntryMeta)
put_in_order e [] = e ∷ []
put_in_order e (f ∷ fs) =
    let rest = put_in_order e fs in
    if leb e.1.last_access f.1.last_access then e ∷ f ∷ fs else f ∷ rest

pub sort_by_access : List (ℕ × DiskEntryMeta) → List (ℕ × DiskEntryMeta)
unfolding put_in_order
sort_by_access [] = []
sort_by_access (e ∷ es) = put_in_order e (sort_by_access es)

pub insert_all : DiskCacheIndex → List (ℕ × DiskEntryMeta) → DiskCacheIndex
insert_all idx [] = idx
insert_all idx ((key, meta) ∷ es) = insert_all (insert idx key meta) es

emptied : DiskCacheIndex → Bool → DiskCacheIndex
emptied idx is_loaded = record idx {
  entries = [];
  lru_head = none;
  lru_tail = none;
  total_bytes = 0;
  loaded = is_loaded;
}

abbrev evicted_files : List ℕ → Option Evicted → Option (Evicted × List FileOp)
evicted_files stale_ones none = none
evicted_files stale_ones (some out) = some (out, remove_all (stale_ones ++ out.keys))

-- The directory is `none` where it cannot be read. A result of `none` would mean that the eviction
-- loop has run out of fuel.
pub load_from_disk :
    ℕ
    → CacheSettings
    → Option (List MetaFile)
    → DiskCacheIndex
    → Evictions
    → Option (Evicted × List FileOp)
unfolding emptied stale_keys loaded_entries sort_by_access insert_all
load_from_disk now s dir idx c = elim dir [
  | none ↦ some (record { index = emptied idx true; counters = c; keys = [] }, [])
  | some files ↦ evicted_files (stale_keys now s files) (
      evict_to_limits s
        (insert_all (emptied idx true) (sort_by_access (loaded_entries now s files))) c)
]

pub ensure_loaded :
    ℕ
    → CacheSettings
    → Option (List MetaFile)
    → DiskCacheIndex
    → Evictions
    → Option (Evicted × List FileOp)
ensure_loaded now s dir idx c =
    let load = load_from_disk now s dir idx c in
    if idx.loaded then some (record { index = idx; counters = c; keys = [] }, []) else load

-- `lock_index` of a cache of the directory `cache_dir`: a change of the directory resets the index.
pub lock_index :
    List ℕ
    → ℕ
    → CacheSettings
    → Option (List MetaFile)
    → DiskCacheIndex
    → Evictions
    → Option (Evicted × List FileOp)
unfolding emptied
lock_index cache_dir now s dir idx c =
    ensure_loaded now s dir
      (if same idx.cache_dir cache_dir
        then idx
        else record (emptied idx false) { cache_dir = cache_dir })
      c
