-- ===== src/Cache/Load/Tests.antt =====
-- The theorem of the loading on a directory with one file that cannot be read and one that can.
use migux.Common.{◌≤◌, ◌≡◌, false, List, [], ◌∷◌, none, some, arith}
use migux.Text.{lit, from_str_radix, parse_u64, trim}
use migux.Cache.Index.{CacheSettings, new, exceeds_limits}
use migux.Cache.Index.Operations.{new-Reps}
use migux.Cache.Evict.{Evictions, Evicted}
use migux.Cache.Evict.Limits.{over}
use migux.Cache.Disk.{FileOp}
use migux.Cache.Load.{
  MetaFile, loaded_entries, read_file, key_from_meta_path, lock_index, parse_meta_record,
  read_record,
}
use migux.Cache.Load.Loaded.{Within, sizes_of, lock_index-Within}

abbrev settings : CacheSettings
settings = record { max_total_bytes = 100; max_entries = 2; inactive_secs = 60 }

abbrev counters : Evictions
counters = record { count = 0; bytes = 0 }

abbrev files : List MetaFile
files =
    record { stem = lit "0a"; text = none; data_len = some 3 }
    ∷ record { stem = lit "0b"; text = some (lit "50"); data_len = some 3 }
    ∷ []

files_fit : sizes_of 10 settings (some files) ≤ 18446744073709551615
unfolding loaded_entries read_file key_from_meta_path from_str_radix parse_meta_record read_record
    parse_u64 trim
files_fit = omega arith

within : over settings [] ≡ false
unfolding exceeds_limits
within = ground arith

lock_index-Within_example :
    (out : Evicted × List FileOp) × (lock_index (1 ∷ []) 10 settings (some files) (new []) counters
      ≡ some out)
    × Within settings out.0.index
lock_index-Within_example =
    lock_index-Within (1 ∷ []) 10 settings (some files) (new []) counters
      (record { queue = []; holds = new-Reps []; within = within }) files_fit
