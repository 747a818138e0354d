-- ===== src/Cache/Tests.antt =====
-- The theorems of the disk cache on an index of two entries and a history of calls.
use migux.Common.{
  ℕ, ◌+◌, ◌≤◌, ◌≡◌, refl, inr, true, false, List, [], ◌∷◌, ◌++◌, none, some, arith, length,
}
use migux.Cache.Index.{
  CacheSettings, DiskEntryMeta, DiskCacheIndex, new, remove, insert, touch, exceeds_limits,
  record_of,
}
use migux.Cache.Index.Queue.{Queue, delete, total}
use migux.Cache.Index.Refines.{Reps, item_of}
use migux.Cache.Index.Operations.{new-Reps, remove_queue, insert_queue}
use migux.Cache.Index.Touch.{touched, touch_queue}
use migux.Cache.Evict.{Evictions, Evicted, evict_to_limits, make_room}
use migux.Cache.Evict.Queue.{Evicts}
use migux.Cache.Evict.Limits.{over, over_with, evict_to_limits_lem, make_room_lem}
use migux.Cache.Disk.{Env, Disk, FileOp, get, touch_entry, put, new_entry, writes}
use migux.Cache.Disk.Access.{after_get, after_touch, served, touch_entry_lem, get_lem}
use migux.Cache.Disk.Put.{Stored, put-Stored}
use migux.Cache.Disk.History.{Call, gets, touches, puts, run, Healthy, run-Healthy}
use migux.Cache.Memory.{Memory}

abbrev meta_of : ℕ → ℕ → DiskEntryMeta
meta_of size at = record {
  size = size;
  expires_at = 900;
  last_access = at;
  prev = none;
  next = none;
}

abbrev empty : DiskCacheIndex
empty = new []

abbrev one_entry : DiskCacheIndex
one_entry = insert empty 1 (meta_of 40 5)

abbrev two_entries : DiskCacheIndex
two_entries = insert one_entry 2 (meta_of 30 8)

abbrev one_queue : Queue
one_queue = (1, item_of (meta_of 40 5)) ∷ []

abbrev two_queue : Queue
two_queue = (1, item_of (meta_of 40 5)) ∷ (2, item_of (meta_of 30 8)) ∷ []

abbrev settings : CacheSettings
settings = record { max_total_bytes = 100; max_entries = 2; inactive_secs = 60 }

abbrev counters : Evictions
counters = record { count = 0; bytes = 0 }

one_entry-Reps : Reps one_entry one_queue
one_entry-Reps = insert_queue empty 1 [] (new-Reps []) (meta_of 40 5) (omega arith)

two_entries-Reps : Reps two_entries two_queue
two_entries-Reps = insert_queue one_entry 2 one_queue one_entry-Reps (meta_of 30 8) (omega arith)

insert_queue_example :
    Reps
      (insert two_entries 1 (meta_of 20 9))
      (delete 1 two_queue ++ (1, item_of (meta_of 20 9)) ∷ [])
insert_queue_example =
    insert_queue two_entries 1 two_queue two_entries-Reps (meta_of 20 9) (omega arith)

remove_queue_example : Reps (remove two_entries 1).0 (delete 1 two_queue)
remove_queue_example = remove_queue two_entries 1 two_queue two_entries-Reps

touch_queue_example : Reps (touch two_entries 1 9).0 (touched 1 9 two_queue)
touch_queue_example = touch_queue two_entries 1 9 two_queue two_entries-Reps

evict_to_limits_example :
    (out : Evicted) × (evict_to_limits settings two_entries counters ≡ some out)
    × (e : Evicts (over settings) two_queue counters out) × (over settings e.rest ≡ false)
evict_to_limits_example =
    evict_to_limits_lem settings two_entries two_queue counters two_entries-Reps

make_room_example :
    (out : Evicted) × (make_room settings 50 two_entries counters ≡ some out)
    × (e : Evicts (over_with settings 50) two_queue counters out) × (exceeds_limits settings
          (total e.rest + 50)
          (length e.rest + 1)
        ≡ false)
make_room_example =
    make_room_lem settings 50 two_entries two_queue counters two_entries-Reps (omega arith)
      (inr (omega arith))

abbrev env : Env
env = record { now = 10; ok = λ _. true; read_data = λ k. some (k ∷ []) }

abbrev disk : Disk
disk = record { index = two_entries; evictions = counters; hits = 0; misses = 0 }

touch_entry_example :
    Reps (touch_entry env settings disk 1).0.index (after_touch 10 settings 1 two_queue)
touch_entry_example = touch_entry_lem env settings disk 1 two_queue two_entries-Reps

get_example :
    Reps (get env settings disk 1).0.index (after_get env settings 1 two_queue)
    × ((get env settings disk 1).1 ≡ served env settings 1 two_queue)
get_example = get_lem env settings disk 1 two_queue two_entries-Reps

abbrev page : List ℕ
page = 72 ∷ 105 ∷ []

fits : total two_queue + length page ≤ 18446744073709551615
fits = omega arith

put-Stored_example :
    (out : Disk × List FileOp) × (put env settings disk 3 page 60
      ≡ some (out.0, writes 3 page (record_of (new_entry env 2 60)) ++ out.1))
    × Stored env settings disk 3
        (new_entry env 2 60)
        two_queue
        two_entries-Reps
        fits
        (inr (omega arith))
        out
put-Stored_example =
    put-Stored env settings disk 3 page 60 two_queue two_entries-Reps fits refl refl
      (inr (omega arith)) refl refl

abbrev history : List (Env × Call)
history = (env, puts 3 page 60) ∷ (env, gets 3) ∷ (env, touches 2) ∷ []

within : over settings two_queue ≡ false
unfolding exceeds_limits
within = ground arith

start : Healthy settings disk
start = record { queue = two_queue; holds = two_entries-Reps; within = within }

run-Healthy_example : (d : Disk) × (run settings history disk ≡ some d) × Healthy settings d
run-Healthy_example =
    run-Healthy settings history disk (omega arith) (omega arith, (tt, (tt, tt))) start

abbrev memory : Memory
memory = record { map = []; hits = 0; misses = 0 }
