-- ===== src/Cache/Disk/Put.antt =====
-- `put`: room is made, the new entry comes last, and the limits hold.
use migux.Common.{
  ℕ, ◌+◌, ◌%◌, ◌^◌, ◌≤◌, ◌≡◌, refl, sym, ap, ◌∙◌, subst, subst₂, ap₂, ◌⊎◌, inl, inr, Bool, true,
  false, ◌&&◌, List, [], ◌∷◌, ◌++◌, some, ltb, ◌==◌, if◌then◌else◌, length, length-append, arith,
  Bool-cases,
}
use mathlib.Core.List.{append_assoc}
use migux.Common.Tests.{nat_eq}
use migux.Cache.Index.{
  DiskEntryMeta, CacheSettings, DiskCacheIndex, exceeds_limits, u64_max, remove, record_of,
}
use migux.Cache.Index.Queue.{Queue, has, delete, total}
use migux.Cache.Index.Refines.{Reps, item_of, has-delete_self, delete_absent}
use migux.Cache.Index.Operations.{remove_queue, insert_queue}
use migux.Cache.Evict.Queue.{keys_of}
use migux.Cache.Evict.Limits.{over, evict_inactive_lem, make_room_lem}
use migux.Cache.Disk.{
  Env, Disk, FileOp, data_file, meta_file, create_dir, write_data, write_meta, rename_temp,
  remove_file, remove_temp, remove_all, remove_files, store, make_and_commit, commit, put,
  new_entry, writes,
}

-- Both renames succeed.
abbrev pub committed : Env → ℕ → Bool
committed env k = env.ok (rename_temp data_file k) && env.ok (rename_temp meta_file k)

has-append_right : (k : ℕ) (xs ys : Queue) → has k (xs ++ ys) ≡ false → has k ys ≡ false
has-append_right k [] ys h = h
has-append_right k ((i, a) ∷ xs) ys h = has-append_right k xs ys (ground arith)

pub total-delete-le : (k : ℕ) (q : Queue) → total (delete k q) ≤ total q
total-delete-le k [] = omega arith
total-delete-le k ((i, a) ∷ q) = ground (arith, total-delete-le k q)

pub total-append : (xs ys : Queue) → total (xs ++ ys) ≡ total xs + total ys
total-append [] ys = omega arith
total-append ((i, a) ∷ xs) ys = omega (arith, total-append xs ys)

-- The file operations under the lock. Only where both renames succeed are the files of the evicted
-- keys removed.
abbrev pub final_ops : Env → ℕ → List ℕ → List FileOp
final_ops env k evicted =
    remove_files k
    ++ (if env.ok (rename_temp data_file k)
        then if env.ok (rename_temp meta_file k)
          then rename_temp data_file k ∷ rename_temp meta_file k ∷ remove_all evicted
          else rename_temp data_file k
            ∷ rename_temp meta_file k
            ∷ remove_file data_file k
            ∷ remove_temp meta_file k
            ∷ []
        else rename_temp data_file k ∷ remove_temp data_file k ∷ remove_temp meta_file k ∷ [])

keys_of-append : (xs ys : Queue) → keys_of (xs ++ ys) ≡ keys_of xs ++ keys_of ys
keys_of-append [] ys = refl
keys_of-append ((i, a) ∷ xs) ys = ap (◌∷◌ i) (keys_of-append xs ys)

commit-ops :
    (env : Env) (d : Disk) (k : ℕ) (m : DiskEntryMeta) (evicted : List ℕ)
    → (commit env d k m evicted).1 ≡ final_ops env k evicted
unfolding commit
commit-ops env d k m evicted = ground arith

module _ (env : Env) (s : CacheSettings) (d : Disk) (k : ℕ) (m : DiskEntryMeta) (q : Queue)
    (r : Reps d.index q) (fits : total q + m.size ≤ u64_max)
    (small : (s.max_total_bytes ≡ 0) ⊎ (m.size ≤ s.max_total_bytes)) where
  -- What `store` leaves: the queue without the key loses entries at its front alone, and the new one
  -- comes last if both renames succeed.
  pub record Stored (out : Disk × List FileOp) : Type 0 where
    pub gone : Queue
    pub rest : Queue
    pub split : delete k q ≡ gone ++ rest
    pub room : exceeds_limits s (total rest + m.size) (length rest + 1) ≡ false
    pub holds : Reps out.0.index (if committed env k then rest ++ (k, item_of m) ∷ [] else rest)
    pub files : out.1 ≡ final_ops env k (keys_of gone)

  keeps_key_out : (gone rest : Queue) → delete k q ≡ gone ++ rest → delete k rest ≡ rest
  keeps_key_out gone rest e =
      delete_absent k rest
        (has-append_right k gone rest (ap (has k) (sym e) ∙ has-delete_self k q r.distinct))

  bound : (gone rest : Queue) → delete k q ≡ gone ++ rest → total rest + m.size ≤ u64_max
  bound gone rest e = omega (arith, fits, total-delete-le k q, total-append gone rest, ap total e)

  no_wrap :
      (idx : DiskCacheIndex) (gone rest : Queue)
      → delete k q ≡ gone ++ rest
      → Reps idx rest
      → (idx.total_bytes + m.size) % 2 ^ 64 ≡ total rest + m.size
  no_wrap idx gone rest e r' = omega (arith, r'.bytes, bound gone rest e)

  commit_holds :
      (d' : Disk) (gone rest : Queue) (evicted : List ℕ)
      → delete k q ≡ gone ++ rest
      → Reps d'.index rest
      → Reps
          (commit env d' k m evicted).0.index
          (if committed env k then rest ++ (k, item_of m) ∷ [] else rest)
  unfolding commit
  commit_holds d' gone rest evicted e r' = elim (Bool-cases (committed env k)) [
    | inl both ↦
        subst₂ Reps (ground (arith, both)) (ground (arith, both, keeps_key_out gone rest e)) (
          insert_queue d'.index k rest r' m
            (omega (arith, bound gone rest e, total-delete-le k rest)))
    | inr one ↦ subst₂ Reps (ground (arith, one)) (ground (arith, one)) r'
  ]

  pub store_lem : (out : Disk × List FileOp) × (store env s d k m ≡ some out) × Stored out
  unfolding store make_and_commit
  store_lem =
      let (first, run, e, _) =
        evict_inactive_lem env.now s.inactive_secs (remove d.index k).0 (delete k q) d.evictions
          (remove_queue d.index k q r) in
      let (second, run', e', room) =
        make_room_lem s m.size first.index e.rest first.counters e.holds
          (bound e.gone e.rest e.split) small in
      let split : delete k q ≡ (e.gone ++ e'.gone) ++ e'.rest =
        e.split ∙ ap (◌++◌ e.gone) e'.split ∙ sym (append_assoc e.gone e'.gone e'.rest) in
      let full : exceeds_limits s ((second.index.total_bytes + m.size) % 2 ^ 64)
            (length second.index.entries + 1)
          ≡ false =
        ap₂ (exceeds_limits s) (no_wrap second.index (e.gone ++ e'.gone) e'.rest split e'.holds)
          (ap (λ n. n + 1) e'.holds.count)
        ∙ room in
      let d' = record d { index = second.index; evictions = second.counters } in
      (
        commit env d' k m (first.keys ++ second.keys),
        rw (run, store, run', make_and_commit, full) refl,
        record {
          gone = e.gone ++ e'.gone;
          rest = e'.rest;
          split = split;
          room = room;
          holds =
              commit_holds d' (e.gone ++ e'.gone) e'.rest (first.keys ++ second.keys) split
                e'.holds;
          files =
              commit-ops env d' k m (first.keys ++ second.keys)
              ∙ ap (final_ops env k)
                  (ap₂ (◌++◌ {A = ℕ}) e.named e'.named ∙ sym (keys_of-append e.gone e'.gone));
        },
      )

pub length-delete-le : (k : ℕ) (q : Queue) → length (delete k q) ≤ length q
length-delete-le k [] = omega arith
length-delete-le k ((i, a) ∷ q) = ground (arith, length-delete-le k q)

-- Fewer bytes and fewer entries stay within the limits.
pub over_mono :
    (s : CacheSettings) (b n b' n' : ℕ)
    → b' ≤ b
    → n' ≤ n
    → exceeds_limits s b n ≡ false
    → exceeds_limits s b' n' ≡ false
unfolding exceeds_limits
over_mono s b n b' n' hb hn h = ground arith

module _ (env : Env) (s : CacheSettings) (d : Disk) (k : ℕ) (response : List ℕ) (ttl : ℕ)
    (q : Queue) (r : Reps d.index q) (fits : total q + length response ≤ u64_max) where
  abbrev entry_for : DiskEntryMeta
  entry_for = new_entry env (length response) ttl

  -- What `put` leaves on every branch: it ends, the index is a queue again, and within the limits if
  -- it was before.
  pub record Kept (out : Disk × List FileOp) : Type 0 where
    pub queue : Queue
    pub holds : Reps out.0.index queue
    pub within : over s q ≡ false → over s queue ≡ false

  same : (ops : List FileOp) → Kept (d, ops)
  same ops = record { queue = q; holds = r; within = λ h. h }

  stored_Kept :
      (out : Disk × List FileOp) (ops : List FileOp)
      (small : (s.max_total_bytes ≡ 0) ⊎ (length response ≤ s.max_total_bytes))
      → Stored env s d k entry_for q r fits small out
      → Kept (out.0, ops)
  stored_Kept out ops small e = elim (Bool-cases (committed env k)) [
    | inl both ↦ record {
      queue = e.rest ++ (k, item_of entry_for) ∷ [];
      holds = subst (Reps out.0.index) (ground (arith, both)) e.holds;
      within = λ _.
          over_mono s (total e.rest + length response) (length e.rest + 1) _ _
            (omega (arith, total-append e.rest ((k, item_of entry_for) ∷ [])))
            (omega (arith, length-append e.rest ((k, item_of entry_for) ∷ []))) e.room;
    }
    | inr one ↦ record {
      queue = e.rest;
      holds = subst (Reps out.0.index) (ground (arith, one)) e.holds;
      within =
          over_mono s (total q) (length q) _ _
            (omega (arith, total-delete-le k q, ap total e.split, total-append e.gone e.rest))
            (omega (arith, length-delete-le k q, ap length e.split, length-append e.gone e.rest));
    }
  ]

  too_large : Bool
  too_large = ltb 0 s.max_total_bytes && ltb s.max_total_bytes (length response)

  small_of : too_large ≡ false → (s.max_total_bytes ≡ 0) ⊎ (length response ≤ s.max_total_bytes)
  unfolding too_large
  small_of h = ground arith

  pub put-Kept : (out : Disk × List FileOp) × (put env s d k response ttl ≡ some out) × Kept out
  unfolding put too_large
  put-Kept = elim (Bool-cases (ttl == 0)) [
    | inl zero_ttl ↦ ((d, []), ground (arith, zero_ttl), same [])
    | inr some_ttl ↦ elim (Bool-cases (env.ok create_dir)) [
      | inr no_dir ↦ ((d, create_dir ∷ []), ground (arith, some_ttl, no_dir), same _)
      | inl dir ↦ elim (Bool-cases too_large) [
        | inl large ↦ ((d, create_dir ∷ []), ground (arith, some_ttl, dir, large), same _)
        | inr small ↦ elim (Bool-cases (env.ok (write_data k response))) [
          | inr no_data ↦ (
            (d, create_dir ∷ write_data k response ∷ []),
            ground (arith, some_ttl, dir, small, no_data),
            same _,
          )
          | inl wrote ↦ elim (Bool-cases (env.ok (write_meta k (record_of entry_for)))) [
            | inr no_meta ↦ (
              (d, writes k response (record_of entry_for) ++ (remove_temp data_file k ∷ [])),
              ground (arith, some_ttl, dir, small, wrote, no_meta),
              same _,
            )
            | inl meta ↦
                let (out, run, e) = store_lem env s d k entry_for q r fits (small_of small) in
                (
                  (out.0, writes k response (record_of entry_for) ++ out.1),
                  ground (arith, some_ttl, dir, small, wrote, meta, run),
                  stored_Kept out _ (small_of small) e,
                )
          ]
        ]
      ]
    ]
  ]

  -- On an index that is a queue whose bytes and the response are a `u64` together, where the time
  -- to live is not 0, the directory can be made, the response is within the limit on bytes and
  -- both temporary files are written, `put` ends with what `Stored` says: the key leaves the
  -- queue, entries leave it from its front alone, the limits then have room for the new entry, it
  -- comes last if both renames succeed, and only then are the files of the evicted keys removed.
  pub put-Stored :
      (ttl == 0) ≡ false
      → env.ok create_dir ≡ true
      → (small : (s.max_total_bytes ≡ 0) ⊎ (length response ≤ s.max_total_bytes))
      → env.ok (write_data k response) ≡ true
      → env.ok (write_meta k (record_of entry_for)) ≡ true
      → (out : Disk × List FileOp) × (put env s d k response ttl
          ≡ some (out.0, writes k response (record_of entry_for) ++ out.1))
        × Stored env s d k entry_for q r fits small out
  unfolding put
  put-Stored some_ttl dir small wrote meta =
      let (out, run, e) = store_lem env s d k entry_for q r fits small in
      (out, ground (arith, some_ttl, dir, small, wrote, meta, run), e)
