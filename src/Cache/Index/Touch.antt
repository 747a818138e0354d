-- ===== src/Cache/Index/Touch.antt =====
-- `touch` gives the entry its new access time and moves it to the end; `pop_lru` takes the first.
use migux.Common.{
  ℕ, ◌≡◌, refl, sym, ap, subst, ◌∙◌, true, false, [], ◌∷◌, ◌++◌, Option, none, some, ◌==◌, arith,
  ◌⊎◌, if◌then◌else◌, length, Bool-cases, Option-cases, inl, inr,
}
use migux.Common.Maps
use migux.Common.Maps.{Uniq, get-modify, modify-Uniq, length-modify}
use migux.Common.Tests.{nat_eq}
use mathlib.Core.Option
use migux.Cache.Index.{
  DiskEntryMeta, DiskMetaRecord, DiskCacheIndex, remove, touch, refresh, record_of, pop_lru, detach,
  is_key, set_access,
}
use migux.Cache.Index.Queue.{
  Item, Queue, has, Distinct, find, delete, total, head_key, last_key, at_time,
}
use migux.Cache.Index.Linked.{entry, node_at}
use migux.Cache.Index.Refines.{
  Reps, item_of, remove-Reps, remove_found, detach-Floats, has-delete_self,
}
use migux.Cache.Index.Attach.{attach_to_tail-Reps}
use migux.Cache.Index.Operations.{find-node_at, found_item, lost_item}

retime : ℕ → ℕ → Queue → Queue
retime k now [] = []
retime k now ((i, a) ∷ q) = if i == k then (i, at_time now a) ∷ q else (i, a) ∷ retime k now q

-- What `touch` makes of the queue.
abbrev pub touched : ℕ → ℕ → Queue → Queue
touched k now q = elim (find k q) [ none ↦ q | some a ↦ delete k q ++ (k, at_time now a) ∷ [] ]

module _ (k now : ℕ) where
  has-retime : (j : ℕ) (q : Queue) → has j (retime k now q) ≡ has j q
  unfolding retime
  has-retime j [] = refl
  has-retime j ((i, a) ∷ q) = ground (arith, has-retime j q)

  retime-Distinct : (q : Queue) → Distinct q → Distinct (retime k now q)
  unfolding retime
  retime-Distinct [] d = d
  retime-Distinct ((i, a) ∷ q) d = ground (arith, retime-Distinct q, has-retime i q)

  head_key-retime : (q : Queue) → head_key (retime k now q) ≡ head_key q
  unfolding retime
  head_key-retime [] = refl
  head_key-retime ((i, a) ∷ q) = ground arith

  last_key-retime : (p : Option ℕ) (q : Queue) → last_key p (retime k now q) ≡ last_key p q
  unfolding retime
  last_key-retime p [] = refl
  last_key-retime p ((i, a) ∷ q) = ground (arith, last_key-retime (some i) q)

  length-retime : (q : Queue) → length (retime k now q) ≡ length q
  unfolding retime
  length-retime [] = refl
  length-retime ((i, a) ∷ q) = ground (arith, length-retime q)

  total-retime : (q : Queue) → total (retime k now q) ≡ total q
  unfolding retime
  total-retime [] = refl
  total-retime ((i, a) ∷ q) = ground (arith, total-retime q)

  delete-retime : (q : Queue) → delete k (retime k now q) ≡ delete k q
  unfolding retime
  delete-retime [] = refl
  delete-retime ((i, a) ∷ q) = ground (arith, delete-retime q)

  find-retime : (q : Queue) → find k (retime k now q) ≡ Option.map (at_time now) (find k q)
  unfolding retime
  find-retime [] = refl
  find-retime ((i, a) ∷ q) = ground (arith, find-retime q)

  node_at-retime :
      (j : ℕ) (p : Option ℕ) (q : Queue)
      → node_at j p (retime k now q)
        ≡ (if k == j then Option.map (set_access now) (node_at j p q) else node_at j p q)
  unfolding retime node_at
  node_at-retime j p [] = ground arith
  node_at-retime j p ((i, a) ∷ q) = ground (arith, node_at-retime j (some i) q, head_key-retime q)

  -- Where the key is the last one, giving it a new time is moving it to the end.
  retime_last :
      (p : Option ℕ) (q : Queue) (a : Item)
      → Distinct q
      → find k q ≡ some a
      → last_key p q ≡ some k
      → retime k now q ≡ delete k q ++ (k, at_time now a) ∷ []
  unfolding retime
  retime_last p [] a d f l = cc
  retime_last p ((i, b) ∷ []) a d f l = ground arith
  retime_last p ((i, b) ∷ (i', b') ∷ q) a d f l =
      ground (arith, retime_last (some i) ((i', b') ∷ q) a, last_has k (some i') q)
    where
      last_has :
          (x : ℕ) (p : Option ℕ) (q : Queue)
          → last_key p q ≡ some x
          → (p ≡ some x) ⊎ (has x q ≡ true)
      last_has x p [] l = inl l
      last_has x p ((i, a) ∷ q) l = ground (arith, last_has x (some i) q)

is_key-some : (o : Option ℕ) (k : ℕ) → is_key o k ≡ true → o ≡ some k
is_key-some none k h = cc
is_key-some (some j) k h = ground arith

touched-none : (k now : ℕ) (q : Queue) → find k q ≡ none → touched k now q ≡ q
touched-none k now q h = ground arith

touched-some :
    (k now : ℕ) (q : Queue) (a : Item)
    → find k q ≡ some a
    → touched k now q ≡ delete k q ++ (k, at_time now a) ∷ []
touched-some k now q a h = ground arith

find-append : (k : ℕ) (a : Item) (q : Queue) → has k q ≡ false → find k (q ++ (k, a) ∷ []) ≡ some a
find-append k a [] h = ground arith
find-append k a ((i, b) ∷ q) h = ground (arith, find-append k a q)

find-touched :
    (k now : ℕ) (q : Queue)
    → Distinct q
    → find k (touched k now q) ≡ Option.map (at_time now) (find k q)
find-touched k now q d = elim (Option-cases (find k q)) [
  | inl h ↦ rw (touched-none k now q h, h) refl
  | inr (a, h) ↦
      rw (touched-some k now q a h, h)
        (find-append k (at_time now a) (delete k q) (has-delete_self k q d))
]

-- The record that goes to disk.
abbrev pub meta_record : Item → DiskMetaRecord
meta_record a = record { expires_at = a.expires_at; last_access = a.last_access; size = a.size }

record-item :
    (o : Option DiskEntryMeta)
    → Option.map record_of o ≡ Option.map meta_record (Option.map item_of o)
unfolding record_of
record-item none = refl
record-item (some e) = refl

module _ (idx : DiskCacheIndex) (k now : ℕ) (q : Queue) (r : Reps idx q) where
  retimed : DiskCacheIndex
  retimed = record idx { entries = Maps.modify k (set_access now) idx.entries }

  retimed-Reps : Reps retimed (retime k now q)
  unfolding retimed
  retimed-Reps = record {
    distinct = retime-Distinct k now q r.distinct;
    nodes = λ j.
        get-modify j k (set_access now) idx.entries
        ∙ ground (arith, r.nodes j, node_at-retime k now j none q);
    head = r.head ∙ sym (head_key-retime k now q);
    tail = r.tail ∙ sym (last_key-retime k now none q);
    uniq = modify-Uniq k (set_access now) idx.entries r.uniq;
    count =
        omega (arith, length-modify k (set_access now) idx.entries, length-retime k now q, r.count);
    bytes = omega (arith, total-retime k now q, r.bytes);
    fits = omega (arith, total-retime k now q, r.fits);
  }

  module _ (e : DiskEntryMeta) (found : Maps.get k idx.entries ≡ some e) where
    retimed_found : Maps.get k retimed.entries ≡ some (set_access now e)
    unfolding retimed
    retimed_found = get-modify k k (set_access now) idx.entries ∙ ground (arith, found)

    refreshed : Queue
    refreshed = delete k q ++ (k, at_time now (item_of e)) ∷ []

    refresh-Reps : Reps (refresh retimed k) refreshed
    unfolding refresh refreshed retimed
    refresh-Reps = elim (Bool-cases (is_key retimed.lru_tail k)) [
      | inl last ↦ rw last (
          rw
            (← retime_last k now none q (item_of e) r.distinct (found_item idx k q r e found)
              (sym r.tail ∙ is_key-some idx.lru_tail k last))
            retimed-Reps)
      | inr other ↦ rw other (
          rw (← delete-retime k now q) (
            attach_to_tail-Reps (detach retimed k) k
              (record (set_access now e) { prev = none; next = none }) (delete k (retime k now q))
              (detach-Floats retimed k (retime k now q) retimed-Reps (set_access now e)
                retimed_found)))
    ]

  -- On an index that represents a queue, `touch` leaves one that represents the same queue if the
  -- key is absent, and otherwise the queue with the key at the end, its last access set to the
  -- time given.
  pub touch_queue : Reps (touch idx k now).0 (touched k now q)
  unfolding touch
  touch_queue = elim (Option-cases (Maps.get k idx.entries)) [
    | inl h ↦ rw (h, touch) (rw (touched-none k now q (lost_item idx k q r h)) r)
    | inr (e, h) ↦
        rw (h, touch)
          (rw (touched-some k now q (item_of e) (found_item idx k q r e h))
            (unfold retimed refreshed in refresh-Reps e h))
  ]

  -- On an index that represents a queue, the record that `touch` answers has the expiry and the
  -- size of the key's item and the time given, and there is none for an absent key.
  pub touch_record :
      (touch idx k now).1 ≡ Option.map meta_record (Option.map (at_time now) (find k q))
  unfolding touch retimed refreshed
  touch_record = elim (Option-cases (Maps.get k idx.entries)) [
    | inl h ↦ rw (h, touch, lost_item idx k q r h) refl
    | inr (e, h) ↦
        let s : Reps (refresh retimed k) (refreshed e h) = refresh-Reps e h in
        rw (h, touch, found_item idx k q r e h)
          (record-item _
            ∙ ap (Option.map meta_record) (
                ap (Option.map item_of) (s.nodes k)
                ∙ find-node_at k none (refreshed e h)
                ∙ find-append k _ (delete k q) (has-delete_self k q r.distinct)))
  ]

abbrev pub popped : Option (ℕ × DiskEntryMeta) → Option (ℕ × Item)
popped none = none
popped (some (k, e)) = some (k, item_of e)

popped-map :
    (k : ℕ) (a : Item) (o : Option DiskEntryMeta)
    → Option.map item_of o ≡ some a
    → popped (Option.map (λ m. (k, m)) o) ≡ some (k, a)
popped-map k a none h = cc
popped-map k a (some e) h = ground arith

-- On an index that represents a queue that is not empty, `pop_lru` answers the first key with its
-- data and leaves an index that represents the rest.
pub pop_lru_queue :
    (idx : DiskCacheIndex) (k : ℕ) (a : Item) (q : Queue)
    → Reps idx ((k, a) ∷ q)
    → Reps (pop_lru idx).0 q × (popped (pop_lru idx).1 ≡ some (k, a))
unfolding pop_lru node_at
pop_lru_queue idx k a q r =
    let found : Maps.get k idx.entries ≡ some (entry a none (head_key q)) =
      r.nodes k ∙ ground arith in
    let rest : Reps (remove idx k).0 q =
      subst (Reps (remove idx k).0) (ground arith) (remove-Reps idx k ((k, a) ∷ q) r _ found) in
    rw (r.head, pop_lru)
      (rest, popped-map k a (remove idx k).1 (remove_found idx k ((k, a) ∷ q) r _ found))

pub pop_lru_empty : (idx : DiskCacheIndex) → Reps idx [] → pop_lru idx ≡ (idx, none)
unfolding pop_lru
pop_lru_empty idx r = ground (arith, r.head)
