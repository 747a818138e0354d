-- ===== src/Cache/Index/Operations.antt =====
-- `new`, `remove`, `insert`, `touch` and `pop_lru` are the operations of the queue.
use migux.Common.{
  ℕ, suc, ◌≤◌, ◌+◌, ◌≡◌, refl, sym, ap, ◌∙◌, false, List, [], ◌∷◌, ◌++◌, Option, none, some, arith,
  Option-cases, inl, inr,
}
use migux.Common.Maps
use migux.Common.Maps.{
  Uniq, get-modify, get-insert, modify-Uniq, insert-Uniq, length-modify, length-insert, get-remove,
}
use migux.Common.Tests.{nat_eq}
use mathlib.Core.Option
use migux.Cache.Index.{DiskEntryMeta, DiskCacheIndex, u64_max, new, remove, insert}
use migux.Cache.Index.Queue.{Queue, has, find, delete, total}
use migux.Cache.Index.Linked.{node_at, node_at_absent}
use migux.Cache.Index.Refines.{
  Reps, item_of, remove-none, remove-Reps, delete_absent, absent_has, has-delete_self,
}
use migux.Cache.Index.Attach.{attach_to_tail-Reps}

pub new-Reps : (dir : List ℕ) → Reps (new dir) []
unfolding new node_at Maps.get Uniq
new-Reps dir = record {
  distinct = tt;
  nodes = λ j. refl;
  head = refl;
  tail = refl;
  uniq = tt;
  count = refl;
  bytes = refl;
  fits = omega arith;
}

pub find-node_at :
    (k : ℕ) (p : Option ℕ) (q : Queue) → Option.map item_of (node_at k p q) ≡ find k q
unfolding node_at
find-node_at k p [] = refl
find-node_at k p ((i, a) ∷ q) = ground (arith, find-node_at k (some i) q)

find_absent : (k : ℕ) (q : Queue) → has k q ≡ false → find k q ≡ none
find_absent k [] h = refl
find_absent k ((i, a) ∷ q) h = ground (arith, find_absent k q)

module _ (idx : DiskCacheIndex) (k : ℕ) (q : Queue) (r : Reps idx q) where
  pub found_item :
      (e : DiskEntryMeta) → Maps.get k idx.entries ≡ some e → find k q ≡ some (item_of e)
  found_item e h = sym (find-node_at k none q) ∙ ap (Option.map item_of) (sym (r.nodes k) ∙ h)

  pub lost_item : Maps.get k idx.entries ≡ none → find k q ≡ none
  lost_item h = sym (find-node_at k none q) ∙ ap (Option.map item_of) (sym (r.nodes k) ∙ h)

  missing : Maps.get k idx.entries ≡ none → has k q ≡ false
  missing h = absent_has k none q (sym (r.nodes k) ∙ h)

  -- On an index that represents a queue, `remove` leaves one that represents the queue without
  -- the key, the others in their order.
  pub remove_queue : Reps (remove idx k).0 (delete k q)
  remove_queue = elim (Option-cases (Maps.get k idx.entries)) [
    | inl h ↦ rw (remove-none idx k q r h, delete_absent k q (missing h)) r
    | inr (e, h) ↦ remove-Reps idx k q r e h
  ]

  removed_absent : Maps.get k (remove idx k).0.entries ≡ none
  removed_absent =
      remove_queue.nodes k ∙ node_at_absent k none (delete k q) (has-delete_self k q r.distinct)

  -- On an index that represents a queue, `insert` leaves one that represents the queue without
  -- the key and then the key with its new data at the end, if the bytes of these are a `u64`.
  pub insert_queue :
      (meta : DiskEntryMeta)
      → total (delete k q) + meta.size ≤ u64_max
      → Reps (insert idx k meta) (delete k q ++ (k, item_of meta) ∷ [])
  unfolding insert
  insert_queue meta fits =
      let m : DiskEntryMeta = record meta { prev = none; next = none } in
      let i = (remove idx k).0 in
      attach_to_tail-Reps _ k m (delete k q) (record {
        distinct = remove_queue.distinct;
        fresh = has-delete_self k q r.distinct;
        nodes = λ j. get-insert j k m i.entries ∙ ground (arith, remove_queue.nodes j);
        head = remove_queue.head;
        tail = remove_queue.tail;
        uniq = insert-Uniq k m i.entries remove_queue.uniq;
        count = length-insert k m i.entries removed_absent ∙ ap suc remove_queue.count;
        bytes = omega (arith, remove_queue.bytes);
        fits = fits;
      })
