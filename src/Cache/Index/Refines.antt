-- ===== src/Cache/Index/Refines.antt =====
-- `remove`, `detach` and `attach_to_tail` on an index that represents a queue.
use migux.Common.{
  ℕ, suc, ◌≤◌, ◌+◌, ◌≡◌, refl, sym, ap, ◌∙◌, false, [], ◌∷◌, ◌++◌, Option, none, some, ◌==◌, arith,
  if◌then◌else◌, length, Option-cases, inl, inr,
}
use migux.Common.Maps
use migux.Common.Maps.{Uniq, get-modify, get-remove, modify-Uniq, remove-Uniq, length-modify}
use migux.Common.Maps.{length-remove}
use migux.Common.Tests.{nat_eq}
use mathlib.Core.Option
use migux.Cache.Index.{
  DiskEntryMeta, DiskCacheIndex, u64_max, unlink, remove, detach, set_prev, set_next,
}
use migux.Cache.Index.Queue.{Item, Queue, has, Distinct, delete, total, head_key, last_key}
use migux.Cache.Index.Linked.{
  node_at, relink, node_at-delete, head_key-delete, last_key-delete, has-delete,
}

-- The index holds the queue: the entries and both ends are those of its linked list, and the byte
-- count is the sum of the sizes, which fits in a `u64`.
pub record Reps (idx : DiskCacheIndex) (q : Queue) : Type 0 where
  pub distinct : Distinct q
  pub nodes : (j : ℕ) → Maps.get j idx.entries ≡ node_at j none q
  pub head : idx.lru_head ≡ head_key q
  pub tail : idx.lru_tail ≡ last_key none q
  pub uniq : Uniq idx.entries
  pub count : length idx.entries ≡ length q
  pub bytes : idx.total_bytes ≡ total q
  pub fits : total q ≤ u64_max

module _ (idx : DiskCacheIndex) where
  unlink-fields :
      (size expires last : ℕ) (p n : Option ℕ)
      → let e : DiskEntryMeta = record {
        size = size;
        expires_at = expires;
        last_access = last;
        prev = p;
        next = n;
      } in
        let u = unlink e idx in
        ((j : ℕ) → Maps.get j u.entries ≡ relink p n j (Maps.get j idx.entries))
        × (Uniq idx.entries → Uniq u.entries)
        × (length u.entries ≡ length idx.entries)
        × (u.lru_head ≡ elim p [ none ↦ n | some _ ↦ idx.lru_head ])
        × (u.lru_tail ≡ elim n [ none ↦ p | some _ ↦ idx.lru_tail ])
        × (u.total_bytes ≡ idx.total_bytes)
  unfolding unlink
  unlink-fields s x l none none = (λ j. refl, λ u. u, refl, refl, refl, refl)
  unlink-fields s x l (some p) none = (
    λ j. get-modify j p (set_next none) idx.entries,
    λ u. modify-Uniq p (set_next none) idx.entries u,
    length-modify p (set_next none) idx.entries,
    refl,
    refl,
    refl,
  )
  unlink-fields s x l none (some n) = (
    λ j. get-modify j n (set_prev none) idx.entries,
    λ u. modify-Uniq n (set_prev none) idx.entries u,
    length-modify n (set_prev none) idx.entries,
    refl,
    refl,
    refl,
  )
  unlink-fields s x l (some p) (some n) =
      let m = Maps.modify p (set_next (some n)) idx.entries in
      (
        λ j.
            rw
              (get-modify j n (set_prev (some p)) m, get-modify j p (set_next (some n)) idx.entries)
              refl,
        λ u. modify-Uniq n (set_prev (some p)) m (modify-Uniq p (set_next (some n)) idx.entries u),
        length-modify n (set_prev (some p)) m ∙ length-modify p (set_next (some n)) idx.entries,
        refl,
        refl,
        refl,
      )

delete-Distinct : (k : ℕ) (q : Queue) → Distinct q → Distinct (delete k q)
delete-Distinct k [] d = d
delete-Distinct k ((i, a) ∷ q) d = ground (arith, delete-Distinct k q, has-delete i k q)

pub length-delete :
    (k : ℕ) (p : Option ℕ) (q : Queue) (e : DiskEntryMeta)
    → node_at k p q ≡ some e
    → suc (length (delete k q)) ≡ length q
unfolding node_at
length-delete k p [] e h = ground arith
length-delete k p ((i, a) ∷ q) e h = ground (arith, length-delete k (some i) q e)

pub total-delete :
    (k : ℕ) (p : Option ℕ) (q : Queue) (e : DiskEntryMeta)
    → node_at k p q ≡ some e
    → total (delete k q) + e.size ≡ total q
unfolding node_at
total-delete k p [] e h = ground arith
total-delete k p ((i, a) ∷ q) e h = ground (arith, total-delete k (some i) q e)

pub has-delete_self : (k : ℕ) (q : Queue) → Distinct q → has k (delete k q) ≡ false
has-delete_self k [] d = refl
has-delete_self k ((i, a) ∷ q) d = ground (arith, has-delete_self k q)

pub delete_absent : (k : ℕ) (q : Queue) → has k q ≡ false → delete k q ≡ q
delete_absent k [] h = refl
delete_absent k ((i, a) ∷ q) h = ground (arith, delete_absent k q)

pub absent_has : (k : ℕ) (p : Option ℕ) (q : Queue) → node_at k p q ≡ none → has k q ≡ false
unfolding node_at
absent_has k p [] h = refl
absent_has k p ((i, a) ∷ q) h = ground (arith, absent_has k (some i) q)

abbrev pub item_of : DiskEntryMeta → Item
item_of e = record { size = e.size; expires_at = e.expires_at; last_access = e.last_access }

-- The entry of `k` is in the map and counted, and no list leads to it.
pub record Floats (idx : DiskCacheIndex) (k : ℕ) (e : DiskEntryMeta) (q : Queue) : Type 0 where
  pub distinct : Distinct q
  pub fresh : has k q ≡ false
  pub nodes : (j : ℕ) → Maps.get j idx.entries ≡ (if k == j then some e else node_at j none q)
  pub head : idx.lru_head ≡ head_key q
  pub tail : idx.lru_tail ≡ last_key none q
  pub uniq : Uniq idx.entries
  pub count : length idx.entries ≡ suc (length q)
  pub bytes : idx.total_bytes ≡ total q + e.size
  pub fits : total q + e.size ≤ u64_max

module _ (idx : DiskCacheIndex) (k : ℕ) (q : Queue) (r : Reps idx q) where
  pub remove-none : Maps.get k idx.entries ≡ none → remove idx k ≡ (idx, none)
  unfolding remove
  remove-none h = rw (h, remove) refl

  module _ (e : DiskEntryMeta) (found : Maps.get k idx.entries ≡ some e) where
    here : node_at k none q ≡ some e
    here = sym (r.nodes k) ∙ found

    unlinked_nodes :
        (j : ℕ)
        → (if k == j then none else Maps.get j (unlink e idx).entries) ≡ node_at j none (delete k q)
    unlinked_nodes j =
        rw
          (
            (unlink-fields idx e.size e.expires_at e.last_access e.prev e.next).0 j,
            r.nodes j,
            node_at-delete j k none q e r.distinct tt here,
          )
          (ground arith)

    relinked : Maps.get k (unlink e idx).entries ≡ relink e.prev e.next k (some e)
    relinked =
        (unlink-fields idx e.size e.expires_at e.last_access e.prev e.next).0 k
        ∙ ap (relink e.prev e.next k) found

    kept : (v : DiskEntryMeta) × (Maps.get k (unlink e idx).entries ≡ some v)
    kept = elim (Option-cases (Maps.get k (unlink e idx).entries)) [
      | inl gone ↦ absurd (ground (arith, relinked, gone))
      | inr v ↦ v
    ]

    pub remove-Reps : Reps (remove idx k).0 (delete k q)
    unfolding remove
    remove-Reps =
        let (links, uniq, len, first, last, sum) =
          unlink-fields idx e.size e.expires_at e.last_access e.prev e.next in
        rw (found, remove)
          (record {
            distinct = delete-Distinct k q r.distinct;
            nodes = λ j. get-remove j k (unlink e idx).entries ∙ unlinked_nodes j;
            head = ground (arith, head_key-delete k q e here, r.head);
            tail = ground (arith, last_key-delete k none q e r.distinct here, r.tail);
            uniq = remove-Uniq k (unlink e idx).entries (uniq r.uniq);
            count = omega (
              arith,
              length-remove k kept.0 (unlink e idx).entries (uniq r.uniq) kept.1,
              length-delete k none q e here,
              r.count,
            );
            bytes = ground (arith, total-delete k none q e here, r.bytes);
            fits = omega (arith, total-delete k none q e here, r.fits);
          })

    pub remove_found : Option.map item_of (remove idx k).1 ≡ some (item_of e)
    unfolding remove
    remove_found = rw (found, remove) (ap (Option.map item_of) relinked ∙ ground arith)

    pub detach-Floats : Floats (detach idx k) k (record e { prev = none; next = none }) (delete k q)
    unfolding detach
    detach-Floats =
        let (links, uniq, len, first, last, sum) =
          unlink-fields idx e.size e.expires_at e.last_access e.prev e.next in
        rw (found, detach)
          (record {
            distinct = delete-Distinct k q r.distinct;
            fresh = has-delete_self k q r.distinct;
            nodes = λ j.
                get-modify j k (λ e. record e { prev = none; next = none }) (unlink e idx).entries
                ∙ ground (arith, unlinked_nodes j, relinked);
            head = ground (arith, head_key-delete k q e here, r.head);
            tail = ground (arith, last_key-delete k none q e r.distinct here, r.tail);
            uniq = modify-Uniq k _ (unlink e idx).entries (uniq r.uniq);
            count = omega (
              arith,
              length-modify k (λ e. record e { prev = none; next = none }) (unlink e idx).entries,
              length-delete k none q e here,
              r.count,
            );
            bytes = ground (arith, total-delete k none q e here, r.bytes);
            fits = omega (arith, total-delete k none q e here, r.fits);
          })

pub append-Distinct :
    (k : ℕ) (a : Item) (q : Queue) → Distinct q → has k q ≡ false → Distinct (q ++ (k, a) ∷ [])
append-Distinct k a [] d h = (refl, tt)
append-Distinct k a ((i, b) ∷ q) d h = ground (arith, append-Distinct k a q, has-append i k a q)
  where
    has-append :
        (i k : ℕ) (a : Item) (q : Queue)
        → has i q ≡ false
        → (i == k) ≡ false
        → has i (q ++ (k, a) ∷ []) ≡ false
    has-append i k a [] h n = ground arith
    has-append i k a ((x, b) ∷ q) h n = ground (arith, has-append i k a q)
