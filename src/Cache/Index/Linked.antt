-- ===== src/Cache/Index/Linked.antt =====
-- The linked entry that a queue gives each key, and how it changes when keys come and go.
use migux.Common.{
  ℕ, ◌≡◌, refl, false, [], ◌∷◌, ◌++◌, Option, none, some, ◌==◌, arith, if◌then◌else◌, Bool-cases,
  inl, inr,
}
use mathlib.Core.Option
use migux.Cache.Index.{DiskEntryMeta, is_key, set_prev, set_next}
use migux.Cache.Index.Queue.{Item, Queue, has, Distinct, delete, head_key, last_key}

abbrev pub entry : Item → Option ℕ → Option ℕ → DiskEntryMeta
entry a p n = record {
  size = a.size;
  expires_at = a.expires_at;
  last_access = a.last_access;
  prev = p;
  next = n;
}

-- The entry of `k` in a queue that comes after the key `p`.
unfoldable pub node_at : ℕ → Option ℕ → Queue → Option DiskEntryMeta
node_at k p [] = none
node_at k p ((j, a) ∷ q) =
    let rest = node_at k (some j) q in if j == k then some (entry a p (head_key q)) else rest

pub node_at_absent : (k : ℕ) (p : Option ℕ) (q : Queue) → has k q ≡ false → node_at k p q ≡ none
unfolding node_at
node_at_absent k p [] h = refl
node_at_absent k p ((j, a) ∷ q) h = ground (arith, node_at_absent k (some j) q)

-- Only the first entry sees what stands before the queue.
pub node_at-prev :
    (j : ℕ) (p r : Option ℕ) (q : Queue)
    → node_at j r q
      ≡ (if is_key (head_key q) j then Option.map (set_prev r) (node_at j p q) else node_at j p q)
unfolding node_at
node_at-prev j p r [] = refl
node_at-prev j p r ((i, a) ∷ q) = ground arith

-- The neighbours of an entry whose `prev` and `next` are `p` and `n` take each other.
abbrev pub relink : Option ℕ → Option ℕ → ℕ → Option DiskEntryMeta → Option DiskEntryMeta
relink p n j e =
    let e' = if is_key p j then Option.map (set_next n) e else e in
    if is_key n j then Option.map (set_prev p) e' else e'

-- `p` is no key of the queue.
abbrev pub Before : Option ℕ → Queue → Type 0
Before none q = Unit {0}
Before (some k) q = has k q ≡ false

-- Links lead to keys of the queue, but the first `prev`.
pub next_in :
    (x k : ℕ) (p : Option ℕ) (q : Queue) (e : DiskEntryMeta)
    → node_at k p q ≡ some e
    → has x q ≡ false
    → is_key e.next x ≡ false
unfolding node_at
next_in x k p [] e h n = ground arith
next_in x k p ((i, a) ∷ []) e h n = ground arith
next_in x k p ((i, a) ∷ (i', a') ∷ q) e h n = ground (arith, next_in x k (some i) ((i', a') ∷ q) e)

pub prev_in :
    (x k : ℕ) (p : Option ℕ) (q : Queue) (e : DiskEntryMeta)
    → node_at k p q ≡ some e
    → has x q ≡ false
    → is_key p x ≡ false
    → is_key e.prev x ≡ false
unfolding node_at
prev_in x k p [] e h n m = ground arith
prev_in x k p ((i, a) ∷ q) e h n m = ground (arith, prev_in x k (some i) q e)

pub has-delete : (j k : ℕ) (q : Queue) → has j q ≡ false → has j (delete k q) ≡ false
has-delete j k [] h = refl
has-delete j k ((i, a) ∷ q) h = ground (arith, has-delete j k q)

-- Taking `k` out, where it is the first entry, the second, or a later one.
delete_first :
    (j k : ℕ) (p : Option ℕ) (a : Item) (q : Queue)
    → Distinct ((k, a) ∷ q)
    → Before p ((k, a) ∷ q)
    → node_at j p q ≡ (if k == j then none else relink p (head_key q) j (node_at j p ((k, a) ∷ q)))
unfolding node_at
delete_first j k p a q d b =
    ground (arith, node_at_absent k p q, node_at_absent j (some k) q, node_at-prev j (some k) p q)

delete_second :
    (j i k : ℕ) (p : Option ℕ) (a a' : Item) (q : Queue)
    → Distinct ((i, a) ∷ (k, a') ∷ q)
    → node_at j p ((i, a) ∷ q) ≡ (
        if k == j
        then none
        else relink (some i) (head_key q) j (node_at j p ((i, a) ∷ (k, a') ∷ q)))
unfolding node_at
delete_second j i k p a a' q d = ground (
  arith,
  node_at_absent k (some i) q,
  node_at_absent i (some k) q,
  node_at-prev j (some k) (some i) q,
  next_in i k (some i) ((k, a') ∷ q),
)

pub node_at-delete :
    (j k : ℕ) (p : Option ℕ) (q : Queue) (e : DiskEntryMeta)
    → Distinct q
    → Before p q
    → node_at k p q ≡ some e
    → node_at j p (delete k q) ≡ (if k == j then none else relink e.prev e.next j (node_at j p q))
unfolding node_at
node_at-delete j k p [] e d b h = ground arith
node_at-delete j k p ((i, a) ∷ []) e d b h = ground (arith, delete_first j k p a [])
node_at-delete j k p ((i, a) ∷ (i', a') ∷ q) e d b h = elim (Bool-cases (i == k)) [
  | inl first ↦ ground (arith, delete_first j k p a ((i', a') ∷ q))
  | inr later ↦ elim (Bool-cases (i' == k)) [
    | inl second ↦ ground (arith, delete_second j i k p a a' q)
    | inr last ↦ ground (
      arith,
      node_at-delete j k (some i) ((i', a') ∷ q) e,
      next_in i k (some i) ((i', a') ∷ q) e,
      prev_in i k (some i') q e,
    )
  ]
]

prev_some :
    (k i : ℕ) (q : Queue) (e : DiskEntryMeta)
    → node_at k (some i) q ≡ some e
    → (x : ℕ) × (e.prev ≡ some x)
unfolding node_at
prev_some k i [] e h = cc
prev_some k i ((i', a) ∷ q) e h = elim (Bool-cases (i' == k)) [
  | inl here ↦ (i, ground arith)
  | inr later ↦ prev_some k i' q e (ground arith)
]

-- The ends of the queue when `k` goes.
pub head_key-delete :
    (k : ℕ) (q : Queue) (e : DiskEntryMeta)
    → node_at k none q ≡ some e
    → head_key (delete k q) ≡ elim e.prev [ none ↦ e.next | some _ ↦ head_key q ]
unfolding node_at
head_key-delete k [] e h = ground arith
head_key-delete k ((i, a) ∷ q) e h = ground (arith, prev_some k i q e)

pub last_key-delete :
    (k : ℕ) (p : Option ℕ) (q : Queue) (e : DiskEntryMeta)
    → Distinct q
    → node_at k p q ≡ some e
    → last_key p (delete k q) ≡ elim e.next [ none ↦ e.prev | some _ ↦ last_key p q ]
unfolding node_at
last_key-delete k p [] e d h = ground arith
last_key-delete k p ((i, a) ∷ []) e d h = ground arith
last_key-delete k p ((i, a) ∷ (i', a') ∷ q) e d h =
    ground (arith, last_key-delete k (some i) ((i', a') ∷ q) e)

pub last_in :
    (x : ℕ) (p : Option ℕ) (q : Queue)
    → has x q ≡ false
    → is_key p x ≡ false
    → is_key (last_key p q) x ≡ false
last_in x p [] n m = m
last_in x p ((i, a) ∷ q) n m = ground (arith, last_in x (some i) q)

-- A new key at the end: the old last entry comes to point at it.
pub node_at-append :
    (j k : ℕ) (a : Item) (p : Option ℕ) (q : Queue)
    → Distinct q
    → has k q ≡ false
    → Before p q
    → node_at j p (q ++ (k, a) ∷ []) ≡ (
        if k == j
        then some (entry a (last_key p q) none)
        else (if is_key (last_key none q) j
            then Option.map (set_next (some k)) (node_at j p q)
            else node_at j p q))
unfolding node_at
node_at-append j k a p [] d n b = ground arith
node_at-append j k a p ((i, a') ∷ []) d n b = ground arith
node_at-append j k a p ((i, a') ∷ (i', a'') ∷ q) d n b =
    ground (arith, node_at-append j k a (some i) ((i', a'') ∷ q), last_in i (some i') q)
