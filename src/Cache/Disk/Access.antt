-- ===== src/Cache/Disk/Access.antt =====
-- What `get` and `touch` do to the queue of the index, and what they answer.
use migux.Common.{
  ℕ, ◌-◌, ◌≡◌, refl, subst, subst₂, ◌≢◌, inl, inr, Bool, false, ◌&&◌, ◌||◌, List, [], ◌∷◌, ◌++◌,
  Option, none, some, ltb, ◌==◌, if◌then◌else◌, arith, Bool-cases, Option-cases,
}
use migux.Common.Maps
use migux.Common.Tests.{nat_eq}
use migux.Cache.Index.{CacheSettings, DiskCacheIndex, remove, touch}
use migux.Cache.Index.Queue.{Item, Queue, has, find, delete, at_time}
use migux.Cache.Index.Refines.{Reps, item_of, has-delete_self}
use migux.Cache.Index.Operations.{found_item, lost_item, remove_queue}
use migux.Cache.Index.Touch.{touched, touch_queue}
use migux.Cache.Disk.{Env, Disk, get, touch_entry, is_expired}

abbrev pub item_expired : ℕ → CacheSettings → Item → Bool
item_expired now s a =
    (a.expires_at == 0 || ltb a.expires_at now)
    || (ltb 0 s.inactive_secs && ltb s.inactive_secs (now - a.last_access))

delete-append : (k : ℕ) (a : Item) (q : Queue) → has k q ≡ false → delete k (q ++ (k, a) ∷ []) ≡ q
delete-append k a [] h = ground arith
delete-append k a ((i, b) ∷ q) h = ground (arith, delete-append k a q)

-- The queue after `get` and after `touch`, and the answer of `get`.
abbrev pub after_touch : ℕ → CacheSettings → ℕ → Queue → Queue
after_touch now s k q = elim (find k q) [
  | none ↦ q
  | some a ↦ if item_expired now s a then delete k q else delete k q ++ (k, at_time now a) ∷ []
]

abbrev pub after_get : Env → CacheSettings → ℕ → Queue → Queue
after_get env s k q = elim (find k q) [
  | none ↦ q
  | some a ↦ if item_expired env.now s a then delete k q else elim (env.read_data k) [
    | none ↦ delete k q
    | some _ ↦ delete k q ++ (k, at_time env.now a) ∷ []
  ]
]

abbrev pub served : Env → CacheSettings → ℕ → Queue → Option (List ℕ)
served env s k q = elim (find k q) [
  | none ↦ none
  | some a ↦ if item_expired env.now s a then none else env.read_data k
]

module _ (env : Env) (s : CacheSettings) (d : Disk) (k : ℕ) (q : Queue) (r : Reps d.index q) where
  -- On an index that represents a queue, `touch` of the disk cache removes an expired entry,
  -- moves any other to the end with the time of the access, and leaves the queue alone where the
  -- key is absent.
  pub touch_entry_lem : Reps (touch_entry env s d k).0.index (after_touch env.now s k q)
  unfolding touch_entry is_expired
  touch_entry_lem = elim (Option-cases (Maps.get k d.index.entries)) [
    | inl h ↦ subst₂ Reps (ground (arith, h)) (ground (arith, lost_item d.index k q r h)) r
    | inr (e, h) ↦ elim (Bool-cases (item_expired env.now s (item_of e))) [
      | inl old ↦
          subst₂ Reps (ground (arith, h, old)) (ground (arith, found_item d.index k q r e h, old))
            (remove_queue d.index k q r)
      | inr live ↦
          subst₂ Reps (ground (arith, h, live)) (ground (arith, found_item d.index k q r e h, live))
            (touch_queue d.index k env.now q r)
    ]
  ]

  touched_index : DiskCacheIndex
  touched_index = (touch d.index k env.now).0

  again : (o : Option Item) → find k q ≡ o → o ≢ none → delete k (touched k env.now q) ≡ delete k q
  again none e h = absurd (h refl)
  again (some a) e h =
      ground (
        arith,
        e,
        delete-append k (at_time env.now a) (delete k q) (has-delete_self k q r.distinct),
      )

  forgotten : find k q ≢ none → Reps (remove touched_index k).0 (delete k q)
  unfolding touched_index
  forgotten h =
      subst (Reps (remove touched_index k).0) (again (find k q) refl h)
        (remove_queue touched_index k (touched k env.now q) (touch_queue d.index k env.now q r))

  -- On an index that represents a queue, `get` answers the data of a key whose entry is not
  -- expired and whose file can be read, and nothing otherwise; it moves such an entry to the end
  -- with the time of the access, removes one that is expired or cannot be read, and leaves the
  -- queue alone where the key is absent.
  pub get_lem :
      Reps (get env s d k).0.index (after_get env s k q) × ((get env s d k).1 ≡ served env s k q)
  unfolding get is_expired touched_index
  get_lem = elim (Option-cases (Maps.get k d.index.entries)) [
    | inl h ↦ (
      subst₂ Reps (ground (arith, h)) (ground (arith, lost_item d.index k q r h)) r,
      ground (arith, h, lost_item d.index k q r h),
    )
    | inr (e, h) ↦ elim (Bool-cases (item_expired env.now s (item_of e))) [
      | inl old ↦ (
        subst₂ Reps (ground (arith, h, old)) (ground (arith, found_item d.index k q r e h, old))
            (remove_queue d.index k q r),
        ground (arith, h, found_item d.index k q r e h, old),
      )
      | inr live ↦ elim (Option-cases (env.read_data k)) [
        | inl lost ↦ (
          subst₂ Reps (ground (arith, h, live, lost))
              (ground (arith, found_item d.index k q r e h, live, lost))
              (forgotten (ground (arith, found_item d.index k q r e h))),
          ground (arith, h, found_item d.index k q r e h, live, lost),
        )
        | inr (bytes, read) ↦ (
          subst₂ Reps (ground (arith, h, live, read))
              (ground (arith, found_item d.index k q r e h, live, read))
              (touch_queue d.index k env.now q r),
          ground (arith, h, found_item d.index k q r e h, live, read),
        )
      ]
    ]
  ]
