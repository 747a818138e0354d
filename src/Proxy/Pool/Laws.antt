-- ===== src/Proxy/Pool/Laws.antt =====
-- The bound on each pool, and what a connection that comes back is good for.
use migux.Common.{
  ℕ, ◌≤◌, ◌<◌, ◌≡◌, refl, ap, ◌∙◌, true, false, List, [], ◌∷◌, ◌++◌, Option, none, some, leb,
  if◌then◌else◌, length, max, All, arith, Bool-cases, Option-cases, inl, inr,
}
use migux.Common.Maps
use migux.Common.Maps.{get-insert, get-modify}
use migux.Text.{Str, str_eq, same, same_self, same_iff}
use migux.Proxy.Pool.{
  PooledStream, Pools, is_fresh, pop_fresh, checkout_upstream_stream, checkin_upstream_stream,
  pool_of, or_connect, or_new,
}

module _ {S : Type 0} where
  pool_of-checkin :
      (pools : Pools S) (addr other : Str) (now max_pool : ℕ) (p : PooledStream S)
      → pool_of (checkin_upstream_stream pools addr now p max_pool) other ≡ (
          if same addr other
          then (if leb max_pool (length (pool_of pools addr))
              then pool_of pools addr
              else record p { last_used = now } ∷ pool_of pools addr)
          else pool_of pools other)
  unfolding pool_of checkin_upstream_stream
  pool_of-checkin pools addr other now max_pool p =
      ap or_new (get-insert other addr _ pools) ∙ ground arith

  -- After a check-in no address has more pooled connections than the limit or than it had before,
  -- whichever is more.
  pub checkin_bound :
      (pools : Pools S) (addr other : Str) (now max_pool : ℕ) (p : PooledStream S)
      → length (pool_of (checkin_upstream_stream pools addr now p max_pool) other)
        ≤ max max_pool (length (pool_of pools other))
  checkin_bound pools addr other now max_pool p = elim (Bool-cases (same addr other)) [
    | inl one ↦ rw ((same_iff addr other).0 one) (own other)
    | inr two ↦
        omega (arith, ap length (pool_of-checkin pools addr other now max_pool p ∙ other_pool two))
  ]
    where
      other_pool :
          same addr other ≡ false
          → (if same addr other
              then (if leb max_pool (length (pool_of pools addr))
                  then pool_of pools addr
                  else record p { last_used = now } ∷ pool_of pools addr)
              else pool_of pools other)
            ≡ pool_of pools other
      other_pool two = rw two refl

      own :
          (a : Str)
          → length (pool_of (checkin_upstream_stream pools a now p max_pool) a)
            ≤ max max_pool (length (pool_of pools a))
      own a = ground (arith, pool_of-checkin pools a a now max_pool p, same_self a)

  -- A stack of stale connections, or one with a fresh connection above the rest.
  abbrev pub Popped :
      ℕ
      → ℕ
      → List (PooledStream S)
      → List (PooledStream S)
      → List (PooledStream S)
      → Option (PooledStream S)
      → Type 0
  Popped now ttl ps stale rest none = (ps ≡ stale) × (rest ≡ [])
  Popped now ttl ps stale rest (some p) = (ps ≡ stale ++ p ∷ rest) × (is_fresh now ttl p ≡ true)

  abbrev pub AllStale : ℕ → ℕ → List (PooledStream S) → Type 0
  AllStale now ttl = All (λ p. is_fresh now ttl p ≡ false)

  -- The loop drops connections from the top, all of them stale, and either empties the stack and
  -- answers none or answers the connection below them, which is fresh, and leaves the rest.
  pub pop_fresh-split :
      (now ttl : ℕ) (ps : List (PooledStream S))
      → (stale : List (PooledStream S)) × AllStale now ttl stale
        × Popped now ttl ps stale (pop_fresh now ttl ps).0 (pop_fresh now ttl ps).1
  unfolding pop_fresh
  pop_fresh-split now ttl [] = ([], tt, (refl, refl))
  pop_fresh-split now ttl (p ∷ ps) = elim (Bool-cases (is_fresh now ttl p)) [
    | inl fresh ↦ rw fresh ([], tt, (refl, fresh))
    | inr old ↦
        let (stale, h, e) = pop_fresh-split now ttl ps in
        rw old (p ∷ stale, (old, h), popped_cons ps stale _ _ e)
  ]
    where
      popped_cons :
          (ps stale rest : List (PooledStream S)) (found : Option (PooledStream S))
          → Popped now ttl ps stale rest found
          → Popped now ttl (p ∷ ps) (p ∷ stale) rest found
      popped_cons ps stale rest none e = (ap (◌∷◌ p) e.0, e.1)
      popped_cons ps stale rest (some x) e = (ap (◌∷◌ p) e.0, e.1)

  -- `checkout` hands out the first fresh connection of the address and keeps the ones below it;
  -- where there is none, it empties the pool and connects.
  pub checkout_lem :
      (pools : Pools S) (addr : Str) (now ttl : ℕ) (connected : Option S)
      → let (after, got) = checkout_upstream_stream pools addr now ttl connected in
        let (rest, found) = pop_fresh now ttl (pool_of pools addr) in
        (pool_of after addr ≡ rest) × (got ≡ or_connect found now connected)
  unfolding checkout_upstream_stream pool_of pop_fresh
  checkout_lem pools addr now ttl connected = elim (Option-cases (Maps.get addr pools)) [
    | inl e ↦ (ground (arith, e), ground (arith, e))
    | inr (entry, e) ↦ (
      ground (
        arith,
        e,
        get-modify addr addr (λ (x : List (PooledStream S)). (pop_fresh now ttl entry).0) pools,
        same_self addr,
      ),
      ground (arith, e),
    )
  ]

  -- A connection checked in to a pool below its limit is the one that the next check-out answers,
  -- with the time of the check-in as its last use, if it is then within the idle time; the pool
  -- of the address is afterwards as before.
  pub checkout-checkin :
      (pools : Pools S) (addr : Str) (p : PooledStream S) (at now max_pool ttl : ℕ)
      (connected : Option S)
      → length (pool_of pools addr) < max_pool
      → is_fresh now ttl (record p { last_used = at }) ≡ true
      → let (after, got) =
          checkout_upstream_stream
            (checkin_upstream_stream pools addr at p max_pool)
            addr
            now
            ttl
            connected in
        (got ≡ some (record p { last_used = at })) × (pool_of after addr ≡ pool_of pools addr)
  unfolding pop_fresh
  checkout-checkin pools addr p at now max_pool ttl connected room fresh =
      let pools' = checkin_upstream_stream pools addr at p max_pool in
      let back : pool_of pools' addr ≡ record p { last_used = at } ∷ pool_of pools addr =
        pool_of-checkin pools addr addr at max_pool p ∙ ground (arith, same_self addr) in
      let (rest, got) = checkout_lem pools' addr now ttl connected in
      let popped : pop_fresh now ttl (pool_of pools' addr)
          ≡ (pool_of pools addr, some (record p { last_used = at })) =
        ap (pop_fresh now ttl) back ∙ rw fresh refl in
      (got ∙ ap (λ t. or_connect t.1 now connected) popped, rest ∙ ap (λ t. t.0) popped)
