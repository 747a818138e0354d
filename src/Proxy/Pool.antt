-- ===== src/Proxy/Pool.antt =====
-- crates/migux_proxy/src/proxy/pool.rs: pools of upstream connections, one stack for each address. The
-- head of the list is the end of the vector. A socket is a parameter `S`; times are in nanoseconds.
pub mod Laws
use migux.Common.{
  ℕ, zero, suc, ◌-◌, Bool, true, false, ◌||◌, List, [], ◌∷◌, ◌++◌, Option, none, some, ltb, leb,
  ◌==◌, if◌then◌else◌, length,
}
use migux.Common.Maps
use migux.Common.Maps.{Map}
use migux.Text.{Str, str_eq}

pub record PooledStream (S : Type 0) : Type 0 where
  pub stream : S
  pub read_buf : List ℕ
  pub last_used : ℕ

abbrev pub Pools : Type 0 → Type 0
Pools S = Map Str (List (PooledStream S))

module _ {S : Type 0} where
  -- The connection may be used again: no time to live, or within it.
  unfoldable pub is_fresh : ℕ → ℕ → PooledStream S → Bool
  is_fresh now idle_ttl p = idle_ttl == 0 || leb (now - p.last_used) idle_ttl

  -- `while let Some(pooled) = entry.pop()`: the stack that is left, and the connection.
  pub pop_fresh : ℕ → ℕ → List (PooledStream S) → List (PooledStream S) × Option (PooledStream S)
  pop_fresh now idle_ttl [] = ([], none)
  pop_fresh now idle_ttl (p ∷ ps) =
      let rest = pop_fresh now idle_ttl ps in if is_fresh now idle_ttl p then (ps, some p) else rest

  -- What `connect` answers is an argument; its time is that of the new connection.
  abbrev pub new_stream : ℕ → S → PooledStream S
  new_stream now s = record { stream = s; read_buf = []; last_used = now }

  abbrev or_connect : Option (PooledStream S) → ℕ → Option S → Option (PooledStream S)
  or_connect (some p) now connected = some p
  or_connect none now none = none
  or_connect none now (some s) = some (new_stream now s)

  unfoldable pub checkout_upstream_stream :
      Pools S → Str → ℕ → ℕ → Option S → Pools S × Option (PooledStream S)
  checkout_upstream_stream pools addr now idle_ttl connected = elim (Maps.get addr pools) [
    | none ↦ (pools, or_connect none now connected)
    | some entry ↦
        let (entry', found) = pop_fresh now idle_ttl entry in
        (Maps.modify addr (λ _. entry') pools, or_connect found now connected)
  ]

  abbrev or_new : Option (List (PooledStream S)) → List (PooledStream S)
  or_new none = []
  or_new (some entry) = entry

  unfoldable pub pool_of : Pools S → Str → List (PooledStream S)
  pool_of pools addr = or_new (Maps.get addr pools)

  pub checkin_upstream_stream : Pools S → Str → ℕ → PooledStream S → ℕ → Pools S
  unfolding pool_of
  checkin_upstream_stream pools addr now pooled max_pool =
      let entry = pool_of pools addr in
      Maps.insert addr
        (if leb max_pool (length entry) then entry else record pooled { last_used = now } ∷ entry)
        pools
