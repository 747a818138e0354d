-- ===== src/Proxy/Upstream/Rotation.antt =====
-- Successive calls for an upstream start at successive servers.
use migux.Common.{
  ℕ, zero, suc, ◌+◌, ◌-◌, ◌%◌, ◌^◌, ◌<◌, ◌≤◌, ◌≡◌, refl, sym, ap, ◌∙◌, false, List, [], ◌∷◌, ◌++◌,
  some, ◌==◌, if◌then◌else◌, length, get_elem?, take, drop, arith, leb, leb→le, Bool-cases, inl,
  inr,
}
use native.Mathlib.Nat.{mod-eq_of_lt, mod-lt, mod-add-mod, add-mod_left}
use migux.Common.Maps
use migux.Common.Maps.{Map, get-insert}
use migux.Text.{Str, lit, same, same_self, str_eq}
use migux.Proxy.Upstream.Order.{from, rotated_lem}
use migux.Proxy.Upstream.{
  UpstreamConfig, rotated, normalize_servers, at_least_one, servers_of, or_zero,
  choose_upstream_addrs_rr_order, counter,
}

at_least_one_pos : (l servers : List Str) → at_least_one l ≡ some servers → 0 < length servers
unfolding at_least_one
at_least_one_pos [] servers h = cc
at_least_one_pos (x ∷ l) servers h = ground arith

some_servers :
    (cfg : UpstreamConfig) (servers : List Str)
    → normalize_servers cfg ≡ some servers
    → 0 < length servers
unfolding normalize_servers
some_servers cfg servers h = at_least_one_pos (servers_of cfg.server) servers h

-- With the strategy `round_robin` and a number of servers other than one, the order is the
-- servers from the one at the upstream's counter modulo their number, around; this counter goes
-- up by one modulo 2^64, and no other changes.
pub choose_round_robin :
    (counters : Map Str ℕ) (name other : Str) (cfg : UpstreamConfig) (servers : List Str)
    → normalize_servers cfg ≡ some servers
    → (length servers == 1) ≡ false
    → cfg.strategy ≡ some (lit "round_robin")
    → let (after, order) = choose_upstream_addrs_rr_order counters name cfg in
      let c = counter name counters in
      (order ≡ some (from (c % length servers) servers))
      × (counter other after
          ≡ (if same name other then (c + 1) % 2 ^ 64 else counter other counters))
unfolding choose_upstream_addrs_rr_order
choose_round_robin counters name other cfg servers e several s =
    let c = counter name counters in
    let chosen : choose_upstream_addrs_rr_order counters name cfg
        ≡ (Maps.insert name ((c + 1) % 2 ^ 64) counters, rotated servers (c % length servers)) =
      rw (e, choose_upstream_addrs_rr_order, several, s, same_self (lit "round_robin")) refl in
    (
      ap (λ t. t.1) chosen
          ∙ rotated_lem servers (c % length servers) (mod-lt c (some_servers cfg servers e)),
      ap (λ t. counter other t.0) chosen
          ∙ ap or_zero (get-insert other name ((c + 1) % 2 ^ 64) counters)
          ∙ ground arith,
    )

drop_first :
    (p : ℕ) (servers more : List Str)
    → p < length servers
    → get_elem? (drop p servers ++ more) 0 ≡ get_elem? servers p
drop_first zero [] more h = absurd (omega arith)
drop_first zero (x ∷ servers) more h = refl
drop_first (suc p) [] more h = absurd (omega arith)
drop_first (suc p) (x ∷ servers) more h = drop_first p servers more (omega arith)

turn : (n c p : ℕ) → p < n → (j : ℕ) × (j < n) × ((c + j) % n ≡ p)
turn n c p h =
    let r = mod-lt c {m = n} (omega arith) in
    elim (Bool-cases (leb (c % n) p)) [
      | inl after ↦
          let le = leb→le (c % n) p after in
          (
            p - c % n,
            omega arith,
            sym (mod-add-mod c n (p - c % n))
                ∙ ap (λ t. t % n) {y = p} (omega arith)
                ∙ mod-eq_of_lt h,
          )
      | inr past ↦
          let lt : p < c % n = ground (arith, past) in
          (
            n - c % n + p,
            omega arith,
            sym (mod-add-mod c n (n - c % n + p))
                ∙ ap (λ t. t % n) {y = n + p} (omega arith)
                ∙ add-mod_left n p
                ∙ mod-eq_of_lt h,
          )
    ]

-- The counters after a number of calls for one upstream.
unfoldable pub counters_after : ℕ → Map Str ℕ → Str → UpstreamConfig → Map Str ℕ
counters_after zero counters name cfg = counters
counters_after (suc calls) counters name cfg =
    counters_after calls (choose_upstream_addrs_rr_order counters name cfg).0 name cfg

counter-after :
    (calls : ℕ) (counters : Map Str ℕ) (name : Str) (cfg : UpstreamConfig) (servers : List Str)
    → normalize_servers cfg ≡ some servers
    → (length servers == 1) ≡ false
    → cfg.strategy ≡ some (lit "round_robin")
    → counter name counters < 2 ^ 64
    → counter name (counters_after calls counters name cfg)
      ≡ (counter name counters + calls) % 2 ^ 64
unfolding counters_after
counter-after zero counters name cfg servers e several s h = omega arith
counter-after (suc calls) counters name cfg servers e several s h =
    let c = counter name counters in
    let (_, k) = choose_round_robin counters name name cfg servers e several s in
    let next : counter name (choose_upstream_addrs_rr_order counters name cfg).0
        ≡ (c + 1) % 2 ^ 64 =
      k ∙ ap (λ b. if b then (c + 1) % 2 ^ 64 else c) (same_self name) in
    counter-after calls (choose_upstream_addrs_rr_order counters name cfg).0 name cfg servers e
      several s (omega (arith, next))
    ∙ omega (arith, next)

-- The counter wraps at 2^64, where the turns start again at the first server.
turn_wrapped :
    (n c p : ℕ)
    → p < n
    → n ≤ 2 ^ 64
    → c < 2 ^ 64
    → (j : ℕ) × (j < n + n) × ((c + j) % 2 ^ 64 % n ≡ p)
turn_wrapped n c p h small word = elim (Bool-cases (leb (c + n) (2 ^ 64))) [
  | inl fits ↦
      let (j, l, e) = turn n c p h in
      let le = leb→le (c + n) (2 ^ 64) fits in
      (j, omega arith, ap (λ k. k % n) {y = c + j} (omega arith) ∙ e)
  | inr over ↦
      let past : 2 ^ 64 < c + n = ground (arith, over) in
      (2 ^ 64 - c + p, omega arith, ap (λ k. k % n) {y = p} (omega arith) ∙ mod-eq_of_lt h)
]

-- With the strategy `round_robin`, where the counter is a 64-bit word and there are at most 2^64
-- servers: from any counter on, also where it wraps, each server comes first in the order of one of
-- the next calls for its upstream, twice as many as there are servers.
pub every_server_first :
    (counters : Map Str ℕ) (name : Str) (cfg : UpstreamConfig) (servers : List Str) (p : ℕ)
    → normalize_servers cfg ≡ some servers
    → cfg.strategy ≡ some (lit "round_robin")
    → counter name counters < 2 ^ 64
    → length servers ≤ 2 ^ 64
    → p < length servers
    → (j : ℕ) × (order : List Str) × (j < length servers + length servers)
      × ((choose_upstream_addrs_rr_order (counters_after j counters name cfg) name cfg).1
          ≡ some order)
      × (get_elem? order 0 ≡ get_elem? servers p)
unfolding counters_after choose_upstream_addrs_rr_order
every_server_first counters name cfg servers p e s word small h =
    elim (Bool-cases (length servers == 1)) [
      | inl alone ↦
          let first : p ≡ 0 = ground (arith, alone, h) in
          (
            0,
            servers,
            omega arith,
            rw (e, choose_upstream_addrs_rr_order, alone) refl,
            ap (get_elem? servers) (sym first),
          )
      | inr several ↦
          let n = length servers in
          let (j, l, t) = turn_wrapped n (counter name counters) p h small word in
          let after = counters_after j counters name cfg in
          let (order, _) = choose_round_robin after name name cfg servers e several s in
          let start : counter name after % n ≡ p =
            ap (λ k. k % n) (counter-after j counters name cfg servers e several s word) ∙ t in
          (
            j,
            from (counter name after % n) servers,
            l,
            order,
            ap (λ k. get_elem? (from k servers) 0) start ∙ drop_first p servers (take p servers) h,
          )
    ]
