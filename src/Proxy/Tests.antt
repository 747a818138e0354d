-- ===== src/Proxy/Tests.antt =====
-- The theorems of the proxy on a few upstreams, addresses and connections.
use migux.Common.{
  ℕ, ◌+◌, ◌-◌, ◌%◌, ◌^◌, ◌≤◌, ◌<◌, ◌≡◌, refl, true, false, List, [], ◌∷◌, Option, none, some,
  if◌then◌else◌, length, get_elem?, filter, max, arith,
}
use migux.Common.Maps
use migux.Common.Maps.{Map}
use migux.Text.{Str, lit, same, is_empty, contains_char}
use migux.Proxy.Forward.{upstream_headers}
use migux.Proxy.Forward.Framing.{FramedBy, upstream_headers-FramedBy}
use migux.Proxy.Upstream.{
  UpstreamConfig, many, normalize_servers, choose_upstream_addrs_rr_order, counter, rotated,
}
use migux.Proxy.Upstream.Order.{from}
use migux.Proxy.Upstream.Rotation.{choose_round_robin, counters_after, every_server_first}
use migux.Proxy.Health.{Healths, HealthPolicy, healthy, filter_healthy_addrs}
use migux.Proxy.Health.Filter.{is_up, filter_healthy_addrs_lem}
use migux.Proxy.Health.Breaker.{entry_of, failures, breaker_lem}
use migux.Proxy.Pool.{
  PooledStream, Pools, is_fresh, pool_of, checkin_upstream_stream, checkout_upstream_stream,
}
use migux.Proxy.Pool.Laws.{checkin_bound, checkout-checkin}

abbrev three : List Str
three = lit "a:1" ∷ lit "b:2" ∷ lit "c:3" ∷ []

abbrev config : UpstreamConfig
config = record {
  server = many three;
  strategy = some (lit "round_robin");
  health = record {
    fail_threshold = 2;
    cooldown_secs = 10;
    active = false;
    interval_secs = 5;
    timeout_secs = 1;
  };
}

config_servers : normalize_servers config ≡ some three
unfolding normalize_servers
config_servers = refl

choose_round_robin_example :
    let (after, order) = choose_upstream_addrs_rr_order [] (lit "app") config in
    (order ≡ some (from (0 % 3) three))
    × (counter (lit "web") after ≡ (if same (lit "app") (lit "web") then (0 + 1) % 2 ^ 64 else 0))
unfolding Maps.get
choose_round_robin_example =
    choose_round_robin [] (lit "app") (lit "web") config three config_servers refl refl

-- The last counter before it wraps.
abbrev last_counters : Map Str ℕ
last_counters = (lit "app", 2 ^ 64 - 1) ∷ []

every_server_first_example :
    (j : ℕ) × (order : List Str) × (j < 6)
    × ((choose_upstream_addrs_rr_order
          (counters_after j last_counters (lit "app") config)
          (lit "app")
          config).1
        ≡ some order)
    × (get_elem? order 0 ≡ some (lit "c:3"))
unfolding Maps.get same
every_server_first_example =
    every_server_first last_counters (lit "app") config three 2 config_servers refl (omega arith)
      (omega arith) (omega arith)

-- From there the third server comes first only at the fourth call.
abbrev firsts : ℕ → Option (List Str)
firsts j =
    (choose_upstream_addrs_rr_order (counters_after j last_counters (lit "app") config) (lit "app")
      config).1

fourth_call :
    (firsts 0 ≡ some three)
    × (firsts 1 ≡ some three)
    × (firsts 2 ≡ some (from 1 three))
    × (firsts 3 ≡ some (from 2 three))
unfolding choose_upstream_addrs_rr_order counters_after normalize_servers rotated same Maps.get
    Maps.insert
fourth_call = (refl, refl, refl, refl)

abbrev policy : HealthPolicy
policy = record { fail_threshold = 2; cooldown = 100 }

abbrev one_down : Healths
one_down = (lit "app|a:1", record { failures = 2; down_until = some 50 }) ∷ []

filter_healthy_addrs_example :
    let up = filter (is_up one_down (lit "app") 20) three in
    (filter_healthy_addrs one_down (lit "app") three 20).1 ≡ (if is_empty up then three else up)
filter_healthy_addrs_example = filter_healthy_addrs_lem one_down (lit "app") three 20

fresh_entry : entry_of [] (lit "app") (lit "a:1") ≡ healthy
unfolding entry_of Maps.get
fresh_entry = refl

breaker_example :
    is_up (failures 2 (λ i. i) (lit "app") (lit "a:1") policy []) (lit "app") 60 (lit "a:1") ≡ false
breaker_example =
    breaker_lem 1 (λ i. i) [] (lit "app") (lit "a:1") policy 60 fresh_entry (omega arith)

no_bar : contains_char b'|' (lit "app") ≡ false
unfolding contains_char
no_bar = refl

apart : ¬ ((lit "app" ≡ lit "app") × (lit "a:1" ≡ lit "b:2"))
apart e = absurd (ground (arith, e.1))

abbrev socket : PooledStream ℕ
socket = record { stream = 4; read_buf = []; last_used = 3 }

abbrev pools : Pools ℕ
pools = (lit "a:1", socket ∷ []) ∷ []

checkin_bound_example :
    length (pool_of (checkin_upstream_stream pools (lit "a:1") 9 socket 2) (lit "a:1"))
    ≤ max 2 (length (pool_of pools (lit "a:1")))
checkin_bound_example = checkin_bound pools (lit "a:1") (lit "a:1") 9 2 socket

room : length (pool_of pools (lit "a:1")) < 2
unfolding pool_of same Maps.get
room = omega arith

still_fresh : is_fresh 11 5 (record socket { last_used = 9 }) ≡ true
unfolding is_fresh
still_fresh = refl

checkout-checkin_example :
    let (after, got) =
      checkout_upstream_stream
        (checkin_upstream_stream pools (lit "a:1") 9 socket 2)
        (lit "a:1")
        11
        5
        none in
    (got ≡ some (record socket { last_used = 9 }))
    × (pool_of after (lit "a:1") ≡ pool_of pools (lit "a:1"))
checkout-checkin_example = checkout-checkin pools (lit "a:1") socket 9 11 2 5 none room still_fresh

abbrev request : Str
request =
    lit "GET / HTTP/1.1\r\nHost: x\r\nX-Forwarded-For: 1.2.3.4\r\nConnection: te, foo\r\nFoo: 1\r\n"

upstream_headers-FramedBy_example :
    FramedBy
      (lit "10.0.0.1")
      true
      5
      false
      (upstream_headers request (lit "10.0.0.1") (lit "https") true 5 false)
upstream_headers-FramedBy_example =
    upstream_headers-FramedBy request (lit "10.0.0.1") (lit "https") true 5 false
