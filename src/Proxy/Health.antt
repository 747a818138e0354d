-- ===== src/Proxy/Health.antt =====
-- crates/migux_proxy/src/proxy/health.rs: the circuit breaker of each upstream address. An `Instant`
-- is a number of nanoseconds.
pub mod Filter
pub mod Breaker
use migux.Common.{
  ℕ, zero, suc, ◌+◌, ◌*◌, max, min, Bool, true, false, not, List, [], ◌∷◌, ◌++◌, Option, none, some,
  ltb, leb, if◌then◌else◌,
}
use migux.Common.Maps
use migux.Common.Maps.{Map}
use migux.Text.{Str, str_eq, is_empty}
use migux.Proxy.Upstream.{UpstreamConfig}

pub record HealthPolicy : Type 0 where
  pub fail_threshold : ℕ
  pub cooldown : ℕ

pub record UpstreamHealth : Type 0 where
  pub failures : ℕ
  pub down_until : Option ℕ

abbrev pub Healths : Type 0
Healths = Map Str UpstreamHealth

abbrev pub u32_max : ℕ
u32_max = 4294967295

-- `UpstreamHealth::default()`
abbrev pub healthy : UpstreamHealth
healthy = record { failures = 0; down_until = none }

unfoldable pub health_key : Str → Str → Str
health_key upstream_name addr = upstream_name ++ b'|' ∷ addr

abbrev pub second : ℕ
second = 1_000_000_000

pub health_policy : UpstreamConfig → HealthPolicy
health_policy cfg = record {
  fail_threshold = max cfg.health.fail_threshold 1;
  cooldown = cfg.health.cooldown_secs * second;
}

-- An entry whose time is over is reset and healthy again.
abbrev pub revive : UpstreamHealth → ℕ → UpstreamHealth × Bool
revive entry now = elim entry.down_until [
  | none ↦ (entry, true)
  | some until ↦ if ltb now until then (entry, false) else (healthy, true)
]

unfoldable pub is_healthy : Healths → Str → Str → ℕ → Healths × Bool
is_healthy m name addr now = elim (Maps.get (health_key name addr) m) [
  | none ↦ (m, true)
  | some entry ↦
      let (entry', up) = revive entry now in
      (Maps.modify (health_key name addr) (λ _. entry') m, up)
]

-- The loop over the addresses.
unfoldable pub healthy_addrs : Healths → Str → List Str → ℕ → Healths × List Str
healthy_addrs m name [] now = (m, [])
healthy_addrs m name (addr ∷ addrs) now =
    let (m', up) = is_healthy m name addr now in
    let (m'', rest) = healthy_addrs m' name addrs now in (m'', if up then addr ∷ rest else rest)

unfoldable pub filter_healthy_addrs : Healths → Str → List Str → ℕ → Healths × List Str
filter_healthy_addrs m name addrs now =
    let (m', healthy) = healthy_addrs m name addrs now in
    (m', if is_empty healthy then addrs else healthy)

abbrev or_default : Option UpstreamHealth → UpstreamHealth
or_default none = healthy
or_default (some h) = h

abbrev failed : UpstreamHealth → HealthPolicy → ℕ → UpstreamHealth
failed entry policy now =
    let failures = min (entry.failures + 1) u32_max in
    if leb (max policy.fail_threshold 1) failures
    then record { failures = failures; down_until = some (now + policy.cooldown) }
    else record entry { failures = failures }

unfoldable pub record_failure : Healths → Str → Str → HealthPolicy → ℕ → Healths
record_failure m name addr policy now =
    Maps.insert (health_key name addr)
      (failed (or_default (Maps.get (health_key name addr) m)) policy now) m

unfoldable pub record_success : Healths → Str → Str → Healths
record_success m name addr = Maps.modify (health_key name addr) (λ _. healthy) m
