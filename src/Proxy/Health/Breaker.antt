-- ===== src/Proxy/Health/Breaker.antt =====
-- Failures, cooldown and recovery of one address.
use migux.Common.{
  ℕ, zero, suc, ◌+◌, ◌≤◌, ◌≡◌, refl, ap, ◌∙◌, true, false, not, [], ◌∷◌, none, some, ltb, leb,
  if◌then◌else◌, arith, max, Bool-cases, inl, inr,
}
use mathlib.Core.Option
use migux.Common.Maps
use migux.Common.Maps.{Map, get-insert, get-modify}
use migux.Text.{Str, str_eq, same, same_self, same_iff, contains_char}
use migux.Proxy.Health.{
  UpstreamHealth, HealthPolicy, Healths, healthy, health_key, record_failure, record_success,
  failed, or_default, u32_max,
}
use migux.Proxy.Health.Filter.{is_up, up_at}

unfoldable pub entry_of : Healths → Str → Str → UpstreamHealth
entry_of m name addr = or_default (Maps.get (health_key name addr) m)

get-failed :
    (m : Healths) (name addr other : Str) (policy : HealthPolicy) (now : ℕ)
    → Maps.get (health_key name other) (record_failure m name addr policy now) ≡ (
        if same (health_key name addr) (health_key name other)
        then some (failed (entry_of m name addr) policy now)
        else Maps.get (health_key name other) m)
unfolding record_failure entry_of
get-failed m name addr other policy now =
    get-insert (health_key name other) (health_key name addr) _ m

-- `n` failures in a row, at the times that `at` gives.
pub failures : ℕ → (ℕ → ℕ) → Str → Str → HealthPolicy → Healths → Healths
failures zero at name addr policy m = m
failures (suc n) at name addr policy m =
    record_failure (failures n at name addr policy m) name addr policy (at n)

entry_failed :
    (m : Healths) (name addr : Str) (policy : HealthPolicy) (now : ℕ)
    → entry_of (record_failure m name addr policy now) name addr
      ≡ failed (entry_of m name addr) policy now
unfolding entry_of
entry_failed m name addr policy now = ap or_default (
    get-failed m name addr addr policy now
    ∙ ap
        (λ b.
          if b
          then some (failed (entry_of m name addr) policy now)
          else Maps.get (health_key name addr) m)
        (same_self (health_key name addr)))

-- The entry after that many failures in a row.
abbrev broken : ℕ → (ℕ → ℕ) → HealthPolicy → UpstreamHealth
broken n at policy = record {
  failures = suc n;
  down_until =
      if leb (max policy.fail_threshold 1) (suc n) then some (at n + policy.cooldown) else none;
}

entry_after :
    (n : ℕ) (at : ℕ → ℕ) (m : Healths) (name addr : Str) (policy : HealthPolicy)
    → entry_of m name addr ≡ healthy
    → suc n ≤ u32_max
    → entry_of (failures (suc n) at name addr policy m) name addr ≡ broken n at policy
unfolding failures
entry_after zero at m name addr policy h fits =
    entry_failed m name addr policy (at 0) ∙ ap (λ e. failed e policy (at 0)) h ∙ ground arith
entry_after (suc n) at m name addr policy h fits =
    entry_failed (failures (suc n) at name addr policy m) name addr policy (at (suc n))
    ∙ ap (λ e. failed e policy (at (suc n))) (entry_after n at m name addr policy h (omega arith))
    ∙ ground arith

up_at_entry :
    (m : Healths) (name addr : Str) (now : ℕ)
    → is_up m name now addr ≡ up_at now (some (entry_of m name addr))
unfolding is_up entry_of
up_at_entry m name addr now = ground arith

-- For an address without failures, `suc n` failures in a row, which are a `u32`, leave it up if
-- they are fewer than the threshold, or than 1; otherwise it is up exactly from the end of the
-- cooldown after the last failure on.
pub breaker_lem :
    (n : ℕ) (at : ℕ → ℕ) (m : Healths) (name addr : Str) (policy : HealthPolicy) (now : ℕ)
    → entry_of m name addr ≡ healthy
    → suc n ≤ u32_max
    → is_up (failures (suc n) at name addr policy m) name now addr ≡ (
        if leb (max policy.fail_threshold 1) (suc n)
        then not (ltb now (at n + policy.cooldown))
        else true)
breaker_lem n at m name addr policy now h fits =
    up_at_entry (failures (suc n) at name addr policy m) name addr now
    ∙ ap (λ e. up_at now (some e)) (entry_after n at m name addr policy h fits)
    ∙ ground arith

-- After a success an address is up at any time, and its entry is that of an address without
-- failures.
pub record_success_up :
    (m : Healths) (name addr : Str) (now : ℕ)
    → (is_up (record_success m name addr) name now addr ≡ true)
      × (entry_of (record_success m name addr) name addr ≡ healthy)
unfolding is_up record_success entry_of
record_success_up m name addr now =
    let e : Maps.get (health_key name addr) (Maps.modify (health_key name addr) (λ _. healthy) m)
        ≡ Option.map (λ _. healthy) (Maps.get (health_key name addr) m) =
      get-modify (health_key name addr) (health_key name addr) (λ _. healthy) m
      ∙ ground (arith, same_self (health_key name addr)) in
    (ap (up_at now) e ∙ ground arith, ap or_default e ∙ ground arith)

-- Two pairs of an upstream and an address with the same key are the same, if neither upstream's
-- name has a "|".
pub health_key-injective :
    (name other addr addr' : Str)
    → contains_char b'|' name ≡ false
    → contains_char b'|' other ≡ false
    → health_key name addr ≡ health_key other addr'
    → (name ≡ other) × (addr ≡ addr')
unfolding health_key contains_char
health_key-injective [] [] addr addr' h k e = ground arith
health_key-injective [] (d ∷ other) addr addr' h k e = ground arith
health_key-injective (c ∷ name) [] addr addr' h k e = ground arith
health_key-injective (c ∷ name) (d ∷ other) addr addr' h k e =
    ground (arith, health_key-injective name other addr addr')

-- If neither upstream's name has a "|", a failure of one address of one upstream does not change
-- whether any other pair of an upstream and an address is up.
pub record_failure_isolated :
    (m : Healths) (name addr other addr' : Str) (policy : HealthPolicy) (at now : ℕ)
    → contains_char b'|' name ≡ false
    → contains_char b'|' other ≡ false
    → ¬ ((name ≡ other) × (addr ≡ addr'))
    → is_up (record_failure m name addr policy at) other now addr' ≡ is_up m other now addr'
unfolding is_up record_failure
record_failure_isolated m name addr other addr' policy at now h k ne = ap (up_at now) (
    get-insert (health_key other addr') (health_key name addr) _ m
    ∙ elim (Bool-cases (same (health_key name addr) (health_key other addr'))) [
      | inl one ↦
          absurd (ne (health_key-injective name other addr addr' h k ((same_iff _ _).0 one)))
      | inr two ↦ rw two refl
    ])
