-- ===== src/Proxy/Upstream.antt =====
-- crates/migux_proxy/src/proxy/upstream.rs, and the upstream section of
-- crates/migux_config/src/upstream.rs.
pub mod Order
pub mod Rotation
use migux.Common.{
  ℕ, zero, suc, ◌+◌, ◌%◌, ◌^◌, Bool, true, false, ◌&&◌, List, [], ◌∷◌, ◌++◌, Option, none, some,
  ◌==◌, if◌then◌else◌, length, get_elem?,
}
use mathlib.Core.Option
use migux.Common.Maps
use migux.Common.Maps.{Map}
use migux.Text.{Str, lit, same, str_eq, trim, trim_by, split, starts_with, is_empty}

pub data UpstreamServers : Type 0 where
  one : Str → UpstreamServers
  many : List Str → UpstreamServers

pub record UpstreamHealthConfig : Type 0 where
  pub fail_threshold : ℕ
  pub cooldown_secs : ℕ
  pub active : Bool
  pub interval_secs : ℕ
  pub timeout_secs : ℕ

pub record UpstreamConfig : Type 0 where
  pub server : UpstreamServers
  pub strategy : Option Str
  pub health : UpstreamHealthConfig

unfoldable pub ends_with_char : ℕ → Str → Bool
ends_with_char c [] = false
ends_with_char c (x ∷ []) = x == c
ends_with_char c (x ∷ y ∷ s) = ends_with_char c (y ∷ s)

-- `&s[1..s.len() - 1]`, on a text of at least two characters.
abbrev drop_last : Str → Str
drop_last [] = []
drop_last (c ∷ []) = []
drop_last (c ∷ d ∷ s) = c ∷ drop_last (d ∷ s)

abbrev pub inner : Str → Str
inner [] = []
inner (c ∷ s) = drop_last s

is_quote : ℕ → Bool
is_quote c = c == 34

clean_part : Str → Str
unfolding is_quote
clean_part part = trim_by is_quote (trim part)

keep_servers : List Str → List Str
unfolding clean_part
keep_servers [] = []
keep_servers (part ∷ parts) =
    if is_empty (clean_part part) then keep_servers parts else clean_part part ∷ keep_servers parts

unfoldable pub parse_servers_from_one : Str → List Str
unfolding keep_servers ends_with_char trim trim_by split starts_with
parse_servers_from_one raw =
    let trimmed = trim raw in
    if starts_with trimmed (lit "[") && ends_with_char b']' trimmed
    then keep_servers (split b',' (inner trimmed))
    else trimmed ∷ []

-- `none` is the error "Upstream has no configured servers".
at_least_one : List Str → Option (List Str)
at_least_one [] = none
at_least_one (s ∷ ss) = some (s ∷ ss)

servers_of : UpstreamServers → List Str
servers_of (one s) = parse_servers_from_one s
servers_of (many list) = list

unfoldable pub normalize_servers : UpstreamConfig → Option (List Str)
unfolding at_least_one servers_of parse_servers_from_one
normalize_servers cfg = at_least_one (servers_of cfg.server)

-- The loop `for i in 0..n { ordered.push(servers[(start + i) % n]) }`, from `i` with `left` rounds to
-- go. An index out of range would panic: `none`.
pub rotate_from : List Str → ℕ → ℕ → ℕ → Option (List Str)
rotate_from servers start i zero = some []
rotate_from servers start i (suc left) =
    let rest = rotate_from servers start (suc i) left in
    elim (get_elem? servers ((start + i) % length servers)) [
      | none ↦ none
      | some s ↦ Option.map (λ r. s ∷ r) rest
    ]

unfoldable pub rotated : List Str → ℕ → Option (List Str)
unfolding rotate_from
rotated servers start = rotate_from servers start 0 (length servers)

abbrev or_zero : Option ℕ → ℕ
or_zero none = 0
or_zero (some n) = n

abbrev pub counter : Str → Map Str ℕ → ℕ
counter name counters = or_zero (Maps.get name counters)

-- The counters after the call, and the order in which the servers are tried.
unfoldable pub choose_upstream_addrs_rr_order :
    Map Str ℕ → Str → UpstreamConfig → Map Str ℕ × Option (List Str)
choose_upstream_addrs_rr_order counters name cfg = elim (normalize_servers cfg) [
  | none ↦ (counters, none)
  | some servers ↦
      if length servers == 1
      then (counters, some servers)
      else if same (elim cfg.strategy [ none ↦ lit "single" | some s ↦ s ]) (lit "round_robin")
      then (let idx = counter name counters in
          (Maps.insert name ((idx + 1) % 2 ^ 64) counters, rotated servers (idx % length servers)))
      else (counters, some servers)
]
