-- ===== src/Worker/Routing.antt =====
-- crates/migux_core/src/worker/routing.rs, and the location section of
-- crates/migux_config/src/location.rs. Paths are lists of UTF-8 bytes.
pub mod Longest
mod Tests
use migux.Common.{ℕ, Bool, List, [], ◌∷◌, Option, none, some, ltb, if◌then◌else◌, length, filter}
use migux.Text.{Str, starts_with}

pub data LocationType : Type 0 where
  static proxy : LocationType

pub record LocationConfig : Type 0 where
  pub server : Str
  pub path : Str
  pub location_type : LocationType
  pub root : Option Str
  pub index : Option Str
  pub upstream : Option Str
  pub strip_prefix : Option Str
  pub cache : Option Bool

-- `max_by_key` on the length of the path: the last of several.
max_from : LocationConfig → List LocationConfig → LocationConfig
max_from best [] = best
max_from best (loc ∷ locs) =
    max_from (if ltb (length loc.path) (length best.path) then best else loc) locs

abbrev pub candidates : List LocationConfig → Str → List LocationConfig
candidates locations path = filter (λ loc. starts_with path loc.path) locations

longest : List LocationConfig → LocationConfig → LocationConfig
unfolding max_from
longest [] first = first
longest (loc ∷ locs) first = max_from loc locs

-- `none` is the panic of `locations[0]` on an empty list.
pub match_location : List LocationConfig → Str → Option LocationConfig
unfolding longest
match_location [] path = none
match_location (first ∷ locations) path = some (longest (candidates (first ∷ locations) path) first)
