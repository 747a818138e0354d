-- ===== src/Worker/Routing/Tests.antt =====
-- The choice among two locations.
use migux.Common.{◌≡◌, ◌⊎◌, List, [], ◌∷◌, none, some}
use migux.Text.{Str, lit}
use migux.Worker.Routing.{LocationConfig, proxy, candidates, match_location}
use migux.Worker.Routing.Longest.{LastLongest, match_location-LastLongest}

abbrev location : Str → LocationConfig
location path = record {
  server = lit "main";
  path = path;
  location_type = proxy;
  root = none;
  index = none;
  upstream = none;
  strip_prefix = none;
  cache = none;
}

abbrev others : List LocationConfig
others = location (lit "/api") ∷ []

match_location-LastLongest_example :
    (loc : LocationConfig) × (match_location (location (lit "/") ∷ others) (lit "/api/users")
      ≡ some loc)
    × (LastLongest (candidates (location (lit "/") ∷ others) (lit "/api/users")) loc
        ⊎ ((candidates (location (lit "/") ∷ others) (lit "/api/users") ≡ [])
            × (loc ≡ location (lit "/"))))
match_location-LastLongest_example =
    match_location-LastLongest (location (lit "/")) others (lit "/api/users")
