-- ===== src/Worker/Routing/Longest.antt =====
-- The location chosen is the last of those with the longest prefix.
use migux.Common.{
  ◌≤◌, ◌<◌, ◌≡◌, refl, ap, ◌⊎◌, inl, inr, List, [], ◌∷◌, ◌++◌, some, ltb, length, All, arith,
  Bool-cases, ltb→lt, ltb→le,
}
use migux.Text.{Str}
use migux.Worker.Routing.{LocationConfig, max_from, candidates, longest, match_location}

-- The location stands in the list, none before it is longer, and those after it are shorter.
pub record LastLongest (locs : List LocationConfig) (loc : LocationConfig) : Type 0 where
  pub before : List LocationConfig
  pub after : List LocationConfig
  pub split : locs ≡ before ++ loc ∷ after
  pub not_longer : All (λ l. length l.path ≤ length loc.path) before
  pub shorter : All (λ l. length l.path < length loc.path) after

keep :
    (best l loc : LocationConfig) (locs before after : List LocationConfig)
    → length l.path < length best.path
    → best ∷ locs ≡ before ++ loc ∷ after
    → All (λ x. length x.path ≤ length loc.path) before
    → All (λ x. length x.path < length loc.path) after
    → LastLongest (best ∷ l ∷ locs) loc
keep best l loc locs [] after lt e up down =
    let same_loc : best ≡ loc = cc in
    let same_locs : locs ≡ after = cc in
    record {
      before = [];
      after = l ∷ locs;
      split = ap (λ b. b ∷ l ∷ locs) same_loc;
      not_longer = tt;
      shorter = (
        omega (arith, ap (λ (x : LocationConfig). length x.path) same_loc, lt),
        rw same_locs down,
      );
    }
keep best l loc locs (b ∷ before) after lt e up down =
    let same_best : best ≡ b = cc in
    let same_locs : locs ≡ before ++ loc ∷ after = cc in
    record {
      before = best ∷ l ∷ before;
      after = after;
      split = ap (λ t. best ∷ l ∷ t) same_locs;
      not_longer = (
        rw same_best up.0,
        (omega (arith, lt, ap (λ (x : LocationConfig). length x.path) same_best, up.0), up.1),
      );
      shorter = down;
    }

first_not_longer :
    (l loc : LocationConfig) (locs : List LocationConfig) (best : LocationConfig)
    (before after : List LocationConfig)
    → length best.path ≤ length l.path
    → l ∷ locs ≡ before ++ loc ∷ after
    → All (λ x. length x.path ≤ length loc.path) before
    → length best.path ≤ length loc.path
first_not_longer l loc locs best [] after le e up =
    let same_loc : l ≡ loc = cc in
    omega (arith, ap (λ (x : LocationConfig). length x.path) same_loc)
first_not_longer l loc locs best (b ∷ before) after le e up =
    let same_l : l ≡ b = cc in
    omega (arith, ap (λ (x : LocationConfig). length x.path) same_l, up.0)

take_new :
    (best l loc : LocationConfig) (locs : List LocationConfig)
    → length best.path ≤ length l.path
    → LastLongest (l ∷ locs) loc
    → LastLongest (best ∷ l ∷ locs) loc
take_new best l loc locs le m = record {
  before = best ∷ m.before;
  after = m.after;
  split = ap (◌∷◌ best) m.split;
  not_longer =
      (first_not_longer l loc locs best m.before m.after le m.split m.not_longer, m.not_longer);
  shorter = m.shorter;
}

max_from-LastLongest :
    (best : LocationConfig) (locs : List LocationConfig)
    → LastLongest (best ∷ locs) (max_from best locs)
unfolding max_from
max_from-LastLongest best [] = record {
  before = [];
  after = [];
  split = refl;
  not_longer = tt;
  shorter = tt;
}
max_from-LastLongest best (l ∷ locs) = elim (Bool-cases (ltb (length l.path) (length best.path))) [
  | inl lt ↦
      let m = max_from-LastLongest best locs in
      rw lt (
        keep best l (max_from best locs) locs m.before m.after (ltb→lt _ _ lt) m.split m.not_longer
          m.shorter)
  | inr ge ↦
      rw ge (take_new best l (max_from l locs) locs (ltb→le _ _ ge) (max_from-LastLongest l locs))
]

-- A request is routed to the last of the locations with the longest path among those whose path is a
-- prefix of the request's, or to the first location of all where there are none.
pub match_location-LastLongest :
    (first : LocationConfig) (locations : List LocationConfig) (path : Str)
    → (loc : LocationConfig) × (match_location (first ∷ locations) path ≡ some loc)
      × (LastLongest (candidates (first ∷ locations) path) loc
          ⊎ ((candidates (first ∷ locations) path ≡ []) × (loc ≡ first)))
unfolding match_location longest
match_location-LastLongest first locations path = (
  longest (candidates (first ∷ locations) path) first,
  refl,
  chosen (candidates (first ∷ locations) path),
)
  where
    chosen :
        (found : List LocationConfig)
        → LastLongest found (longest found first) ⊎ ((found ≡ []) × (longest found first ≡ first))
    chosen [] = inr (refl, refl)
    chosen (l ∷ locs) = inl (max_from-LastLongest l locs)
