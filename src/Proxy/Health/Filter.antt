-- ===== src/Proxy/Health/Filter.antt =====
-- Which addresses are tried.
use migux.Common.{
  ℕ, ◌≡◌, refl, sym, ap, ◌∙◌, fun_ext, Bool, true, not, List, [], ◌∷◌, Option, none, some, ltb,
  if◌then◌else◌, arith, Bool-cases, Option-cases, inl, inr, filter,
}
use mathlib.Core.Option
use migux.Common.Maps
use migux.Common.Maps.{Map, get-modify}
use migux.Text.{Str, str_eq, same, same_iff, is_empty}
use migux.Proxy.Health.{
  UpstreamHealth, Healths, health_key, revive, is_healthy, healthy_addrs, filter_healthy_addrs,
}

-- An address is up unless its entry is down for longer than now.
abbrev pub up_at : ℕ → Option UpstreamHealth → Bool
up_at now none = true
up_at now (some h) = elim h.down_until [ none ↦ true | some until ↦ not (ltb now until) ]

unfoldable pub is_up : Healths → Str → ℕ → Str → Bool
is_up m name now addr = up_at now (Maps.get (health_key name addr) m)

up_at-revive :
    (now : ℕ) (h : UpstreamHealth) → up_at now (some (revive h now).0) ≡ up_at now (some h)
up_at-revive now h = ground arith

up_at-map :
    (now : ℕ) (o : Option UpstreamHealth) (h : UpstreamHealth)
    → o ≡ some h
    → up_at now (Option.map (λ _. (revive h now).0) o) ≡ up_at now o
up_at-map now o h e = rw e (up_at-revive now h)

-- Asking for one address changes no answer.
is_healthy-up :
    (m : Healths) (name addr other : Str) (now : ℕ)
    → is_up (is_healthy m name addr now).0 name now other ≡ is_up m name now other
unfolding is_up is_healthy
is_healthy-up m name addr other now = elim (Option-cases (Maps.get (health_key name addr) m)) [
  | inl e ↦ rw (e, is_healthy) refl
  | inr (h, e) ↦
      ap (λ t. up_at now (Maps.get (health_key name other) t)) (reset h e)
      ∙ ap (up_at now) (get-modify (health_key name other) (health_key name addr) _ m)
      ∙ elim (Bool-cases (same (health_key name addr) (health_key name other))) [
        | inl one ↦ rw one (
            up_at-map now (Maps.get (health_key name other) m) h
              (ap (λ t. Maps.get t m) (sym ((same_iff _ _).0 one)) ∙ e))
        | inr two ↦ rw two refl
      ]
]
  where
    reset :
        (h : UpstreamHealth)
        → Maps.get (health_key name addr) m ≡ some h
        → (is_healthy m name addr now).0
          ≡ Maps.modify (health_key name addr) (λ _. (revive h now).0) m
    reset h e = rw (e, is_healthy) refl

is_healthy-answer :
    (m : Healths) (name addr : Str) (now : ℕ)
    → (is_healthy m name addr now).1 ≡ is_up m name now addr
unfolding is_up is_healthy
is_healthy-answer m name addr now = ground arith

healthy_addrs-lem :
    (m : Healths) (name : Str) (addrs : List Str) (now : ℕ)
    → (healthy_addrs m name addrs now).1 ≡ filter (is_up m name now) addrs
unfolding healthy_addrs
healthy_addrs-lem m name [] now = refl
healthy_addrs-lem m name (addr ∷ addrs) now = ground (
  arith,
  is_healthy-answer m name addr now,
  healthy_addrs-lem (is_healthy m name addr now).0 name addrs now,
  ap (λ p. filter p addrs) (fun_ext (λ other. is_healthy-up m name addr other now)),
)

-- `filter_healthy_addrs` answers the addresses whose entry is not down now, in their order, and
-- all the addresses where there is none.
pub filter_healthy_addrs_lem :
    (m : Healths) (name : Str) (addrs : List Str) (now : ℕ)
    → let up = filter (is_up m name now) addrs in
      (filter_healthy_addrs m name addrs now).1 ≡ (if is_empty up then addrs else up)
unfolding filter_healthy_addrs
filter_healthy_addrs_lem m name addrs now =
    ap (λ up. if is_empty up then addrs else up) (healthy_addrs-lem m name addrs now)
