-- ===== src/Config/Validation/Clean.antt =====
-- Messages without an error, and the upstreams of a configuration whose checks give no error.
use migux.Common.{
  ◌≡◌, ◌≢◌, ◌⊎◌, inl, inr, ap, ◌∙◌, refl, Bool, true, false, ◌&&◌, List, [], ◌∷◌, ◌++◌, some, arith,
  All, Bool-cases, ℕ, ◌+◌,
}
use migux.Common.Maps.{Map}
use migux.Text.{Str, lit, str_eq, is_empty, trim, starts_with}
use migux.Text.Laws.{trim_again}
use migux.Proxy.Upstream.{
  UpstreamConfig, UpstreamServers, one, many, ends_with_char, parse_servers_from_one,
  normalize_servers,
}
use migux.Config.Validation.{
  Message, warn, error, when, is_blank, ConfigReport, collect, validate_upstreams,
  upstream_messages, entry_messages,
}

-- No message is an error.
abbrev pub clean : List Message → Bool
clean [] = true
clean (warn m ∷ ms) = clean ms
clean (error m ∷ ms) = false

pub clean-append :
    (a b : List Message) → clean (a ++ b) ≡ true → (clean a ≡ true) × (clean b ≡ true)
clean-append [] b h = (refl, h)
clean-append (warn m ∷ a) b h = clean-append a b h
clean-append (error m ∷ a) b h = absurd (cc)

pub clean-when : (b : Bool) (m : Str) → clean (when b (error m)) ≡ true → b ≡ false
clean-when b m h = ground arith

pub collect-clean :
    (r : ConfigReport) (ms : List Message)
    → is_empty (collect r ms).errors ≡ true
    → (clean ms ≡ true) × (is_empty r.errors ≡ true)
unfolding collect
collect-clean r [] h = (refl, h)
collect-clean r (warn m ∷ ms) h = collect-clean (record r { warnings = r.warnings ++ m ∷ [] }) ms h
collect-clean r (error m ∷ ms) h =
    let (_, e) = collect-clean (record r { errors = r.errors ++ m ∷ [] }) ms h in
    absurd (pushed r.errors e)
  where
    pushed : (es : List Str) → is_empty (es ++ m ∷ []) ≢ true
    pushed [] k = cc
    pushed (e ∷ es) k = cc

-- A list that is written as one text in brackets.
abbrev pub is_list_text : UpstreamServers → Bool
is_list_text (one raw) = starts_with (trim raw) (lit "[") && ends_with_char b']' (trim raw)
is_list_text (many servers) = false

-- The proxy finds servers, and no blank one. The check does not look into a list that is one text.
abbrev pub HasServers : UpstreamConfig → Type 0
HasServers upstream =
    (is_list_text upstream.server ≡ true)
    ⊎ ((servers : List Str) × (normalize_servers upstream ≡ some servers)
        × All (λ s. is_blank s ≡ false) servers)

entries_lem :
    (name : Str) (idx : ℕ) (servers : List Str)
    → clean (entry_messages name idx servers) ≡ true
    → All (λ s. is_blank s ≡ false) servers
unfolding entry_messages
entries_lem name idx [] h = tt
entries_lem name idx (s ∷ servers) h =
    let (a, b) =
      clean-append (when (is_blank s) (error _)) (entry_messages name (idx + 1) servers) h in
    (clean-when (is_blank s) _ a, entries_lem name (idx + 1) servers b)

one_server :
    (upstream : UpstreamConfig) (raw : Str)
    → upstream.server ≡ one raw
    → is_list_text (one raw) ≡ false
    → normalize_servers upstream ≡ some (trim raw ∷ [])
unfolding normalize_servers parse_servers_from_one
one_server upstream raw e l = rw e (rw l refl)

many_servers :
    (upstream : UpstreamConfig) (servers : List Str)
    → upstream.server ≡ many servers
    → is_empty servers ≡ false
    → normalize_servers upstream ≡ some servers
unfolding normalize_servers
many_servers upstream [] e h = cc
many_servers upstream (s ∷ servers) e h = rw e refl

upstream_lem :
    (name : Str) (upstream : UpstreamConfig)
    → clean (upstream_messages name upstream.server) ≡ true
    → HasServers upstream
unfolding upstream_messages is_blank
upstream_lem name upstream h = by_servers upstream.server refl h
  where
    by_servers :
        (servers : UpstreamServers)
        → upstream.server ≡ servers
        → clean (upstream_messages name servers) ≡ true
        → HasServers upstream
    by_servers (one raw) e k = elim (Bool-cases (is_list_text (one raw))) [
      | inl l ↦ inl (ap is_list_text e ∙ l)
      | inr l ↦
          let blank = ap is_empty (trim_again raw) ∙ clean-when (is_blank raw) _ k in
          inr (trim raw ∷ [], one_server upstream raw e l, (blank, tt))
    ]
    by_servers (many servers) e k =
        let (a, b) =
          clean-append (when (is_empty servers) (error _)) (entry_messages name 0 servers) k in
        inr (
          servers,
          many_servers upstream servers e (clean-when (is_empty servers) _ a),
          entries_lem name 0 servers b,
        )

pub upstreams_lem :
    (m : Map Str UpstreamConfig) → clean (validate_upstreams m) ≡ true → All (λ u. HasServers u.1) m
unfolding validate_upstreams
upstreams_lem [] h = tt
upstreams_lem ((name, u) ∷ m) h =
    let (a, b) = clean-append (upstream_messages name u.server) (validate_upstreams m) h in
    (upstream_lem name u a, upstreams_lem m b)
