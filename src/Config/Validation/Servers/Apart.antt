-- ===== src/Config/Validation/Servers/Apart.antt =====
-- The servers of a configuration whose checks give no error.
use migux.Common.{
  ◌≡◌, refl, sym, ap, ◌∙◌, inl, inr, true, false, ◌||◌, List, [], ◌∷◌, ◌++◌, Option, none, some,
  arith, Bool-cases, All,
}
use migux.Common.Maps.{Map}
use migux.Text.{Str, same, same→eq, same_self, is_empty}
use migux.Config.{ServerConfig, TlsConfig}
use migux.Config.Validation.{Host, error, when, is_blank}
use migux.Config.Validation.Clean.{clean, clean-append, clean-when}
use migux.Config.Validation.Servers.{
  validate_servers, each_server, server_messages, listen_messages, root_messages, tls_messages,
  file_messages, hsts_messages, http_listens, tls_listens, http_listen, tls_listen, conflicts,
  contains, add_listen,
}

-- A TLS section names an address and two files that are there.
abbrev pub HasFiles : Host → Option TlsConfig → Type 0
HasFiles host none = Unit
HasFiles host (some tls) =
    (is_blank tls.listen ≡ false)
    × (host.is_file tls.cert_path ≡ true)
    × (host.is_file tls.key_path ≡ true)

abbrev pub IsServer : Host → ServerConfig → Type 0
IsServer host server = (is_blank server.listen ≡ false) × HasFiles host server.tls

files_lem :
    (host : Host) (name : Str) (tls : TlsConfig)
    → clean (file_messages host name tls) ≡ true
    → (host.is_file tls.cert_path ≡ true) × (host.is_file tls.key_path ≡ true)
unfolding file_messages
files_lem host name tls h = ground arith

tls_lem :
    (host : Host) (name : Str) (tls : Option TlsConfig)
    → clean (tls_messages host name tls) ≡ true
    → HasFiles host tls
unfolding tls_messages
tls_lem host name none h = tt
tls_lem host name (some tls) h =
    let (a, _) =
      clean-append (when (is_blank tls.listen) (error _) ++ file_messages host name tls)
        (hsts_messages name tls) h in
    let (b, c) =
      clean-append (when (is_blank tls.listen) (error _)) (file_messages host name tls) a in
    let (cert, key) = files_lem host name tls c in (clean-when (is_blank tls.listen) _ b, cert, key)

listen_lem :
    (host : Host) (name : Str) (server : ServerConfig)
    → clean (listen_messages host name server) ≡ true
    → is_blank server.listen ≡ false
unfolding listen_messages
listen_lem host name server h = ground arith

server_lem :
    (host : Host) (name : Str) (server : ServerConfig)
    → clean (server_messages host name server) ≡ true
    → IsServer host server
unfolding server_messages
server_lem host name server h =
    let (a, t) =
      clean-append (listen_messages host name server ++ root_messages host name server)
        (tls_messages host name server.tls) h in
    let (l, _) =
      clean-append (listen_messages host name server) (root_messages host name server) a in
    (listen_lem host name server l, tls_lem host name server.tls t)

servers_lem :
    (host : Host) (m : Map Str ServerConfig)
    → clean (each_server host m) ≡ true
    → All (λ s. IsServer host s.1) m
unfolding each_server
servers_lem host [] h = tt
servers_lem host ((name, server) ∷ m) h =
    let (a, b) = clean-append (server_messages host name server) (each_server host m) h in
    (server_lem host name server a, servers_lem host m b)

contains-append :
    (xs : List Str) (y s : Str) → contains (xs ++ y ∷ []) s ≡ (contains xs s || same y s)
contains-append [] y s = ground arith
contains-append (x ∷ xs) y s = ground (arith, contains-append xs y s)

add_listen-old :
    (xs : List Str) (y s : Str) → contains xs s ≡ true → contains (add_listen xs y) s ≡ true
add_listen-old xs y s h = ground (arith, contains-append xs y s)

add_listen-new : (xs : List Str) (y : Str) → contains (add_listen xs y) y ≡ true
add_listen-new xs y = ground (arith, contains-append xs y y, same_self y)

http_listens-old :
    (m : Map Str ServerConfig) (set : List Str) (s : Str)
    → contains set s ≡ true
    → contains (http_listens set m) s ≡ true
unfolding http_listens
http_listens-old [] set s h = h
http_listens-old ((name, server) ∷ m) set s h =
    http_listens-old m (http_listen set server) s
      (ground (arith, add_listen-old set server.listen s h))

http_listens-All :
    (host : Host) (m : Map Str ServerConfig) (set : List Str)
    → All (λ s. IsServer host s.1) m
    → All (λ s. contains (http_listens set m) s.1.listen ≡ true) m
unfolding http_listens
http_listens-All host [] set h = tt
http_listens-All host ((name, server) ∷ m) set (h, hs) = (
  http_listens-old m (http_listen set server) server.listen
      (ground (arith, h.0, add_listen-new set server.listen)),
  http_listens-All host m (http_listen set server) hs,
)

tls_listens-old :
    (m : Map Str ServerConfig) (set : List Str) (s : Str)
    → contains set s ≡ true
    → contains (tls_listens set m) s ≡ true
unfolding tls_listens
tls_listens-old [] set s h = h
tls_listens-old ((name, server) ∷ m) set s h =
    tls_listens-old m (tls_listen set server.tls) s (kept server.tls)
  where
    kept : (tls : Option TlsConfig) → contains (tls_listen set tls) s ≡ true
    kept none = h
    kept (some tls) = ground (arith, add_listen-old set tls.listen s h)

-- The address of a TLS section is in the set.
abbrev TlsIn : List Str → Option TlsConfig → Type 0
TlsIn set none = Unit
TlsIn set (some tls) = contains set tls.listen ≡ true

tls_listens-All :
    (host : Host) (m : Map Str ServerConfig) (set : List Str)
    → All (λ s. IsServer host s.1) m
    → All (λ s. TlsIn (tls_listens set m) s.1.tls) m
unfolding tls_listens
tls_listens-All host [] set h = tt
tls_listens-All host ((name, server) ∷ m) set (h, hs) =
    (here server.tls h.1, tls_listens-All host m (tls_listen set server.tls) hs)
  where
    here :
        (tls : Option TlsConfig)
        → HasFiles host tls
        → TlsIn (tls_listens (tls_listen set tls) m) tls
    here none k = tt
    here (some tls) k =
        tls_listens-old m (tls_listen set (some tls)) tls.listen
          (ground (arith, k.0, add_listen-new set tls.listen))

-- An address of TLS is not that of a server.
abbrev pub IsApart : Map Str ServerConfig → Option TlsConfig → Type 0
IsApart servers none = Unit
IsApart servers (some tls) = All (λ s. same s.1.listen tls.listen ≡ false) servers

conflicts_lem :
    (http tls : List Str) (s : Str)
    → clean (conflicts http tls) ≡ true
    → contains tls s ≡ true
    → contains http s ≡ false
unfolding conflicts
conflicts_lem http [] s h k = cc
conflicts_lem http (t ∷ tls) s h k =
    let (a, b) = clean-append (when (contains http t) (error _)) (conflicts http tls) h in
    elim (Bool-cases (same t s)) [
      | inl e ↦ ap (contains http) (sym (same→eq t s e)) ∙ clean-when (contains http t) _ a
      | inr e ↦ conflicts_lem http tls s b (ground arith)
    ]

IsApart-from :
    (http : List Str) (m : Map Str ServerConfig) (tls : TlsConfig)
    → contains http tls.listen ≡ false
    → All (λ s. contains http s.1.listen ≡ true) m
    → IsApart m (some tls)
IsApart-from http [] tls n h = tt
IsApart-from http ((name, server) ∷ m) tls n (h, hs) = (other, IsApart-from http m tls n hs)
  where
    other : same server.listen tls.listen ≡ false
    other = elim (Bool-cases (same server.listen tls.listen)) [
      | inl e ↦ cc (sym (ap (contains http) (same→eq server.listen tls.listen e)) ∙ h, n)
      | inr e ↦ e
    ]

apart_lem :
    (http tls : List Str) (all m : Map Str ServerConfig)
    → clean (conflicts http tls) ≡ true
    → All (λ s. contains http s.1.listen ≡ true) all
    → All (λ s. TlsIn tls s.1.tls) m
    → All (λ s. IsApart all s.1.tls) m
apart_lem http tls all [] c h k = tt
apart_lem http tls all ((name, server) ∷ m) c h (k, ks) =
    (here server.tls k, apart_lem http tls all m c h ks)
  where
    here : (t : Option TlsConfig) → TlsIn tls t → IsApart all t
    here none i = tt
    here (some t) i = IsApart-from http all t (conflicts_lem http tls t.listen c i) h

pub validate_servers_lem :
    (host : Host) (m : Map Str ServerConfig)
    → clean (validate_servers host m) ≡ true
    → (is_empty m ≡ false) × All (λ s. IsServer host s.1) m × All (λ s. IsApart m s.1.tls) m
unfolding validate_servers
validate_servers_lem host [] h = absurd (cc)
validate_servers_lem host (s ∷ m) h =
    let http = http_listens [] (s ∷ m) in
    let tls = tls_listens [] (s ∷ m) in
    let (a, b) = clean-append (each_server host (s ∷ m)) (conflicts http tls) h in
    let servers = servers_lem host (s ∷ m) a in
    (
      refl,
      servers,
      apart_lem http tls (s ∷ m) (s ∷ m) b (http_listens-All host (s ∷ m) [] servers)
          (tls_listens-All host (s ∷ m) [] servers),
    )
