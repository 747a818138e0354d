-- ===== src/Config/Validation/Servers.antt =====
-- `validate_servers` of crates/migux_config/src/validation.rs. The sets of listen addresses are lists
-- without repetition, in the order in which they are filled.
pub mod Apart
use migux.Common.{
  Bool, true, false, not, ◌&&◌, ◌||◌, List, [], ◌∷◌, ◌++◌, Option, none, some, ◌==◌, if◌then◌else◌,
  any,
}
use migux.Common.Maps.{Map}
use migux.Text.{Str, lit, same, is_empty}
use migux.Config.{ServerConfig, TlsConfig}
use migux.Config.Validation.{Host, Message, warn, error, when, is_blank}

abbrev pub contains : List Str → Str → Bool
contains xs s = any (λ x. same x s) xs

abbrev pub add_listen : List Str → Str → List Str
add_listen xs s = if contains xs s then xs else xs ++ s ∷ []

listen_messages : Host → Str → ServerConfig → List Message
listen_messages host name server =
    if is_blank server.listen
    then error (lit "server '" ++ name ++ lit "' has an empty listen address") ∷ []
    else when (not (host.is_socket_addr server.listen)) (
        warn (
          lit "server '"
          ++ name
          ++ lit "' listen '"
          ++ server.listen
          ++ lit "' is not a socket address; DNS resolution will be used"))

root_messages : Host → Str → ServerConfig → List Message
root_messages host name server =
    if is_blank server.root
    then warn (lit "server '" ++ name ++ lit "' has an empty root path") ∷ []
    else when (not (host.exists server.root))
        (warn (lit "server '" ++ name ++ lit "' root '" ++ server.root ++ lit "' does not exist"))

file_messages : Host → Str → TlsConfig → List Message
file_messages host name tls =
    if is_blank tls.cert_path || is_blank tls.key_path
    then error (lit "server '" ++ name ++ lit "' TLS config requires cert_path and key_path") ∷ []
    else when (not (host.is_file tls.cert_path)) (
        error
          (lit "server '" ++ name ++ lit "' TLS cert_path '" ++ tls.cert_path ++ lit "' not found"))
      ++ when (not (host.is_file tls.key_path)) (
          error
            (lit "server '" ++ name ++ lit "' TLS key_path '" ++ tls.key_path ++ lit "' not found"))

abbrev is_true : Option Bool → Bool
is_true none = false
is_true (some b) = b

hsts_messages : Str → TlsConfig → List Message
hsts_messages name tls = elim tls.hsts_max_age_secs [
  | some max_age ↦
      when (max_age == 0)
        (warn (lit "server '" ++ name ++ lit "' sets hsts_max_age_secs=0; HSTS will be ignored"))
      ++ when (is_true tls.hsts_include_subdomains && max_age == 0) (
          warn (
            lit "server '"
            ++ name
            ++ lit "' enables includeSubDomains without a positive HSTS max-age"))
  | none ↦ when (is_true tls.hsts_include_subdomains) (
      warn (
        lit "server '"
        ++ name
        ++ lit "' enables includeSubDomains but hsts_max_age_secs is not set"))
]

tls_messages : Host → Str → Option TlsConfig → List Message
unfolding file_messages hsts_messages
tls_messages host name none = []
tls_messages host name (some tls) =
    when (is_blank tls.listen)
      (error (lit "server '" ++ name ++ lit "' enables TLS but tls.listen is empty"))
    ++ file_messages host name tls
    ++ hsts_messages name tls

unfoldable pub server_messages : Host → Str → ServerConfig → List Message
unfolding listen_messages root_messages tls_messages
server_messages host name server =
    listen_messages host name server
    ++ root_messages host name server
    ++ tls_messages host name server.tls

unfoldable pub each_server : Host → Map Str ServerConfig → List Message
unfolding server_messages
each_server host [] = []
each_server host ((name, server) ∷ m) = server_messages host name server ++ each_server host m

abbrev pub http_listen : List Str → ServerConfig → List Str
http_listen set server = if is_blank server.listen then set else add_listen set server.listen

abbrev pub tls_listen : List Str → Option TlsConfig → List Str
tls_listen set none = set
tls_listen set (some tls) = if is_blank tls.listen then set else add_listen set tls.listen

unfoldable pub http_listens : List Str → Map Str ServerConfig → List Str
http_listens set [] = set
http_listens set ((name, server) ∷ m) = http_listens (http_listen set server) m

unfoldable pub tls_listens : List Str → Map Str ServerConfig → List Str
tls_listens set [] = set
tls_listens set ((name, server) ∷ m) = tls_listens (tls_listen set server.tls) m

unfoldable pub conflicts : List Str → List Str → List Message
conflicts http [] = []
conflicts http (listen ∷ tls) =
    when (contains http listen) (
      error
        (lit "TLS listen '" ++ listen ++ lit "' conflicts with an HTTP listen; use separate ports"))
    ++ conflicts http tls

unfoldable pub validate_servers : Host → Map Str ServerConfig → List Message
unfolding each_server http_listens tls_listens conflicts
validate_servers host [] =
    error (lit "no [server] sections found; at least one server is required") ∷ []
validate_servers host (s ∷ m) =
    each_server host (s ∷ m) ++ conflicts (http_listens [] (s ∷ m)) (tls_listens [] (s ∷ m))
