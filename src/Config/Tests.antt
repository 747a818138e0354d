-- ===== src/Config/Tests.antt =====
-- The theorem of Config.Defaults at a configuration without a server.
use migux.Common.{◌≡◌, refl, []}
use migux.Config.{MiguxConfig, apply_defaults, default_global, default_http}
use migux.Config.Defaults.{HasLimits, apply_defaults_lem}

-- What is read with 0 for a limit.
abbrev unlimited : MiguxConfig
unlimited = record {
  global = default_global;
  http = record default_http { max_request_body_bytes = 0 };
  upstream = [];
  servers = [];
  location = [];
}

apply_defaults_example :
    HasLimits (apply_defaults unlimited).http
    × (apply_defaults (apply_defaults unlimited) ≡ apply_defaults unlimited)
apply_defaults_example = apply_defaults_lem unlimited

limit_default : (apply_defaults unlimited).http.max_request_body_bytes ≡ 10_485_760
unfolding apply_defaults
limit_default = refl
