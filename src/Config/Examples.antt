-- ===== src/Config/Examples.antt =====
-- The settings of an environment that sets one variable.
use kanyigo.Base.{String, ◌≡◌, refl, some, [], ◌∷◌, str_eq, if◌then◌else◌}
use kanyigo.Base.Int.{pos}
use kanyigo.Base.Text.{trim_space, split, atoi}
use kanyigo.Sql.{ok, err}
use kanyigo.Net.{v4, IpNet}
use kanyigo.Auth.{env_or_default}
use kanyigo.NginxLine.{parse_items, parse_cidrs}
use kanyigo.Config.{
  Readers, Variables, NginxConfig, env_int, items, parse_allowed_origins, duration, trusted_proxies,
  settings, checked, nginx_security_config, stream_config, ◌>>=◌,
}

program : Unit {0}
unfolding trim_space split atoi env_or_default parse_items parse_cidrs env_int items
    parse_allowed_origins duration trusted_proxies settings checked nginx_security_config
    stream_config ◌>>=◌
program = tt

abbrev threshold : String → Variables
threshold value name = if str_eq name "BRUTEFORCE_404_CONSECUTIVE_THRESHOLD" then value else ""

abbrev loopback : IpNet
loopback = record { ip = v4 0; ones = 32 }

-- Every duration is five seconds.
abbrev readers : Readers
readers = record { parse_duration = λ _. some (pos 5); parse_cidr = λ _. some loopback }

abbrev accepted : NginxConfig
accepted = record {
  path = "/var/log/nginx/access.log";
  poll_interval = pos 5;
  rotation_drain_timeout = pos 5;
  detection = record {
    consecutive_404_threshold = pos 3;
    consecutive_404_window = pos 5;
    auth_failure_threshold = pos 10;
    auth_failure_window = pos 5;
    ignored_paths = "/favicon.ico" ∷ "/robots.txt" ∷ "/api/health" ∷ [];
  };
  trusted_proxy_cidrs = loopback ∷ loopback ∷ [];
}

three : nginx_security_config readers (threshold " 3 ") ≡ ok accepted
unfolding program
three = refl

-- A negative number counts as none, and 0 is refused.
negative_threshold : env_int "-3" (pos 10) ≡ pos 10
unfolding program
negative_threshold = refl

zero_threshold :
    nginx_security_config readers (threshold "0")
    ≡ err "nginx security thresholds and windows must be positive"
unfolding program
zero_threshold = refl

origins : parse_allowed_origins " http://a , ,http://b" ≡ "http://a" ∷ "http://b" ∷ []
unfolding program
origins = refl
