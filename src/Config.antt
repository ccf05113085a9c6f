-- ===== src/Config.antt =====
-- The settings from the environment: streamConfig and nginxSecurityConfig of main.go, envInt of db.go
-- and parseAllowedOrigins of server.go. An environment gives "" for a variable that is not set;
-- time.ParseDuration and net.ParseCIDR are a parameter, and `none` is their error.
pub mod Positive
pub mod Programs
mod Examples
use kanyigo.Base.{
  ℕ, String, Bool, true, false, not, ◌&&◌, ◌||◌, Option, none, some, List, [], ◌∷◌, map, select,
  str_eq, leb, if◌then◌else◌,
}
use kanyigo.Base.Int.{ℤ, pos, leb_ℤ, ltb_ℤ}
use kanyigo.Base.Text.{trim_space, split, atoi}
use kanyigo.Sql.{Result, ok, err}
use kanyigo.Net.{IpNet}
use kanyigo.Auth.{env_or_default}
use kanyigo.Tail.{StreamConfig}
use kanyigo.NginxDetection.{NginxSecurityConfig}
use kanyigo.NginxLine.{parse_cidrs}

abbrev pub Variables : Type 0
Variables = String → String

pub record Readers : Type 0 where
  pub parse_duration : String → Option ℤ
  pub parse_cidr : String → Option IpNet

-- `NginxSecurityConfig`: what the tail reads, what the detection reads, and the trusted proxies.
pub record NginxConfig : Type 0 where
  pub path : String
  pub poll_interval : ℤ
  pub rotation_drain_timeout : ℤ
  pub detection : NginxSecurityConfig
  pub trusted_proxy_cidrs : List IpNet

or_default : Option ℤ → ℤ → ℤ
or_default none def = def
or_default (some n) def = if ltb_ℤ n (pos 0) then def else n

unfoldable pub env_int : String → ℤ → ℤ
unfolding or_default
env_int value def =
    let v = env_or_default value "" in if str_eq v "" then def else or_default (atoi v) def

-- The parts between commas that are not blank, trimmed: the keys of `ignoredPaths`, and those of the
-- map that parseAllowedOrigins returns.
unfoldable pub items : String → List String
items value = select (λ part. not (str_eq part "")) (map trim_space (split b',' value))

unfoldable pub parse_allowed_origins : String → List String
parse_allowed_origins = items

infixl 5 ◌>>=◌
-- `if err != nil { return …, err }`
unfoldable pub ◌>>=◌ {ℓ κ} : {A : Type ℓ} {B : Type κ} → Result A → (A → Result B) → Result B
ok a >>= f = f a
err e >>= f = err e

module _ (rs : Readers) (env : Variables) where
  duration_of : String → Option ℤ → Result ℤ
  duration_of message none = err message
  duration_of message (some d) = ok d

  unfoldable pub duration : String → String → Result ℤ
  unfolding duration_of
  duration name def = duration_of name (rs.parse_duration (env_or_default (env name) def))

  networks_of : Option (List IpNet) → Result (List IpNet)
  networks_of none = err "invalid CIDR"
  networks_of (some networks) = ok networks

  unfoldable pub trusted_proxies : Result (List IpNet)
  unfolding networks_of
  trusted_proxies = networks_of (
      parse_cidrs rs.parse_cidr (env_or_default (env "TRUSTED_PROXY_CIDRS") "127.0.0.1/32,::1/128"))

  -- The settings, before they are checked
  unfoldable pub settings : ℤ → ℤ → ℤ → ℤ → List IpNet → NginxConfig
  settings poll drain window_404 window_auth networks = record {
    path = env_or_default (env "NGINX_ACCESS_LOG_PATH") "/var/log/nginx/access.log";
    poll_interval = poll;
    rotation_drain_timeout = drain;
    detection = record {
      consecutive_404_threshold = env_int (env "BRUTEFORCE_404_CONSECUTIVE_THRESHOLD") (pos 10);
      consecutive_404_window = window_404;
      auth_failure_threshold = env_int (env "BRUTEFORCE_AUTH_THRESHOLD") (pos 10);
      auth_failure_window = window_auth;
      ignored_paths = items (
          env_or_default (env "BRUTEFORCE_404_IGNORED_PATHS")
            "/favicon.ico,/robots.txt,/api/health");
    };
    trusted_proxy_cidrs = networks;
  }

  unfoldable pub checked : NginxConfig → Result NginxConfig
  checked cfg =
      if leb_ℤ cfg.detection.consecutive_404_threshold (pos 0)
        || leb_ℤ cfg.detection.auth_failure_threshold (pos 0)
        || leb_ℤ cfg.detection.consecutive_404_window (pos 0)
        || leb_ℤ cfg.detection.auth_failure_window (pos 0)
      then err "nginx security thresholds and windows must be positive"
      else ok cfg

  unfoldable pub nginx_security_config : Result NginxConfig
  nginx_security_config = duration "NGINX_LOG_POLL_INTERVAL" "250ms" >>= λ poll.
      duration "NGINX_LOG_ROTATION_DRAIN_TIMEOUT" "1s" >>= λ drain.
      duration "BRUTEFORCE_404_WINDOW" "2m" >>= λ window_404.
      duration "BRUTEFORCE_AUTH_WINDOW" "5m" >>= λ window_auth.
      trusted_proxies >>= λ networks. checked (settings poll drain window_404 window_auth networks)

  -- `processors` is runtime.GOMAXPROCS(0).
  unfoldable pub stream_config : ℕ → String → Result StreamConfig
  stream_config processors path = duration "MAILLOG_POLL_INTERVAL" "250ms" >>= λ poll.
      duration "MAILLOG_ROTATION_DRAIN_TIMEOUT" "1s" >>= λ drain.
      duration "MAILLOG_QUEUE_IDLE_TIMEOUT" "30m" >>= λ idle. ok (record {
        path = path;
        poll_interval = poll;
        rotation_drain_timeout = drain;
        queue_idle_timeout = idle;
        processing_workers =
            env_int (env "MAILLOG_PROCESSING_WORKERS")
              (pos (if leb 2 processors then processors else 2));
      })
