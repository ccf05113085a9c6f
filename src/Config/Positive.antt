-- ===== src/Config/Positive.antt =====
-- The settings that nginxSecurityConfig of main.go accepts.
use kanyigo.Base.{◌≡◌, subst, true, false, ◌||◌, arith, inl, inr, Bool-cases}
use kanyigo.Base.Int.{ℤ, pos, leb_ℤ, ltb_ℤ}
use kanyigo.Sql.{Result, ok, err}
use kanyigo.Config.{
  Readers, Variables, NginxConfig, duration, trusted_proxies, settings, checked,
  nginx_security_config, ◌>>=◌,
}
use kanyigo.NginxDetection.{NginxSecurityConfig}

abbrev pub IsPositive : ℤ → Type 0
IsPositive n = ltb_ℤ (pos 0) n ≡ true

-- Every threshold and window is positive.
pub record IsPositiveConfig (cfg : NginxSecurityConfig) : Type 0 where
  pub threshold_404 : IsPositive cfg.consecutive_404_threshold
  pub window_404 : IsPositive cfg.consecutive_404_window
  pub threshold_auth : IsPositive cfg.auth_failure_threshold
  pub window_auth : IsPositive cfg.auth_failure_window

bind_ok :
    {A B : Type 0} (r : Result A) (f : A → Result B) {b : B}
    → r >>= f ≡ ok b
    → (a : A) × (f a ≡ ok b)
unfolding ◌>>=◌
bind_ok (ok a) f h = (a, h)
bind_ok (err e) f h = absurd (cc)

none_refused :
    (a b c d : ℤ)
    → (leb_ℤ a (pos 0) || leb_ℤ b (pos 0) || leb_ℤ c (pos 0) || leb_ℤ d (pos 0)) ≡ false
    → IsPositive a × IsPositive b × IsPositive c × IsPositive d
none_refused a b c d h = ground arith

module _ (rs : Readers) (env : Variables) where
  checked_ok :
      (cfg cfg' : NginxConfig) → checked rs env cfg ≡ ok cfg' → IsPositiveConfig cfg'.detection
  unfolding checked
  checked_ok cfg cfg' h =
      let refused =
        leb_ℤ cfg.detection.consecutive_404_threshold (pos 0)
        || leb_ℤ cfg.detection.auth_failure_threshold (pos 0)
        || leb_ℤ cfg.detection.consecutive_404_window (pos 0)
        || leb_ℤ cfg.detection.auth_failure_window (pos 0) in
      elim (Bool-cases refused) [
        | inl e ↦ let h' = rw e at h in absurd (cc)
        | inr e ↦
            let same : cfg ≡ cfg' = cc (rw e at h) in
            let (a, b, c, d) = none_refused _ _ _ _ e in
            subst (λ cfg. IsPositiveConfig cfg.detection) same
              (record { threshold_404 = a; window_404 = c; threshold_auth = b; window_auth = d })
      ]

  -- The settings that nginxSecurityConfig returns, whatever the environment says, have positive
  -- thresholds and windows.
  pub nginx_security_config-IsPositiveConfig :
      (cfg : NginxConfig) → nginx_security_config rs env ≡ ok cfg → IsPositiveConfig cfg.detection
  unfolding nginx_security_config
  nginx_security_config-IsPositiveConfig cfg h =
      let (poll, h1) = bind_ok (duration rs env "NGINX_LOG_POLL_INTERVAL" "250ms") _ h in
      let (drain, h2) = bind_ok (duration rs env "NGINX_LOG_ROTATION_DRAIN_TIMEOUT" "1s") _ h1 in
      let (window_404, h3) = bind_ok (duration rs env "BRUTEFORCE_404_WINDOW" "2m") _ h2 in
      let (window_auth, h4) = bind_ok (duration rs env "BRUTEFORCE_AUTH_WINDOW" "5m") _ h3 in
      let (networks, h5) = bind_ok (trusted_proxies rs env) _ h4 in
      checked_ok (settings rs env poll drain window_404 window_auth networks) cfg h5
