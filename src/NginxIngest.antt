-- ===== src/NginxIngest.antt =====
-- RunNginxSecurityIngestor of nginx_security.go: the tail of the access log, the parser and
-- persistNginxEvent, one record after the other.
pub mod Reread
pub mod Once
pub mod Runs
mod Examples
use Prim.Native.String as NativeString
use kanyigo.Base.{
  ℕ, suc, zero, String, ◌*◌, ◌^◌, Bool, true, false, List, [], ◌∷◌, str_eq, if◌then◌else◌,
}
use kanyigo.Base.Int.{pos}
use kanyigo.Schema.{Database}
use kanyigo.Sql.{Result, ok, err, Sql, Conn, Outcome, pure, ◌>>=◌, ◌>>◌}
use kanyigo.Checkpoint.{get_ingest_state}
use kanyigo.MailStore.{LineRecord}
use kanyigo.Tail.{StreamConfig, Opening, Round, Tail, follow_mail_log}
use kanyigo.Tail.Buffer.{Bytes}
use kanyigo.NginxDetection.{persist_nginx_event}
use kanyigo.NginxLine.{Readers, parse_nginx_line}
use kanyigo.Config.{NginxConfig}

-- `time.Hour`
abbrev pub hour : ℕ
hour = 3600 * 10 ^ 9

unfoldable pub stream_settings : NginxConfig → StreamConfig
stream_settings cfg = record {
  path = cfg.path;
  poll_interval = cfg.poll_interval;
  rotation_drain_timeout = cfg.rotation_drain_timeout;
  queue_idle_timeout = pos hour;
  processing_workers = pos 1;
}

-- `"nginx-security:" + cfg.Path`
unfoldable pub nginx_state_key : String → String
nginx_state_key path = NativeString.◌++◌ "nginx-security:" path

-- Which case other than a record the `select` takes, if it takes one: the end of the context, or the
-- error of the tail.
pub data Stop : Type 0 where
  cancelled tail_ended : Stop

-- `err == nil || errors.Is(err, context.Canceled)` is no error. A tail that goes on has no error yet.
unfoldable pub stop_answer : Stop → Result Tail → Result (Unit {0})
stop_answer cancelled last = ok tt
stop_answer tail_ended (ok t) = ok tt
stop_answer tail_ended (err e) = if str_eq e "context canceled" then ok tt else err e

-- The first records that the loop takes
abbrev pub first_records : ℕ → List LineRecord → List LineRecord
first_records zero rs = []
first_records (suc n) [] = []
first_records (suc n) (r ∷ rs) = r ∷ first_records n rs

module _ (readers : Readers) (cfg : NginxConfig) where
  -- The case of a record; a line that is malformed is stored as such.
  abbrev pub ingest_line : LineRecord → Sql Database (Unit {0})
  ingest_line r =
      persist_nginx_event cfg.detection (nginx_state_key cfg.path) r
        (parse_nginx_line readers cfg.trusted_proxy_cidrs r.text)

  unfoldable pub ingest_lines : List LineRecord → Sql Database (Unit {0})
  ingest_lines [] = pure tt
  ingest_lines (r ∷ rs) = ingest_line r >> ingest_lines rs

  -- The loop takes the first `taken` records of the tail, or all that it sends, and then stops.
  unfoldable pub run_nginx_security_ingestor :
      Opening → List Round → ℕ → Stop → Sql Database (Unit {0})
  run_nginx_security_ingestor opening rounds taken stop =
      get_ingest_state (nginx_state_key cfg.path) >>= λ state.
      let (sent, last) = follow_mail_log (stream_settings cfg) opening state rounds in
      ingest_lines (first_records taken sent) >>= λ _. λ c. (stop_answer stop last, c)
