-- ===== src/NginxIngest/Examples.antt =====
-- Two runs of the ingestor of the access log, the first of which fails after a line, and the theorem at
-- this input.
use kanyigo.Base.{ℕ, ◌≡◌, refl, none, some, List, [], ◌∷◌, length}
use kanyigo.Base.Int.{pos}
use kanyigo.Base.Table.{Table, lookup, insert}
use kanyigo.Net.{v4, contains_ip}
use kanyigo.Schema.{empty_database}
use kanyigo.Sql.{done, refused, ◌>>=◌, exec, in_tx}
use kanyigo.Tail.Samples.{
  bytes, sent_record, opening, appends, appends-Grows, resumed, resumed-Grows,
}
use kanyigo.Tail.Opened.{Finds}
use kanyigo.NginxLine.{
  Value, text, number, Readers, choose_ip, event_of_groups, event_of_values, event_path,
  forwarded_client_ip, int_of, iso_time, json_int, json_string, last_client, local_time,
  method_and_path, msec_time, new_nginx_event, nginx_json_timestamp, parse_combined,
  parse_nginx_json, parse_nginx_line, read_ip, sprint, string_of, untrusted,
}
use kanyigo.Config.{NginxConfig}
use kanyigo.NginxIngest.{cancelled, tail_ended, stop_answer, ingest_lines, nginx_state_key}
use kanyigo.Checkpoint.{set_ingest_state_tx}
use kanyigo.Base.Text.{atoi, fields, split, trim_space}
use kanyigo.MailStore.{fits_integer}
use kanyigo.NginxDetection.{
  contains, continues, count_404, count_auth_failures, counts, flag, flag_security_offender,
  flagged_row, next_streak, persist_event_body, persist_nginx_event, reset_404, reset_streak,
  update_nginx_detection, with_event,
}
use kanyigo.NginxIngest.Once.{IsRead}
use kanyigo.NginxIngest.Runs.{Start, run_all, run_all-IsRead}

-- Every line is a 404 response.
abbrev values : Table Value
values =
    ("remote_addr", text "9.9.9.9")
    ∷ ("request", text "GET /wp-login.php HTTP/1.1")
    ∷ ("status", number 404)
    ∷ ("timestamp", text "2026-01-23T19:27:18Z")
    ∷ []

abbrev readers : Readers
readers = record {
  combined_line = λ _. none;
  unmarshal = λ _. some values;
  sprint_float = λ _. "";
  float_to_int = λ f. pos f;
  parse_float = λ _. none;
  unix_time = λ f. f;
  parse_rfc3339_nano = λ _. some 100;
  parse_local = λ _. none;
  request_path = λ path. some path;
  sha256_hex = λ _. "hash";
  addresses = record {
    parse_ip = λ _. some (v4 9);
    ip_string = λ _. "9.9.9.9";
    split_host_port = λ _. none;
  };
}

abbrev cfg : NginxConfig
cfg = record {
  path = "/var/log/nginx/access.log";
  poll_interval = pos 250;
  rotation_drain_timeout = pos 1000;
  detection = record {
    consecutive_404_threshold = pos 10;
    consecutive_404_window = pos 120;
    auth_failure_threshold = pos 10;
    auth_failure_window = pos 300;
    ignored_paths = [];
  };
  trusted_proxy_cidrs = [];
}

-- The second transaction does not begin.
abbrev starts : List Start
starts =
    record {
      more = [];
      opening = opening 7 2;
      rounds = appends;
      taken = 5;
      stop = cancelled;
      outcomes = done ∷ done ∷ done ∷ done ∷ done ∷ done ∷ refused ∷ [];
    }
    ∷ record {
      more = bytes "e\n";
      opening = opening 7 8;
      rounds = resumed;
      taken = 1;
      stop = tail_ended;
      outcomes = [];
    }
    ∷ []

finds : (inode size : ℕ) → Finds (pos inode) size (opening inode size)
finds inode size info e = cc (e)

program : Unit {0}
unfolding ◌>>=◌ ingest_lines lookup bytes insert atoi fields split trim_space set_ingest_state_tx
    fits_integer contains_ip contains continues count_404 count_auth_failures counts flag
    flag_security_offender flagged_row next_streak persist_event_body persist_nginx_event reset_404
    reset_streak update_nginx_detection with_event nginx_state_key stop_answer choose_ip
    event_of_groups event_of_values event_path forwarded_client_ip int_of iso_time json_int
    json_string last_client local_time method_and_path msec_time new_nginx_event
    nginx_json_timestamp parse_combined parse_nginx_json parse_nginx_line read_ip sprint string_of
    untrusted exec in_tx
program = tt

-- The second line's transaction does not begin.
one_event :
    length
      (ingest_lines readers cfg (sent_record 0 "a" 7 2 ∷ sent_record 1 "bc" 7 5 ∷ []) (record {
        db = empty_database;
        outcomes = done ∷ done ∷ done ∷ done ∷ done ∷ refused ∷ [];
      })).1.db.nginx_security_events
    ≡ 1
unfolding program
one_event = refl

run_all-IsRead_example :
    IsRead readers cfg
      (pos 7)
      (bytes "a\nbc\nde\n")
      empty_database
      (run_all readers cfg starts empty_database)
unfolding bytes lookup
run_all-IsRead_example =
    run_all-IsRead readers cfg (pos 7) (bytes "a\n") starts empty_database refl
      (finds 7 2, appends-Grows, (finds 7 8, resumed-Grows, tt))
