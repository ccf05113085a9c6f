-- ===== src/Logs/Examples.antt =====
-- The query of the mail log at two rows, and its theorem at an input.
use kanyigo.Base.{String, ℕ, ◌≤◌, ◌≡◌, refl, none, some, List, [], ◌∷◌, length, str_eq}
use kanyigo.Base.Text.{atoi, decimal, str_contains}
use kanyigo.LogEntry.{new_entry}
use kanyigo.Schema.{Database, MailRow, empty_database, normal_reals}
use kanyigo.Sql.{ok, exec_auto, ◌>>=◌}
use kanyigo.MailStore.{new_row}
use kanyigo.Logs.{
  LogQuery, Readers, Postgres, time, text, test_sql, add_arg, add_test, add_filter, where_sql,
  not_negative, parse_int_default, page_limit, arg_at, time_of, holds, binds, all_hold, all_bind,
  count_rows, take, drop, normalize_time, build, log_record, select_rows, query_rows, handle_logs,
}
use kanyigo.Logs.Page.{page, handle_logs-page}

program : Unit {0}
unfolding atoi decimal str_contains exec_auto ◌>>=◌ test_sql add_arg add_test add_filter where_sql
    not_negative parse_int_default page_limit arg_at time_of holds binds all_hold all_bind
    count_rows take drop normalize_time build log_record select_rows query_rows handle_logs
program = tt

abbrev query : LogQuery
query = record {
  from = "2026-01-23T00:00:00Z";
  to = "";
  sender = "";
  receiver = "";
  status = "sent";
  search = "";
  limit = "9999";
  offset = "-1";
}

abbrev readers : Readers
readers = record {
  parse_rfc3339 = λ _. some 100;
  parse_plain = λ _. none;
  format_rfc3339 = λ _. "time";
}

abbrev postgres : Postgres
postgres = record { ilike = str_eq; cast_time = λ _. none; order_desc = λ rows. rows }

conditions :
    where_sql (build readers postgres query).where' ≡ "1=1 AND arrival_ts_utc >= $1 AND status = $2"
unfolding program
conditions = refl

arguments : (build readers postgres query).args ≡ time 100 ∷ text "sent" ∷ []
unfolding program
arguments = refl

limits :
    (page_limit "9999" ≡ 500)
    × (page_limit "-1" ≡ 100)
    × (page_limit "7" ≡ 7)
    × (page_limit "x" ≡ 100)
unfolding program
limits = (refl, refl, refl, refl)

abbrev row : ℕ → String → MailRow
row ts status =
    new_row normal_reals 1 0
      (record (new_entry ts "mail" "postfix/smtp" "4ABC" "line") { status = status })

-- The first row is too old, and the second has another status.
abbrev rows : List MailRow
rows = row 99 "sent" ∷ row 101 "bounced" ∷ row 102 "sent" ∷ []

abbrev db : Database
db = record empty_database { mail_transactions = rows }

one_row : (page readers postgres query rows).total ≡ 1
unfolding program new_row
one_row = refl

handle_logs-page_example :
    (handle_logs readers postgres query (record { db = db; outcomes = [] })
      ≡ (ok (page readers postgres query rows), record { db = db; outcomes = [] }))
    × (length (page readers postgres query rows).items ≤ 500)
unfolding time_of
handle_logs-page_example = handle_logs-page readers postgres query db refl
