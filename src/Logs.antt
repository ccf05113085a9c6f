-- ===== src/Logs.antt =====
-- The query of the mail log: handleLogs, parseIntDefault and normalizeTime of server.go. The texts of
-- the conditions are those of the source; what PostgreSQL does with a condition and its argument is a
-- parameter, as are the readers of times.
pub mod Numbering
pub mod Page
mod Examples
use Prim.Native.String as NativeString
use kanyigo.Base.{
  ℕ, zero, suc, ◌+◌, String, Bool, true, false, not, ◌&&◌, ◌||◌, Option, none, some, List, [], ◌∷◌,
  ◌++◌, map, length, select, str_eq, ltb, leb, if◌then◌else◌,
}
use kanyigo.Base.Int.{ℤ, pos, negsuc}
use kanyigo.Base.Text.{atoi, decimal}
use kanyigo.LogEntry.{Float64, Time}
use kanyigo.Schema.{Database, MailRow}
use kanyigo.Sql.{Result, ok, err, Sql, exec_auto, pure, ◌>>=◌}

-- The parameters of the URL; one that is missing is "".
pub record LogQuery : Type 0 where
  pub from : String
  pub to : String
  pub sender : String
  pub receiver : String
  pub status : String
  pub search : String
  pub limit : String
  pub offset : String

pub record LogRecord : Type 0 where
  pub id : ℕ
  pub ts_utc : String
  pub from : String
  pub to : String
  pub status : String
  pub host : String
  pub process : String
  pub queue_id : String
  pub relay : String
  pub delay : Option Float64
  pub delays : String
  pub dsn : String
  pub message_id : String
  pub size_bytes : Option ℤ
  pub queued_as : String
  pub mail_id : String
  pub subject : String
  pub hits : Option Float64
  pub helo : String
  pub amavis_origin : String
  pub is_junk : Bool
  pub spam_score : Option Float64
  pub timed_out : Bool
  pub raw : String

pub record LogsResponse : Type 0 where
  pub total : ℕ
  pub items : List LogRecord

-- time.Parse with the two layouts of normalizeTime, and Format; `none` is an error.
pub record Readers : Type 0 where
  pub parse_rfc3339 : String → Option Time
  pub parse_plain : String → Option Time
  pub format_rfc3339 : Time → String

-- An argument of a statement
pub data Arg : Type 0 where
  text : String → Arg
  time : Time → Arg
  int : ℕ → Arg

-- The conditions of the WHERE clause
pub data Test : Type 0 where
  not_before not_after sender_like receiver_like status_is raw_like : Test

-- What stands before the placeholder
unfoldable pub test_sql : Test → String
test_sql not_before = "arrival_ts_utc >= "
test_sql not_after = "arrival_ts_utc <= "
test_sql sender_like = "mail_from ILIKE "
test_sql receiver_like = "mail_to ILIKE "
test_sql status_is = "status = "
test_sql raw_like = "raw ILIKE "

-- `where`, without its first element "1=1", and `args`
pub record Statement : Type 0 where
  pub where' : List (Test × ℕ)
  pub args : List Arg

-- `addArg`: the arguments, and the number of the placeholder
unfoldable pub add_arg : Arg → List Arg → List Arg × ℕ
add_arg v args = let args' = args ++ v ∷ [] in (args', length args')

unfoldable pub add_test : Test → Arg → Statement → Statement
add_test t v s =
    let (args, n) = add_arg v s.args in record { where' = s.where' ++ (t, n) ∷ []; args = args }

-- `if value != "" { where = append(where, … + addArg(v)) }`
unfoldable pub add_filter : String → Test → Arg → Statement → Statement
add_filter value t v s = if str_eq value "" then s else add_test t v s

and_tests : List (Test × ℕ) → String
and_tests [] = ""
and_tests ((t, n) ∷ tests) = NativeString.◌++◌ " AND " (
    NativeString.◌++◌ (test_sql t)
      (NativeString.◌++◌ "$" (NativeString.◌++◌ (decimal (pos n)) (and_tests tests))))

-- strings.Join(where, " AND ")
unfoldable pub where_sql : List (Test × ℕ) → String
unfolding and_tests
where_sql tests = NativeString.◌++◌ "1=1" (and_tests tests)

unfoldable pub not_negative : ℕ → Option ℤ → ℕ
not_negative default (some (pos n)) = n
not_negative default _ = default

unfoldable pub parse_int_default : String → ℕ → ℕ
parse_int_default v default = if str_eq v "" then default else not_negative default (atoi v)

-- `if limit > 500 { limit = 500 }`
unfoldable pub page_limit : String → ℕ
page_limit v = let limit = parse_int_default v 100 in if ltb 500 limit then 500 else limit

-- "%" + value + "%"
abbrev pub like : String → String
like value = NativeString.◌++◌ "%" (NativeString.◌++◌ value "%")

-- The argument of a placeholder; they are numbered from 1.
unfoldable pub arg_at : ℕ → List Arg → Option Arg
arg_at n [] = none
arg_at zero (v ∷ args) = none
arg_at (suc zero) (v ∷ args) = some v
arg_at (suc (suc n)) (v ∷ args) = arg_at (suc n) args

-- What PostgreSQL does with texts, and with the rows of an ORDER BY arrival_ts_utc DESC. `cast_time`
-- reads a text that is compared with a time; `none` fails the statement.
pub record Postgres : Type 0 where
  pub ilike : String → String → Bool
  pub cast_time : String → Option Time
  pub order_desc : List MailRow → List MailRow

abbrev pub text_of : Option Arg → String
text_of (some (text s)) = s
text_of _ = ""

abbrev pub count_of : Option Arg → ℕ
count_of (some (int n)) = n
count_of _ = 0

module _ (pg : Postgres) where
  unfoldable pub time_of : Option Arg → Option Time
  time_of (some (time t)) = some t
  time_of (some (text s)) = pg.cast_time s
  time_of _ = none

  abbrev pub compare_time : (Time → Bool) → Option Time → Bool
  compare_time p none = false
  compare_time p (some t) = p t

  abbrev pub is_time : Option Time → Bool
  is_time none = false
  is_time (some t) = true

  -- A condition on a row
  unfoldable pub holds : Test → Option Arg → MailRow → Bool
  holds not_before v row = compare_time (λ t. leb t row.arrival_ts_utc) (time_of v)
  holds not_after v row = compare_time (λ t. leb row.arrival_ts_utc t) (time_of v)
  holds sender_like v row = pg.ilike row.mail_from (text_of v)
  holds receiver_like v row = pg.ilike row.mail_to (text_of v)
  holds status_is v row = str_eq row.status (text_of v)
  holds raw_like v row = pg.ilike row.raw (text_of v)

  -- Whether the argument has a value of the column's type
  unfoldable pub binds : Test → Option Arg → Bool
  binds not_before v = is_time (time_of v)
  binds not_after v = is_time (time_of v)
  binds _ v = true

  unfoldable pub all_hold : List Arg → List (Test × ℕ) → MailRow → Bool
  all_hold args [] row = true
  all_hold args ((t, n) ∷ tests) row = holds t (arg_at n args) row && all_hold args tests row

  unfoldable pub all_bind : List Arg → List (Test × ℕ) → Bool
  all_bind args [] = true
  all_bind args ((t, n) ∷ tests) = binds t (arg_at n args) && all_bind args tests

  -- SELECT COUNT(*)
  unfoldable pub count_rows : Statement → Sql Database ℕ
  count_rows s = exec_auto (λ db.
      if all_bind s.args s.where'
      then ok (length (select (all_hold s.args s.where') db.mail_transactions), db)
      else err "invalid input syntax for type timestamp with time zone")

unfoldable pub take {ℓ} : {A : Type ℓ} → ℕ → List A → List A
take n [] = []
take zero (x ∷ xs) = []
take (suc n) (x ∷ xs) = x ∷ take n xs

unfoldable pub drop {ℓ} : {A : Type ℓ} → ℕ → List A → List A
drop n [] = []
drop zero xs = xs
drop (suc n) (x ∷ xs) = drop n xs

-- The first of two times that could be read, or the text
abbrev pub time_or_text : Option Time → Option Time → String → Arg
time_or_text (some t) u v = time t
time_or_text none (some u) v = time u
time_or_text none none v = text v

module _ (rs : Readers) (pg : Postgres) where
  -- The argument for a time
  unfoldable pub normalize_time : String → Arg
  normalize_time v = time_or_text (rs.parse_rfc3339 v) (rs.parse_plain v) v

  unfoldable pub build : LogQuery → Statement
  build q = add_filter q.search raw_like (text (like q.search)) (
      add_filter q.status status_is (text q.status) (
        add_filter q.receiver receiver_like (text (like q.receiver)) (
          add_filter q.sender sender_like (text (like q.sender)) (
            add_filter q.to not_after (normalize_time q.to) (
              add_filter q.from not_before (normalize_time q.from)
                (record { where' = []; args = [] }))))))

  unfoldable pub log_record : MailRow → LogRecord
  log_record row = record {
    id = row.id;
    ts_utc = rs.format_rfc3339 row.arrival_ts_utc;
    from = row.mail_from;
    to = row.mail_to;
    status = row.status;
    host = row.host;
    process = row.process;
    queue_id = row.queue_id;
    relay = row.relay;
    delay = row.delay;
    delays = row.delays;
    dsn = row.dsn;
    message_id = row.message_id;
    size_bytes = row.size_bytes;
    queued_as = row.queued_as;
    mail_id = row.mail_id;
    subject = row.subject;
    hits = row.hits;
    helo = row.helo;
    amavis_origin = row.amavis_origin;
    is_junk = row.is_junk;
    spam_score = row.spam_score;
    timed_out = row.timed_out;
    raw = row.raw;
  }

  -- The rows behind ORDER BY, LIMIT and OFFSET, with the numbers of their two placeholders
  unfoldable pub select_rows : List (Test × ℕ) → List Arg → ℕ → ℕ → List MailRow → List MailRow
  select_rows tests args limit offset rows =
      take (count_of (arg_at limit args)) (
        drop (count_of (arg_at offset args)) (pg.order_desc (select (all_hold pg args tests) rows)))

  unfoldable pub query_rows : Statement → ℕ → ℕ → Sql Database (List LogRecord)
  query_rows s limit offset =
      let (args, n) = add_arg (int limit) s.args in
      let (args', m) = add_arg (int offset) args in
      exec_auto (λ db.
        if all_bind pg args' s.where'
        then ok (map log_record (select_rows s.where' args' n m db.mail_transactions), db)
        else err "invalid input syntax for type timestamp with time zone")

  -- An error is answered with the status 500.
  unfoldable pub handle_logs : LogQuery → Sql Database LogsResponse
  handle_logs q =
      let s = build q in
      count_rows pg s >>= λ total.
      query_rows s (page_limit q.limit) (parse_int_default q.offset 0) >>= λ items.
      pure (record { total = total; items = items })
