-- ===== src/Parser.antt =====
-- The parser of mail log lines: ParseLine of parser.go. Its expressions reKV and reQueue are
-- translated; the matches of the others are a parameter, as are the readers of times and floats and
-- the hash.
pub mod KeyValue
pub mod Year
pub mod Fields
pub mod Accepted
mod Examples
use Prim.Native.Char.{Char, code}
use Prim.Native.String as NativeString
use kanyigo.Base.{
  ℕ, String, Bool, true, false, not, ◌&&◌, ◌||◌, Option, none, some, List, [], ◌∷◌, str_eq, leb,
  ◌==◌, if◌then◌else◌,
}
use kanyigo.Base.Int.{ℤ, pos_part}
use kanyigo.Base.Text.{to_lower, trim_space, trim_angles, atoi, has_prefix}
use kanyigo.LogEntry.{LogEntry, Float64, Time, new_entry}
use KeyValue.{Match, span, behind, find_all_kv}
use Year.{WallClock, Location, infer_legacy_timestamp}

-- FindStringSubmatch of the expressions, by the groups that the code reads: the time, the host, the
-- process and the message of reRFC3339; the month, the day, the clock and these of reSyslog; the two
-- groups of reAmavisStatus; one group of each other.
pub record Patterns : Type 0 where
  pub re_rfc3339 : String → Option (String × String × String × String)
  pub re_syslog : String → Option (String × String × String × String × String × String)
  pub re_amavis_from : String → Option String
  pub re_amavis_arrow : String → Option String
  pub re_amavis_queue_id : String → Option String
  pub re_amavis_status : String → Option (String × String)
  pub re_amavis_queued_as : String → Option String
  pub re_amavis_mail_id : String → Option String
  pub re_amavis_subject : String → Option String
  pub re_amavis_hits : String → Option String
  pub re_amavis_helo : String → Option String
  pub re_amavis_origin : String → Option String
  pub re_dovecot_queue_id : String → Option String
  pub re_dovecot_lmtp : String → Bool
  pub re_dovecot_junk : String → Bool

-- time.Parse with its three layouts, strconv.ParseFloat, and the hash in hexadecimal; `none` is an
-- error.
pub record Readers : Type 0 where
  pub parse_rfc3339_nano : String → Option Time
  pub parse_month : String → Option ℕ
  pub parse_clock : String → Option WallClock
  pub parse_float : String → Option Float64
  pub sha256_hex : String → String

-- `[A-Za-z0-9]`
is_alphanumeric : Char → Bool
is_alphanumeric c =
    let n = code c in
    (leb b'A' n && leb n b'Z') || (leb b'a' n && leb n b'z') || (leb b'0' n && leb n b'9')

-- `\s`
is_blank : Char → Bool
is_blank c = let n = code c in n == 9 || n == 10 || n == 12 || n == 13 || n == 32

-- `.`
is_not_newline : Char → Bool
is_not_newline c = not (code c == 10)

-- reQueue, `^([A-Za-z0-9]+):\s+(.*)$`: the queue id and the payload
unfoldable pub re_queue : String → Option (String × String)
unfolding is_alphanumeric is_blank is_not_newline
re_queue msg =
    let (id, rest) = span is_alphanumeric msg in
    if str_eq id "" then none else (elim (behind b':' rest) [
      | none ↦ none
      | some rest' ↦
          let (blanks, payload) = span is_blank rest' in
          let (_, left) = span is_not_newline payload in
          if str_eq blanks "" || not (str_eq left "") then none else some (id, payload)
    ])

-- `queueID` and `payload`
unfoldable pub queue_and_payload : String → String × String
queue_and_payload msg = elim (re_queue msg) [ none ↦ ("", msg) | some found ↦ found ]

-- The cases of the `switch key`
pub data Field : Type 0 where
  sender recipient verdict next_hop one_delay all_delays dsn_code message_name message_size : Field
  no_field : Field

unfoldable pub field_of : String → Field
field_of key =
    if str_eq key "from"
    then sender
    else if str_eq key "to"
    then recipient
    else if str_eq key "status"
    then verdict
    else if str_eq key "relay"
    then next_hop
    else if str_eq key "delay"
    then one_delay
    else if str_eq key "delays"
    then all_delays
    else if str_eq key "dsn"
    then dsn_code
    else if str_eq key "message-id"
    then message_name
    else if str_eq key "size"
    then message_size
    else no_field

-- A number that could not be read leaves what is there.
abbrev pub or_keep {ℓ} : {A : Type ℓ} → Option A → Option A → Option A
or_keep old none = old
or_keep old (some new) = some new

module _ (rs : Readers) where
  unfoldable pub set_field : Field → String → LogEntry → LogEntry
  set_field sender val e = record e { mail_from = trim_space val }
  set_field recipient val e = record e { mail_to = trim_space val }
  set_field verdict val e = record e { status = trim_space val }
  set_field next_hop val e = record e { relay = trim_space val }
  set_field one_delay val e = record e { delay = or_keep e.delay (rs.parse_float val) }
  set_field all_delays val e = record e { delays = trim_space val }
  set_field dsn_code val e = record e { dsn = trim_space val }
  set_field message_name val e = record e { message_id = trim_angles (trim_space val) }
  set_field message_size val e = record e { size_bytes = or_keep e.size_bytes (atoi val) }
  set_field no_field val e = e

  -- The loop over the matches of reKV
  unfoldable pub set_fields : List Match → LogEntry → LogEntry
  set_fields [] e = e
  set_fields (m ∷ ms) e = set_fields ms (set_field (field_of m.key) m.value e)

-- `if entry.X == "" { if m := re.FindStringSubmatch(payload); m != nil { entry.X = strings.TrimSpace(m[1]) } }`
abbrev pub fill : String → Option String → String
fill old none = old
fill old (some found) = if str_eq old "" then trim_space found else old

abbrev pub fill_status : String → Option (String × String) → String
fill_status old none = old
fill_status old (some (passed, kind)) =
    if str_eq old ""
    then to_lower (trim_space (NativeString.◌++◌ passed (NativeString.◌++◌ " " kind)))
    else old

abbrev pub fill_hits : (String → Option Float64) → Option Float64 → Option String → Option Float64
fill_hits parse_float none (some found) = parse_float found
fill_hits parse_float old _ = old

-- `lowerStatus == "passed spam" || lowerStatus == "passed spammy"`
unfoldable pub passed_spam : String → Bool
passed_spam status =
    let lower_status = to_lower status in
    str_eq lower_status "passed spam" || str_eq lower_status "passed spammy"

unfoldable pub is_amavis : String → Bool
is_amavis process = has_prefix "amavis[" (to_lower process)

-- The block of Amavis, where the test holds
abbrev pub score_if : Bool → LogEntry → LogEntry
score_if false e = e
score_if true e = record e {
  is_junk = e.is_junk || passed_spam e.status;
  spam_score = or_keep e.spam_score e.hits;
}

module _ (ps : Patterns) (rs : Readers) where
  -- The fields that Amavis writes, each on its own
  unfoldable pub set_amavis : String → LogEntry → LogEntry
  set_amavis payload e = record e {
    mail_from = fill e.mail_from (ps.re_amavis_from payload);
    mail_to = fill e.mail_to (ps.re_amavis_arrow payload);
    queue_id = fill e.queue_id (ps.re_amavis_queue_id payload);
    status = fill_status e.status (ps.re_amavis_status payload);
    queued_as = fill e.queued_as (ps.re_amavis_queued_as payload);
    mail_id = fill e.mail_id (ps.re_amavis_mail_id payload);
    subject = fill e.subject (ps.re_amavis_subject payload);
    hits = fill_hits rs.parse_float e.hits (ps.re_amavis_hits payload);
    helo = fill e.helo (ps.re_amavis_helo payload);
    amavis_origin = fill e.amavis_origin (ps.re_amavis_origin payload);
  }

  -- `process + " " + payload`
  unfoldable pub is_dovecot : String → String → Bool
  is_dovecot process payload =
      ps.re_dovecot_lmtp (NativeString.◌++◌ process (NativeString.◌++◌ " " payload))

  -- The block of Dovecot, where the test holds
  abbrev pub set_dovecot_if : Bool → String → LogEntry → LogEntry
  set_dovecot_if false payload e = e
  set_dovecot_if true payload e = record e {
    queue_id = fill e.queue_id (ps.re_dovecot_queue_id payload);
    is_junk = e.is_junk || ps.re_dovecot_junk payload;
  }

  -- From the time, the host, the process and the message on; the line is trimmed.
  unfoldable pub parse_message : String → Time → String → String → String → LogEntry
  parse_message line ts host process msg =
      let (queue_id, payload) = queue_and_payload msg in
      let entry = new_entry ts host process queue_id line in
      let fields = set_amavis payload (set_fields rs (find_all_kv payload) entry) in
      let scored = score_if (is_amavis process) fields in
      record (set_dovecot_if (is_dovecot process payload) payload scored) {
        raw_hash = rs.sha256_hex line;
      }

  -- The time of a line in the old format of syslog
  unfoldable pub legacy_time : Time → Location → String → String → String → Option Time
  legacy_time now loc month day clock = elim (atoi (trim_space day)) [
    | none ↦ none
    | some d ↦ elim (rs.parse_month month) [
      | none ↦ none
      | some m ↦ elim (rs.parse_clock clock) [
        | none ↦ none
        | some c ↦ some (infer_legacy_timestamp now loc m (pos_part d) c)
      ]
    ]
  ]

  unfoldable pub parse_legacy : Time → Location → String → Option LogEntry
  parse_legacy now loc line = elim (ps.re_syslog line) [
    | none ↦ none
    | some (month, day, clock, host, process, msg) ↦ elim (legacy_time now loc month day clock) [
      | none ↦ none
      | some ts ↦ some (parse_message line ts host process msg)
    ]
  ]

  unfoldable pub parse_trimmed : Time → Location → String → Option LogEntry
  parse_trimmed now loc line = elim (ps.re_rfc3339 line) [
    | none ↦ parse_legacy now loc line
    | some (time, host, process, msg) ↦ elim (rs.parse_rfc3339_nano time) [
      | none ↦ none
      | some ts ↦ some (parse_message line ts host process msg)
    ]
  ]

  -- `none` is the answer `nil, false`.
  unfoldable pub parse_line : String → Time → Location → Option LogEntry
  parse_line line now loc =
      let trimmed = trim_space line in
      if str_eq trimmed "" then none else parse_trimmed now loc trimmed
