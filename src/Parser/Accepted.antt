-- ===== src/Parser/Accepted.antt =====
-- The entries that ParseLine of parser.go returns.
use Prim.Native.String as NativeString
use kanyigo.Base.{
  String, ◌≡◌, refl, sym, subst, ◌∙◌, Bool, true, false, ◌&&◌, ◌||◌, Option, none, some, List, [],
  ◌∷◌, inl, inr, str_eq, Bool-cases, Option-cases, if◌then◌else◌,
}
use kanyigo.Base.Text.{trim_space, to_lower, has_prefix}
use kanyigo.LogEntry.{LogEntry, Time, new_entry}
use kanyigo.Parser.{
  Patterns, Readers, Field, sender, recipient, verdict, next_hop, one_delay, all_delays, dsn_code,
  message_name, message_size, no_field, field_of, set_field, set_fields, queue_and_payload,
  set_amavis, passed_spam, is_amavis, or_keep, score_if, is_dovecot, set_dovecot_if, parse_message,
  legacy_time, parse_legacy, parse_trimmed, parse_line,
}
use kanyigo.Parser.KeyValue.{Match, find_all_kv}
use kanyigo.Parser.Year.{Location}
use kanyigo.Parser.Fields.{set_fields-message_id, find_all_kv-IsWord}

-- What no field of reKV touches
abbrev SameFrame : LogEntry → LogEntry → Type 0
SameFrame e e' =
    (e'.ts_utc ≡ e.ts_utc)
    × (e'.host ≡ e.host)
    × (e'.process ≡ e.process)
    × (e'.raw ≡ e.raw)
    × (e'.is_junk ≡ e.is_junk)
    × (e'.spam_score ≡ e.spam_score)

set_field-SameFrame :
    (rs : Readers) (f : Field) (val : String) (e : LogEntry) → SameFrame e (set_field rs f val e)
unfolding set_field
set_field-SameFrame rs sender val e = (refl, refl, refl, refl, refl, refl)
set_field-SameFrame rs recipient val e = (refl, refl, refl, refl, refl, refl)
set_field-SameFrame rs verdict val e = (refl, refl, refl, refl, refl, refl)
set_field-SameFrame rs next_hop val e = (refl, refl, refl, refl, refl, refl)
set_field-SameFrame rs one_delay val e = (refl, refl, refl, refl, refl, refl)
set_field-SameFrame rs all_delays val e = (refl, refl, refl, refl, refl, refl)
set_field-SameFrame rs dsn_code val e = (refl, refl, refl, refl, refl, refl)
set_field-SameFrame rs message_name val e = (refl, refl, refl, refl, refl, refl)
set_field-SameFrame rs message_size val e = (refl, refl, refl, refl, refl, refl)
set_field-SameFrame rs no_field val e = (refl, refl, refl, refl, refl, refl)

set_fields-SameFrame :
    (rs : Readers) (ms : List Match) (e : LogEntry) → SameFrame e (set_fields rs ms e)
unfolding set_fields
set_fields-SameFrame rs [] e = (refl, refl, refl, refl, refl, refl)
set_fields-SameFrame rs (m ∷ ms) e =
    let (t, h, a, b, c, d) = set_field-SameFrame rs (field_of m.key) m.value e in
    let (t', h', a', b', c', d') =
      set_fields-SameFrame rs ms (set_field rs (field_of m.key) m.value e) in
    (t' ∙ t, h' ∙ h, a' ∙ a, b' ∙ b, c' ∙ c, d' ∙ d)

or_keep-none : {A : Type 0} (o : Option A) → or_keep none o ≡ o
or_keep-none none = refl
or_keep-none (some a) = refl

or-false : (b : Bool) → (b || false) ≡ b
or-false true = refl
or-false false = refl

module _ (ps : Patterns) (rs : Readers) where
  -- How the time, the host, the process and the message of a line are found: by the expression for RFC
  -- 3339, or else by that of syslog.
  pub data IsSplit (line : String) (ts : Time) (host process msg : String) : Type 0 where
    rfc3339 :
        (time : String)
        → ps.re_rfc3339 line ≡ some (time, host, process, msg)
        → rs.parse_rfc3339_nano time ≡ some ts
        → IsSplit line ts host process msg
    syslog :
        (month day clock : String)
        → ps.re_rfc3339 line ≡ none
        → ps.re_syslog line ≡ some (month, day, clock, host, process, msg)
        → IsSplit line ts host process msg

  abbrev from_amavis : String → Bool
  from_amavis process = has_prefix "amavis[" (to_lower process)

  abbrev called_spam : String → Bool
  called_spam status =
      str_eq (to_lower status) "passed spam" || str_eq (to_lower status) "passed spammy"

  -- Dovecot's LMTP process says in the payload that it stored the mail as junk.
  abbrev stored_as_junk : String → String → Bool
  stored_as_junk process payload =
      ps.re_dovecot_lmtp (NativeString.◌++◌ process (NativeString.◌++◌ " " payload))
      && ps.re_dovecot_junk payload

  -- An entry for a trimmed line, by the parts of the line; the payload is the message behind a queue
  -- id, if it begins with one, else the message.
  pub record IsEntry (line : String) (ts : Time) (host process msg : String) (e : LogEntry)
      : Type 0 where
    pub time_is : e.ts_utc ≡ ts
    pub host_is : e.host ≡ host
    pub process_is : e.process ≡ process
    pub raw_is : e.raw ≡ line
    pub hash_is : e.raw_hash ≡ rs.sha256_hex line
    pub no_message_id : e.message_id ≡ ""
    pub junk_is : e.is_junk ≡ (
        (from_amavis process && called_spam e.status)
        || stored_as_junk process (queue_and_payload msg).1)
    pub score_is : e.spam_score ≡ (if from_amavis process then e.hits else none)

  -- The steps behind the fields, on an entry that has no spam score yet and is no junk.
  finish-IsEntry :
      (line : String) (ts : Time) (host process msg : String) (e : LogEntry) (amavis dovecot : Bool)
      → is_amavis process ≡ amavis
      → is_dovecot ps rs process (queue_and_payload msg).1 ≡ dovecot
      → SameFrame (new_entry ts host process "" line) e
      → e.message_id ≡ ""
      → IsEntry line ts host process msg
          (record (set_dovecot_if ps rs dovecot (queue_and_payload msg).1 (score_if amavis e)) {
            raw_hash = rs.sha256_hex line;
          })
  unfolding is_amavis passed_spam is_dovecot
  finish-IsEntry line ts host process msg e true true a d (t, h, p, r, j, s) m = record {
    time_is = t;
    host_is = h;
    process_is = p;
    raw_is = r;
    hash_is = refl;
    no_message_id = m;
    junk_is = rw (a, d, j) refl;
    score_is = rw (a, s) (or_keep-none e.hits);
  }
  finish-IsEntry line ts host process msg e true false a d (t, h, p, r, j, s) m = record {
    time_is = t;
    host_is = h;
    process_is = p;
    raw_is = r;
    hash_is = refl;
    no_message_id = m;
    junk_is = rw (a, d, j) (sym (or-false (passed_spam e.status)));
    score_is = rw (a, s) (or_keep-none e.hits);
  }
  finish-IsEntry line ts host process msg e false true a d (t, h, p, r, j, s) m = record {
    time_is = t;
    host_is = h;
    process_is = p;
    raw_is = r;
    hash_is = refl;
    no_message_id = m;
    junk_is = rw (a, d, j) refl;
    score_is = rw (a, s) refl;
  }
  finish-IsEntry line ts host process msg e false false a d (t, h, p, r, j, s) m = record {
    time_is = t;
    host_is = h;
    process_is = p;
    raw_is = r;
    hash_is = refl;
    no_message_id = m;
    junk_is = rw (a, d, j) refl;
    score_is = rw (a, s) refl;
  }

  parse_message-IsEntry :
      (line : String) (ts : Time) (host process msg : String)
      → IsEntry line ts host process msg (parse_message ps rs line ts host process msg)
  unfolding parse_message set_amavis
  parse_message-IsEntry line ts host process msg =
      let (queue_id, payload) = queue_and_payload msg in
      let entry = new_entry ts host process queue_id line in
      let fields = set_fields rs (find_all_kv payload) entry in
      let m = set_fields-message_id rs (find_all_kv payload) entry (find_all_kv-IsWord payload) in
      finish-IsEntry line ts host process msg (set_amavis ps rs payload fields) (is_amavis process)
        (is_dovecot ps rs process payload) refl refl
        (set_fields-SameFrame rs (find_all_kv payload) entry) m

  -- The parts of a line, and its entry.
  pub record IsEntryOf (line : String) (e : LogEntry) : Type 0 where
    pub ts : Time
    pub host : String
    pub process : String
    pub msg : String
    pub split : IsSplit line ts host process msg
    pub is_entry : IsEntry line ts host process msg e

  -- Every entry in a result is one for the line.
  abbrev Entries : String → Option LogEntry → Type 0
  Entries line none = Unit
  Entries line (some e) = IsEntryOf line e

  stamped-Entries :
      (line host process msg : String) (ts : Option Time)
      → ((t : Time) → ts ≡ some t → IsSplit line t host process msg)
      → Entries line (elim ts as (λ _. Option LogEntry) [
        | none ↦ none
        | some ts ↦ some (parse_message ps rs line ts host process msg)
      ])
  stamped-Entries line host process msg none split = tt
  stamped-Entries line host process msg (some ts) split = record {
    ts = ts;
    host = host;
    process = process;
    msg = msg;
    split = split ts refl;
    is_entry = parse_message-IsEntry line ts host process msg;
  }

  parse_legacy-Entries :
      (now : Time) (loc : Location) (line : String)
      → ps.re_rfc3339 line ≡ none
      → Entries line (parse_legacy ps rs now loc line)
  unfolding parse_legacy
  parse_legacy-Entries now loc line other = elim (Option-cases (ps.re_syslog line)) [
    | inl e ↦ rw (Entries, e) tt
    | inr ((month, day, clock, host, process, msg), e) ↦
        rw (Entries, e)
          (stamped-Entries line host process msg (legacy_time ps rs now loc month day clock)
            (λ t f. syslog month day clock other e))
  ]

  parse_trimmed-Entries :
      (now : Time) (loc : Location) (line : String)
      → Entries line (parse_trimmed ps rs now loc line)
  unfolding parse_trimmed
  parse_trimmed-Entries now loc line = elim (Option-cases (ps.re_rfc3339 line)) [
    | inl e ↦ rw (Entries, e) (parse_legacy-Entries now loc line e)
    | inr ((time, host, process, msg), e) ↦
        rw (Entries, e)
          (stamped-Entries line host process msg (rs.parse_rfc3339_nano time)
            (λ t f. rfc3339 time e f))
  ]

  -- Whatever the expressions match, an entry that ParseLine returns is for a line that is not blank.
  -- Its time, host, process and message are those that the expression for RFC 3339 finds in the
  -- trimmed line, or else that of syslog, whose time is left open here. The entry holds the trimmed
  -- line and its hash, and has no message id, even if the line gives one. It is junk exactly if an
  -- Amavis process passed it as spam, or the process and the message are those of Dovecot's LMTP and
  -- the message, without its queue id, is one of junk; and it has a spam score exactly if its process
  -- is Amavis's and there is a number of hits.
  pub parse_line-IsEntry :
      (line : String) (now : Time) (loc : Location) (e : LogEntry)
      → parse_line ps rs line now loc ≡ some e
      → (str_eq (trim_space line) "" ≡ false) × IsEntryOf (trim_space line) e
  unfolding parse_line
  parse_line-IsEntry line now loc e h = elim (Bool-cases (str_eq (trim_space line) "")) [
    | inl b ↦ let h' = rw b at h in absurd (cc)
    | inr b ↦
        let found : parse_trimmed ps rs now loc (trim_space line) ≡ some e = rw b at h in
        (
          b,
          subst (Entries (trim_space line)) found (parse_trimmed-Entries now loc (trim_space line)),
        )
  ]
