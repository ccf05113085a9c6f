-- ===== src/Parser/Examples.antt =====
-- The parser at lines of Postfix and Amavis, and its theorems at an input.

use kanyigo.Base.{String, ℕ, ◌+◌, ◌*◌, ◌≤◌, ◌≡◌, refl, ◌⊎◌, false, none, some, map, str_eq, [], ◌∷◌}
use kanyigo.Base.Int.{pos}
use kanyigo.Base.Text.{trim_space, trim_angles, to_lower, atoi, has_prefix}
use kanyigo.LogEntry.{LogEntry, new_entry}
use kanyigo.Parser.{
  Patterns, Readers, re_queue, queue_and_payload, field_of, set_field, set_fields, set_amavis,
  passed_spam, is_amavis, is_dovecot, parse_message, legacy_time, parse_legacy, parse_trimmed,
  parse_line,
}
use kanyigo.Parser.KeyValue.{
  is_word, is_value, is_inside, span, count, behind, match_angles, match_plain, match_value,
  match_here, find_all, find_all_kv,
}
use kanyigo.Parser.Year.{
  WallClock, Location, sub, abs_duration, closer, infer_legacy_timestamp, distance,
  infer_legacy_timestamp-nearest,
}
use kanyigo.Parser.Accepted.{IsEntryOf, parse_line-IsEntry}

program : Unit {0}
unfolding trim_space trim_angles to_lower atoi has_prefix re_queue queue_and_payload field_of
    set_field set_fields set_amavis passed_spam is_amavis is_dovecot parse_message legacy_time
    parse_legacy parse_trimmed parse_line is_word is_value is_inside span count behind match_angles
    match_plain match_value match_here find_all find_all_kv sub abs_duration closer
    infer_legacy_timestamp distance
program = tt

pairs :
    map {B = String × String}
      (λ m. (m.key, m.value))
      (find_all_kv "from=<a@b.c>, message-id=<x@y>, size=12 x=")
    ≡ ("from", "a@b.c") ∷ ("id", "x@y") ∷ ("size", "12") ∷ []
unfolding program
pairs = refl

queue : queue_and_payload "4ABC: message-id=<x@y>" ≡ ("4ABC", "message-id=<x@y>")
unfolding program
queue = refl

abbrev line : String
line = "Dec 31 23:59:58 mail postfix/cleanup[7]: 4ABC: message-id=<x@y>, size=12"

-- The expressions that read a line of this kind.
abbrev patterns : Patterns
patterns = record {
  re_rfc3339 = λ _. none;
  re_syslog = λ _.
      some
        ("Dec", "31", "23:59:58", "mail", "postfix/cleanup[7]", "4ABC: message-id=<x@y>, size=12");
  re_amavis_from = λ _. none;
  re_amavis_arrow = λ _. none;
  re_amavis_queue_id = λ _. none;
  re_amavis_status = λ _. none;
  re_amavis_queued_as = λ _. none;
  re_amavis_mail_id = λ _. none;
  re_amavis_subject = λ _. none;
  re_amavis_hits = λ _. none;
  re_amavis_helo = λ _. none;
  re_amavis_origin = λ _. none;
  re_dovecot_queue_id = λ _. none;
  re_dovecot_lmtp = λ _. false;
  re_dovecot_junk = λ _. false;
}

abbrev clock : WallClock
clock = record { hour = 23; minute = 59; second = 58 }

abbrev readers : Readers
readers = record {
  parse_rfc3339_nano = λ _. none;
  parse_month = λ _. some 12;
  parse_clock = λ _. some clock;
  parse_float = λ _. none;
  sha256_hex = λ _. "hash";
}

-- A calendar of years of a hundred units, in which the line is two units before the end of its year.
abbrev calendar : Location
calendar = record { year_of = λ t. 2026; date = λ year month day clock. year * 100 + 98 }

abbrev entry : LogEntry
entry = record (new_entry 202_598 "mail" "postfix/cleanup[7]" "4ABC" line) {
  size_bytes = some (pos 12);
  raw_hash = "hash";
}

parsed : parse_line patterns readers line 202_601 calendar ≡ some entry
unfolding program
parsed = refl

parse_line-IsEntry_example :
    (str_eq (trim_space line) "" ≡ false) × IsEntryOf patterns readers (trim_space line) entry
parse_line-IsEntry_example = parse_line-IsEntry patterns readers line 202_601 calendar entry parsed

abbrev chosen : ℕ
chosen = infer_legacy_timestamp 202_601 calendar 12 31 clock

infer_legacy_timestamp-nearest_example :
    ((chosen ≡ 202_698) ⊎ (chosen ≡ 202_598) ⊎ (chosen ≡ 202_798))
    × (distance chosen 202_601 ≤ distance 202_698 202_601)
    × (distance chosen 202_601 ≤ distance 202_598 202_601)
    × (distance chosen 202_601 ≤ distance 202_798 202_601)
infer_legacy_timestamp-nearest_example = infer_legacy_timestamp-nearest 202_601 calendar 12 31 clock
