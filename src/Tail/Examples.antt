-- ===== src/Tail/Examples.antt =====
-- The tail at a log that grows, is rotated and is truncated, and its theorems at an input.

use kanyigo.Base.{String, ◌≡◌, refl, some, List, [], ◌∷◌, length, arith}
use kanyigo.Base.Int.{pos}
use kanyigo.Sql.{ok, err}
use kanyigo.Checkpoint.{no_checkpoint}
use kanyigo.Tail.{
  Round, Tail, missing, there, validate_stream_config, start_offset, open_mail_log, reopen_mail_log,
  wait, switch, has_drained, rotated, look, at_end, take_chunk, line_record, send, step, follow,
  first_round, follow_mail_log,
}
use kanyigo.Tail.Samples.{
  bytes, cfg, opening, round, sent_record, seen, appends, appends-Grows, resumed, resumed-Grows,
}
use kanyigo.Tail.Buffer.{text_of, drop, is_newline, read_string, ends_line, trim_newline}
use kanyigo.Tail.Lines.{lines, unfinished}
use kanyigo.Tail.Rounds.{sent_for, IsAfter}
use kanyigo.Tail.Rotation.{Runs, begin, next, IsRoundOf, step-IsRoundOf}
use kanyigo.Tail.Growing.{IsFollowed, follow-IsFollowed}
use kanyigo.Tail.Restart.{IsContinued, follow_mail_log-IsContinued}
use kanyigo.Tail.Progress.{IsQuiet, newlines, follow-reaches_end}

program : Unit {0}
unfolding validate_stream_config start_offset open_mail_log reopen_mail_log wait switch has_drained
    rotated look at_end take_chunk line_record send step follow first_round follow_mail_log text_of
    drop is_newline read_string ends_line trim_newline lines unfinished newlines
program = tt

abbrev tail : Tail
tail = first_round (pos 7) 0

abbrev written : List Round
written =
    round "a\nb" (there (pos 7)) 0 ∷ round "a\nb" (there (pos 7)) 1 ∷ round "a\nbc\n" missing 2 ∷ []

grown : (follow cfg written tail).0 ≡ sent_record 0 "a" 7 2 ∷ sent_record 1 "bc" 7 5 ∷ []
unfolding program bytes
grown = refl

-- Another file is at the path for the drain timeout: its first line is sent, and the unfinished line
-- of the old file is dropped.
abbrev replaced_file : List Round
replaced_file =
    round "b" (there (pos 8)) 5000
    ∷ round "b" (there (pos 8)) 5999
    ∷ round "b" (there (pos 8)) 6000
    ∷ round "c\n" (there (pos 8)) 6001
    ∷ []

after_rotation : (follow cfg replaced_file tail).0 ≡ sent_record 0 "c" 8 2 ∷ []
unfolding program bytes
after_rotation = refl

not_a_config :
    follow_mail_log (record cfg { poll_interval = pos 0 }) (opening 7 3) no_checkpoint written
    ≡ ([], err "poll interval, rotation drain timeout, and queue idle timeout must be positive")
unfolding program
not_a_config = refl

-- The first round sees another file at the path.
abbrev first_look : Round
first_look = round "b" (there (pos 8)) 5000

abbrev waiting : Tail
waiting = record tail { offset = 1; pending = bytes "b"; rotated_at = some 5000 }

first_look-Runs : Runs cfg tail ((first_look, tail) ∷ []) waiting
unfolding program bytes
first_look-Runs = next first_look waiting begin refl

step-IsRoundOf_example :
    IsRoundOf cfg
      ((first_look, tail) ∷ [])
      (round "b" (there (pos 8)) 6000)
      waiting
      (step cfg (round "b" (there (pos 8)) 6000) waiting)
unfolding program
step-IsRoundOf_example =
    step-IsRoundOf cfg tail ((first_look, tail) ∷ []) waiting (round "b" (there (pos 8)) 6000) refl
      first_look-Runs

follow-IsFollowed_example :
    IsFollowed
      (first_round (pos 7) 0)
      []
      (bytes "a\nbc\nd")
      (follow cfg appends (first_round (pos 7) 0))
unfolding bytes first_round
follow-IsFollowed_example =
    follow-IsFollowed cfg appends (first_round (pos 7) 0) (bytes "a\n") [] (bytes "a\n") refl refl
      appends-Grows

follow_mail_log-IsContinued_example :
    IsContinued
      (pos 7)
      0
      []
      (bytes "a\nbc\nde\n")
      []
      (sent_record 0 "a" 7 2)
      (follow_mail_log cfg (opening 7 8) (record { offset_bytes = pos 2; inode = pos 7 }) resumed)
unfolding program bytes
follow_mail_log-IsContinued_example =
    follow_mail_log-IsContinued cfg appends resumed (pos 7) 0 (bytes "a\n") [] (bytes "a\n")
      (bytes "e\n") [] (sent_record 0 "a" 7 2) (sent_record 1 "bc" 7 5 ∷ []) (opening 7 8) refl refl
      appends-Grows refl refl refl refl refl resumed-Grows

quiet : (s : String) → IsQuiet (pos 7) (bytes s) (seen s)
quiet s = record {
  file_is = refl;
  reads = refl;
  delivers = refl;
  size_is = refl;
  path_is = refl;
  waits = refl;
}

abbrev idle : List Round
idle = seen "a\nb" ∷ seen "a\nb" ∷ []

follow-reaches_end_example :
    ((follow cfg idle (first_round (pos 7) 0)).0 ≡ sent_for (first_round (pos 7) 0) (bytes "a\nb"))
    × ((t' : Tail) × ((follow cfg idle (first_round (pos 7) 0)).1 ≡ ok t')
        × IsAfter (first_round (pos 7) 0) (bytes "a\nb") t'
        × (t'.offset ≡ length (bytes "a\nb")))
unfolding bytes newlines is_newline first_round
follow-reaches_end_example =
    follow-reaches_end cfg idle (first_round (pos 7) 0) (bytes "a\nb") [] (bytes "a\nb") refl refl
      (quiet "a\nb", (quiet "a\nb", tt)) (omega arith)
