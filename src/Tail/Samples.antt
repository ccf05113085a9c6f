-- ===== src/Tail/Samples.antt =====
-- Inputs for the tests of the tail: a configuration, and rounds that meet a growing log.
use Prim.Native.String as NativeString
use kanyigo.Base.{
  String, ℕ, ◌≡◌, refl, subst, true, false, some, List, [], ◌∷◌, ◌++◌, length, arith,
}
use kanyigo.Base.Int.{ℤ, pos, eq_ℤ}
use kanyigo.MailStore.{LineRecord}
use kanyigo.Tail.{
  take_chunk, line_record, send, step, follow, first_round, wait, look, at_end, StreamConfig,
  Opening, Round, PathInfo, there,
}
use kanyigo.Tail.Buffer.{text_of, drop, is_newline, read_string, ends_line, trim_newline, Bytes}
use kanyigo.Tail.Growing.{IsStill, Grows}

-- A file's bytes, from an ASCII text
unfoldable pub bytes : String → Bytes
bytes NativeString.[] = []
bytes (NativeString.◌∷◌ c s) = c ∷ bytes s

abbrev pub cfg : StreamConfig
cfg = record {
  path = "/var/log/maillog";
  poll_interval = pos 250;
  rotation_drain_timeout = pos 1000;
  queue_idle_timeout = pos 1_800_000;
  processing_workers = pos 2;
}

abbrev pub opening : ℕ → ℕ → Opening
opening inode size = record {
  open_ok = true;
  info = some (record { inode = pos inode; size = size });
  seek_ok = true;
  close_ok = true;
}

abbrev pub round : String → PathInfo → ℕ → Round
round s path now = record {
  file = bytes s;
  read_fails = false;
  delivered = true;
  open_size = some (length (bytes s));
  path = path;
  seen = now;
  now = now;
  opening = opening 8 3;
  waited = true;
}

abbrev pub sent_record : ℕ → String → ℕ → ℕ → LineRecord
sent_record n text inode offset = record {
  sequence = n;
  text = text;
  inode = pos inode;
  offset = pos offset;
}

same_inode : {other : ℤ} → there (pos 7) ≡ there other → pos 7 ≡ other
same_inode p = cc (p)

pub still :
    (f : String) (more : Bytes) (s : String)
    → bytes s ≡ bytes f ++ more
    → IsStill (pos 7) (bytes f) (round s (there (pos 7)) 0)
still f more s e = record {
  more = more;
  appended = e;
  sized = λ n p. let size : length (bytes s) ≡ n = cc (p) in omega arith;
  stays_there = λ other p. subst (λ o. eq_ℤ o (pos 7) ≡ true) (same_inode p) refl;
}

abbrev pub seen : String → Round
seen s = round s (there (pos 7)) 0

-- The last round meets a line that is not yet ended.
abbrev pub appends : List Round
appends = seen "a\nb" ∷ seen "a\nb" ∷ seen "a\nbc\nd" ∷ []

pub appends-Grows : Grows (pos 7) (bytes "a\n") appends
unfolding bytes
appends-Grows = (
  still "a\n" (bytes "b") "a\nb" refl,
  (still "a\nb" [] "a\nb" refl, (still "a\nb" (bytes "c\nd") "a\nbc\nd" refl, tt)),
)

-- The second run meets the line that ends after the restart, and another.
abbrev pub resumed : List Round
resumed = seen "a\nbc\nde\n" ∷ seen "a\nbc\nde\n" ∷ []

pub resumed-Grows : Grows (pos 7) (bytes "a\nbc\nde\n") resumed
unfolding bytes
resumed-Grows =
    (still "a\nbc\nde\n" [] "a\nbc\nde\n" refl, (still "a\nbc\nde\n" [] "a\nbc\nde\n" refl, tt))

pub appends-sent :
    (follow cfg appends (first_round (pos 7) 0)).0
    ≡ sent_record 0 "a" 7 2 ∷ sent_record 1 "bc" 7 5 ∷ []
unfolding bytes take_chunk line_record send step follow first_round text_of drop is_newline
    read_string ends_line trim_newline wait look at_end
appends-sent = refl
