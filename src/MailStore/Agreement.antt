-- ===== src/MailStore/Agreement.antt =====
-- A row of mail_transactions and a transaction of the stitcher that hold the same values.
use kanyigo.Base.{
  ℕ, ◌≡◌, refl, sym, ap, ◌∙◌, String, Option, none, some, List, [], ◌∷◌, ◌++◌, arith, eq_iff,
}
use kanyigo.LogEntry.{LogEntry, Time, Float64}
use kanyigo.Schema.{MailRow, Reals}
use kanyigo.Stitcher.{
  MailTransaction, QueuedTransaction, overwrite, overwrite_ptr, overwrite_value, absorb, new_queue,
}
use kanyigo.MailStore.{real, merge_row, new_row, append_raw}

-- The lines of a transaction as the column `raw` holds them.
abbrev joined_from : String → List String → String
joined_from acc [] = acc
joined_from acc (l ∷ ls) = joined_from (append_raw acc l) ls

abbrev pub joined : List String → String
joined = joined_from ""

joined-snoc :
    (acc : String) (ls : List String) (l : String)
    → joined_from acc (ls ++ l ∷ []) ≡ append_raw (joined_from acc ls) l
joined-snoc acc [] l = refl
joined-snoc acc (x ∷ ls) l = joined-snoc (append_raw acc x) ls l

-- A NULL spam score in the table is the stitcher's 0; else the REAL is that of the stitcher's.
abbrev pub AgreesScore : Reals → Option Float64 → Float64 → Type 0
AgreesScore reals none x = x ≡ 0
AgreesScore reals (some y) x = y ≡ reals.single x

-- A row and a transaction hold the same values, up to what a REAL column makes of a float64.
pub record Agrees (reals : Reals) (row : MailRow) (tx : MailTransaction) : Type 0 where
  pub arrival : row.arrival_ts_utc ≡ tx.arrival_timestamp
  pub last : row.last_ts_utc ≡ tx.last_timestamp
  pub queue_id : row.queue_id ≡ tx.queue_id
  pub host : row.host ≡ tx.host
  pub process : row.process ≡ tx.process
  pub mail_from : row.mail_from ≡ tx.sender
  pub mail_to : row.mail_to ≡ tx.recipient
  pub status : row.status ≡ tx.status
  pub relay : row.relay ≡ tx.relay
  pub delay : row.delay ≡ real reals tx.delay
  pub delays : row.delays ≡ tx.delays
  pub dsn : row.dsn ≡ tx.dsn
  pub message_id : row.message_id ≡ tx.message_id
  pub size_bytes : row.size_bytes ≡ tx.size_bytes
  pub queued_as : row.queued_as ≡ tx.queued_as
  pub mail_id : row.mail_id ≡ tx.mail_id
  pub subject : row.subject ≡ tx.subject
  pub hits : row.hits ≡ real reals tx.hits
  pub helo : row.helo ≡ tx.helo
  pub amavis_origin : row.amavis_origin ≡ tx.amavis_origin
  pub is_junk : row.is_junk ≡ tx.is_junk
  pub spam_score : AgreesScore reals row.spam_score tx.spam_score
  pub raw : row.raw ≡ joined tx.raw
  pub timed_out : row.timed_out ≡ tx.timed_out

pub overwrite-nil : (s : String) → overwrite s "" ≡ s
unfolding overwrite
overwrite-nil s = ground (arith, eq_iff s "")

overwrite_ptr-none {ℓ} : {A : Type ℓ} (a : Option A) → overwrite_ptr a none ≡ a
unfolding overwrite_ptr
overwrite_ptr-none none = refl
overwrite_ptr-none (some a) = refl

overwrite_ptr-real :
    (reals : Reals) (a b : Option Float64)
    → overwrite_ptr (real reals a) (real reals b) ≡ real reals (overwrite_ptr a b)
unfolding overwrite_ptr
overwrite_ptr-real reals none b = refl
overwrite_ptr-real reals (some x) b = refl

AgreesScore-overwrite :
    (reals : Reals) (a y : Option Float64) (x : Float64)
    → AgreesScore reals y x
    → AgreesScore reals (overwrite_ptr (real reals a) y) (overwrite_value a x)
unfolding overwrite_ptr overwrite_value
AgreesScore-overwrite reals none y x h = h
AgreesScore-overwrite reals (some z) y x h = refl

new_score :
    (reals : Reals) (a : Option Float64) → AgreesScore reals (real reals a) (overwrite_value a 0)
unfolding overwrite_value
new_score reals none = refl
new_score reals (some x) = refl

-- A new row agrees with a new queue that has absorbed the line.
pub new_row-Agrees :
    (reals : Reals) (id : ℕ) (now later : Time) (entry : LogEntry)
    → Agrees reals (new_row reals id now entry) (absorb later entry (new_queue entry)).transaction
unfolding new_row absorb new_queue
new_row-Agrees reals id now later entry = record {
  arrival = refl;
  last = refl;
  queue_id = refl;
  host = sym (overwrite-nil entry.host);
  process = sym (overwrite-nil entry.process);
  mail_from = sym (overwrite-nil entry.mail_from);
  mail_to = sym (overwrite-nil entry.mail_to);
  status = sym (overwrite-nil entry.status);
  relay = sym (overwrite-nil entry.relay);
  delay = ap (real reals) (sym (overwrite_ptr-none entry.delay));
  delays = sym (overwrite-nil entry.delays);
  dsn = sym (overwrite-nil entry.dsn);
  message_id = sym (overwrite-nil entry.message_id);
  size_bytes = sym (overwrite_ptr-none entry.size_bytes);
  queued_as = sym (overwrite-nil entry.queued_as);
  mail_id = sym (overwrite-nil entry.mail_id);
  subject = sym (overwrite-nil entry.subject);
  hits = ap (real reals) (sym (overwrite_ptr-none entry.hits));
  helo = sym (overwrite-nil entry.helo);
  amavis_origin = sym (overwrite-nil entry.amavis_origin);
  is_junk = ground arith;
  spam_score = new_score reals entry.spam_score;
  raw = unfold append_raw in ground arith;
  timed_out = refl;
}

-- A line keeps a row and a queue that agree in agreement.
pub merge_row-Agrees :
    (reals : Reals) (now later : Time) (entry : LogEntry) (row : MailRow)
    (queue : QueuedTransaction)
    → Agrees reals row queue.transaction
    → Agrees reals (merge_row reals now entry row) (absorb later entry queue).transaction
unfolding merge_row absorb
merge_row-Agrees reals now later entry row queue h = record {
  arrival = h.arrival;
  last = refl;
  queue_id = h.queue_id;
  host = ap (overwrite entry.host) h.host;
  process = ap (overwrite entry.process) h.process;
  mail_from = ap (overwrite entry.mail_from) h.mail_from;
  mail_to = ap (overwrite entry.mail_to) h.mail_to;
  status = ap (overwrite entry.status) h.status;
  relay = ap (overwrite entry.relay) h.relay;
  delay =
      ap (overwrite_ptr (real reals entry.delay)) h.delay
      ∙ overwrite_ptr-real reals entry.delay queue.transaction.delay;
  delays = ap (overwrite entry.delays) h.delays;
  dsn = ap (overwrite entry.dsn) h.dsn;
  message_id = ap (overwrite entry.message_id) h.message_id;
  size_bytes = ap (overwrite_ptr entry.size_bytes) h.size_bytes;
  queued_as = ap (overwrite entry.queued_as) h.queued_as;
  mail_id = ap (overwrite entry.mail_id) h.mail_id;
  subject = ap (overwrite entry.subject) h.subject;
  hits =
      ap (overwrite_ptr (real reals entry.hits)) h.hits
      ∙ overwrite_ptr-real reals entry.hits queue.transaction.hits;
  helo = ap (overwrite entry.helo) h.helo;
  amavis_origin = ap (overwrite entry.amavis_origin) h.amavis_origin;
  is_junk = ground (arith, h.is_junk);
  spam_score =
      AgreesScore-overwrite reals entry.spam_score row.spam_score queue.transaction.spam_score
        h.spam_score;
  raw =
      ap (λ r. append_raw r entry.raw) h.raw ∙ sym (joined-snoc "" queue.transaction.raw entry.raw);
  timed_out = h.timed_out;
}
