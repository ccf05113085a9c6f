-- ===== src/Stitcher.antt =====
-- The in-memory correlation of mail log lines by queue id: `TransactionStitcher` of stream.go.
-- The map `queues` is a table; its order stands for the order in which Go's `range` visits the map.
pub mod Invariant
pub mod Slot
pub mod Lines
mod Examples
use kanyigo.Base.{
  ◌+◌, String, Bool, true, false, ◌||◌, Option, none, some, List, [], ◌∷◌, ◌++◌, ltb, str_eq,
  if◌then◌else◌,
}
use kanyigo.Base.Table.{Table, lookup, insert, remove, retain}
use kanyigo.Base.Int.{ℤ, pos_part, neg_part}
use kanyigo.Base.Text.{to_lower}
use kanyigo.LogEntry.{LogEntry, Time, Float64}

pub record MailTransaction : Type 0 where
  pub arrival_timestamp : Time
  pub last_timestamp : Time
  pub queue_id : String
  pub host : String
  pub process : String
  pub sender : String
  pub recipient : String
  pub status : String
  pub relay : String
  pub delay : Option Float64
  pub delays : String
  pub dsn : String
  pub message_id : String
  pub size_bytes : Option ℤ
  pub queued_as : String
  pub mail_id : String
  pub subject : String
  pub hits : Option Float64
  pub helo : String
  pub amavis_origin : String
  pub is_junk : Bool
  pub spam_score : Float64
  pub timed_out : Bool
  pub raw : List String

pub record QueuedTransaction : Type 0 where
  pub transaction : MailTransaction
  pub last_seen : Time

pub record TransactionStitcher : Type 0 where
  pub queues : Table QueuedTransaction
  pub idle_timeout : ℤ

unfoldable pub new_transaction_stitcher : ℤ → TransactionStitcher
new_transaction_stitcher idle_timeout = record { queues = []; idle_timeout = idle_timeout }

-- `switch strings.ToLower(status)`
unfoldable pub is_terminal_status : String → Bool
unfolding to_lower
is_terminal_status status = let s = to_lower status in str_eq s "sent" || str_eq s "bounced"

-- `if value != "" { field = value }`
unfoldable pub overwrite : String → String → String
overwrite value field = if str_eq value "" then field else value

-- `if value != nil { copy := *value; field = &copy }`
unfoldable pub overwrite_ptr {ℓ} : {A : Type ℓ} → Option A → Option A → Option A
overwrite_ptr none field = field
overwrite_ptr (some a) field = some a

-- `if value != nil { field = *value }`
unfoldable pub overwrite_value {ℓ} : {A : Type ℓ} → Option A → A → A
overwrite_value none field = field
overwrite_value (some a) field = a

-- The queue that `Apply` makes for a queue id that it does not hold.
unfoldable pub new_queue : LogEntry → QueuedTransaction
new_queue entry = record {
  transaction = record {
    arrival_timestamp = entry.ts_utc;
    last_timestamp = 0;
    queue_id = entry.queue_id;
    host = "";
    process = "";
    sender = "";
    recipient = "";
    status = "";
    relay = "";
    delay = none;
    delays = "";
    dsn = "";
    message_id = "";
    size_bytes = none;
    queued_as = "";
    mail_id = "";
    subject = "";
    hits = none;
    helo = "";
    amavis_origin = "";
    is_junk = false;
    spam_score = 0;
    timed_out = false;
    raw = [];
  };
  last_seen = 0;
}

-- The assignments of `Apply` to `tx` and `queue.lastSeen`; `now` is `time.Now()`.
unfoldable pub absorb : Time → LogEntry → QueuedTransaction → QueuedTransaction
absorb now entry queue =
    let tx = queue.transaction in
    record {
      transaction = record tx {
        last_timestamp = entry.ts_utc;
        host = overwrite entry.host tx.host;
        process = overwrite entry.process tx.process;
        sender = overwrite entry.mail_from tx.sender;
        recipient = overwrite entry.mail_to tx.recipient;
        status = overwrite entry.status tx.status;
        relay = overwrite entry.relay tx.relay;
        delay = overwrite_ptr entry.delay tx.delay;
        delays = overwrite entry.delays tx.delays;
        dsn = overwrite entry.dsn tx.dsn;
        message_id = overwrite entry.message_id tx.message_id;
        size_bytes = overwrite_ptr entry.size_bytes tx.size_bytes;
        queued_as = overwrite entry.queued_as tx.queued_as;
        mail_id = overwrite entry.mail_id tx.mail_id;
        subject = overwrite entry.subject tx.subject;
        hits = overwrite_ptr entry.hits tx.hits;
        helo = overwrite entry.helo tx.helo;
        amavis_origin = overwrite entry.amavis_origin tx.amavis_origin;
        is_junk = if entry.is_junk then true else tx.is_junk;
        spam_score = overwrite_value entry.spam_score tx.spam_score;
        raw = tx.raw ++ entry.raw ∷ [];
      };
      last_seen = now;
    }

unfoldable pub queue_or_new : LogEntry → Option QueuedTransaction → QueuedTransaction
queue_or_new entry none = new_queue entry
queue_or_new entry (some queue) = queue

-- The rest of `Apply`, from the queue with the line in it: a terminal status takes it out.
unfoldable pub settle :
    String → QueuedTransaction → TransactionStitcher → Option MailTransaction × TransactionStitcher
settle key queue s =
    let queues = insert key queue s.queues in
    if is_terminal_status queue.transaction.status
    then (some queue.transaction, record s { queues = remove key queues })
    else (none, record s { queues = queues })

-- `Apply`, where `none` is the nil entry; the Boolean that it also returns is `is_some` of the
-- result.
unfoldable pub apply :
    Time → Option LogEntry → TransactionStitcher → Option MailTransaction × TransactionStitcher
unfolding settle
apply now none s = (none, s)
apply now (some entry) s =
    if str_eq entry.queue_id ""
    then (none, s)
    else settle entry.queue_id
        (absorb now entry (queue_or_new entry (lookup entry.queue_id s.queues))) s

-- `now.Sub(queue.lastSeen) < s.idleTimeout`, with the terms on the side where they are positive
unfoldable pub is_live : Time → ℤ → QueuedTransaction → Bool
is_live now idle_timeout queue =
    ltb (now + neg_part idle_timeout) (queue.last_seen + pos_part idle_timeout)

unfoldable pub expire : Time → ℤ → Table QueuedTransaction → List MailTransaction
expire now idle_timeout [] = []
expire now idle_timeout ((key, queue) ∷ queues) =
    let expired = expire now idle_timeout queues in
    if is_live now idle_timeout queue
    then expired
    else record (queue.transaction) { timed_out = true } ∷ expired

unfoldable pub evict_expired :
    Time → TransactionStitcher → List MailTransaction × TransactionStitcher
unfolding expire
evict_expired now s = (
  expire now s.idle_timeout s.queues,
  record s { queues = retain (is_live now s.idle_timeout) s.queues },
)
