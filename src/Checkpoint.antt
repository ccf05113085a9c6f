-- ===== src/Checkpoint.antt =====
-- The checkpoints of the two log readers: getIngestState of ingest.go and setIngestStateTx of
-- continuous_ingest.go. The column updated_at is written and never read, and is left out.
use kanyigo.Base.{String, Option, none, some}
use kanyigo.Base.Int.{ℤ, pos}
use kanyigo.Base.Table.{lookup, insert}
use kanyigo.Schema.{Database, IngestState}
use kanyigo.Sql.{Sql, ok, exec, exec_auto}

-- `ingestState{OffsetBytes: 0, Inode: 0}`
abbrev pub no_checkpoint : IngestState
no_checkpoint = record { offset_bytes = pos 0; inode = pos 0 }

abbrev pub found : Option IngestState → IngestState
found none = no_checkpoint
found (some state) = state

unfoldable pub get_ingest_state : String → Sql Database IngestState
get_ingest_state key = exec_auto (λ db. ok (found (lookup key db.ingest_state), db))

-- The effect of the INSERT … ON CONFLICT(key) DO UPDATE.
abbrev pub save_state : String → ℤ → ℤ → Database → Database
save_state key offset inode db = record db {
  ingest_state = insert key (record { offset_bytes = offset; inode = inode }) db.ingest_state;
}

unfoldable pub set_ingest_state_tx : String → ℤ → ℤ → Sql Database (Unit {0})
set_ingest_state_tx key offset inode = exec (λ db. ok (tt, save_state key offset inode db))
