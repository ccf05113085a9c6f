-- ===== src/Security/Record.antt =====
-- What is recorded of a firewall operation, recordFirewallResult of security.go.
use mathlib.Core.Option as Option
use kanyigo.Base.{ℕ, ◌≡◌, refl, ◌∙◌, String, false, Option, some, arith, inl, inr, Option-cases}
use text.Mathlib.TextPositions.{eq_refl}
use kanyigo.Base.Int.{ℤ}
use kanyigo.Base.Table.{Table, lookup, lookup-insert}
use kanyigo.LogEntry.{Time}
use kanyigo.Schema.{Database, FirewallBlock}
use kanyigo.Sql.{Result, ok, err, Conn, exec, ◌>>=◌}
use kanyigo.Sql.Atomic.{Ends, undone, through, begun, in_tx-Ends}
use kanyigo.Security.{
  error_string, block_row, unblock_rows, write_block, write_audit, record_body,
  record_firewall_result,
}

-- All that one operation writes: the row of the address, and a line of the audit log.
unfoldable pub recorded : Time → ℕ → String → String → ℤ → Option String → Database → Database
recorded now user_id action ip duration error db =
    write_audit now user_id action ip duration error
      (write_block now user_id action ip duration error db)

record_body-recorded :
    (now : Time) (user_id : ℕ) (action ip : String) (duration : ℤ) (error : Option String)
    (c : Conn Database)
    → (record_body now user_id action ip duration error c).0 ≡ ok tt
    → (record_body now user_id action ip duration error c).1.db
      ≡ recorded now user_id action ip duration error c.db
unfolding record_body recorded exec ◌>>=◌
record_body-recorded now user_id action ip duration error c h = ground arith

-- How the recording ends.
pub data Recorded (now : Time) (user_id : ℕ) (action ip : String) (duration : ℤ)
    (error : Option String) (db : Database) (r : Result (Unit {0}) × Conn Database) : Type 0 where
  nothing :
      (e : String) → r.0 ≡ err e → r.1.db ≡ db → Recorded now user_id action ip duration error db r
  everything :
      r.1.db ≡ recorded now user_id action ip duration error db
      → Recorded now user_id action ip duration error db r

Recorded-of_Ends :
    (now : Time) (user_id : ℕ) (action ip : String) (duration : ℤ) (error : Option String)
    (c : Conn Database) {r : Result (Unit {0}) × Conn Database}
    → Ends (record_body now user_id action ip duration error) c r
    → Recorded now user_id action ip duration error c.db r
Recorded-of_Ends now user_id action ip duration error c (undone e f d) = nothing e f d
Recorded-of_Ends now user_id action ip duration error c (through a f d) =
    everything (d ∙ record_body-recorded now user_id action ip duration error (begun c) f)

-- Whatever calls fail: recordFirewallResult ends with an error and the database as it was, or with
-- both the row of the address and the line of the audit log.
pub record_firewall_result-Recorded :
    (now : Time) (user_id : ℕ) (action ip : String) (duration : ℤ) (error : Option String)
    (c : Conn Database)
    → Recorded now user_id action ip duration error c.db
        (record_firewall_result now user_id action ip duration error c)
unfolding record_firewall_result
record_firewall_result-Recorded now user_id action ip duration error c =
    Recorded-of_Ends now user_id action ip duration error c
      (in_tx-Ends (record_body now user_id action ip duration error) c)

everything_of_ok :
    (now : Time) (user_id : ℕ) (action ip : String) (duration : ℤ) (error : Option String)
    (db : Database) {r : Result (Unit {0}) × Conn Database}
    → r.0 ≡ ok tt
    → Recorded now user_id action ip duration error db r
    → r.1.db ≡ recorded now user_id action ip duration error db
everything_of_ok now user_id action ip duration error db h (nothing e f d) = absurd cc
everything_of_ok now user_id action ip duration error db h (everything d) = d

-- If the recording returns no error, all of it is written.
pub record_firewall_result_ok :
    (now : Time) (user_id : ℕ) (action ip : String) (duration : ℤ) (error : Option String)
    (c : Conn Database)
    → (record_firewall_result now user_id action ip duration error c).0 ≡ ok tt
    → (record_firewall_result now user_id action ip duration error c).1.db
      ≡ recorded now user_id action ip duration error c.db
record_firewall_result_ok now user_id action ip duration error c h =
    everything_of_ok now user_id action ip duration error c.db h
      (record_firewall_result-Recorded now user_id action ip duration error c)

pub lookup-recorded_block :
    (now : Time) (user_id : ℕ) (ip : String) (duration : ℤ) (error : Option String) (db : Database)
    → lookup ip (recorded now user_id "block" ip duration error db).firewall_blocks
      ≡ some (block_row now user_id duration error)
unfolding recorded write_audit write_block
lookup-recorded_block now user_id ip duration error db =
    lookup-insert ip ip (block_row now user_id duration error) db.firewall_blocks
    ∙ rw (eq_refl ip) refl

-- The row of an address that was to be unblocked, whatever came of it.
abbrev pub inactive : Option String → FirewallBlock → FirewallBlock
inactive error row = record row { active = false; last_error = error_string error }

lookup-unblock_rows :
    (ip : String) (error : Option String) (rows : Table FirewallBlock)
    → lookup ip (unblock_rows ip error rows) ≡ Option.map (inactive error) (lookup ip rows)
unfolding unblock_rows
lookup-unblock_rows ip error rows = elim (Option-cases (lookup ip rows)) [
  | inl e ↦ rw (e, unblock_rows) e
  | inr (row, e) ↦
      rw (e, unblock_rows) (lookup-insert ip ip (inactive error row) rows ∙ rw (eq_refl ip) refl)
]

pub lookup-recorded_unblock :
    (now : Time) (user_id : ℕ) (ip : String) (duration : ℤ) (error : Option String) (db : Database)
    → lookup ip (recorded now user_id "unblock" ip duration error db).firewall_blocks
      ≡ Option.map (inactive error) (lookup ip db.firewall_blocks)
unfolding recorded write_audit write_block
lookup-recorded_unblock now user_id ip duration error db =
    lookup-unblock_rows ip error db.firewall_blocks
