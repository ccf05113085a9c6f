-- ===== src/Security/Failed.antt =====
-- What the block handler leaves behind when the agent cannot be reached.
use mathlib.Core.Option as Option
use kanyigo.Base.{ℕ, String, true, ◌≡◌, refl, Option, some, List, [], ◌∷◌}
use kanyigo.Base.Int.{ℤ}
use kanyigo.Base.Table.{lookup}
use kanyigo.LogEntry.{Time}
use kanyigo.Schema.{Database}
use kanyigo.Sql.{Outcome, refused, ok, exec, in_tx, ◌>>=◌}
use kanyigo.Agent.{Request, Response}
use kanyigo.FirewallClient.{available}
use kanyigo.FirewallClient as FirewallClient
use kanyigo.Security.{
  AuthUser, failure, Server, World, record_body, record_firewall_result, block_reply, operate,
  perform,
}
use kanyigo.Security.Record.{inactive, recorded, lookup-recorded_unblock}

record_firewall_result_done :
    (now : Time) (user_id : ℕ) (action ip : String) (duration : ℤ) (error : Option String)
    (db : Database)
    → record_firewall_result now user_id action ip duration error
        (record { db = db; outcomes = [] })
      ≡ (ok tt, record { db = recorded now user_id action ip duration error db; outcomes = [] })
unfolding record_firewall_result record_body recorded in_tx exec ◌>>=◌
record_firewall_result_done now user_id action ip duration error db = refl

module _ {ℓ} {K : Type ℓ} (agent : Option Request → K → Response × K) (now : Time) (s : Server)
    (user : AuthUser) (ip : String) (duration : ℤ) (db : Database) (k : K) (later : List Outcome)
    (configured : available s.firewall ≡ true) where
  abbrev unreachable : World K
  unreachable = record {
    conn = record { db = db; outcomes = [] };
    link = record { kernel = k; connections = refused ∷ later };
  }

  unblock_refused :
      operate agent s "unblock" ip duration unreachable.link
      ≡ (some "connect firewall agent", record { kernel = k; connections = later })
  unfolding operate FirewallClient.unblock FirewallClient.request
  unblock_refused = rw configured

  -- Where a client is configured, the connection to the agent fails and no call of the database
  -- does: an unblock is answered with code 502, the kernel is as it was, and yet the row of the
  -- address, if there is one, is inactive: the table says that an address is free which the
  -- firewall still drops.
  pub perform-unreachable :
      ((perform agent now s user "unblock" ip duration unreachable).0
        ≡ failure 502 "connect firewall agent")
      × ((perform agent now s user "unblock" ip duration unreachable).1.link.kernel ≡ k)
      × (lookup ip
            (perform agent now s user "unblock" ip duration unreachable).1.conn.db.firewall_blocks
          ≡ Option.map (inactive (some "connect firewall agent")) (lookup ip db.firewall_blocks))
  unfolding perform block_reply
  perform-unreachable =
      rw
        (
          unblock_refused,
          record_firewall_result_done now user.id "unblock" ip duration
              (some "connect firewall agent") db,
        )
        (
          refl,
          refl,
          lookup-recorded_unblock now user.id ip duration (some "connect firewall agent") db,
        )
