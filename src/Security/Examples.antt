-- ===== src/Security/Examples.antt =====
-- The block handler with the agent, and what is recorded, at concrete requests.
use mathlib.Core.Option as Option
use kanyigo.Base.Table.{lookup}
use kanyigo.Security.Failed.{perform-unreachable}
use kanyigo.Security.Dismiss.{
  dismiss, handle_security_dismiss, IsDismissed, handle_security_dismiss-IsDismissed,
}
use kanyigo.Base.{true, String, ◌≡◌, refl, none, some, [], ◌∷◌, Bool-cases, inl, inr, str_eq}
use kanyigo.Base.Int.{pos}
use kanyigo.Base.Text.{trim_space}
use kanyigo.Schema.{Database, empty_database}
use kanyigo.Sql.{exec_auto, lost, Conn, in_tx, exec, ◌>>=◌, done, refused}
use kanyigo.Net.{Ip, is_loopback, is_unspecified, is_multicast, contains_ip}
use kanyigo.FirewallClient.{available, response_error}
use kanyigo.FirewallClient as FirewallClient
use kanyigo.Agent.{is_timeout, act, block, run, run_error, unblock, unblock_error, handle}
use kanyigo.Agent.Examples.{texts, agent, Members, is_member, tools, tools-IsIpset}
use kanyigo.Security.{
  require_admin, validate_block_target, client_ip, AuthUser, HttpRequest, BlockRequest, success,
  failure, block_row, perform, Server, World, record_firewall_result, handle_security_block,
}
use kanyigo.Security.Record.{inactive, Recorded, record_firewall_result-Recorded}
use kanyigo.Security.Handler.{
  IsByAdmin, IsBlocked, IsUnblocked, handle_security_block-IsBlocked,
  handle_security_block-IsUnblocked,
}

reads_back :
    (value : String) (ip : Ip)
    → texts.parse_ip (trim_space value) ≡ some ip
    → texts.parse_ip (trim_space "203.0.113.9") ≡ some ip
unfolding trim_space
reads_back value ip h = elim (Bool-cases (str_eq (trim_space value) "203.0.113.9")) [
  | inl e ↦ rw e at h
  | inr e ↦ let h' : none ≡ some ip = rw e at h in absurd cc
]

abbrev server : Server
server = record {
  security_allowlist = [];
  firewall = some (record { socket_path = "/run/firewall.sock" });
}

abbrev sent_as : String → HttpRequest
sent_as method = record {
  user = some (record { id = 1; role = "admin" });
  method = method;
  x_forwarded_for = "";
  x_real_ip = "";
  remote_addr = "198.51.100.8";
}

abbrev body : BlockRequest
body = record { ip = "203.0.113.9"; duration_seconds = pos 3600 }

abbrev world : World Members
world = record {
  conn = record { db = empty_database; outcomes = [] };
  link = record { kernel = []; connections = [] };
}

blocked_fine :
    (handle_security_block
      (handle tools texts agent)
      texts
      50
      server
      (sent_as "POST")
      (some body)
      world).0
    ≡ success 200 "blocked" "203.0.113.9"
unfolding handle_security_block require_admin validate_block_target trim_space is_loopback
    is_unspecified is_multicast contains_ip client_ip is_timeout record_firewall_result in_tx ◌>>=◌
    exec available FirewallClient.block FirewallClient.unblock FirewallClient.request response_error
    handle act block run run_error unblock unblock_error
blocked_fine = refl

handle_security_block-IsBlocked_example :
    IsByAdmin tools texts agent is_member tools-IsIpset reads_back 50 server (sent_as "POST")
    × IsBlocked tools texts agent is_member tools-IsIpset reads_back 50 server
        (sent_as "POST")
        "203.0.113.9"
        (handle_security_block
          (handle tools texts agent)
          texts
          50
          server
          (sent_as "POST")
          (some body)
          world).1
handle_security_block-IsBlocked_example =
    handle_security_block-IsBlocked tools texts agent is_member tools-IsIpset reads_back 50 server
      (sent_as "POST") (some body) world refl blocked_fine

unblocked_fine :
    (handle_security_block
      (handle tools texts agent)
      texts
      50
      server
      (sent_as "DELETE")
      (some body)
      world).0
    ≡ success 200 "unblocked" "203.0.113.9"
unfolding handle_security_block require_admin validate_block_target trim_space is_loopback
    is_unspecified is_multicast contains_ip client_ip is_timeout record_firewall_result in_tx ◌>>=◌
    exec available FirewallClient.block FirewallClient.unblock FirewallClient.request response_error
    handle act block run run_error unblock unblock_error
unblocked_fine = refl

handle_security_block-IsUnblocked_example :
    IsByAdmin tools texts agent is_member tools-IsIpset reads_back 50 server (sent_as "DELETE")
    × IsUnblocked tools texts agent is_member tools-IsIpset reads_back 50 server
        (sent_as "DELETE")
        "203.0.113.9"
        world
        (handle_security_block
          (handle tools texts agent)
          texts
          50
          server
          (sent_as "DELETE")
          (some body)
          world).1
handle_security_block-IsUnblocked_example =
    handle_security_block-IsUnblocked tools texts agent is_member tools-IsIpset reads_back 50 server
      (sent_as "DELETE") (some body) world refl unblocked_fine

record_firewall_result-Recorded_example :
    Recorded 50 1 "unblock" "203.0.113.9" (pos 0) (some "connect firewall agent") empty_database (
      record_firewall_result 50 1 "unblock" "203.0.113.9"
        (pos 0)
        (some "connect firewall agent")
        (record { db = empty_database; outcomes = done ∷ refused ∷ [] }))
record_firewall_result-Recorded_example =
    record_firewall_result-Recorded 50 1 "unblock" "203.0.113.9" (pos 0)
      (some "connect firewall agent")
      (record { db = empty_database; outcomes = done ∷ refused ∷ [] })

-- The address is in the kernel's set, and its row is active.
abbrev blocked_before : Database
blocked_before = record empty_database {
  firewall_blocks = ("203.0.113.9", block_row 40 1 (pos 0) none) ∷ [];
}

abbrev members : Members
members = ("logs_dashboard_block_v4", "203.0.113.9") ∷ []

abbrev admin : AuthUser
admin = record { id = 1; role = "admin" }

-- The agent cannot be reached.
abbrev cut_off : World Members
cut_off = record {
  conn = record { db = blocked_before; outcomes = [] };
  link = record { kernel = members; connections = refused ∷ [] };
}

perform-unreachable_example :
    ((perform (handle tools texts agent) 50 server admin "unblock" "203.0.113.9" (pos 0) cut_off).0
      ≡ failure 502 "connect firewall agent")
    × ((perform
          (handle tools texts agent)
          50
          server
          admin
          "unblock"
          "203.0.113.9"
          (pos 0)
          cut_off).1.link.kernel
        ≡ members)
    × (lookup "203.0.113.9"
          (perform
            (handle tools texts agent)
            50
            server
            admin
            "unblock"
            "203.0.113.9"
            (pos 0)
            cut_off).1.conn.db.firewall_blocks
        ≡ Option.map
            (inactive (some "connect firewall agent"))
            (lookup "203.0.113.9" blocked_before.firewall_blocks))
unfolding available
perform-unreachable_example =
    perform-unreachable (handle tools texts agent) 50 server admin "203.0.113.9" (pos 0)
      blocked_before members [] refl

abbrev offending : Database
offending = record empty_database {
  security_offenders =
      (
        "203.0.113.9",
        record {
          reason = "consecutive_404";
          first_seen_at = 1;
          last_seen_at = 2;
          attempt_count = 10;
          last_path = "/";
          flagged = true;
          dismissed_at = none;
        },
      )
      ∷ [];
}

-- The answer of the audit is lost.
abbrev unaudited : Conn Database
unaudited = record { db = offending; outcomes = done ∷ lost ∷ [] }

dismissed_fine :
    (handle_security_dismiss texts 50 (sent_as "POST") (some "203.0.113.9") unaudited).0
    ≡ success 200 "dismissed" ""
unfolding handle_security_dismiss require_admin trim_space exec_auto dismiss lookup
dismissed_fine = refl

handle_security_dismiss-IsDismissed_example :
    ((user : AuthUser) × (some admin ≡ some user) × (str_eq user.role "admin" ≡ true))
    × ((value : String) × (some "203.0.113.9" ≡ some value)
        × IsDismissed texts 50 value offending
            (handle_security_dismiss texts 50 (sent_as "POST") (some "203.0.113.9") unaudited).1.db)
handle_security_dismiss-IsDismissed_example =
    handle_security_dismiss-IsDismissed texts 50 (sent_as "POST") (some "203.0.113.9") unaudited
      dismissed_fine
