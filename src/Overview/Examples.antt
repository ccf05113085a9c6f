-- ===== src/Overview/Examples.antt =====
-- An overview with a block that has expired and one that has not, and the theorem at it.
use kanyigo.Base.{ℕ, String, ◌≡◌, refl, Bool, true, false, Option, none, some, [], ◌∷◌}
use kanyigo.Base.Table.{lookup}
use kanyigo.Base.Text.{trim_space, atoi}
use kanyigo.Schema.{Database, Offender, FirewallBlock, empty_database}
use kanyigo.Sql.{exec_auto}
use kanyigo.Agent.{Request, Response}
use kanyigo.FirewallClient.{Link}
use kanyigo.Security.{HttpRequest, Server, require_admin}
use kanyigo.Logs.{take, page_limit, parse_int_default}
use kanyigo.Overview.{
  Postgres, SecurityOffender, Summary, failure, overview, end_block, joined_row, stands_before,
  put_in_order, in_order, is_shown, query, is_attempt, is_healthy, summarise, show, handle_security,
}
use kanyigo.Overview.Current.{IsCurrent, reply, handle_security-IsCurrent}

program : Unit {0}
unfolding lookup trim_space atoi exec_auto require_admin take page_limit parse_int_default end_block
    joined_row stands_before put_in_order in_order is_shown query is_attempt is_healthy summarise
    show handle_security
program = tt

abbrev pg : Postgres
pg = record { ilike = λ _ _. true; day_of = λ t. t }

abbrev agent : Option Request → Unit {0} → Response × Unit {0}
agent _ k = (record { ok = true; message = "" }, k)

abbrev server : Server
server = record { security_allowlist = []; firewall = none }

abbrev request : String → HttpRequest
request role = record {
  user = some (record { id = 1; role = role });
  method = "GET";
  x_forwarded_for = "";
  x_real_ip = "";
  remote_addr = "";
}

abbrev offender : Bool → ℕ → Offender
offender flagged seen = record {
  reason = "consecutive_404";
  first_seen_at = 10;
  last_seen_at = seen;
  attempt_count = 10;
  last_path = "/wp-login.php";
  flagged = flagged;
  dismissed_at = none;
}

abbrev block : ℕ → FirewallBlock
block expires = record {
  active = true;
  blocked_at = some 20;
  expires_at = some expires;
  blocked_by = 1;
  last_error = "";
}

-- The first block has expired at 100, and its address is not flagged.
abbrev tables : Database
tables = record empty_database {
  security_offenders =
      ("9.9.9.9", offender false 50)
      ∷ ("8.8.8.8", offender true 40)
      ∷ ("7.7.7.7", offender true 60)
      ∷ [];
  firewall_blocks = ("9.9.9.9", block 90) ∷ ("8.8.8.8", block 200) ∷ [];
}

abbrev link : Link (Unit {0})
link = record { kernel = tt; connections = [] }

abbrev item : String → ℕ → Bool → Option ℕ → Option ℕ → SecurityOffender
item ip seen blocked at expires = record {
  ip = ip;
  reason = "consecutive_404";
  first_seen_at = 10;
  last_seen_at = seen;
  attempt_count = 10;
  last_path = "/wp-login.php";
  flagged = true;
  blocked = blocked;
  blocked_at = at;
  expires_at = expires;
  last_error = "";
}

abbrev summary : Summary
summary = record {
  items = item "8.8.8.8" 40 true (some 20) (some 200) ∷ item "7.7.7.7" 60 false none none ∷ [];
  flagged = 2;
  blocked = 1;
  attempts_today = 0;
  firewall_healthy = false;
}

shown : (reply pg agent 100 server (request "admin") "" "" tables link).0 ≡ overview summary
unfolding program
shown = refl

no_admin :
    (reply pg agent 100 server (request "user") "" "" tables link).0
    ≡ failure 403 "admin access required"
unfolding program
no_admin = refl

handle_security-IsCurrent_example :
    IsCurrent pg agent 100 server
      (request "admin")
      ""
      ""
      tables
      link
      summary
      (reply pg agent 100 server (request "admin") "" "" tables link).1.conn.db
handle_security-IsCurrent_example =
    handle_security-IsCurrent pg agent 100 server (request "admin") "" "" tables link summary shown
