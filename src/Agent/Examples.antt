-- ===== src/Agent/Examples.antt =====
-- The agent with a kernel that records commands, and with one that keeps sets.
use kanyigo.Base.{
  String, Bool, true, false, ◌&&◌, ◌||◌, ◌≡◌, refl, none, some, List, [], ◌∷◌, arith, if◌then◌else◌,
  str_eq, All,
}
use text.Mathlib.TextPositions.{eq_refl}
use kanyigo.Base.Int.{pos}
use kanyigo.Base.Text.{trim_space}
use kanyigo.Net.{Ip, v4, is_loopback, is_unspecified, is_multicast, contains_ip, Texts}
use kanyigo.Agent.{
  Request, Agent, Command, create, add, del, check_rule, insert_rule, succeeded, failed, Tools,
  is_timeout, run, run_error, block, unblock, unblock_error, act, handle,
}
use kanyigo.Agent.Guard.{IsSafe, handle_keeps}
use kanyigo.Agent.Effect.{IsIpset, Blocked, Unblocked, handle-Blocked, handle-Unblocked}

abbrev pub guest : Ip
guest = v4 3405803785

-- One address that is read and written.
abbrev pub texts : Texts
texts = record {
  parse_ip = λ s. if str_eq s "203.0.113.9" then some guest else none;
  ip_string = λ ip. "203.0.113.9";
  split_host_port = λ s. some s;
}

abbrev pub agent : Agent
agent = record {
  chain = "INPUT";
  ipset = "logs_dashboard_block_v4";
  ipset6 = "logs_dashboard_block_v6";
  ipset_bin = "/usr/sbin/ipset";
  iptables_bin = "/usr/sbin/iptables";
  ip6table_bin = "/usr/sbin/ip6tables";
  allowlist = record { ip = v4 2130706432; ones = 8 } ∷ [];
}

abbrev recording : Tools (List Command)
recording binary command k = (succeeded, command ∷ k)

abbrev block_guest : Request
block_guest = record { action = "block"; ip = " 203.0.113.9"; timeout_seconds = pos 3600 }

abbrev unblock_guest : Request
unblock_guest = record { action = "unblock"; ip = " 203.0.113.9"; timeout_seconds = pos 0 }

-- Every command of a request is safe.
handle_keeps_example :
    All (IsSafe texts agent) (handle recording texts agent (some block_guest) []).1
handle_keeps_example =
    handle_keeps recording texts agent (All (IsSafe texts agent))
      (λ binary command k safe others. (safe, others)) (some block_guest) [] tt

-- The members of the sets.
abbrev pub Members : Type 0
Members = List (String × String)

unfoldable pub is_member : String → String → Members → Bool
is_member set ip [] = false
is_member set ip ((s, i) ∷ ms) = (str_eq s set && str_eq i ip) || is_member set ip ms

unfoldable pub drop_member : String → String → Members → Members
drop_member set ip [] = []
drop_member set ip ((s, i) ∷ ms) =
    let rest = drop_member set ip ms in if str_eq s set && str_eq i ip then rest else (s, i) ∷ rest

abbrev pub tools : Tools Members
tools binary (add set ip timeout) k = (succeeded, (set, ip) ∷ k)
tools binary (del set ip) k = (succeeded, drop_member set ip k)
tools binary (create set family) k = (succeeded, k)
tools binary (check_rule chain set) k = (failed "exit status 1" "", k)
tools binary (insert_rule chain set) k = (succeeded, k)

is_member-drop_member :
    (set ip : String) (k : Members) → is_member set ip (drop_member set ip k) ≡ false
unfolding is_member drop_member
is_member-drop_member set ip [] = refl
is_member-drop_member set ip ((s, i) ∷ k) = ground (arith, is_member-drop_member set ip k)

pub tools-IsIpset : IsIpset tools is_member
unfolding is_member
tools-IsIpset = record {
  added = λ binary set ip timeout k e. rw (eq_refl set, eq_refl ip) refl;
  deleted = λ binary set ip k e. is_member-drop_member set ip k;
  missing = λ binary set ip cause output k e c. absurd cc;
}

granted_block : (handle tools texts agent (some block_guest) []).0.ok ≡ true
unfolding handle act block run run_error is_loopback is_unspecified is_multicast contains_ip
    is_timeout trim_space
granted_block = refl

handle-Blocked_example :
    (ip : Ip) × (texts.parse_ip (trim_space " 203.0.113.9") ≡ some ip)
    × Blocked tools texts agent is_member tools-IsIpset block_guest ip
        (handle tools texts agent (some block_guest) []).1
handle-Blocked_example =
    handle-Blocked tools texts agent is_member tools-IsIpset " 203.0.113.9" (pos 3600) []
      granted_block

granted_unblock : (handle tools texts agent (some unblock_guest) []).0.ok ≡ true
unfolding handle act unblock unblock_error is_loopback is_unspecified is_multicast contains_ip
    is_timeout trim_space
granted_unblock = refl

handle-Unblocked_example :
    (ip : Ip) × (texts.parse_ip (trim_space " 203.0.113.9") ≡ some ip)
    × Unblocked tools texts agent is_member tools-IsIpset ip
        (handle tools texts agent (some unblock_guest) []).1
handle-Unblocked_example =
    handle-Unblocked tools texts agent is_member tools-IsIpset " 203.0.113.9" (pos 0) []
      granted_unblock
