-- ===== src/Config/Programs.antt =====
-- What the programs make of the environment: NewServer and NewFirewallClient of the back end, and the
-- agent of main with parseNetworks in cmd/firewall-agent/main.go.
use kanyigo.Base.{String, Option, none, some, List, []}
use kanyigo.Base.Text.{split}
use kanyigo.Sql.{Result, ok, err}
use kanyigo.Net.{IpNet}
use kanyigo.Auth.{env_or_default}
use kanyigo.NginxLine.{parse_items, parse_cidrs}
use kanyigo.Agent.{Agent}
use kanyigo.FirewallClient.{FirewallClient}
use kanyigo.Security.{Server}
use kanyigo.Config.{Readers, Variables, parse_allowed_origins}

-- parseNetworks, whose loop is that of parseCIDRs
unfoldable pub parse_networks : (String → Option IpNet) → String → Option (List IpNet)
parse_networks parse_cidr value = parse_items parse_cidr (split b',' value)

unfoldable pub new_firewall_client : String → FirewallClient
new_firewall_client socket_path = record { socket_path = socket_path }

abbrev pub default_allowlist : String
default_allowlist = "127.0.0.0/8,::1/128"

networks_or : List IpNet → Option (List IpNet) → List IpNet
networks_or fallback none = fallback
networks_or fallback (some networks) = networks

module _ (rs : Readers) (env : Variables) where
  -- `allowlist, err := parseCIDRs(…)`, or the default one on an error
  unfoldable pub security_allowlist : List IpNet
  unfolding networks_or
  security_allowlist =
      networks_or (networks_or [] (parse_cidrs rs.parse_cidr default_allowlist))
        (parse_cidrs rs.parse_cidr (env_or_default (env "SECURITY_IP_ALLOWLIST") default_allowlist))

  unfoldable pub new_server : Server
  new_server = record {
    security_allowlist = security_allowlist;
    firewall = some (new_firewall_client (env_or_default (env "FIREWALL_AGENT_SOCKET") ""));
  }

  unfoldable pub allowed_origins : List String
  allowed_origins =
      parse_allowed_origins (env_or_default (env "ALLOWED_ORIGINS") "http://localhost:3000")

  agent_of : Option (List IpNet) → Result Agent
  agent_of none = err "invalid FIREWALL_IP_ALLOWLIST"
  agent_of (some networks) = ok (record {
    chain = env_or_default (env "FIREWALL_CHAIN") "INPUT";
    ipset = env_or_default (env "FIREWALL_IPSET_V4") "logs_dashboard_block_v4";
    ipset6 = env_or_default (env "FIREWALL_IPSET_V6") "logs_dashboard_block_v6";
    ipset_bin = env_or_default (env "IPSET_BIN") "/usr/sbin/ipset";
    iptables_bin = env_or_default (env "IPTABLES_BIN") "/usr/sbin/iptables";
    ip6table_bin = env_or_default (env "IP6TABLES_BIN") "/usr/sbin/ip6tables";
    allowlist = networks;
  })

  -- The agent of main, or the error that ends it
  unfoldable pub agent_settings : Result Agent
  unfolding agent_of
  agent_settings = agent_of (
      parse_networks rs.parse_cidr (env_or_default (env "FIREWALL_IP_ALLOWLIST") default_allowlist))
