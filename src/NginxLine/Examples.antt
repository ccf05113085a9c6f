-- ===== src/NginxLine/Examples.antt =====
-- The parser of Nginx lines behind a proxy, and its theorem at an input.

use kanyigo.Base.{
  String, ◌+◌, ◌*◌, ◌^◌, ◌≡◌, refl, Option, none, some, List, [], ◌∷◌, str_eq, ◌==◌, if◌then◌else◌,
}
use kanyigo.Base.Int.{pos}
use kanyigo.Base.Table.{Table, lookup}
use kanyigo.Base.Text.{trim_space, split, fields, atoi}
use kanyigo.Net.{Ip, v4, v6, IpNet, contains_ip}
use kanyigo.NginxDetection.{NginxEvent}
use kanyigo.NginxLine.{
  Value, text, number, Readers, parse_items, parse_cidrs, untrusted, read_ip, last_client,
  forwarded_client_ip, sprint, string_of, json_string, int_of, json_int, iso_time, msec_time,
  local_time, nginx_json_timestamp, choose_ip, event_path, new_nginx_event, method_and_path,
  event_of_values, parse_nginx_json, event_of_groups, parse_combined, parse_nginx_line,
}
use kanyigo.NginxLine.Client.{IsAttributed, parse_nginx_line-IsAttributed}

program : Unit {0}
unfolding lookup trim_space split fields atoi contains_ip parse_items parse_cidrs untrusted read_ip
    last_client forwarded_client_ip sprint string_of json_string int_of json_int iso_time msec_time
    local_time nginx_json_timestamp choose_ip event_path new_nginx_event method_and_path
    event_of_values parse_nginx_json event_of_groups parse_combined parse_nginx_line
program = tt

-- Addresses of this example, by name.
abbrev parse_ip : String → Option Ip
parse_ip s =
    if str_eq s "10.0.0.1"
    then some (v4 (10 * 2 ^ 24 + 1))
    else if str_eq s "10.0.0.2"
    then some (v4 (10 * 2 ^ 24 + 2))
    else if str_eq s "9.9.9.9"
    then some (v4 9)
    else if str_eq s "6.6.6.6"
    then some (v4 6)
    else none

abbrev ip_string : Ip → String
ip_string (v4 n) = if n == 6 then "6.6.6.6" else if n == 9 then "9.9.9.9" else "10.0.0.1"
ip_string (v6 n) = "::1"

abbrev line : String
line = "{…}"

abbrev values : Table Value
values =
    ("remote_addr", text "10.0.0.1")
    ∷ ("http_x_forwarded_for", text "6.6.6.6, 9.9.9.9, 10.0.0.2")
    ∷ ("request", text "GET /wp-login.php HTTP/1.1")
    ∷ ("status", number 404)
    ∷ ("timestamp", text "2026-01-23T19:27:18Z")
    ∷ []

abbrev readers : Readers
readers = record {
  combined_line = λ _. none;
  unmarshal = λ _. some values;
  sprint_float = λ _. "";
  float_to_int = λ f. pos f;
  parse_float = λ _. none;
  unix_time = λ f. f;
  parse_rfc3339_nano = λ _. some 100;
  parse_local = λ _. none;
  request_path = λ path. some path;
  sha256_hex = λ _. "hash";
  addresses = record { parse_ip = parse_ip; ip_string = ip_string; split_host_port = λ _. none };
}

-- The proxies are those of 10.0.0.0/8.
abbrev proxies : List IpNet
proxies = record { ip = v4 (10 * 2 ^ 24); ones = 8 } ∷ []

abbrev event : NginxEvent
event = record {
  timestamp = 100;
  remote_ip = "9.9.9.9";
  method = "GET";
  path = "/wp-login.php";
  status = pos 404;
  user_agent = "";
  raw = line;
  raw_hash = "hash";
}

parsed : parse_nginx_line readers proxies line ≡ some event
unfolding program
parsed = refl

-- The header of a peer that is no trusted proxy is passed over.
forged : choose_ip readers [] "6.6.6.6" (v4 9) ≡ v4 9
unfolding program
forged = refl

networks :
    parse_cidrs (λ _. some (record { ip = v4 0; ones = 8 })) " ,0.0.0.0/8"
    ≡ some (record { ip = v4 0; ones = 8 } ∷ [])
unfolding program
networks = refl

parse_nginx_line-IsAttributed_example : IsAttributed readers proxies (trim_space line) event
parse_nginx_line-IsAttributed_example =
    parse_nginx_line-IsAttributed readers proxies line event parsed
