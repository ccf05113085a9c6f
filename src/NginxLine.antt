-- ===== src/NginxLine.antt =====
-- The parser of Nginx lines: ParseNginxLine, parseNginxJSON, newNginxEvent and what they call in
-- nginx_security.go. The groups of nginxCombinedLine, the decoder of JSON, the readers of times and
-- floats, of addresses and of request URIs, and the hash are a parameter.
pub mod Client
mod Examples
use Prim.Native.String as NativeString
use kanyigo.Base.{
  ℕ, String, Bool, true, false, not, ◌&&◌, Option, none, some, List, [], ◌∷◌, str_eq, if◌then◌else◌,
}
use kanyigo.Base.Int.{ℤ}
use kanyigo.Base.Table.{Table, lookup}
use kanyigo.Base.Text.{trim_space, split, fields, atoi}
use kanyigo.LogEntry.{Float64, Time}
use kanyigo.Net.{Ip, IpNet, Texts, contains_ip}
use kanyigo.NginxDetection.{NginxEvent}

-- A value of JSON, as it is decoded into an `interface{}`; `other` is a Boolean, an object or an
-- array, by the text that fmt.Sprint writes for it.
pub data Value : Type 0 where
  null : Value
  text : String → Value
  number : Float64 → Value
  other : String → Value

-- The groups of a match of nginxCombinedLine.
pub record Combined : Type 0 where
  pub remote : String
  pub time : String
  pub method : String
  pub path : String
  pub status : String
  pub user_agent : String

-- `none` is an error, or no match. `unix_time` is the time of a number of seconds since 1970, and
-- `request_path` the Path of a request URI.
pub record Readers : Type 0 where
  pub combined_line : String → Option Combined
  pub unmarshal : String → Option (Table Value)
  pub sprint_float : Float64 → String
  pub float_to_int : Float64 → ℤ
  pub parse_float : String → Option Float64
  pub unix_time : Float64 → Time
  pub parse_rfc3339_nano : String → Option Time
  pub parse_local : String → Option Time
  pub request_path : String → Option String
  pub sha256_hex : String → String
  pub addresses : Texts

-- parseCIDRs, with net.ParseCIDR; `none` is its error.
unfoldable pub parse_items : (String → Option IpNet) → List String → Option (List IpNet)
parse_items parse_cidr [] = some []
parse_items parse_cidr (item ∷ items) =
    let rest = parse_items parse_cidr items in
    if str_eq (trim_space item) "" then rest else (elim (parse_cidr (trim_space item)) [
      | none ↦ none
      | some network ↦ elim rest [ none ↦ none | some networks ↦ some (network ∷ networks) ]
    ])

unfoldable pub parse_cidrs : (String → Option IpNet) → String → Option (List IpNet)
parse_cidrs parse_cidr value = parse_items parse_cidr (split b',' value)

-- `ip != nil && !isTrustedProxy(ip, trusted)`
unfoldable pub untrusted : List IpNet → Option Ip → Option Ip
untrusted trusted none = none
untrusted trusted (some ip) = if contains_ip trusted ip then none else some ip

abbrev pub or_else {ℓ} : {A : Type ℓ} → Option A → Option A → Option A
or_else none o = o
or_else (some a) o = some a

-- `parts[0]` and `parts[1]`, if there are two parts; the empty request has none.
first_two : List String → Option (String × String)
first_two (first ∷ second ∷ parts) = some (first, second)
first_two _ = none

if_empty : String → String → String
if_empty value default = if str_eq value "" then default else value

-- The method and the path, or those of the request line where they are empty
unfoldable pub method_and_path : String → String → String → String × String
unfolding first_two if_empty
method_and_path request method path = elim (first_two (fields request)) [
  | none ↦ (method, path)
  | some (first, second) ↦ (if_empty method first, if_empty path second)
]

module _ (rs : Readers) where
  unfoldable pub read_ip : String → Option Ip
  read_ip s = rs.addresses.parse_ip (trim_space s)

  -- The loop of forwardedClientIP, from the last part to the first
  unfoldable pub last_client : List IpNet → List String → Option Ip
  last_client trusted [] = none
  last_client trusted (part ∷ parts) =
      or_else (last_client trusted parts) (untrusted trusted (read_ip part))

  unfoldable pub forwarded_client_ip : String → List IpNet → Option Ip
  forwarded_client_ip value trusted = last_client trusted (split b',' value)

  -- fmt.Sprint
  unfoldable pub sprint : Value → String
  sprint null = "<nil>"
  sprint (text s) = s
  sprint (number f) = rs.sprint_float f
  sprint (other s) = s

  -- `!ok || value == nil`
  unfoldable pub string_of : Option Value → String
  string_of none = ""
  string_of (some null) = ""
  string_of (some value) = trim_space (sprint value)

  unfoldable pub json_string : Table Value → String → String
  json_string values key = string_of (lookup key values)

  unfoldable pub int_of : Option Value → Option ℤ
  int_of none = none
  int_of (some (number f)) = some (rs.float_to_int f)
  int_of (some (text s)) = atoi s
  int_of (some value) = atoi (sprint value)

  unfoldable pub json_int : Table Value → String → Option ℤ
  json_int values key = int_of (lookup key values)

  -- The time under one of the two keys, unless it is missing or not in the format
  unfoldable pub iso_time : Table Value → String → Option Time
  iso_time values key =
      let value = json_string values key in
      if str_eq value "" then none else rs.parse_rfc3339_nano value

  unfoldable pub msec_time : Option Value → Option Time
  msec_time none = none
  msec_time (some value) = elim (rs.parse_float (sprint value)) [
    | none ↦ none
    | some seconds ↦ some (rs.unix_time seconds)
  ]

  unfoldable pub local_time : Table Value → Option Time
  local_time values =
      let value = json_string values "time_local" in
      if not (str_eq value "") then rs.parse_local value else msec_time (lookup "msec" values)

  unfoldable pub nginx_json_timestamp : Table Value → Option Time
  nginx_json_timestamp values =
      or_else (or_else (iso_time values "time_iso8601") (iso_time values "timestamp"))
        (local_time values)

  -- The address that a request is counted for
  unfoldable pub choose_ip : List IpNet → String → Ip → Ip
  choose_ip trusted forwarded_for ip =
      if contains_ip trusted ip
      then (elim (forwarded_client_ip forwarded_for trusted) [
        | none ↦ ip
        | some forwarded ↦ forwarded
      ])
      else ip

  -- `err == nil && parsed.Path != ""`
  unfoldable pub event_path : String → String
  event_path path = elim (rs.request_path path) [
    | none ↦ path
    | some parsed ↦ if str_eq parsed "" then path else parsed
  ]

  -- `remote_ip` and `forwarded_for` are the texts of the line.
  unfoldable pub new_nginx_event :
      List IpNet
      → String
      → Time
      → String
      → String
      → String
      → String
      → ℤ
      → String
      → Option NginxEvent
  new_nginx_event trusted line timestamp remote_ip forwarded_for method path status user_agent =
      elim (read_ip remote_ip) [
        | none ↦ none
        | some ip ↦ some (record {
          timestamp = timestamp;
          remote_ip = rs.addresses.ip_string (choose_ip trusted forwarded_for ip);
          method = method;
          path = event_path path;
          status = status;
          user_agent = user_agent;
          raw = line;
          raw_hash = rs.sha256_hex line;
        })
      ]

  unfoldable pub event_of_values : List IpNet → String → Table Value → Option NginxEvent
  event_of_values trusted line values =
      let (method, path) =
        method_and_path (json_string values "request") (json_string values "request_method")
          (json_string values "uri") in
      elim (json_int values "status") [
        | none ↦ none
        | some status ↦ elim (nginx_json_timestamp values) [
          | none ↦ none
          | some timestamp ↦
              new_nginx_event trusted line timestamp (json_string values "remote_addr")
                (json_string values "http_x_forwarded_for") method path status
                (json_string values "http_user_agent")
        ]
      ]

  unfoldable pub parse_nginx_json : List IpNet → String → Option NginxEvent
  parse_nginx_json trusted line = elim (rs.unmarshal line) [
    | none ↦ none
    | some values ↦ event_of_values trusted line values
  ]

  unfoldable pub event_of_groups : List IpNet → String → Combined → Option NginxEvent
  event_of_groups trusted line m = elim (rs.parse_local m.time) [
    | none ↦ none
    | some timestamp ↦ elim (atoi m.status) [
      | none ↦ none
      | some status ↦
          new_nginx_event trusted line timestamp m.remote "" m.method m.path status m.user_agent
    ]
  ]

  unfoldable pub parse_combined : List IpNet → String → Option NginxEvent
  parse_combined trusted line = elim (rs.combined_line line) [
    | none ↦ none
    | some m ↦ event_of_groups trusted line m
  ]

  -- `none` is the answer `nil, false`.
  unfoldable pub parse_nginx_line : List IpNet → String → Option NginxEvent
  parse_nginx_line trusted line =
      let trimmed = trim_space line in
      if str_eq trimmed ""
      then none
      else or_else (parse_nginx_json trusted trimmed) (parse_combined trusted trimmed)
