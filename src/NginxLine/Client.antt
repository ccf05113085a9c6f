-- ===== src/NginxLine/Client.antt =====
-- The address that ParseNginxLine of nginx_security.go counts a request for.
use kanyigo.Base.{
  String, ◌≡◌, refl, ap, subst, inl, inr, true, false, Option, none, some, List, [], ◌∷◌, ◌++◌, All,
  str_eq, Bool-cases, Option-cases,
}
use kanyigo.Base.Int.{ℤ}
use kanyigo.Base.Table.{Table}
use kanyigo.Base.Text.{trim_space, split, atoi}
use kanyigo.LogEntry.{Time}
use kanyigo.Net.{Ip, IpNet, contains_ip}
use kanyigo.NginxDetection.{NginxEvent}
use kanyigo.NginxLine.{
  Value, Combined, Readers, untrusted, or_else, read_ip, last_client, forwarded_client_ip,
  json_string, json_int, nginx_json_timestamp, choose_ip, new_nginx_event, event_of_values,
  parse_nginx_json, event_of_groups, parse_combined, parse_nginx_line,
}

untrusted-some :
    (trusted : List IpNet) (o : Option Ip) (ip : Ip)
    → untrusted trusted o ≡ some ip
    → (o ≡ some ip) × (contains_ip trusted ip ≡ false)
unfolding untrusted
untrusted-some trusted none ip h = absurd (cc)
untrusted-some trusted (some other) ip h = elim (Bool-cases (contains_ip trusted other)) [
  | inl e ↦ let h' = rw e at h in absurd (cc)
  | inr e ↦
      let same : other ≡ ip = cc (rw e at h) in
      (ap some same, subst (λ i. contains_ip trusted i ≡ false) same e)
]

module _ (rs : Readers) (trusted : List IpNet) where
  -- No proxy that is not trusted is named by the part.
  abbrev pub IsPassedOver : String → Type 0
  IsPassedOver part = untrusted trusted (read_ip rs part) ≡ none

  -- The address is the last of the parts that is one and is not trusted.
  pub record IsLastClient (parts : List String) (ip : Ip) : Type 0 where
    pub before : List String
    pub part : String
    pub behind : List String
    pub splits : parts ≡ before ++ part ∷ behind
    pub reads : read_ip rs part ≡ some ip
    pub not_trusted : contains_ip trusted ip ≡ false
    pub passed_over : All IsPassedOver behind

  abbrev Found : List String → Option Ip → Type 0
  Found parts none = All IsPassedOver parts
  Found parts (some ip) = IsLastClient parts ip

  Found-cons :
      (part : String) (parts : List String) (here later : Option Ip)
      → untrusted trusted (read_ip rs part) ≡ here
      → Found parts later
      → Found (part ∷ parts) (or_else later here)
  Found-cons part parts none none e found = (e, found)
  Found-cons part parts (some ip) none e found =
      let (reads, not_trusted) = untrusted-some trusted (read_ip rs part) ip e in
      record {
        before = [];
        part = part;
        behind = parts;
        splits = refl;
        reads = reads;
        not_trusted = not_trusted;
        passed_over = found;
      }
  Found-cons part parts here (some ip) e found = record {
    before = part ∷ found.before;
    part = found.part;
    behind = found.behind;
    splits = ap (λ l. part ∷ l) found.splits;
    reads = found.reads;
    not_trusted = found.not_trusted;
    passed_over = found.passed_over;
  }

  last_client-Found : (parts : List String) → Found parts (last_client rs trusted parts)
  unfolding last_client
  last_client-Found [] = tt
  last_client-Found (part ∷ parts) =
      Found-cons part parts (untrusted trusted (read_ip rs part)) (last_client rs trusted parts)
        refl (last_client-Found parts)

  -- Who sent a request that came from a peer, with a header.
  pub data IsFrom (header : String) (peer ip : Ip) : Type 0 where
    direct : contains_ip trusted peer ≡ false → ip ≡ peer → IsFrom header peer ip
    proxied :
        contains_ip trusted peer ≡ true
        → IsLastClient (split b',' header) ip
        → IsFrom header peer ip
    unnamed :
        contains_ip trusted peer ≡ true
        → All IsPassedOver (split b',' header)
        → ip ≡ peer
        → IsFrom header peer ip

  IsFrom-of_Found :
      (header : String) (peer : Ip) (o : Option Ip)
      → contains_ip trusted peer ≡ true
      → Found (split b',' header) o
      → IsFrom header peer (elim o as (λ _. Ip) [ none ↦ peer | some ip ↦ ip ])
  IsFrom-of_Found header peer none e found = unnamed e found refl
  IsFrom-of_Found header peer (some ip) e found = proxied e found

  choose_ip-IsFrom :
      (header : String) (peer : Ip) → IsFrom header peer (choose_ip rs trusted header peer)
  unfolding choose_ip forwarded_client_ip
  choose_ip-IsFrom header peer = elim (Bool-cases (contains_ip trusted peer)) [
    | inr e ↦ rw e (direct e refl)
    | inl e ↦ rw e (
        IsFrom-of_Found header peer (last_client rs trusted (split b',' header)) e
          (last_client-Found (split b',' header)))
  ]

  -- Where the two texts of an event come from: a line in the combined format has no header.
  pub data IsRead (line remote header : String) : Type 0 where
    combined :
        (m : Combined)
        → rs.combined_line line ≡ some m
        → remote ≡ m.remote
        → header ≡ ""
        → IsRead line remote header
    json :
        (values : Table Value)
        → rs.unmarshal line ≡ some values
        → remote ≡ json_string rs values "remote_addr"
        → header ≡ json_string rs values "http_x_forwarded_for"
        → IsRead line remote header

  -- The event is that of the line, and its address that of who sent the request.
  pub record IsAttributed (line : String) (e : NginxEvent) : Type 0 where
    pub remote : String
    pub header : String
    pub read : IsRead line remote header
    pub peer : Ip
    pub peer_is : read_ip rs remote ≡ some peer
    pub ip : Ip
    pub from : IsFrom header peer ip
    pub remote_ip_is : e.remote_ip ≡ rs.addresses.ip_string ip
    pub raw_is : e.raw ≡ line
    pub hash_is : e.raw_hash ≡ rs.sha256_hex line

  -- Every event in a result is attributed.
  abbrev Events : String → Option NginxEvent → Type 0
  Events line none = Unit
  Events line (some e) = IsAttributed line e

  new_nginx_event-Events :
      (line : String) (timestamp : Time) (remote header method path : String) (status : ℤ)
      (user_agent : String)
      → IsRead line remote header
      → Events line
          (new_nginx_event rs trusted line timestamp remote header method path status user_agent)
  unfolding new_nginx_event
  new_nginx_event-Events line timestamp remote header method path status user_agent read =
      elim (Option-cases (read_ip rs remote)) [
        | inl e ↦ rw (Events, e) tt
        | inr (peer, e) ↦
            rw (Events, e)
              (record {
                remote = remote;
                header = header;
                read = read;
                peer = peer;
                peer_is = e;
                ip = choose_ip rs trusted header peer;
                from = choose_ip-IsFrom header peer;
                remote_ip_is = refl;
                raw_is = refl;
                hash_is = refl;
              })
      ]

  event_of_values-Events :
      (line : String) (values : Table Value)
      → rs.unmarshal line ≡ some values
      → Events line (event_of_values rs trusted line values)
  unfolding event_of_values
  event_of_values-Events line values u = elim (Option-cases (json_int rs values "status")) [
    | inl e ↦ rw (Events, e) tt
    | inr (status, e) ↦ elim (Option-cases (nginx_json_timestamp rs values)) [
      | inl f ↦ rw (Events, e, f) tt
      | inr (timestamp, f) ↦
          rw (Events, e, f)
            (new_nginx_event-Events line timestamp _ _ _ _ status _ (json values u refl refl))
    ]
  ]

  parse_nginx_json-Events : (line : String) → Events line (parse_nginx_json rs trusted line)
  unfolding parse_nginx_json
  parse_nginx_json-Events line = elim (Option-cases (rs.unmarshal line)) [
    | inl e ↦ rw (Events, e) tt
    | inr (values, e) ↦ rw (Events, e) (event_of_values-Events line values e)
  ]

  event_of_groups-Events :
      (line : String) (m : Combined)
      → rs.combined_line line ≡ some m
      → Events line (event_of_groups rs trusted line m)
  unfolding event_of_groups
  event_of_groups-Events line m c = elim (Option-cases (rs.parse_local m.time)) [
    | inl e ↦ rw (Events, e) tt
    | inr (timestamp, e) ↦ elim (Option-cases (atoi m.status)) [
      | inl f ↦ rw (Events, e, f) tt
      | inr (status, f) ↦
          rw (Events, e, f)
            (new_nginx_event-Events line timestamp _ _ _ _ status _ (combined m c refl refl))
    ]
  ]

  parse_combined-Events : (line : String) → Events line (parse_combined rs trusted line)
  unfolding parse_combined
  parse_combined-Events line = elim (Option-cases (rs.combined_line line)) [
    | inl e ↦ rw (Events, e) tt
    | inr (m, e) ↦ rw (Events, e) (event_of_groups-Events line m e)
  ]

  or_else-Events :
      (line : String) (o o' : Option NginxEvent)
      → Events line o
      → Events line o'
      → Events line (or_else o o')
  or_else-Events line none o' h k = k
  or_else-Events line (some e) o' h k = h

  -- An event that ParseNginxLine returns holds the trimmed line and its hash. Its address is that of
  -- the peer that Nginx names, unless the peer is a trusted proxy and the line has a header that names
  -- another: then it is the last address of the header that is not a trusted proxy, so that nothing
  -- that a client writes before it counts.
  pub parse_nginx_line-IsAttributed :
      (line : String) (e : NginxEvent)
      → parse_nginx_line rs trusted line ≡ some e
      → IsAttributed (trim_space line) e
  unfolding parse_nginx_line
  parse_nginx_line-IsAttributed line e h = elim (Bool-cases (str_eq (trim_space line) "")) [
    | inl b ↦ let h' = rw b at h in absurd (cc)
    | inr b ↦
        let found : or_else (parse_nginx_json rs trusted (trim_space line))
              (parse_combined rs trusted (trim_space line))
            ≡ some e =
          rw b at h in
        subst (Events (trim_space line)) found (
          or_else-Events (trim_space line) (parse_nginx_json rs trusted (trim_space line))
            (parse_combined rs trusted (trim_space line))
            (parse_nginx_json-Events (trim_space line)) (parse_combined-Events (trim_space line)))
  ]
