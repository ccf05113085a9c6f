-- ===== src/Logs/Page.antt =====
-- What handleLogs of server.go answers.
use kanyigo.Base.{
  String, ℕ, zero, suc, ◌≤◌, ◌≡◌, refl, ap, ◌∙◌, Bool, true, ◌&&◌, ◌||◌, Option, none, some, List,
  [], ◌∷◌, ◌++◌, map, length, select, arith, str_eq, leb,
}
use kanyigo.LogEntry.{Time}
use kanyigo.Schema.{Database, MailRow}
use kanyigo.Sql.{ok, exec_auto, ◌>>=◌}
use kanyigo.Logs.{
  LogQuery, LogsResponse, Readers, Postgres, text, int, like, not_before, not_after, sender_like,
  receiver_like, status_is, raw_like, Statement, add_arg, time_of, compare_time, is_time, holds,
  binds, all_hold, all_bind, count_rows, take, drop, time_or_text, normalize_time, build,
  log_record, select_rows, query_rows, page_limit, parse_int_default, handle_logs,
}
use kanyigo.Logs.Numbering.{
  AreNumbered-append, arg_at-append, arg_at-last, all_hold-append, all_bind-append, Selects,
  Selects-add_filter,
}

select-same :
    {A : Type 0} (p q : A → Bool) (xs : List A) → ((x : A) → p x ≡ q x) → select p xs ≡ select q xs
select-same p q [] h = refl
select-same p q (x ∷ xs) h = rw (h x, select-same p q xs h) refl

length-map : {A B : Type 0} (f : A → B) (xs : List A) → length (map f xs) ≡ length xs
length-map f [] = refl
length-map f (x ∷ xs) = omega (arith, length-map f xs)

length-take : {A : Type 0} (n : ℕ) (xs : List A) → length (take n xs) ≤ n
unfolding take
length-take n [] = omega arith
length-take zero (x ∷ xs) = omega arith
length-take (suc n) (x ∷ xs) = omega (arith, length-take n xs)

conjunction :
    (a b c d e f : Bool)
    → ((((((true && a) && b) && c) && d) && e) && f) ≡ (a && b && c && d && e && f)
conjunction a b c d e f = ground arith

conjunction_of_two :
    (a b c d e f : Bool)
    → ((((((true && a) && b) && (c || true)) && (d || true)) && (e || true)) && (f || true))
      ≡ (a && b)
conjunction_of_two a b c d e f = ground arith

page_limit-le : (v : String) → page_limit v ≤ 500
unfolding page_limit
page_limit-le v = ground arith

abbrev pub first_time : Option Time → Option Time → Option Time
first_time none t = t
first_time (some t) t' = some t

module _ (rs : Readers) (pg : Postgres) where
  -- The time that a parameter means.
  abbrev pub meant_time : String → Option Time
  meant_time v = first_time (rs.parse_rfc3339 v) (first_time (rs.parse_plain v) (pg.cast_time v))

  -- The rows that the parameters ask for; one that is missing asks for all.
  abbrev pub matches : LogQuery → MailRow → Bool
  matches q row =
      (str_eq q.from "" || compare_time pg (λ t. leb t row.arrival_ts_utc) (meant_time q.from))
      && (str_eq q.to "" || compare_time pg (λ t. leb row.arrival_ts_utc t) (meant_time q.to))
      && (str_eq q.sender "" || pg.ilike row.mail_from (like q.sender))
      && (str_eq q.receiver "" || pg.ilike row.mail_to (like q.receiver))
      && (str_eq q.status "" || str_eq row.status q.status)
      && (str_eq q.search "" || pg.ilike row.raw (like q.search))

  -- The times that are given can be read.
  abbrev pub is_readable : LogQuery → Bool
  is_readable q =
      (str_eq q.from "" || is_time pg (meant_time q.from))
      && (str_eq q.to "" || is_time pg (meant_time q.to))

  abbrev pub page : LogQuery → List MailRow → LogsResponse
  page q rows =
      let selected = select (matches q) rows in
      record {
        total = length selected;
        items = map (log_record rs pg) (
            take (page_limit q.limit)
              (drop (parse_int_default q.offset 0) (pg.order_desc selected)));
      }

  time_of-first :
      (t u : Option Time) (v : String)
      → time_of pg (some (time_or_text t u v)) ≡ first_time t (first_time u (pg.cast_time v))
  unfolding time_of
  time_of-first (some t) u v = refl
  time_of-first none (some u) v = refl
  time_of-first none none v = refl

  time_of-normalize : (v : String) → time_of pg (some (normalize_time rs pg v)) ≡ meant_time v
  unfolding normalize_time
  time_of-normalize v = time_of-first (rs.parse_rfc3339 v) (rs.parse_plain v) v

  build-Selects : (q : LogQuery) → Selects pg (build rs pg q) (matches q) (is_readable q)
  unfolding build holds binds all_hold all_bind
  build-Selects q =
      let nothing : Selects pg (record { where' = []; args = [] }) (λ row. true) true = record {
        numbered = tt;
        selects = λ row. refl;
        binds_if = refl;
      } in
      let selected = Selects-add_filter pg q.search raw_like (text (like q.search)) _ (
        Selects-add_filter pg q.status status_is (text q.status) _ (
          Selects-add_filter pg q.receiver receiver_like (text (like q.receiver)) _ (
            Selects-add_filter pg q.sender sender_like (text (like q.sender)) _ (
              Selects-add_filter pg q.to not_after (normalize_time rs pg q.to) _ (
                Selects-add_filter pg q.from not_before (normalize_time rs pg q.from) _
                  nothing))))) in
      record {
        numbered = selected.numbered;
        selects = λ row.
            selected.selects row
            ∙ rw (time_of-normalize q.from, time_of-normalize q.to)
                (conjunction
                  (str_eq q.from ""
                    || compare_time pg (λ t. leb t row.arrival_ts_utc) (meant_time q.from))
                  (str_eq q.to ""
                    || compare_time pg (λ t. leb row.arrival_ts_utc t) (meant_time q.to))
                  (str_eq q.sender "" || pg.ilike row.mail_from (like q.sender))
                  (str_eq q.receiver "" || pg.ilike row.mail_to (like q.receiver))
                  (str_eq q.status "" || str_eq row.status q.status)
                  (str_eq q.search "" || pg.ilike row.raw (like q.search)));
        binds_if =
            selected.binds_if
            ∙ rw (time_of-normalize q.from, time_of-normalize q.to)
                (conjunction_of_two (str_eq q.from "" || is_time pg (meant_time q.from))
                  (str_eq q.to "" || is_time pg (meant_time q.to)) (str_eq q.sender "")
                  (str_eq q.receiver "") (str_eq q.status "") (str_eq q.search ""));
      }

  counted :
      (q : LogQuery) (db : Database)
      → is_readable q ≡ true
      → count_rows pg (build rs pg q) (record { db = db; outcomes = [] })
        ≡ (ok (page q db.mail_transactions).total, record { db = db; outcomes = [] })
  unfolding count_rows exec_auto
  counted q db h =
      let s = build-Selects q in
      rw (s.binds_if, h)
        (ap (λ rows. (ok (length rows), record { db = db; outcomes = [] }))
          (select-same _ _ db.mail_transactions s.selects))

  -- The last two placeholders name the limit and the offset, and the others what they did.
  select_rows-page :
      (s : Statement) (p : MailRow → Bool) (b : Bool) (limit offset : ℕ) (rows : List MailRow)
      → Selects pg s p b
      → let args = s.args ++ int limit ∷ [] in
        let args' = args ++ int offset ∷ [] in
        (all_bind pg args' s.where' ≡ b)
        × (select_rows rs pg s.where' args' (length args) (length args') rows
            ≡ take limit (drop offset (pg.order_desc (select p rows))))
  unfolding select_rows
  select_rows-page s p b limit offset rows h =
      let args = s.args ++ int limit ∷ [] in
      let numbered = AreNumbered-append s.args (int limit ∷ []) s.where' h.numbered in
      let same : (row : MailRow) → all_hold pg (args ++ int offset ∷ []) s.where' row ≡ p row =
        λ row.
          all_hold-append pg args (int offset ∷ []) s.where' row numbered
          ∙ all_hold-append pg s.args (int limit ∷ []) s.where' row h.numbered
          ∙ h.selects row in
      (
        all_bind-append pg args (int offset ∷ []) s.where' numbered
            ∙ all_bind-append pg s.args (int limit ∷ []) s.where' h.numbered
            ∙ h.binds_if,
        rw
            (
              arg_at-append (length args) args (int offset ∷ []) (omega arith),
              arg_at-last s.args (int limit),
              arg_at-last args (int offset),
              select-same _ p rows same,
            )
            refl,
      )

  listed :
      (q : LogQuery) (db : Database)
      → is_readable q ≡ true
      → query_rows rs pg
          (build rs pg q)
          (page_limit q.limit)
          (parse_int_default q.offset 0)
          (record { db = db; outcomes = [] })
        ≡ (ok (page q db.mail_transactions).items, record { db = db; outcomes = [] })
  unfolding query_rows add_arg exec_auto
  listed q db h =
      let (bind, rows) =
        select_rows-page (build rs pg q) (matches q) (is_readable q) (page_limit q.limit)
          (parse_int_default q.offset 0) db.mail_transactions (build-Selects q) in
      rw (bind, h)
        (ap (λ l. (ok (map (log_record rs pg) l), record { db = db; outcomes = [] })) rows)

  -- If no call fails and the times that are given can be read, the answer has the number of the rows
  -- that match every parameter given, and at most 500 of them: those of the page that the limit and
  -- the offset name, where a limit or an offset that is missing, negative or no number is 100 or 0.
  -- Every condition is tested with the argument that was added for it.
  pub handle_logs-page :
      (q : LogQuery) (db : Database)
      → is_readable q ≡ true
      → (handle_logs rs pg q (record { db = db; outcomes = [] })
          ≡ (ok (page q db.mail_transactions), record { db = db; outcomes = [] }))
        × (length (page q db.mail_transactions).items ≤ 500)
  unfolding handle_logs ◌>>=◌
  handle_logs-page q db h =
      let selected = select (matches q) db.mail_transactions in
      (
        rw (counted q db h, listed q db h) refl,
        omega (
          arith,
          page_limit-le q.limit,
          length-map (log_record rs pg) (
              take (page_limit q.limit)
                (drop (parse_int_default q.offset 0) (pg.order_desc selected))),
          length-take (page_limit q.limit)
              (drop (parse_int_default q.offset 0) (pg.order_desc selected)),
        ),
      )
