-- ===== src/NginxIngest/Reread.antt =====
-- What the loop of RunNginxSecurityIngestor in nginx_security.go has stored, wherever it stops.
use kanyigo.Base.{ℕ, zero, suc, ◌≡◌, refl, ap, ◌∙◌, inl, inr, Bool-cases, List, [], ◌∷◌, ◌++◌}
use mathlib.Core.List.{append_assoc}
use kanyigo.Base.Int.{ℤ}
use kanyigo.Schema.{Database}
use kanyigo.Sql.{ok, Conn, Result-cases, ◌>>=◌}
use kanyigo.MailStore.{LineRecord}
use kanyigo.Tail.Buffer.{Bytes, is_newline}
use kanyigo.Tail.Lines.{lines}
use kanyigo.NginxDetection.Storing.{
  handled, Handled, unchanged, complete, persist_nginx_event-Handled,
}
use kanyigo.NginxLine.{Readers, parse_nginx_line}
use kanyigo.Config.{NginxConfig}
use kanyigo.NginxIngest.{nginx_state_key, first_records, ingest_line, ingest_lines}

pub first_records-splits :
    (n : ℕ) (rs : List LineRecord) → (left : List LineRecord) × (rs ≡ first_records n rs ++ left)
first_records-splits zero rs = (rs, refl)
first_records-splits (suc n) [] = ([], refl)
first_records-splits (suc n) (r ∷ rs) =
    let (left, e) = first_records-splits n rs in (left, ap (λ l. r ∷ l) e)

module _ (readers : Readers) (cfg : NginxConfig) where
  -- All that the line of a record writes.
  abbrev pub written : LineRecord → Database → Database
  written r =
      handled cfg.detection (nginx_state_key cfg.path) r
        (parse_nginx_line readers cfg.trusted_proxy_cidrs r.text)

  abbrev pub replay : List LineRecord → Database → Database
  replay [] db = db
  replay (r ∷ rs) db = replay rs (written r db)

  pub replay-append :
      (rs ss : List LineRecord) (db : Database) → replay (rs ++ ss) db ≡ replay ss (replay rs db)
  replay-append [] ss db = refl
  replay-append (r ∷ rs) ss db = replay-append rs ss (written r db)

  -- The numbers of the records do not matter.
  pub replay-lines :
      (inode : ℤ) (n m o : ℕ) (p s : Bytes) (db : Database)
      → replay (lines inode n o p s) db ≡ replay (lines inode m o p s) db
  unfolding lines handled
  replay-lines inode n m o p [] db = refl
  replay-lines inode n m o p (c ∷ s) db = elim (Bool-cases (is_newline c)) [
    | inl e ↦ rw e (replay-lines inode (suc n) (suc m) (suc o) [] s _)
    | inr e ↦ rw e (replay-lines inode n m (suc o) (p ++ c ∷ []) s db)
  ]

  -- The first records are stored, and no others.
  pub record IsPrefix (rs : List LineRecord) (db₀ db : Database) : Type 0 where
    pub done : List LineRecord
    pub left : List LineRecord
    pub splits : rs ≡ done ++ left
    pub rows : db ≡ replay done db₀

  pub IsPrefix-more :
      (rs more : List LineRecord) {db₀ db : Database}
      → IsPrefix rs db₀ db
      → IsPrefix (rs ++ more) db₀ db
  IsPrefix-more rs more h = record {
    done = h.done;
    left = h.left ++ more;
    splits = ap (λ l. l ++ more) h.splits ∙ append_assoc h.done h.left more;
    rows = h.rows;
  }

  one_written :
      (r : LineRecord) (rs : List LineRecord) (c : Conn Database)
      → Handled cfg.detection
          (nginx_state_key cfg.path)
          r
          (parse_nginx_line readers cfg.trusted_proxy_cidrs r.text)
          c.db
          (ingest_line readers cfg r c)
      → IsPrefix (r ∷ rs) c.db (ingest_line readers cfg r c).1.db
  one_written r rs c (unchanged e _ d) = record {
    done = [];
    left = r ∷ rs;
    splits = refl;
    rows = d;
  }
  one_written r rs c (complete d) = record { done = r ∷ []; left = rs; splits = refl; rows = d }

  written_by :
      (r : LineRecord) (c : Conn Database)
      → Handled cfg.detection
          (nginx_state_key cfg.path)
          r
          (parse_nginx_line readers cfg.trusted_proxy_cidrs r.text)
          c.db
          (ingest_line readers cfg r c)
      → (ingest_line readers cfg r c).0 ≡ ok tt
      → (ingest_line readers cfg r c).1.db ≡ written r c.db
  written_by r c (unchanged e f _) h = absurd (cc)
  written_by r c (complete d) h = d

  and_rest :
      (r : LineRecord) (rs : List LineRecord) {db₀ db₁ db : Database}
      → db₁ ≡ written r db₀
      → IsPrefix rs db₁ db
      → IsPrefix (r ∷ rs) db₀ db
  and_rest r rs e h = record {
    done = r ∷ h.done;
    left = h.left;
    splits = ap (λ l. r ∷ l) h.splits;
    rows = h.rows ∙ ap (replay h.done) e;
  }

  -- Whatever calls fail, the rows are those after the first of the records.
  pub ingest_lines-IsPrefix :
      (rs : List LineRecord) (c : Conn Database)
      → IsPrefix rs c.db (ingest_lines readers cfg rs c).1.db
  unfolding ingest_lines ◌>>=◌
  ingest_lines-IsPrefix [] c = record { done = []; left = []; splits = refl; rows = refl }
  ingest_lines-IsPrefix (r ∷ rs) c =
      let stored =
        persist_nginx_event-Handled cfg.detection (nginx_state_key cfg.path) r
          (parse_nginx_line readers cfg.trusted_proxy_cidrs r.text) c in
      elim (Result-cases (ingest_line readers cfg r c).0) [
        | inl (_, e) ↦ rw e (
            and_rest r rs (written_by r c stored e)
              (ingest_lines-IsPrefix rs (ingest_line readers cfg r c).1))
        | inr (_, e) ↦ rw e (one_written r rs c stored)
      ]
