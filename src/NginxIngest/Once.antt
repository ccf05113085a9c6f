-- ===== src/NginxIngest/Once.antt =====
-- RunNginxSecurityIngestor of nginx_security.go over any number of starts.
use kanyigo.Base.{
  ◌+◌, String, ◌≡◌, refl, sym, ap, subst, ◌∙◌, ◌⊎◌, inl, inr, some, List, [], ◌∷◌, ◌++◌, length,
  length-append, last_of, arith,
}
use mathlib.Core.List.{append_assoc}
use kanyigo.Base.Int.{ℤ, pos}
use kanyigo.Base.Table.{lookup, lookup-insert}
use text.Mathlib.TextPositions.{eq_refl}
use kanyigo.Schema.{Database, IngestState}
use kanyigo.Sql.{
  Result, ok, err, Conn, Outcome, done, refused, lost, answer, first, rest, exec_auto,
}
use kanyigo.Checkpoint.{found, get_ingest_state}
use kanyigo.MailStore.{LineRecord}
use kanyigo.Tail.{Tail, first_round}
use kanyigo.Tail.Buffer.{Bytes}
use kanyigo.Tail.Lines.{lines, unfinished, unfinished-append, lines-append}
use kanyigo.Tail.Growing.{IsFollowed}
use kanyigo.Tail.Restart.{IsCut, lines-IsCut}
use kanyigo.Tail.Opened.{IsAt}
use kanyigo.NginxDetection.Storing.{handled}
use kanyigo.NginxLine.{Readers}
use kanyigo.Config.{NginxConfig}
use kanyigo.NginxIngest.{nginx_state_key}
use kanyigo.NginxIngest.Reread.{written, replay, replay-append, replay-lines, IsPrefix}

read_answer :
    (o : Outcome) (c : Conn Database) (s : IngestState)
    → (((answer o c (ok s, c)).0 ≡ ok s) ⊎ ((e : String) × ((answer o c (ok s, c)).0 ≡ err e)))
      × ((answer o c (ok s, c)).1.db ≡ c.db)
read_answer done c s = (inl refl, refl)
read_answer refused c s = (inr (_, refl), refl)
read_answer lost c s = (inr (_, refl), refl)

pub get_ingest_state-cases :
    (key : String) (c : Conn Database)
    → (((get_ingest_state key c).0 ≡ ok (found (lookup key c.db.ingest_state)))
        ⊎ ((e : String) × ((get_ingest_state key c).0 ≡ err e)))
      × ((get_ingest_state key c).1.db ≡ c.db)
unfolding get_ingest_state exec_auto
get_ingest_state-cases key c =
    read_answer (first c.outcomes) (record c { outcomes = rest c.outcomes })
      (found (lookup key c.db.ingest_state))

module _ (readers : Readers) (cfg : NginxConfig) where
  abbrev key : String
  key = nginx_state_key cfg.path

  -- The rows are those after the lines of the first bytes of the file, up to the end of one of them,
  -- each written once and in order, and the checkpoint is there.
  pub record IsRead (inode : ℤ) (f : Bytes) (db₀ db : Database) : Type 0 where
    pub upto : Bytes
    pub behind : Bytes
    pub splits : f ≡ upto ++ behind
    pub whole : unfinished [] upto ≡ []
    pub rows : db ≡ replay readers cfg (lines inode 0 0 [] upto) db₀
    pub checkpoint : IsAt inode (length upto) (found (lookup key db.ingest_state))

  pub IsRead-unchanged :
      (inode : ℤ) (f more : Bytes) {f' : Bytes} {db₀ db db' : Database}
      → IsRead inode f db₀ db
      → f' ≡ f ++ more
      → db' ≡ db
      → IsRead inode f' db₀ db'
  IsRead-unchanged inode f more h e d = record {
    upto = h.upto;
    behind = h.behind ++ more;
    splits = e ∙ ap (λ g. g ++ more) h.splits ∙ append_assoc h.upto h.behind more;
    whole = h.whole;
    rows = d ∙ h.rows;
    checkpoint =
        subst (λ d. IsAt inode (length h.upto) (found (lookup key d.ingest_state))) (sym d)
          h.checkpoint;
  }

  written-checkpoint :
      (r : LineRecord) (db : Database)
      → lookup key (written readers cfg r db).ingest_state
        ≡ some (record { offset_bytes = r.offset; inode = r.inode })
  unfolding handled
  written-checkpoint r db =
      lookup-insert key key (record { offset_bytes = r.offset; inode = r.inode }) _
      ∙ rw (eq_refl key) refl

  rows-append :
      (inode : ℤ) (u s : Bytes) (db₀ : Database)
      → unfinished [] u ≡ []
      → replay readers cfg
          (lines inode 0 (0 + length u) [] s)
          (replay readers cfg (lines inode 0 0 [] u) db₀)
        ≡ replay readers cfg (lines inode 0 0 [] (u ++ s)) db₀
  rows-append inode u s db₀ w =
      let m = length (lines inode 0 0 [] u) in
      let db = replay readers cfg (lines inode 0 0 [] u) db₀ in
      replay-lines readers cfg inode 0 (0 + m) (0 + length u) [] s db
      ∙ ap (λ p. replay readers cfg (lines inode (0 + m) (0 + length u) p s) db) (sym w)
      ∙ sym (replay-append readers cfg (lines inode 0 0 [] u) _ db₀)
      ∙ ap (λ l. replay readers cfg l db₀) (sym (lines-append inode 0 0 [] u s))

  one_more_part :
      (inode : ℤ) (f f' : Bytes) {db₀ db db' : Database} (h : IsRead inode f db₀ db)
      (s unread : Bytes) (xs : List LineRecord) (r : LineRecord)
      → f' ≡ h.upto ++ (s ++ unread)
      → IsCut inode 0 (0 + length h.upto) [] s xs r
      → db' ≡ replay readers cfg (xs ++ r ∷ []) db
      → IsRead inode f' db₀ db'
  one_more_part inode f f' {db₀} {db} {db'} h s unread xs r e cut d = record {
    upto = h.upto ++ cut.upto;
    behind = cut.behind ++ unread;
    splits = e ∙ ap (λ s. h.upto ++ (s ++ unread)) cut.splits ∙ simp append_assoc;
    whole =
        unfinished-append [] h.upto cut.upto ∙ ap (λ p. unfinished p cut.upto) h.whole ∙ cut.whole;
    rows =
        d
        ∙ ap (λ l. replay readers cfg l db) (sym cut.sent)
        ∙ ap (replay readers cfg (lines inode 0 (0 + length h.upto) [] cut.upto)) h.rows
        ∙ rows-append inode h.upto cut.upto db₀ h.whole;
    checkpoint = inl (
        ap (λ d. found (lookup key d.ingest_state)) (d ∙ replay-append readers cfg xs (r ∷ []) db)
        ∙ ap found (written-checkpoint r (replay readers cfg xs db))
        ∙ ap (λ i. record { offset_bytes = r.offset; inode = i }) cut.inode_is
        ∙ ap (λ o. record { offset_bytes = o; inode = inode })
            (cut.offset_is ∙ ap pos (omega (arith, length-append h.upto cut.upto))));
  }

  -- A run that sends records of the file from there on
  pub run_on :
      (inode : ℤ) (f more f' : Bytes) {db₀ db db' : Database} (h : IsRead inode f db₀ db)
      (result : List LineRecord × Result Tail)
      → f' ≡ f ++ more
      → IsFollowed (first_round inode (0 + length h.upto)) h.upto f' result
      → IsPrefix readers cfg result.0 db db'
      → IsRead inode f' db₀ db'
  unfolding first_round
  run_on inode f more f' {db₀} {db} {db'} h result e run p = elim (last_of p.done) [
    | inl z ↦ IsRead-unchanged inode f more h e (p.rows ∙ ap (λ l. replay readers cfg l db) z)
    | inr (xs, r, z) ↦
        let sent =
          sym run.sent ∙ p.splits ∙ ap (λ l. l ++ p.left) z ∙ append_assoc xs (r ∷ []) p.left in
        one_more_part inode f f' h run.taken run.unread xs r run.splits
          (lines-IsCut inode 0 (0 + length h.upto) [] run.taken xs r p.left sent)
          (p.rows ∙ ap (λ l. replay readers cfg l db) z)
  ]
