-- ===== src/Users/Listing.antt =====
-- The list of users that handleUsers of auth.go answers.
use kanyigo.Base.{
  ℕ, String, ◌≡◌, refl, sym, subst, true, false, Option, none, some, List, [], ◌∷◌, map, inl, inr,
  Bool-cases, str_eq, arith,
}
use mathlib.Core.List.{Perm}
use mathlib.Core.List.Perm
use kanyigo.LogEntry.{Time}
use kanyigo.Schema.{Database, UserRow}
use kanyigo.Sql.{
  Result, ok, err, Outcome, done, refused, lost, Conn, answer, first, rest, exec_auto,
}
use kanyigo.Auth.{Packages}
use kanyigo.Users.{
  AuthUser, auth_user, UserRequest, items_json, precedes, insert_ordered, newest_first, listed,
  list_users, made, create_user, users_as, handle_users,
}

-- The head of a list may stand behind `a`.
abbrev pub IsAhead : AuthUser → List AuthUser → Type 0
IsAhead a [] = Unit
IsAhead a (b ∷ bs) = precedes a b ≡ true

abbrev pub IsNewestFirst : List AuthUser → Type 0
IsNewestFirst [] = Unit
IsNewestFirst (a ∷ bs) = IsAhead a bs × IsNewestFirst bs

precedes_total : (a b : AuthUser) → precedes a b ≡ false → precedes b a ≡ true
unfolding precedes
precedes_total a b h = ground arith

IsAhead-insert_ordered :
    (b a : AuthUser) (bs : List AuthUser)
    → precedes b a ≡ true
    → IsAhead b bs
    → IsAhead b (insert_ordered a bs)
unfolding insert_ordered
IsAhead-insert_ordered b a [] h k = h
IsAhead-insert_ordered b a (c ∷ bs) h k = elim (Bool-cases (precedes a c)) [
  | inl e ↦ rw e h
  | inr e ↦ rw e k
]

insert_ordered-IsNewestFirst :
    (a : AuthUser) (bs : List AuthUser) → IsNewestFirst bs → IsNewestFirst (insert_ordered a bs)
unfolding insert_ordered
insert_ordered-IsNewestFirst a [] h = (tt, tt)
insert_ordered-IsNewestFirst a (b ∷ bs) h = elim (Bool-cases (precedes a b)) [
  | inl e ↦ rw e (e, h)
  | inr e ↦ rw e (
    IsAhead-insert_ordered b a bs (precedes_total a b e) h.0,
    insert_ordered-IsNewestFirst a bs h.1,
  )
]

insert_ordered-Perm : (a : AuthUser) (bs : List AuthUser) → Perm (insert_ordered a bs) (a ∷ bs)
unfolding insert_ordered
insert_ordered-Perm a [] = Perm.refl (a ∷ [])
insert_ordered-Perm a (b ∷ bs) = elim (Bool-cases (precedes a b)) [
  | inl e ↦ rw e (Perm.refl (a ∷ b ∷ bs))
  | inr e ↦ rw e (Perm.trans (Perm.cons b (insert_ordered-Perm a bs)) (Perm.swap a b bs))
]

newest_first-IsNewestFirst : (rows : List UserRow) → IsNewestFirst (newest_first rows)
unfolding newest_first
newest_first-IsNewestFirst [] = tt
newest_first-IsNewestFirst (row ∷ rows) =
    insert_ordered-IsNewestFirst (auth_user row) (newest_first rows)
      (newest_first-IsNewestFirst rows)

newest_first-Perm : (rows : List UserRow) → Perm (newest_first rows) (map auth_user rows)
unfolding newest_first
newest_first-Perm [] = Perm.refl []
newest_first-Perm (row ∷ rows) =
    Perm.trans (insert_ordered-Perm (auth_user row) (newest_first rows))
      (Perm.cons (auth_user row) (newest_first-Perm rows))

-- What an answer with a list of users tells.
pub record IsListing (user : Option AuthUser) (method : String) (db db' : Database) (code : ℕ)
    (items : List AuthUser) : Type 0 where
  pub admin : (u : AuthUser) × (user ≡ some u) × (str_eq u.role "admin" ≡ true)
  pub by_get : str_eq method "GET" ≡ true
  pub fine : code ≡ 200
  pub all : Perm items (map auth_user db.dashboard_users)
  pub newest_first : IsNewestFirst items
  pub unchanged : db' ≡ db

list_answer :
    (o : Outcome) (c : Conn Database) (all : List AuthUser) {code : ℕ} {items : List AuthUser}
    → listed (answer o c (ok all, c)).0 ≡ items_json code items
    → (200 ≡ code) × (all ≡ items) × ((answer o c (ok all, c)).1.db ≡ c.db)
list_answer done c all h = (cc (h), cc (h), refl)
list_answer refused c all h = absurd (cc)
list_answer lost c all h = absurd (cc)

list_users-answer :
    (c : Conn Database) {code : ℕ} {items : List AuthUser}
    → (list_users c).0 ≡ items_json code items
    → (200 ≡ code) × (newest_first c.db.dashboard_users ≡ items) × ((list_users c).1.db ≡ c.db)
unfolding list_users exec_auto
list_users-answer c h =
    list_answer (first c.outcomes) (record c { outcomes = rest c.outcomes })
      (newest_first c.db.dashboard_users) h

made_no_items :
    (r : Result UserRow) {code : ℕ} {items : List AuthUser} → made r ≡ items_json code items → ⊥
made_no_items (ok row) h = cc
made_no_items (err e) h = cc

create_user_no_items :
    (packages : Packages) (now : Time) (body : Option UserRequest) (c : Conn Database) {code : ℕ}
    {items : List AuthUser}
    → (create_user packages now body c).0 ≡ items_json code items
    → ⊥
unfolding create_user
create_user_no_items packages now none c h = cc
create_user_no_items packages now (some req) c h = made_no_items _ h

-- Whatever the server answers: if handleUsers answers with a list, an administrator asked for it with a GET; it
-- holds every user once and no other, without the hash of a password, with the newest first; and
-- the database is as it was.
pub handle_users-IsListing :
    (user : Option AuthUser) (packages : Packages) (now : Time) (method : String)
    (body : Option UserRequest) (c : Conn Database) {code : ℕ} {items : List AuthUser}
    → (handle_users user packages now method body c).0 ≡ items_json code items
    → IsListing user method c.db (handle_users user packages now method body c).1.db code items
unfolding handle_users users_as
handle_users-IsListing none packages now method body c h = absurd (cc)
handle_users-IsListing (some u) packages now method body c {code} {items} h =
    elim (Bool-cases (str_eq u.role "admin")) [
      | inr e ↦ let h' = rw e at h in absurd (cc)
      | inl e ↦ elim (Bool-cases (str_eq method "GET")) [
        | inl f ↦
            let (fine, same, db) = list_users-answer c (rw (e, f) at h) in
            rw (e, f)
              (record {
                admin = (u, refl, e);
                by_get = f;
                fine = sym fine;
                all =
                    subst (λ l. Perm l (map auth_user c.db.dashboard_users)) same
                      (newest_first-Perm c.db.dashboard_users);
                newest_first =
                    subst IsNewestFirst same (newest_first-IsNewestFirst c.db.dashboard_users);
                unchanged = db;
              })
        | inr f ↦ elim (Bool-cases (str_eq method "POST")) [
          | inl g ↦ absurd (create_user_no_items packages now body c (rw (e, f, g) at h))
          | inr g ↦ let h' = rw (e, f, g) at h in absurd (cc)
        ]
      ]
    ]
