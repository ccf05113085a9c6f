-- ===== src/Users/Examples.antt =====
-- An administrator lists the users and adds one, and the theorems at these requests.
use kanyigo.Base.{◌≡◌, refl, subst, true, none, some, [], ◌∷◌, str_eq}
use text.Mathlib.TextPositions.{eq_refl}
use kanyigo.Base.Table.{lookup, retain}
use kanyigo.Base.Text.{to_lower, trim_space}
use kanyigo.Schema.{Database, empty_database}
use kanyigo.Sql.{Conn, exec_auto}
use kanyigo.Auth.{Packages, bytes, normalize_email, by_email, insert_user, purge}
use kanyigo.Auth as Auth
use kanyigo.Auth.Created.{IsBcrypt}
use kanyigo.Users.{
  AuthUser, UserRequest, user_json, items_json, failure, precedes, insert_ordered, newest_first,
  list_users, create_user, users_as, handle_users, handle_me,
}
use kanyigo.Users.Listing.{IsListing, handle_users-IsListing}
use kanyigo.Users.Login.{posted, LogsIn, handle_users-LogsIn}

abbrev packages : Packages
packages = record {
  is_address = λ s. true;
  generate = λ p. some p;
  compare_hash = λ hash p. str_eq hash p;
  hash_token = λ t. t;
}

abbrev admin : AuthUser
admin = record { id = 1; email = "a@b.c"; role = "admin"; created_at = 5 }

abbrev reader : AuthUser
reader = record { id = 2; email = "x@y.z"; role = "user"; created_at = 9 }

abbrev two_users : Database
two_users = record empty_database {
  dashboard_users =
      record { id = 1; email = "a@b.c"; password_hash = "p"; role = "admin"; created_at = 5 }
      ∷ record { id = 2; email = "x@y.z"; password_hash = "q"; role = "user"; created_at = 9 }
      ∷ [];
  next_id = 3;
}

abbrev quiet : Conn Database
quiet = record { db = two_users; outcomes = [] }

abbrev added : UserRequest
added = record { email = " N@b.c "; password = "long enough"; role = "user" }

program : Unit {0}
unfolding lookup retain to_lower trim_space exec_auto bytes normalize_email by_email insert_user
    purge Auth.create_user precedes insert_ordered newest_first list_users create_user users_as
    handle_users handle_me
program = tt

listed :
    (handle_users (some admin) packages 20 "GET" none quiet).0
    ≡ items_json 200 (reader ∷ admin ∷ [])
unfolding program
listed = refl

no_admin :
    (handle_users (some reader) packages 20 "POST" (some added) quiet)
    ≡ (failure 403 "admin access required", quiet)
unfolding program
no_admin = refl

me : handle_me (some reader) "GET" ≡ user_json 200 reader
unfolding program
me = refl

handle_users-IsListing_example :
    IsListing (some admin) "GET" two_users two_users 200 (reader ∷ admin ∷ [])
unfolding program
handle_users-IsListing_example =
    handle_users-IsListing (some admin) packages 20 "GET" none quiet listed

abbrev new_user : AuthUser
new_user = record { id = 3; email = "n@b.c"; role = "user"; created_at = 20 }

packages_fine : IsBcrypt packages
packages_fine password hash e =
    let same : password ≡ hash = cc (e) in
    subst (λ h. str_eq h password ≡ true) same (eq_refl password)

handle_users-LogsIn_example :
    LogsIn packages 20 added two_users
      (some admin)
      30
      "t0ken"
      new_user
      (posted packages 20 added two_users (some admin)).1.db
unfolding program
handle_users-LogsIn_example =
    handle_users-LogsIn packages 20 added two_users (some admin) 30 "t0ken" packages_fine refl refl
