-- ===== src/Cloud/Users.antt =====
-- internal/cloud/userdb.go: the accounts, the table `users`. The statements of this table fail only
-- by its constraints; an error of the database itself is left out.
pub mod Accounts
use famfun.Prelude.{
  String, List, [], ◌∷◌, ◌++◌, map, filter, Option, none, some, Bool, true, false, not, ◌||◌, ◌==◌,
  Result, ok, err, panic, errorf, str, wrap, library, or_fail, if◌then◌else◌,
}
use famfun.Prelude.Order.{str_lt}
use famfun.Prelude.Sort.{sort}

pub record User : Type 0 where
  pub id : String
  pub username : String
  pub role : String
  pub password_hash : String
  pub created_at : String
  pub login_at : String

-- The rows in the order of their insertion; a `login_at` that is NULL is the empty text.
abbrev pub UserTable : Type 0
UserTable = List User

-- bcrypt: the hash of a password, and whether a hash was made from a password.
pub record Bcrypt : Type 0 where
  pub generate_from_password : String → Result String
  pub matches : String → String → Bool

unfoldable pub is_role : String → Bool
is_role role = role == "admin" || (role == "member" || role == "guest")

-- The first row with an identifier, and with a name.
unfoldable pub find_id : String → UserTable → Option User
find_id id [] = none
find_id id (u ∷ us) = if u.id == id then some u else find_id id us

unfoldable pub find_name : String → UserTable → Option User
find_name name [] = none
find_name name (u ∷ us) = if u.username == name then some u else find_name name us

-- The INSERT with its two constraints.
unfoldable pub insert_user : User → UserTable → Result UserTable
insert_user u t = elim (find_id u.id t) [
  | some _ ↦ err (library "UNIQUE constraint failed: users.id")
  | none ↦ elim (find_name u.username t) [
    | some _ ↦ err (library "UNIQUE constraint failed: users.username")
    | none ↦ ok (t ++ u ∷ [])
  ]
]

-- What CreateUser returns after the INSERT: a user without its time.
abbrev pub inserted : User → UserTable → Result UserTable → Result User × UserTable
inserted u t (ok t') = (ok (record u { created_at = "" }), t')
inserted u t (err e) = (err (wrap "insert user" e), t)
inserted u t panic = (panic, t)

abbrev pub role_or_guest : String → String
role_or_guest role = if is_role role then role else "guest"

abbrev pub new_user : String → String → String → String → String → User
new_user id now username role hash = record {
  id = id;
  username = username;
  role = role_or_guest role;
  password_hash = hash;
  created_at = now;
  login_at = "";
}

-- What CreateUser does with the hash of the password.
abbrev pub with_hash :
    String → String → String → String → UserTable → Result String → Result User × UserTable
with_hash id now username role t (ok hash) =
    let u = new_user id now username role hash in inserted u t (insert_user u t)
with_hash id now username role t (err e) = (err (wrap "hash password" e), t)
with_hash id now username role t panic = (panic, t)

-- `id` is the new UUID, `now` CURRENT_TIMESTAMP.
unfoldable pub create_user :
    Bcrypt → String → String → String → String → String → UserTable → Result User × UserTable
create_user b id now username password role t =
    with_hash id now username role t (b.generate_from_password password)

unfoldable pub get_user_by_username : String → UserTable → Result User
get_user_by_username username t =
    or_fail (find_name username t) (errorf "user %q not found" (str username ∷ []))

unfoldable pub get_user_by_id : String → UserTable → Result User
get_user_by_id id t = or_fail (find_id id t) (errorf "user not found" [])

-- An UPDATE of the rows with an identifier.
unfoldable pub update_where : String → (User → User) → UserTable → UserTable
update_where id f [] = []
update_where id f (u ∷ us) = (if u.id == id then f u else u) ∷ update_where id f us

unfoldable pub update_login_at : String → String → UserTable → UserTable
update_login_at now id t = update_where id (λ u. record u { login_at = now }) t

-- The query leaves the password hashes out.
abbrev pub without_hash : User → User
without_hash u = record u { password_hash = "" }

unfoldable pub list_users : UserTable → List User
list_users t = map without_hash (sort (λ a b. str_lt a.created_at b.created_at) t)

unfoldable pub delete_user : String → UserTable → UserTable
delete_user id t = filter (λ u. not (u.id == id)) t

unfoldable pub update_user_role : String → String → UserTable → Result (Unit {0}) × UserTable
update_user_role id role t =
    if not (is_role role)
    then (err (errorf "invalid role: %s" (str role ∷ [])), t)
    else (ok tt, update_where id (λ u. record u { role = role }) t)

abbrev pub with_new_hash : String → UserTable → Result String → Result (Unit {0}) × UserTable
with_new_hash id t (ok hash) = (ok tt, update_where id (λ u. record u { password_hash = hash }) t)
with_new_hash id t (err e) = (err (wrap "hash password" e), t)
with_new_hash id t panic = (panic, t)

unfoldable pub update_user_password :
    Bcrypt → String → String → UserTable → Result (Unit {0}) × UserTable
update_user_password b id password t = with_new_hash id t (b.generate_from_password password)

-- The account that NewVideoStore makes if there is none of its name; an error is dropped.
unfoldable pub seed_demo_user : Bcrypt → String → String → UserTable → UserTable
seed_demo_user b id now t = elim (get_user_by_username "kamlu" t) [
  | ok _ ↦ t
  | _ ↦ (create_user b id now "kamlu" "LUtrend#1." "admin" t).1
]
