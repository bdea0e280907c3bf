-- ===== src/Cloud/Users/Accounts.antt =====
-- internal/cloud/userdb.go: what holds of the accounts after any calls.
use famfun.Prelude.{
  ◌≡◌, refl, subst, String, List, [], ◌∷◌, ◌++◌, none, some, true, ◌==◌, Result, ok, err, panic,
  arith, Bool-cases, inl, inr, eq_iff, if◌then◌else◌,
}
use famfun.Cloud.Users.{
  User, UserTable, Bcrypt, is_role, find_id, find_name, insert_user, create_user, inserted,
  with_hash, with_new_hash, role_or_guest, new_user, update_where, update_login_at, delete_user,
  update_user_role, update_user_password,
}

-- No two accounts share an identifier or a name, and every role is one of the three.
abbrev pub IsValid : UserTable → Type 0
IsValid [] = Unit
IsValid (u ∷ us) =
    (find_id u.id us ≡ none)
    × (find_name u.username us ≡ none)
    × (is_role u.role ≡ true)
    × IsValid us

pub find_id-append :
    (id : String) (t : UserTable) (u : User)
    → find_id id (t ++ u ∷ [])
      ≡ (elim (find_id id t) [ some v ↦ some v | none ↦ if u.id == id then some u else none ])
unfolding find_id
find_id-append id [] u = refl
find_id-append id (v ∷ t) u = ground (arith, find_id-append id t u)

pub find_name-append :
    (name : String) (t : UserTable) (u : User)
    → find_name name (t ++ u ∷ []) ≡ (elim (find_name name t) [
      | some v ↦ some v
      | none ↦ if u.username == name then some u else none
    ])
unfolding find_name
find_name-append name [] u = refl
find_name-append name (v ∷ t) u = ground (arith, find_name-append name t u)

append-IsValid :
    (t : UserTable) (u : User)
    → IsValid t
    → find_id u.id t ≡ none
    → find_name u.username t ≡ none
    → is_role u.role ≡ true
    → IsValid (t ++ u ∷ [])
unfolding find_id find_name
append-IsValid [] u v i n r = (refl, refl, r, tt)
append-IsValid (w ∷ t) u v i n r = ground (
  arith,
  append-IsValid t u v.3,
  find_id-append w.id t u,
  find_name-append w.username t u,
  eq_iff u.id w.id,
  eq_iff w.id u.id,
  eq_iff u.username w.username,
  eq_iff w.username u.username,
)

-- An update that leaves identifier and name alone and makes no bad role.
abbrev Keeps : (User → User) → Type 0
Keeps f =
    (u : User)
    → ((f u).id ≡ u.id)
      × ((f u).username ≡ u.username)
      × (is_role u.role ≡ true → is_role (f u).role ≡ true)

module _ (id : String) (f : User → User) (k : Keeps f) where
  find_id-update :
      (j : String) (t : UserTable) → find_id j t ≡ none → find_id j (update_where id f t) ≡ none
  unfolding find_id update_where
  find_id-update j [] h = refl
  find_id-update j (u ∷ t) h = ground (arith, find_id-update j t, k u)

  find_name-update :
      (n : String) (t : UserTable) → find_name n t ≡ none → find_name n (update_where id f t) ≡ none
  unfolding find_name update_where
  find_name-update n [] h = refl
  find_name-update n (u ∷ t) h = ground (arith, find_name-update n t, k u)

  update_where-IsValid : (t : UserTable) → IsValid t → IsValid (update_where id f t)
  unfolding update_where
  update_where-IsValid [] v = tt
  update_where-IsValid (u ∷ t) v =
      ground (
        arith,
        update_where-IsValid t v.3,
        find_id-update u.id t,
        find_name-update u.username t,
        k u,
      )

find_id-delete :
    (id j : String) (t : UserTable) → find_id j t ≡ none → find_id j (delete_user id t) ≡ none
unfolding find_id delete_user
find_id-delete id j [] h = refl
find_id-delete id j (u ∷ t) h = ground (arith, find_id-delete id j t)

find_name-delete :
    (id n : String) (t : UserTable) → find_name n t ≡ none → find_name n (delete_user id t) ≡ none
unfolding find_name delete_user
find_name-delete id n [] h = refl
find_name-delete id n (u ∷ t) h = ground (arith, find_name-delete id n t)

delete_user-IsValid : (id : String) (t : UserTable) → IsValid t → IsValid (delete_user id t)
unfolding delete_user
delete_user-IsValid id [] v = tt
delete_user-IsValid id (u ∷ t) v = ground (
  arith,
  delete_user-IsValid id t v.3,
  find_id-delete id u.id t,
  find_name-delete id u.username t,
)

chosen_role-is_role : (role : String) → is_role (role_or_guest role) ≡ true
unfolding is_role
chosen_role-is_role role = elim (Bool-cases (is_role role)) [ inl e ↦ rw e e | inr e ↦ rw e refl ]

insert_user-ok :
    (u : User) (t t' : UserTable)
    → insert_user u t ≡ ok t'
    → (find_id u.id t ≡ none) × (find_name u.username t ≡ none) × (t ++ u ∷ [] ≡ t')
unfolding insert_user
insert_user-ok u t t' h = ground arith

inserted-IsValid :
    (u : User) (t : UserTable) (r : Result UserTable)
    → IsValid t
    → ((t' : UserTable) → r ≡ ok t' → IsValid t')
    → IsValid (inserted u t r).1
inserted-IsValid u t (ok t') v k = k t' refl
inserted-IsValid u t (err e) v k = v
inserted-IsValid u t panic v k = v

with_hash-IsValid :
    (id now name role : String) (t : UserTable) (r : Result String)
    → IsValid t
    → IsValid (with_hash id now name role t r).1
with_hash-IsValid id now name role t (ok hash) v =
    let u = new_user id now name role hash in
    inserted-IsValid u t (insert_user u t) v (λ t' h.
      let (i, n, same) = insert_user-ok u t t' h in
      subst IsValid same (append-IsValid t u v i n (chosen_role-is_role role)))
with_hash-IsValid id now name role t (err e) v = v
with_hash-IsValid id now name role t panic v = v

create_user-IsValid :
    (b : Bcrypt) (id now name password role : String) (t : UserTable)
    → IsValid t
    → IsValid (create_user b id now name password role t).1
unfolding create_user
create_user-IsValid b id now name password role t v =
    with_hash-IsValid id now name role t (b.generate_from_password password) v

-- A call that changes the accounts.
pub data Call : Type 0 where
  creates : String → String → String → String → String → Call
  logs_in : String → String → Call
  deletes : String → Call
  sets_role : String → String → Call
  sets_password : String → String → Call

unfoldable pub apply : Bcrypt → Call → UserTable → UserTable
apply b (Call.creates id now name password role) t = (create_user b id now name password role t).1
apply b (Call.logs_in now id) t = update_login_at now id t
apply b (Call.deletes id) t = delete_user id t
apply b (Call.sets_role id role) t = (update_user_role id role t).1
apply b (Call.sets_password id password) t = (update_user_password b id password t).1

unfoldable pub run : Bcrypt → List Call → UserTable → UserTable
run b [] t = t
run b (c ∷ cs) t = run b cs (apply b c t)

with_new_hash-IsValid :
    (id : String) (t : UserTable) (r : Result String) → IsValid t → IsValid (with_new_hash id t r).1
with_new_hash-IsValid id t (ok hash) v =
    update_where-IsValid id (λ u. record u { password_hash = hash }) (λ u. (refl, refl, λ r. r)) t v
with_new_hash-IsValid id t (err e) v = v
with_new_hash-IsValid id t panic v = v

update_user_role-IsValid :
    (id role : String) (t : UserTable) → IsValid t → IsValid (update_user_role id role t).1
unfolding update_user_role
update_user_role-IsValid id role t v = elim (Bool-cases (is_role role)) [
  | inr bad ↦ rw bad v
  | inl good ↦
      rw good
        (update_where-IsValid id (λ u. record u { role = role }) (λ u. (refl, refl, λ r. good)) t v)
]

pub apply-IsValid : (b : Bcrypt) (c : Call) (t : UserTable) → IsValid t → IsValid (apply b c t)
unfolding apply update_login_at update_user_password
apply-IsValid b (Call.creates id now name password role) t v =
    create_user-IsValid b id now name password role t v
apply-IsValid b (Call.logs_in now id) t v =
    update_where-IsValid id (λ u. record u { login_at = now }) (λ u. (refl, refl, λ r. r)) t v
apply-IsValid b (Call.deletes id) t v = delete_user-IsValid id t v
apply-IsValid b (Call.sets_role id role) t v = update_user_role-IsValid id role t v
apply-IsValid b (Call.sets_password id password) t v =
    with_new_hash-IsValid id t (b.generate_from_password password) v

-- From a table without double identifiers or names and with known roles, any calls lead to such a
-- table again, whatever they are given and whichever of them fail.
pub run-IsValid :
    (b : Bcrypt) (calls : List Call) (t : UserTable) → IsValid t → IsValid (run b calls t)
unfolding run
run-IsValid b [] t v = v
run-IsValid b (c ∷ cs) t v = run-IsValid b cs (apply b c t) (apply-IsValid b c t v)
