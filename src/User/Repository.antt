-- ===== src/User/Repository.antt =====
-- The `users` table (internal/user/repository.go).
use stora_ecommerce.Prelude.{
  ℕ, ⊤, Bool, Option, none, some, List, [], ◌∷◌, ◌++◌, take, drop, ltb, ◌==◌, find_where, any_where,
  count_where, update_where, length, if◌then◌else◌,
}
use stora_ecommerce.Schema.{Text, Bytes, UserRow, Db}
use stora_ecommerce.Effect.{
  Env, Result, ok, err, M, pure, ◌>>=◌, query, rows_seen, email_exists, user_not_found, infra,
}
use stora_ecommerce.Strings.{trim_space, to_lower, text_eq}
use stora_ecommerce.Crypto.{encrypt, decrypt_bytes}

-- The role that migration 12 gives by default.
abbrev pub customer : Text
customer = b'c' ∷ b'u' ∷ b's' ∷ b't' ∷ b'o' ∷ b'm' ∷ b'e' ∷ b'r' ∷ []

pub record User : Type 0 where
  pub id : ℕ
  pub email : Text
  pub name : Text
  pub password_hash : Text
  pub role : Text
  pub created_at : ℕ
  pub updated_at : ℕ

unfoldable pub normalize_email : Text → Text
normalize_email email = to_lower (trim_space email)

-- An `INSERT` under the unique index on `email_hmac`.
abbrev pub insert_user : UserRow → Db → Result ⊤ × Db
insert_user row db =
    if any_where (λ u. text_eq u.email_hmac row.email_hmac) db.users
    then (err email_exists, db)
    else (ok tt, record db { users = db.users ++ row ∷ [] })

abbrev pub new_user : Env → ℕ → ℕ → Text → Bytes → Text → Text → UserRow
new_user env t id email enc password_hash role = record {
  id = id;
  email_encrypted = enc;
  email_hmac = env.hmac email;
  name_encrypted = none;
  password_hash = password_hash;
  role = role;
  created_at = env.now t;
  updated_at = env.now t;
}

-- `CreateUser`: the statement names no id, so the default of the column makes one.
unfoldable pub create_user : User → M ⊤
create_user user = do
  let email = normalize_email user.email
  enc ← encrypt email
  query (λ env t db.
      insert_user (new_user env t (env.default_id t) email enc user.password_hash customer) db)

unfoldable pub create_oauth_user : User → M ⊤
create_oauth_user user = do
  let email = normalize_email user.email
  enc ← encrypt email
  query (λ env t db. insert_user (new_user env t user.id email enc [] user.role) db)

abbrev pub decrypt_name : Env → Option Bytes → Result Text
decrypt_name env none = ok []
decrypt_name env (some enc) = decrypt_bytes env enc

abbrev pub with_name : UserRow → Text → Result Text → Result User
with_name row email (err e) = err e
with_name row email (ok name) = ok (record {
  id = row.id;
  email = email;
  name = name;
  password_hash = row.password_hash;
  role = row.role;
  created_at = row.created_at;
  updated_at = row.updated_at;
})

abbrev pub with_email : Env → UserRow → Result Text → Result User
with_email env row (err e) = err e
with_email env row (ok email) = with_name row email (decrypt_name env row.name_encrypted)

-- `scanUser`
unfoldable pub scan_user : Env → Option UserRow → Result User
scan_user env none = err user_not_found
scan_user env (some row) = with_email env row (decrypt_bytes env row.email_encrypted)

unfoldable pub get_user_by_email : Text → M User
get_user_by_email email = query (λ env t db. (
  scan_user env
      (find_where (λ u. text_eq u.email_hmac (env.hmac (normalize_email email))) db.users),
  db,
))

unfoldable pub get_user_by_id : ℕ → M User
get_user_by_id id = query (λ env t db. (scan_user env (find_where (λ u. u.id == id) db.users), db))

-- An `UPDATE ... WHERE id`; no row is an error.
abbrev pub update_user : ℕ → (UserRow → UserRow) → Db → Result ⊤ × Db
update_user id f db =
    if any_where (λ u. u.id == id) db.users
    then (ok tt, record db { users = update_where (λ u. u.id == id) f db.users })
    else (err user_not_found, db)

abbrev pub encrypt_name : Text → M (Option Bytes)
encrypt_name [] = pure none
encrypt_name (c ∷ name) = do enc ← encrypt (c ∷ name); pure (some enc)

abbrev pub set_name : Option Bytes → ℕ → UserRow → UserRow
set_name name now u = record u { name_encrypted = name; updated_at = now }

unfoldable pub update_name : ℕ → Text → M ⊤
update_name id name = do
  enc ← encrypt_name name
  query (λ env t db. update_user id (set_name enc (env.now t)) db)

abbrev pub set_role : Text → ℕ → UserRow → UserRow
set_role role now u = record u { role = role; updated_at = now }

unfoldable pub update_role : ℕ → Text → M ⊤
update_role id role = query (λ env t db. update_user id (set_role role (env.now t)) db)

abbrev pub set_password : Text → ℕ → UserRow → UserRow
set_password hash now u = record u { password_hash = hash; updated_at = now }

unfoldable pub update_password : ℕ → Text → M ⊤
update_password id hash = query (λ env t db. update_user id (set_password hash (env.now t)) db)

abbrev pub has_role : Text → UserRow → Bool
has_role role u = text_eq u.role role

unfoldable pub count_by_role : Text → M ℕ
count_by_role role = query (λ env t db. (ok (count_where (has_role role) db.users), db))

-- `ORDER BY created_at DESC`
abbrev pub insert_newest : UserRow → List UserRow → List UserRow
insert_newest u [] = u ∷ []
insert_newest u (v ∷ rest) =
    if ltb u.created_at v.created_at then v ∷ insert_newest u rest else u ∷ v ∷ rest

unfoldable pub newest_first : List UserRow → List UserRow
newest_first [] = []
newest_first (u ∷ rest) = insert_newest u (newest_first rest)

-- A page is listed without names and password hashes.
abbrev pub listed : UserRow → Result Text → Result (List User) → Result (List User)
listed row (err e) rest = err e
listed row (ok email) (err e) = err e
listed row (ok email) (ok rest) = ok (
    record {
      id = row.id;
      email = email;
      name = [];
      password_hash = [];
      role = row.role;
      created_at = row.created_at;
      updated_at = row.updated_at;
    }
    ∷ rest)

unfoldable pub scan_users : Env → List UserRow → Result (List User)
scan_users env [] = ok []
scan_users env (row ∷ rows) =
    listed row (decrypt_bytes env row.email_encrypted) (scan_users env rows)

-- `rows.Err()`, after the rows that came.
abbrev pub complete : Option ℕ → Result (List User) → Result (List User)
complete cut (err e) = err e
complete none (ok users) = ok users
complete (some n) (ok users) = err infra

unfoldable pub list_all : ℕ → ℕ → M (List User × ℕ)
list_all limit offset = do
  total ← query (λ env t db. (ok (length db.users), db))
  users ← query (λ env t db. (
    complete (env.cut t)
        (scan_users env (rows_seen (env.cut t) (take limit (drop offset (newest_first db.users))))),
    db,
  ))
  pure (users, total)
