-- ===== src/Auth/Rotating.antt =====
-- The statements of internal/auth and internal/user, as steps of the tables of tokens.
use stora_ecommerce.Prelude.{
  ℕ, ◌≡◌, refl, Bool, Bool-cases, inl, inr, if◌then◌else◌, List, [], ◌∷◌, any_where, ◌==◌,
}
use stora_ecommerce.Schema.{Text, Db, UserRow, TwoFactorAuth}
use stora_ecommerce.Effect.{
  Env, Err, Result, M, pure, raise, lift, ◌>>=◌, raise_if, attempt, stmt, query, here, send,
  Message,
}
use stora_ecommerce.Effect.Moves.{
  Moves, Moves-pure, Moves-raise, Moves-lift, Moves-here, Moves-bind, Moves-attempt, Moves-raise_if,
  Moves-if, Moves-query, Moves-look, Moves-read, Moves-send,
}
use stora_ecommerce.Crypto.{encrypt}
use stora_ecommerce.User.Repository.{
  User, get_user_by_id, get_user_by_email, update_user, update_password, insert_user, create_user,
  update_role, update_name, encrypt_name, count_by_role,
}
use stora_ecommerce.Strings.{text_eq}
use stora_ecommerce.Auth.Fields.{enc_field}
use stora_ecommerce.Auth.Repository.{
  hash_token, store_refresh_token, get_refresh_token, mark_refresh_token_used,
  revoke_all_user_tokens, store_password_reset_token, get_password_reset_token,
  mark_reset_token_used,
}
use stora_ecommerce.Auth.TwoFactorRows.{
  store_two_factor, get_two_factor, enable_rows, enable_two_factor, delete_two_factor, enc_codes,
  store_recovery_codes, of_user,
}
use stora_ecommerce.Auth.Rotation.{
  Rotates, Rotates-IsStep, insert_token-Rotates, mark_used-Rotates, revoke_all-Rotates,
  insert_reset-Rotates, mark_reset-Rotates,
}

abbrev pub Rotating : {A : Type 0} → M A → Type 0
Rotating m = Moves Rotates m

pub Rotating-pure : {A : Type 0} (a : A) → Rotating (pure a)
Rotating-pure = Moves-pure Rotates-IsStep

pub Rotating-bind :
    {A B : Type 0} (m : M A) (f : A → M B)
    → Rotating m
    → ((a : A) → Rotating (f a))
    → Rotating (m >>= f)
Rotating-bind = Moves-bind Rotates-IsStep

pub Rotating-here : {A : Type 0} (f : Env → ℕ → A) → Rotating (here f)
Rotating-here = Moves-here Rotates-IsStep

pub Rotating-raise : {A : Type 0} (e : Err) → Rotating (raise {A = A} e)
Rotating-raise = Moves-raise Rotates-IsStep

pub Rotating-lift : {A : Type 0} (r : Result A) → Rotating (lift r)
Rotating-lift = Moves-lift Rotates-IsStep

pub Rotating-attempt : {A : Type 0} (m : M A) → Rotating m → Rotating (attempt m)
Rotating-attempt = Moves-attempt Rotates-IsStep

pub Rotating-raise_if : (b : Bool) (e : Err) → Rotating (raise_if b e)
Rotating-raise_if = Moves-raise_if Rotates-IsStep

pub Rotating-read :
    {A : Type 0} (f : Env → ℕ → Db → Result A) → Rotating (query (λ env t db. (f env t db, db)))
Rotating-read = Moves-read Rotates-IsStep

pub Rotating-look :
    {A : Type 0} (f : Env → ℕ → Db → Result A) → Rotating (stmt (λ env t db. (f env t db, db)))
Rotating-look = Moves-look Rotates-IsStep

pub Rotating-query :
    {A : Type 0} (f : Env → ℕ → Db → Result A × Db)
    → ((env : Env) (t : ℕ) (db : Db) → Rotates db (f env t db).1)
    → Rotating (query f)
Rotating-query = Moves-query Rotates-IsStep

pub Rotating-if :
    {A : Type 0} (b : Bool) (m k : M A) → Rotating m → Rotating k → Rotating (if b then m else k)
Rotating-if = Moves-if Rotates-IsStep

pub Rotating-send : (msg : Message) → Rotating (send msg)
Rotating-send = Moves-send Rotates-IsStep

-- A step that leaves both tables alone.
record SameTokens (a b : Db) : Type 0 where
  tokens : b.refresh_tokens ≡ a.refresh_tokens
  resets : b.password_reset_tokens ≡ a.password_reset_tokens

SameTokens-Rotates : (a b : Db) → SameTokens a b → Rotates a b
SameTokens-Rotates a b same = record {
  tokens = λ d. rw same.tokens ((Rotates-IsStep.stay a).tokens d);
  resets = λ d. rw same.resets ((Rotates-IsStep.stay a).resets d);
  taken = λ id t. rw same.tokens t;
}

pub update_user-Rotates :
    (id : ℕ) (f : UserRow → UserRow) (db : Db) → Rotates db (update_user id f db).1
update_user-Rotates id f db = elim (Bool-cases (any_where (λ u. u.id == id) db.users)) [
  | inl there ↦ rw there (SameTokens-Rotates db _ (record { tokens = refl; resets = refl }))
  | inr gone ↦ rw gone (Rotates-IsStep.stay db)
]

insert_user-Rotates : (row : UserRow) (db : Db) → Rotates db (insert_user row db).1
insert_user-Rotates row db =
    elim (Bool-cases (any_where (λ u. text_eq u.email_hmac row.email_hmac) db.users)) [
      | inl clash ↦ rw clash (Rotates-IsStep.stay db)
      | inr free ↦ rw free (SameTokens-Rotates db _ (record { tokens = refl; resets = refl }))
    ]

enable_rows-Rotates : (user : ℕ) (db : Db) → Rotates db (enable_rows user db).1
enable_rows-Rotates user db = elim (Bool-cases (any_where (of_user user) db.two_factor_auth)) [
  | inl there ↦ rw there (SameTokens-Rotates db _ (record { tokens = refl; resets = refl }))
  | inr gone ↦ rw gone (Rotates-IsStep.stay db)
]

set_two_factor-Rotates :
    (rows : List TwoFactorAuth) (db : Db) → Rotates db (record db { two_factor_auth = rows })
set_two_factor-Rotates rows db = SameTokens-Rotates db _ (record { tokens = refl; resets = refl })

pub ruleset rotating = (
  Rotating-pure, Rotating-bind, Rotating-here, Rotating-raise, Rotating-lift, Rotating-attempt,
  Rotating-raise_if, Rotating-read, Rotating-look, Rotating-query, Rotating-if, Rotating-send,
)

pub encrypt-Rotating : (text : Text) → Rotating (encrypt text)
unfolding encrypt
encrypt-Rotating [] = search rotating
encrypt-Rotating (c ∷ text) = search rotating

pub enc_field-Rotating : (text : Text) → Rotating (enc_field text)
unfolding enc_field
enc_field-Rotating [] = search rotating
enc_field-Rotating (c ∷ text) = search (rotating, encrypt-Rotating)

pub enc_codes-Rotating : (codes : List Text) → Rotating (enc_codes codes)
unfolding enc_codes
enc_codes-Rotating [] = search rotating
enc_codes-Rotating (c ∷ codes) =
    Rotating-bind (enc_field c) (λ e. enc_codes codes >>= λ es. pure (e ∷ es))
      (enc_field-Rotating c)
      (λ e.
        Rotating-bind (enc_codes codes) (λ es. pure (e ∷ es)) (enc_codes-Rotating codes)
          (λ es. Rotating-pure (e ∷ es)))

pub hash_token-Rotating : (token : Text) → Rotating (hash_token token)
unfolding hash_token
hash_token-Rotating [] = search rotating
hash_token-Rotating (c ∷ token) = search rotating

pub store_refresh_token-Rotating :
    (user : ℕ) (token : Text) (expires_at : ℕ)
    → Rotating (store_refresh_token user token expires_at)
unfolding store_refresh_token
store_refresh_token-Rotating user token expires_at =
    search (rotating, hash_token-Rotating, insert_token-Rotates)

pub get_refresh_token-Rotating : (token : Text) → Rotating (get_refresh_token token)
unfolding get_refresh_token
get_refresh_token-Rotating token = search (rotating, hash_token-Rotating)

pub mark_refresh_token_used-Rotating : (id : ℕ) → Rotating (mark_refresh_token_used id)
unfolding mark_refresh_token_used
mark_refresh_token_used-Rotating id = search (rotating, mark_used-Rotates)

pub revoke_all_user_tokens-Rotating : (user : ℕ) → Rotating (revoke_all_user_tokens user)
unfolding revoke_all_user_tokens
revoke_all_user_tokens-Rotating user = search (rotating, revoke_all-Rotates)

pub store_password_reset_token-Rotating :
    (user : ℕ) (token : Text) (expires_at : ℕ)
    → Rotating (store_password_reset_token user token expires_at)
unfolding store_password_reset_token
store_password_reset_token-Rotating user token expires_at =
    search (rotating, hash_token-Rotating, insert_reset-Rotates)

pub get_password_reset_token-Rotating : (token : Text) → Rotating (get_password_reset_token token)
unfolding get_password_reset_token
get_password_reset_token-Rotating token = search (rotating, hash_token-Rotating)

pub mark_reset_token_used-Rotating : (id : ℕ) → Rotating (mark_reset_token_used id)
unfolding mark_reset_token_used
mark_reset_token_used-Rotating id = search (rotating, mark_reset-Rotates)

pub store_two_factor-Rotating : (user : ℕ) (secret : Text) → Rotating (store_two_factor user secret)
unfolding store_two_factor
store_two_factor-Rotating user secret =
    search (rotating, enc_field-Rotating, set_two_factor-Rotates)

pub get_two_factor-Rotating : (user : ℕ) → Rotating (get_two_factor user)
unfolding get_two_factor
get_two_factor-Rotating user = search rotating

pub enable_two_factor-Rotating : (user : ℕ) → Rotating (enable_two_factor user)
unfolding enable_two_factor
enable_two_factor-Rotating user = search (rotating, enable_rows-Rotates)

pub delete_two_factor-Rotating : (user : ℕ) → Rotating (delete_two_factor user)
unfolding delete_two_factor
delete_two_factor-Rotating user = search (rotating, set_two_factor-Rotates)

pub store_recovery_codes-Rotating :
    (user : ℕ) (codes : List Text) → Rotating (store_recovery_codes user codes)
unfolding store_recovery_codes
store_recovery_codes-Rotating user codes =
    search (rotating, enc_codes-Rotating, set_two_factor-Rotates)

pub create_user-Rotating : (u : User) → Rotating (create_user u)
unfolding create_user
create_user-Rotating u = search (rotating, encrypt-Rotating, insert_user-Rotates)

pub get_user_by_email-Rotating : (email : Text) → Rotating (get_user_by_email email)
unfolding get_user_by_email
get_user_by_email-Rotating email = search rotating

pub get_user_by_id-Rotating : (id : ℕ) → Rotating (get_user_by_id id)
unfolding get_user_by_id
get_user_by_id-Rotating id = search rotating

pub update_password-Rotating : (id : ℕ) (hash : Text) → Rotating (update_password id hash)
unfolding update_password
update_password-Rotating id hash = search (rotating, update_user-Rotates)

pub update_role-Rotating : (id : ℕ) (role : Text) → Rotating (update_role id role)
unfolding update_role
update_role-Rotating id role = search (rotating, update_user-Rotates)

encrypt_name-Rotating : (name : Text) → Rotating (encrypt_name name)
encrypt_name-Rotating [] = search rotating
encrypt_name-Rotating (c ∷ name) = search (rotating, encrypt-Rotating)

pub update_name-Rotating : (id : ℕ) (name : Text) → Rotating (update_name id name)
unfolding update_name
update_name-Rotating id name = search (rotating, encrypt_name-Rotating, update_user-Rotates)

pub count_by_role-Rotating : (role : Text) → Rotating (count_by_role role)
unfolding count_by_role
count_by_role-Rotating role = search rotating

pub ruleset rotating_tables = (
  rotating, store_refresh_token-Rotating, get_refresh_token-Rotating,
  mark_refresh_token_used-Rotating, revoke_all_user_tokens-Rotating,
  store_password_reset_token-Rotating, get_password_reset_token-Rotating,
  mark_reset_token_used-Rotating, store_two_factor-Rotating, get_two_factor-Rotating,
  enable_two_factor-Rotating, delete_two_factor-Rotating, store_recovery_codes-Rotating,
  create_user-Rotating, get_user_by_email-Rotating, get_user_by_id-Rotating,
  update_password-Rotating, update_role-Rotating, update_name-Rotating, count_by_role-Rotating,
)
