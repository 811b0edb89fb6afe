-- ===== src/Auth/TwoFactorRows.antt =====
-- The rows of two-factor authentication (internal/auth/repository.go).
use stora_ecommerce.Prelude.{
  ℕ, ⊤, Bool, true, false, Option, none, some, List, [], ◌∷◌, ◌++◌, ◌==◌, find_where, any_where,
  update_where, delete_where, if◌then◌else◌,
}
use stora_ecommerce.Schema.{Text, Bytes, TwoFactorAuth, Db}
use stora_ecommerce.Effect.{Env, Result, ok, err, M, pure, ◌>>=◌, query, two_factor_not_enabled}
use stora_ecommerce.Auth.Fields.{enc_field, dec_field}

-- Two-factor authentication. No index makes the user of a row unique; a read takes the first row
-- and a write all of them.

-- What `Get2FAByUserID` decrypts.
pub record TwoFactor : Type 0 where
  pub secret_key : Text
  pub is_enabled : Bool
  pub recovery_codes : List Text

abbrev pub of_user : ℕ → TwoFactorAuth → Bool
of_user user row = row.user_id == user

unfoldable pub store_two_factor : ℕ → Text → M ⊤
store_two_factor user secret_key = do
  secret ← enc_field secret_key
  query (λ env t db. (
    ok tt,
    record db {
      two_factor_auth =
          db.two_factor_auth
          ++ record {
            id = env.fresh_id t;
            user_id = user;
            secret_key = secret;
            is_enabled = false;
            recovery_codes = [];
          }
            ∷ [];
    },
  ))

abbrev pub cons_code : Result Text → Result (List Text) → Result (List Text)
cons_code (err e) rest = err e
cons_code (ok code) (err e) = err e
cons_code (ok code) (ok rest) = ok (code ∷ rest)

unfoldable pub dec_codes : Env → List Bytes → Result (List Text)
dec_codes env [] = ok []
dec_codes env (c ∷ codes) = cons_code (dec_field env c) (dec_codes env codes)

abbrev pub with_codes : Text → Bool → Result (List Text) → Result TwoFactor
with_codes secret enabled (err e) = err e
with_codes secret enabled (ok codes) =
    ok (record { secret_key = secret; is_enabled = enabled; recovery_codes = codes })

abbrev pub with_secret : Env → TwoFactorAuth → Result Text → Result TwoFactor
with_secret env row (err e) = err e
with_secret env row (ok secret) =
    with_codes secret row.is_enabled (dec_codes env row.recovery_codes)

unfoldable pub read_two_factor : Env → Option TwoFactorAuth → Result TwoFactor
read_two_factor env none = err two_factor_not_enabled
read_two_factor env (some row) = with_secret env row (dec_field env row.secret_key)

unfoldable pub get_two_factor : ℕ → M TwoFactor
get_two_factor user =
    query (λ env t db. (read_two_factor env (find_where (of_user user) db.two_factor_auth), db))

abbrev pub enable_rows : ℕ → Db → Result ⊤ × Db
enable_rows user db =
    if any_where (of_user user) db.two_factor_auth
    then (
      ok tt,
      record db {
        two_factor_auth =
            update_where (of_user user) (λ row. record row { is_enabled = true })
              db.two_factor_auth;
      },
    )
    else (err two_factor_not_enabled, db)

unfoldable pub enable_two_factor : ℕ → M ⊤
enable_two_factor user = query (λ env t db. enable_rows user db)

unfoldable pub delete_two_factor : ℕ → M ⊤
delete_two_factor user = query (λ env t db.
    (ok tt, record db { two_factor_auth = delete_where (of_user user) db.two_factor_auth }))

unfoldable pub enc_codes : List Text → M (List Bytes)
enc_codes [] = pure []
enc_codes (c ∷ codes) = do e ← enc_field c; es ← enc_codes codes; pure (e ∷ es)

abbrev pub set_codes : List Bytes → TwoFactorAuth → TwoFactorAuth
set_codes codes row = record row { recovery_codes = codes }

unfoldable pub store_recovery_codes : ℕ → List Text → M ⊤
store_recovery_codes user codes = do
  encs ← enc_codes codes
  query (λ env t db. (
    ok tt,
    record db { two_factor_auth = update_where (of_user user) (set_codes encs) db.two_factor_auth },
  ))
