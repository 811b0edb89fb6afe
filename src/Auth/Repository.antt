-- ===== src/Auth/Repository.antt =====
-- The tables of sign-in (internal/auth/repository.go). A token is looked up by its digest.
use stora_ecommerce.Prelude.{
  ℕ, ⊤, Bool, true, false, not, ◌&&◌, ◌||◌, Option, none, some, List, [], ◌∷◌, ◌++◌, ◌==◌,
  find_where, any_where, update_where, if◌then◌else◌,
}
use stora_ecommerce.Schema.{Text, Bytes, RefreshToken, PasswordResetToken, Db}
use stora_ecommerce.Effect.{
  Result, ok, err, M, pure, ◌>>=◌, query, here, infra, token_not_found, token_used,
  reset_token_not_found,
}
use stora_ecommerce.Strings.{text_eq}

-- `hashToken` (internal/auth/hash.go)
unfoldable pub hash_token : Text → M Bytes
hash_token [] = pure []
hash_token (c ∷ token) = here (λ env t. env.digest (c ∷ token))

-- Refresh tokens.

abbrev pub has_token : Bytes → RefreshToken → Bool
has_token d row = text_eq row.token d

unfoldable pub find_token : Bytes → List RefreshToken → Option RefreshToken
find_token d rows = find_where (has_token d) rows

abbrev pub has_row : ℕ → RefreshToken → Bool
has_row id row = row.id == id

-- An `INSERT` under the primary key and the unique constraint on `token`.
abbrev pub insert_token : RefreshToken → Db → Result ⊤ × Db
insert_token row db =
    if any_where (has_row row.id) db.refresh_tokens
      || any_where (has_token row.token) db.refresh_tokens
    then (err infra, db)
    else (ok tt, record db { refresh_tokens = db.refresh_tokens ++ row ∷ [] })

abbrev pub fresh_token : ℕ → ℕ → Bytes → ℕ → RefreshToken
fresh_token id user d expires_at = record {
  id = id;
  token = d;
  user_id = user;
  revoked = false;
  used = false;
  expires_at = expires_at;
}

unfoldable pub store_refresh_token : ℕ → Text → ℕ → M ⊤
store_refresh_token user token expires_at = do
  d ← hash_token token
  query (λ env t db. insert_token (fresh_token (env.fresh_id t) user d expires_at) db)

abbrev pub or_token_not_found : Option RefreshToken → Result RefreshToken
or_token_not_found none = err token_not_found
or_token_not_found (some row) = ok row

unfoldable pub get_refresh_token : Text → M RefreshToken
get_refresh_token token = do
  d ← hash_token token
  query (λ env t db. (or_token_not_found (find_token d db.refresh_tokens), db))

abbrev pub is_unused : ℕ → RefreshToken → Bool
is_unused id row = row.id == id && not row.used

abbrev pub set_used : RefreshToken → RefreshToken
set_used row = record row { used = true }

-- `UPDATE refresh_tokens SET used = true WHERE id = $1 AND used = false`
abbrev pub mark_used : ℕ → Db → Result ⊤ × Db
mark_used id db =
    if any_where (is_unused id) db.refresh_tokens
    then (
      ok tt,
      record db { refresh_tokens = update_where (is_unused id) set_used db.refresh_tokens },
    )
    else (err token_used, db)

unfoldable pub mark_refresh_token_used : ℕ → M ⊤
mark_refresh_token_used id = query (λ env t db. mark_used id db)

abbrev pub is_live_of : ℕ → RefreshToken → Bool
is_live_of user row = row.user_id == user && not row.revoked

abbrev pub set_revoked : RefreshToken → RefreshToken
set_revoked row = record row { revoked = true }

abbrev pub revoke_all : ℕ → Db → Db
revoke_all user db = record db {
  refresh_tokens = update_where (is_live_of user) set_revoked db.refresh_tokens;
}

unfoldable pub revoke_all_user_tokens : ℕ → M ⊤
revoke_all_user_tokens user = query (λ env t db. (ok tt, revoke_all user db))

-- Password reset tokens.

abbrev pub has_reset : Bytes → PasswordResetToken → Bool
has_reset d row = text_eq row.token d

unfoldable pub find_reset : Bytes → List PasswordResetToken → Option PasswordResetToken
find_reset d rows = find_where (has_reset d) rows

abbrev pub is_reset : ℕ → PasswordResetToken → Bool
is_reset id row = row.id == id

-- An `INSERT` under the primary key and the unique constraint on `token`.
abbrev pub insert_reset : PasswordResetToken → Db → Result ⊤ × Db
insert_reset row db =
    if any_where (is_reset row.id) db.password_reset_tokens
      || any_where (has_reset row.token) db.password_reset_tokens
    then (err infra, db)
    else (ok tt, record db { password_reset_tokens = db.password_reset_tokens ++ row ∷ [] })

unfoldable pub store_password_reset_token : ℕ → Text → ℕ → M ⊤
store_password_reset_token user token expires_at = do
  d ← hash_token token
  query (λ env t db.
      insert_reset
        (record {
          id = env.fresh_id t;
          user_id = user;
          token = d;
          used = false;
          expires_at = expires_at;
        })
        db)

abbrev pub or_reset_not_found : Option PasswordResetToken → Result PasswordResetToken
or_reset_not_found none = err reset_token_not_found
or_reset_not_found (some row) = ok row

unfoldable pub get_password_reset_token : Text → M PasswordResetToken
get_password_reset_token token = do
  d ← hash_token token
  query (λ env t db. (or_reset_not_found (find_reset d db.password_reset_tokens), db))

abbrev pub set_reset_used : PasswordResetToken → PasswordResetToken
set_reset_used row = record row { used = true }

-- `UPDATE password_reset_tokens SET used = true WHERE id = $1`
abbrev pub mark_reset : ℕ → Db → Result ⊤ × Db
mark_reset id db =
    if any_where (is_reset id) db.password_reset_tokens
    then (
      ok tt,
      record db {
        password_reset_tokens = update_where (is_reset id) set_reset_used db.password_reset_tokens;
      },
    )
    else (err reset_token_not_found, db)

unfoldable pub mark_reset_token_used : ℕ → M ⊤
mark_reset_token_used id = query (λ env t db. mark_reset id db)
