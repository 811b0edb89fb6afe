-- ===== src/Auth/Reset.antt =====
-- Password reset (`ForgotPassword` and `ResetPassword` of internal/auth/service.go).
use stora_ecommerce.Prelude.{◌+◌, ⊤, not, Option, none, some, [], ◌∷◌, ◌++◌, ltb, if◌then◌else◌}
use stora_ecommerce.Schema.{Text, PasswordResetToken}
use stora_ecommerce.Effect.{
  Result, ok, err, M, mail_sent, reset_link, pure, ◌>>=◌, ◌>>◌, raise_if, attempt, lift, stmt, here,
  send, validation, infra, reset_token_used, reset_token_expired,
}
use stora_ecommerce.Strings.{trim_space, to_lower}
use stora_ecommerce.PasswordPolicy.{validate}
use stora_ecommerce.User.Repository.{User, get_user_by_email, update_password}
use stora_ecommerce.Auth.Fields.{to_base32}
use stora_ecommerce.Auth.Repository.{
  revoke_all_user_tokens, store_password_reset_token, get_password_reset_token,
  mark_reset_token_used,
}
use stora_ecommerce.Auth.Service.{ResetPasswordRequest, AuthDeps, one_hour}

-- "/reset-password?token="
abbrev pub reset_path : Text
reset_path =
    b'/' ∷ b'r' ∷ b'e' ∷ b's' ∷ b'e' ∷ b't' ∷ b'-' ∷ b'p' ∷ b'a' ∷ b's' ∷ b's' ∷ b'w' ∷ b'o' ∷ b'r'
    ∷ b'd' ∷ b'?' ∷ b't' ∷ b'o' ∷ b'k' ∷ b'e' ∷ b'n' ∷ b'=' ∷ []

abbrev pub send_reset_token : AuthDeps → Text → Result User → M ⊤
send_reset_token d email (err e) = pure tt
send_reset_token d email (ok u) = do
  bytes ← stmt (λ env t db. (ok (env.random t), db))
  let token = to_base32 bytes
  now ← here (λ env t. env.now t)
  store_password_reset_token u.id token (now + one_hour)
  if d.mailer
      then send (mail_sent email (reset_link (d.base_url ++ (reset_path ++ token))))
      else pure tt

-- `ForgotPassword`: an email that is not known is no error.
unfoldable pub forgot_password : AuthDeps → Text → M ⊤
forgot_password d address = do
  raise_if (not (d.valid_forgot address)) validation
  let email = to_lower (trim_space address)
  found ← attempt (get_user_by_email email)
  send_reset_token d email found

abbrev pub hashed : Option Text → Result Text
hashed none = err infra
hashed (some hash) = ok hash

-- `ResetPassword` on the row of the token.
unfoldable pub reset_with : Text → PasswordResetToken → M ⊤
reset_with new_password row = do
  raise_if row.used reset_token_used
  now ← here (λ env t. env.now t)
  raise_if (ltb row.expires_at now) reset_token_expired
  hash ← here (λ env t. hashed (env.password_hash t new_password)) >>= lift
  update_password row.user_id hash
  mark_reset_token_used row.id
  revoked ← attempt (revoke_all_user_tokens row.user_id)
  pure tt

unfoldable pub reset_password : AuthDeps → ResetPasswordRequest → M ⊤
reset_password d req = do
  raise_if (not (d.valid_reset req)) validation
  lift (validate d.runes req.new_password)
  row ← get_password_reset_token req.token
  reset_with req.new_password row
