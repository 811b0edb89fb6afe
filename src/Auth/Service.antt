-- ===== src/Auth/Service.antt =====
-- Login, token rotation and logout (internal/auth/service.go, internal/auth/token.go).
-- Metrics and logs are left out.
use stora_ecommerce.Prelude.{
  ℕ, ◌+◌, ⊤, Bool, true, false, not, ◌||◌, Option, none, some, List, [], ◌∷◌, ◌++◌, ltb, is_empty,
  if◌then◌else◌,
}
use stora_ecommerce.Schema.{Text, RefreshToken}
use stora_ecommerce.Effect.{
  Err, Result, ok, err, JwtCheck, subject, jwt_expired, jwt_invalid, M, pure, raise, ◌>>=◌, ◌>>◌,
  raise_if, attempt, lift, here, validation, infra, user_not_found, invalid_credentials,
  invalid_token, expired_token, token_revoked, token_used, token_not_found, invalid_two_factor_code,
  two_factor_required,
}
use stora_ecommerce.Strings.{trim_space, to_lower, to_upper, text_eq}
use stora_ecommerce.PasswordPolicy.{RuneClass}
use stora_ecommerce.User.Repository.{User, get_user_by_email, get_user_by_id}
use stora_ecommerce.Auth.Repository.{
  store_refresh_token, get_refresh_token, mark_refresh_token_used, revoke_all_user_tokens,
}
use stora_ecommerce.Auth.TwoFactorRows.{TwoFactor, get_two_factor, store_recovery_codes}

pub record LoginRequest : Type 0 where
  pub email : Text
  pub password : Text
  pub totp_code : Text

pub record ResetPasswordRequest : Type 0 where
  pub token : Text
  pub new_password : Text
  pub confirm_password : Text

-- `authService`: the validator, the classes of Unicode, the base of links, whether there is a mailer.
pub record AuthDeps : Type 0 where
  pub valid_login : LoginRequest → Bool
  pub valid_forgot : Text → Bool
  pub valid_reset : ResetPasswordRequest → Bool
  pub valid_code : Text → Bool
  pub runes : RuneClass
  pub base_url : Text
  pub mailer : Bool

pub record LoginResponse : Type 0 where
  pub access_token : Text
  pub refresh_token : Text
  pub expires_at : ℕ
  pub two_factor_setup_required : Bool

pub record TokenPair : Type 0 where
  pub access : Text
  pub refresh : Text

abbrev pub token_pair : Option Text → Option Text → Result TokenPair
token_pair none refresh = err infra
token_pair (some access) none = err infra
token_pair (some access) (some refresh) = ok (record { access = access; refresh = refresh })

-- `GenerateTokenPair`
unfoldable pub generate_token_pair : User → M TokenPair
generate_token_pair u =
    here (λ env t. token_pair (env.access_token t u.id u.email u.role) (env.refresh_token t u.id))
    >>= lift

-- Seconds.
abbrev pub seven_days : ℕ
seven_days = 604800

abbrev pub fifteen_minutes : ℕ
fifteen_minutes = 900

abbrev pub one_hour : ℕ
one_hour = 3600

-- The row of the new refresh token, and the response.
unfoldable pub open_session : User → Bool → M LoginResponse
open_session u setup = do
  pair ← generate_token_pair u
  now ← here (λ env t. env.now t)
  store_refresh_token u.id pair.refresh (now + seven_days)
  later ← here (λ env t. env.now t)
  pure (record {
    access_token = pair.access;
    refresh_token = pair.refresh;
    expires_at = later + fifteen_minutes;
    two_factor_setup_required = setup;
  })

abbrev pub role_admin : Text
role_admin = b'a' ∷ b'd' ∷ b'm' ∷ b'i' ∷ b'n' ∷ []

abbrev pub role_support : Text
role_support = b's' ∷ b'u' ∷ b'p' ∷ b'p' ∷ b'o' ∷ b'r' ∷ b't' ∷ []

abbrev pub role_sales : Text
role_sales = b's' ∷ b'a' ∷ b'l' ∷ b'e' ∷ b's' ∷ []

unfoldable pub is_staff_role : Text → Bool
is_staff_role role =
    text_eq role role_admin || (text_eq role role_support || text_eq role role_sales)

-- The loop of `useRecoveryCode`: the flag `found` and the codes that remain.
pub record Consumed : Type 0 where
  pub found : Bool
  pub remaining : List Text

unfoldable pub consume : Text → List Text → Consumed → Consumed
consume code [] c = c
consume code (rc ∷ codes) c = consume code codes (
    if text_eq (to_upper rc) code
    then (if c.found
        then record c { remaining = c.remaining ++ rc ∷ [] }
        else record c { found = true })
    else record c { remaining = c.remaining ++ rc ∷ [] })

abbrev pub nothing_consumed : Consumed
nothing_consumed = record { found = false; remaining = [] }

abbrev pub succeeds : Result ⊤ → Bool
succeeds (ok x) = true
succeeds (err e) = false

unfoldable pub persist : ℕ → Consumed → M Bool
persist user c =
    if c.found
    then (do stored ← attempt (store_recovery_codes user c.remaining); pure (succeeds stored))
    else pure false

unfoldable pub use_recovery_code : ℕ → List Text → Text → M Bool
use_recovery_code user codes code =
    persist user (consume (trim_space (to_upper code)) codes nothing_consumed)

-- TOTP, or a recovery code in its place.
unfoldable pub second_factor : ℕ → TwoFactor → Text → M ⊤
second_factor user tfa code = do
  valid ← here (λ env t. env.totp_valid (env.now t) code tfa.secret_key)
  used ← if valid then pure true else use_recovery_code user tfa.recovery_codes code
  raise_if (not used) invalid_two_factor_code

abbrev pub challenge : ℕ → TwoFactor → Text → M Bool
challenge user tfa code =
    if tfa.is_enabled
    then (do raise_if (is_empty code) two_factor_required; second_factor user tfa code; pure true)
    else pure false

-- `twoFactorEnabled := err == nil && tfa.IsEnabled`: any error counts as not enabled.
abbrev pub challenge_if : ℕ → Result TwoFactor → Text → M Bool
challenge_if user (err e) code = pure false
challenge_if user (ok tfa) code = challenge user tfa code

abbrev pub is_user_not_found : Err → Bool
is_user_not_found user_not_found = true
is_user_not_found e = false

abbrev pub or_invalid_credentials : Result User → M User
or_invalid_credentials (ok u) = pure u
or_invalid_credentials (err e) = raise (if is_user_not_found e then invalid_credentials else e)

-- `Login` after the password.
unfoldable pub login_user : User → Text → M LoginResponse
login_user u code = do
  tfa ← attempt (get_two_factor u.id)
  enabled ← challenge_if u.id tfa code
  open_session u (if enabled then false else is_staff_role u.role)

unfoldable pub login : AuthDeps → LoginRequest → M LoginResponse
login d req = do
  raise_if (not (d.valid_login req)) validation
  found ← attempt (get_user_by_email (to_lower (trim_space req.email)))
  u ← or_invalid_credentials found
  matches ← here (λ env t. env.password_matches u.password_hash req.password)
  raise_if (not matches) invalid_credentials
  login_user u req.totp_code

abbrev pub is_token_not_found : Err → Bool
is_token_not_found token_not_found = true
is_token_not_found e = false

abbrev pub or_invalid_token : Result RefreshToken → M RefreshToken
or_invalid_token (ok row) = pure row
or_invalid_token (err e) = raise (if is_token_not_found e then invalid_token else e)

-- A replay: the family is revoked, whether that works or not.
unfoldable pub reject_replay : ℕ → M ⊤
reject_replay user = do done ← attempt (revoke_all_user_tokens user); raise token_used

abbrev pub reject_if_used : RefreshToken → M ⊤
reject_if_used row = if row.used then reject_replay row.user_id else pure tt

abbrev pub is_token_used : Err → Bool
is_token_used token_used = true
is_token_used e = false

abbrev pub won_or_rejected : ℕ → Result ⊤ → M ⊤
won_or_rejected user (ok x) = pure tt
won_or_rejected user (err e) = if is_token_used e then reject_replay user else raise e

-- `ValidateRefreshToken`
abbrev pub claims_of : JwtCheck → Result ℕ
claims_of (subject user) = ok user
claims_of jwt_expired = err expired_token
claims_of jwt_invalid = err invalid_token

-- `RefreshTokens` after the token has been marked.
unfoldable pub reissue : Text → M LoginResponse
reissue token = do
  user ← here (λ env t. claims_of (env.refresh_claims t token)) >>= lift
  u ← get_user_by_id user
  open_session u false

-- From the row that was read to the mark.
unfoldable pub rotate : Text → RefreshToken → M LoginResponse
rotate token row = do
  reject_if_used row
  raise_if row.revoked token_revoked
  now ← here (λ env t. env.now t)
  raise_if (ltb row.expires_at now) expired_token
  marked ← attempt (mark_refresh_token_used row.id)
  won_or_rejected row.user_id marked
  reissue token

unfoldable pub refresh_tokens : Text → M LoginResponse
refresh_tokens token = do
  found ← attempt (get_refresh_token token)
  row ← or_invalid_token found
  rotate token row

unfoldable pub logout : ℕ → M ⊤
logout user = revoke_all_user_tokens user
