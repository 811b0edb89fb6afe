-- ===== src/Auth/Requests.antt =====
-- The requests on accounts and sign-in that the server handles (internal/auth, internal/user), each
-- a step of the tables of tokens.
use stora_ecommerce.Prelude.{ℕ, zero, suc, ⊤, Bool, ◌∷◌}
use stora_ecommerce.Schema.{Text, RefreshToken}
use stora_ecommerce.Effect.{Env, World, Result, ok, err, M, stmt, pure, ◌>>=◌}
use stora_ecommerce.User.Repository.{User}
use stora_ecommerce.User.Service.{
  UserDeps, RegisterRequest, ChangePasswordRequest, register, verify_captcha, captcha_passed,
  update_profile, get_me, change_password, admin_set_role, guard_last_admin,
}
use stora_ecommerce.Auth.TwoFactorRows.{TwoFactor}
use stora_ecommerce.Auth.Service.{
  AuthDeps, LoginRequest, ResetPasswordRequest, generate_token_pair, open_session, persist,
  use_recovery_code, second_factor, challenge_if, or_invalid_credentials, login_user, login,
  or_invalid_token, reject_replay, won_or_rejected, reissue, rotate, refresh_tokens, logout,
  Consumed,
}
use stora_ecommerce.Auth.Reset.{send_reset_token, forgot_password, reset_with, reset_password}
use stora_ecommerce.Auth.TwoFactor.{
  recovery_code, generate_recovery_codes, drop_pending, setup_two_factor, or_not_enabled, enable,
  disable,
}
use stora_ecommerce.Auth.Rotation.{Rotates}
use stora_ecommerce.Effect.Hoare.{Follows}
use stora_ecommerce.Auth.Rotating.{
  Rotating, Rotating-bind, Rotating-pure, rotating_tables, Rotating-look,
}

pub data AuthRequest : Type 0 where
  log_in : LoginRequest → AuthRequest
  refresh : Text → AuthRequest
  log_out : ℕ → AuthRequest
  forgot : Text → AuthRequest
  reset : ResetPasswordRequest → AuthRequest
  setup_2fa : ℕ → AuthRequest
  enable_2fa disable_2fa : ℕ → Text → AuthRequest
  sign_up : RegisterRequest → AuthRequest
  rename : ℕ → Text → AuthRequest
  change : ℕ → ChangePasswordRequest → AuthRequest
  set_role_of : ℕ → Text → AuthRequest

unfoldable pub handle_auth : AuthDeps → UserDeps → AuthRequest → M ⊤
handle_auth d u (log_in req) = do r ← login d req; pure tt
handle_auth d u (refresh token) = do r ← refresh_tokens token; pure tt
handle_auth d u (log_out user) = logout user
handle_auth d u (forgot email) = forgot_password d email
handle_auth d u (reset req) = reset_password d req
handle_auth d u (setup_2fa user) = do r ← setup_two_factor user; pure tt
handle_auth d u (enable_2fa user code) = enable d user code
handle_auth d u (disable_2fa user code) = disable d user code
handle_auth d u (sign_up req) = do r ← register u req; pure tt
handle_auth d u (rename user name) = do r ← update_profile user name; pure tt
handle_auth d u (change user req) = change_password u user req
handle_auth d u (set_role_of user role) = admin_set_role user role

open_session-Rotating : (u : User) (b : Bool) → Rotating (open_session u b)
unfolding open_session generate_token_pair
open_session-Rotating u b = search rotating_tables

persist-Rotating : (user : ℕ) (c : Consumed) → Rotating (persist user c)
unfolding persist
persist-Rotating user c = search rotating_tables

second_factor-Rotating :
    (user : ℕ) (tfa : TwoFactor) (code : Text) → Rotating (second_factor user tfa code)
unfolding second_factor use_recovery_code
second_factor-Rotating user tfa code = search (rotating_tables, persist-Rotating)

challenge_if-Rotating :
    (user : ℕ) (r : Result TwoFactor) (code : Text) → Rotating (challenge_if user r code)
challenge_if-Rotating user (ok tfa) code = search (rotating_tables, second_factor-Rotating)
challenge_if-Rotating user (err e) code = search rotating_tables

or_invalid_credentials-Rotating : (r : Result User) → Rotating (or_invalid_credentials r)
or_invalid_credentials-Rotating (ok u) = search rotating_tables
or_invalid_credentials-Rotating (err e) = search rotating_tables

login-Rotating : (d : AuthDeps) (req : LoginRequest) → Rotating (login d req)
unfolding login login_user
login-Rotating d req =
    search
      (
        rotating_tables, or_invalid_credentials-Rotating, challenge_if-Rotating,
        open_session-Rotating,
      )
      depth 16

or_invalid_token-Rotating : (r : Result RefreshToken) → Rotating (or_invalid_token r)
or_invalid_token-Rotating (ok row) = search rotating_tables
or_invalid_token-Rotating (err e) = search rotating_tables

reject_replay-Rotating : (user : ℕ) → Rotating (reject_replay user)
unfolding reject_replay
reject_replay-Rotating user = search rotating_tables

won_or_rejected-Rotating : (user : ℕ) (r : Result ⊤) → Rotating (won_or_rejected user r)
won_or_rejected-Rotating user (ok x) = search rotating_tables
won_or_rejected-Rotating user (err e) = search (rotating_tables, reject_replay-Rotating)

rotate-Rotating : (token : Text) (row : RefreshToken) → Rotating (rotate token row)
unfolding rotate reissue
rotate-Rotating token row =
    search
      (rotating_tables, reject_replay-Rotating, won_or_rejected-Rotating, open_session-Rotating)
      depth 16

refresh_tokens-Rotating : (token : Text) → Rotating (refresh_tokens token)
unfolding refresh_tokens
refresh_tokens-Rotating token = search (rotating_tables, or_invalid_token-Rotating, rotate-Rotating)

logout-Rotating : (user : ℕ) → Rotating (logout user)
unfolding logout
logout-Rotating user = search rotating_tables

send_reset_token-Rotating :
    (d : AuthDeps) (email : Text) (r : Result User) → Rotating (send_reset_token d email r)
send_reset_token-Rotating d email (ok u) = search rotating_tables
send_reset_token-Rotating d email (err e) = search rotating_tables

forgot_password-Rotating : (d : AuthDeps) (email : Text) → Rotating (forgot_password d email)
unfolding forgot_password
forgot_password-Rotating d email = search (rotating_tables, send_reset_token-Rotating)

reset_password-Rotating :
    (d : AuthDeps) (req : ResetPasswordRequest) → Rotating (reset_password d req)
unfolding reset_password reset_with
reset_password-Rotating d req = search rotating_tables depth 16

generate_recovery_codes-Rotating : (n : ℕ) → Rotating (generate_recovery_codes n)
unfolding generate_recovery_codes
generate_recovery_codes-Rotating zero = search rotating_tables
generate_recovery_codes-Rotating (suc n) =
    Rotating-bind (stmt (λ env t db. (ok (env.random t), db)))
      (λ bytes. generate_recovery_codes n >>= λ codes. pure (recovery_code bytes ∷ codes))
      (Rotating-look (λ env t db. ok (env.random t)))
      (λ bytes.
        Rotating-bind (generate_recovery_codes n) (λ codes. pure (recovery_code bytes ∷ codes))
          (generate_recovery_codes-Rotating n)
          (λ codes. Rotating-pure (recovery_code bytes ∷ codes)))

drop_pending-Rotating : (user : ℕ) (r : Result TwoFactor) → Rotating (drop_pending user r)
drop_pending-Rotating user (ok tfa) = search rotating_tables
drop_pending-Rotating user (err e) = search rotating_tables

setup_two_factor-Rotating : (user : ℕ) → Rotating (setup_two_factor user)
unfolding setup_two_factor
setup_two_factor-Rotating user =
    search (rotating_tables, drop_pending-Rotating, generate_recovery_codes-Rotating) depth 16

or_not_enabled-Rotating : (r : Result TwoFactor) → Rotating (or_not_enabled r)
or_not_enabled-Rotating (ok tfa) = search rotating_tables
or_not_enabled-Rotating (err e) = search rotating_tables

enable-Rotating : (d : AuthDeps) (user : ℕ) (code : Text) → Rotating (enable d user code)
unfolding enable
enable-Rotating d user code = search (rotating_tables, or_not_enabled-Rotating) depth 16

disable-Rotating : (d : AuthDeps) (user : ℕ) (code : Text) → Rotating (disable d user code)
unfolding disable
disable-Rotating d user code = search (rotating_tables, second_factor-Rotating) depth 16

captcha_passed-Rotating : (r : Result Bool) → Rotating (captcha_passed r)
captcha_passed-Rotating (ok b) = search rotating_tables
captcha_passed-Rotating (err e) = search rotating_tables

register-Rotating : (u : UserDeps) (req : RegisterRequest) → Rotating (register u req)
unfolding register verify_captcha
register-Rotating u req = search (rotating_tables, captcha_passed-Rotating) depth 16

update_profile-Rotating : (user : ℕ) (name : Text) → Rotating (update_profile user name)
unfolding update_profile get_me
update_profile-Rotating user name = search rotating_tables

change_password-Rotating :
    (u : UserDeps) (user : ℕ) (req : ChangePasswordRequest) → Rotating (change_password u user req)
unfolding change_password
change_password-Rotating u user req = search rotating_tables depth 16

admin_set_role-Rotating : (user : ℕ) (role : Text) → Rotating (admin_set_role user role)
unfolding admin_set_role guard_last_admin
admin_set_role-Rotating user role = search rotating_tables depth 16

handle_auth-Rotating :
    (d : AuthDeps) (u : UserDeps) (req : AuthRequest) → Rotating (handle_auth d u req)
unfolding handle_auth
handle_auth-Rotating d u (log_in req) = search (rotating_tables, login-Rotating)
handle_auth-Rotating d u (refresh token) = search (rotating_tables, refresh_tokens-Rotating)
handle_auth-Rotating d u (log_out user) = logout-Rotating user
handle_auth-Rotating d u (forgot email) = forgot_password-Rotating d email
handle_auth-Rotating d u (reset req) = reset_password-Rotating d req
handle_auth-Rotating d u (setup_2fa user) = search (rotating_tables, setup_two_factor-Rotating)
handle_auth-Rotating d u (enable_2fa user code) = enable-Rotating d user code
handle_auth-Rotating d u (disable_2fa user code) = disable-Rotating d user code
handle_auth-Rotating d u (sign_up req) = search (rotating_tables, register-Rotating)
handle_auth-Rotating d u (rename user name) = search (rotating_tables, update_profile-Rotating)
handle_auth-Rotating d u (change user req) = change_password-Rotating u user req
handle_auth-Rotating d u (set_role_of user role) = admin_set_role-Rotating user role

-- Whatever a request on accounts or sign-in does, if other requests only age the tokens then so does
-- it: every refresh token and every reset token stays under its digest with its owner, neither a use
-- nor a revocation is taken back, and an id of which every token is used gets no unused one, whether
-- the request succeeds or fails.
pub handle_auth-Rotates :
    (d : AuthDeps) (u : UserDeps) (req : AuthRequest) (env : Env) (w : World)
    → Follows Rotates env
    → Rotates w.db (handle_auth d u req env w).1.db
handle_auth-Rotates d u req env w follows = (handle_auth-Rotating d u req).run env w follows
