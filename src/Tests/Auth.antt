-- ===== src/Tests/Auth.antt =====
-- The theorems on sign-in and accounts, on the small shop.
use stora_ecommerce.Prelude.{
  ◌||◌, ◌∙◌, ℕ, ◌≡◌, ◌≤◌, ◌&&◌, ◌==◌, refl, true, false, some, [], ◌∷◌, leb, arith, any_where,
  find_where, ◌+◌,
}
use stora_ecommerce.Effect.{◌>>=◌}
use stora_ecommerce.Strings.{to_lower, to_upper, trim_space}
use stora_ecommerce.Schema.{Text, Db}
use stora_ecommerce.Strings.{trim_space, to_upper}
use stora_ecommerce.Effect.{Env, World, ok, err, invalid_two_factor_code}
use stora_ecommerce.Effect.Rely.{Ends}
use stora_ecommerce.Effect.Hoare.{Follows}
use stora_ecommerce.Effect.Quiet.{Quiet}
use stora_ecommerce.Crypto.{decrypt_bytes}
use stora_ecommerce.Crypto.RoundTrip.{SealsAndOpens}
use stora_ecommerce.PasswordPolicy.{RuneClass, validate, byte_length, scan}
use stora_ecommerce.User.Repository.{
  User, customer, normalize_email, get_user_by_id, scan_user, update_password,
}
use stora_ecommerce.User.Service.{UserDeps, RegisterRequest, register, admin_set_role}
use stora_ecommerce.User.Registered.{Registered, register-Registered}
use stora_ecommerce.User.LastAdmin.{admins, admin_set_role-admins}
use stora_ecommerce.Auth.Fields.{to_hex, from_hex, enc_field, dec_field}
use stora_ecommerce.Auth.Repository.{
  find_token, get_refresh_token, hash_token, mark_refresh_token_used, store_refresh_token,
  revoke_all_user_tokens, get_password_reset_token, find_reset, mark_reset_token_used,
}
use stora_ecommerce.Auth.TwoFactorRows.{TwoFactor, of_user, read_two_factor, dec_codes}
use stora_ecommerce.Auth.Service.{
  AuthDeps, LoginResponse, ResetPasswordRequest, refresh_tokens, logout, login_user, open_session,
  role_admin, rotate, reissue, generate_token_pair,
}
use stora_ecommerce.Auth.Reset.{reset_password, reset_with}
use stora_ecommerce.Auth.Rotation.{Rotates, Rotates-IsStep}
use stora_ecommerce.Auth.Race.{refresh_tokens_race}
use stora_ecommerce.Auth.Once.{refresh_tokens_once, logout-refresh_tokens}
use stora_ecommerce.Auth.Requests.{refresh, handle_auth, handle_auth-Rotates}
use stora_ecommerce.Auth.ResetOnce.{reset_password_once}
use stora_ecommerce.Auth.RecoveryCodes.{matches}
use stora_ecommerce.Auth.SecondFactor.{login_user_refused}
use stora_ecommerce.Auth.Columns.{Octets, dec_field-enc_field}
use stora_ecommerce.Tests.{calm_env, shop, world, token, member}

abbrev ascii : RuneClass
ascii = record {
  is_upper = λ c. leb b'A' c && leb c b'Z';
  is_lower = λ c. leb b'a' c && leb c b'z';
  is_digit = λ c. leb b'0' c && leb c b'9';
  is_punct = λ c. c == b'!';
  is_symbol = λ c. c == b'+';
}

-- "Abcdef1!"
abbrev good : Text
good = b'A' ∷ b'b' ∷ b'c' ∷ b'd' ∷ b'e' ∷ b'f' ∷ b'1' ∷ b'!' ∷ []

-- Letters beyond ASCII take two bytes each.
abbrev latin : RuneClass
latin = record ascii { is_lower = λ c. ascii.is_lower c || leb 224 c && leb c 255 }

-- Six characters in nine bytes.
six_characters : validate latin (b'A' ∷ 233 ∷ b'1' ∷ b'+' ∷ 233 ∷ 233 ∷ []) ≡ ok tt
unfolding validate byte_length scan
six_characters = refl

abbrev auth_deps : AuthDeps
auth_deps = record {
  valid_login = λ r. true;
  valid_forgot = λ r. true;
  valid_reset = λ r. true;
  valid_code = λ r. true;
  runes = ascii;
  base_url = [];
  mailer = true;
}

abbrev user_deps : UserDeps
user_deps = record {
  valid_register = λ r. true;
  valid_change = λ r. true;
  runes = ascii;
  captcha = false;
  revoker = true;
}

calm-Follows : Follows Rotates calm_env
calm-Follows = record { step = λ t db. Rotates-IsStep.stay db }

calm-Quiet : Quiet calm_env
calm-Quiet = record { alone = λ t db. refl }

abbrev secret_token : Text
secret_token = b'r' ∷ []

abbrev after_refresh : World
after_refresh = (refresh_tokens secret_token calm_env (world shop)).1

abbrev new_pair : LoginResponse
new_pair = record {
  access_token = b'a' ∷ 3 ∷ [];
  refresh_token = b'r' ∷ 3 ∷ [];
  expires_at = 904;
  two_factor_setup_required = false;
}

refreshed : refresh_tokens secret_token calm_env (world shop) ≡ (ok new_pair, after_refresh)
unfolding refresh_tokens get_refresh_token hash_token find_token rotate mark_refresh_token_used
    reissue get_user_by_id scan_user decrypt_bytes open_session generate_token_pair
    store_refresh_token
refreshed = refl

refresh_tokens_once_example :
    ¬ ((refresh_tokens secret_token calm_env after_refresh).0 ≡ ok new_pair)
refresh_tokens_once_example =
    refresh_tokens_once calm_env calm_env secret_token (world shop) after_refresh after_refresh
      new_pair new_pair calm-Follows calm-Follows refl refreshed
      (Rotates-IsStep.stay after_refresh.db)

abbrev after_read : World
after_read = record (world shop) { tick = 1 }

token_read :
    get_refresh_token secret_token calm_env (world shop) ≡ (ok (token 31 secret_token), after_read)
unfolding get_refresh_token hash_token find_token
token_read = refl

refresh_tokens_race_example :
    ¬ ((rotate secret_token (token 31 secret_token) calm_env after_refresh).0 ≡ ok new_pair)
refresh_tokens_race_example =
    refresh_tokens_race calm_env calm_env secret_token (token 31 secret_token) (world shop)
      after_read (world shop) after_refresh after_refresh new_pair new_pair calm-Follows
      calm-Follows refl token_read (Rotates-IsStep.stay shop) refreshed
      (Rotates-IsStep.stay after_refresh.db)

abbrev after_logout : World
after_logout = (logout 3 calm_env (world shop)).1

logged_out : logout 3 calm_env (world shop) ≡ (ok tt, after_logout)
unfolding logout revoke_all_user_tokens
logged_out = refl

stored : find_token (b'd' ∷ secret_token) shop.refresh_tokens ≡ some (token 31 secret_token)
unfolding find_token
stored = refl

logout-refresh_tokens_example :
    ¬ ((refresh_tokens secret_token calm_env after_logout).0 ≡ ok new_pair)
logout-refresh_tokens_example =
    logout-refresh_tokens calm_env calm_env 3 secret_token (token 31 secret_token) (world shop)
      after_logout after_logout new_pair calm-Follows calm-Follows refl stored refl logged_out
      (Rotates-IsStep.stay after_logout.db)

handle_auth-Rotates_example :
    Rotates shop (handle_auth auth_deps user_deps (refresh secret_token) calm_env (world shop)).1.db
handle_auth-Rotates_example =
    handle_auth-Rotates auth_deps user_deps (refresh secret_token) calm_env (world shop)
      calm-Follows

abbrev reset_request : ResetPasswordRequest
reset_request = record { token = b'p' ∷ []; new_password = good; confirm_password = good }

abbrev after_reset : World
after_reset = (reset_password auth_deps reset_request calm_env (world shop)).1

reset_done : reset_password auth_deps reset_request calm_env (world shop) ≡ (ok tt, after_reset)
unfolding reset_password validate byte_length scan get_password_reset_token hash_token find_reset
    reset_with update_password mark_reset_token_used revoke_all_user_tokens
reset_done = refl

reset_password_once_example :
    ¬ ((reset_password auth_deps reset_request calm_env after_reset).0 ≡ ok tt)
    × ((reset_password auth_deps reset_request calm_env after_reset).1.db ≡ after_reset.db)
reset_password_once_example =
    reset_password_once calm_env calm_env auth_deps reset_request reset_request (world shop)
      after_reset after_reset {R = λ a b. b ≡ a}
      (record { stay = λ a. refl; join = λ a b c f g. g ∙ f }) (record { step = λ t db. refl })
      calm-Follows calm-Follows refl reset_done (Rotates-IsStep.stay after_reset.db)

abbrev customer_3 : User
customer_3 = record {
  id = 3;
  email = b'e' ∷ [];
  name = [];
  password_hash = b'w' ∷ [];
  role = customer;
  created_at = 0;
  updated_at = 0;
}

abbrev enabled : TwoFactor
enabled = record {
  secret_key = b't' ∷ [];
  is_enabled = true;
  recovery_codes = (b'A' ∷ []) ∷ (b'B' ∷ []) ∷ [];
}

abbrev wrong_code : Text
wrong_code = b'x' ∷ []

read : read_two_factor calm_env (find_where (of_user 3) shop.two_factor_auth) ≡ ok enabled
unfolding read_two_factor dec_codes dec_field from_hex to_hex decrypt_bytes
read = refl

no_code_matches :
    any_where (matches (trim_space (to_upper wrong_code))) enabled.recovery_codes ≡ false
unfolding trim_space to_upper
no_code_matches = refl

login_user_refused_example :
    (login_user customer_3 wrong_code calm_env (world shop)).0 ≡ err invalid_two_factor_code
login_user_refused_example =
    login_user_refused customer_3 wrong_code enabled calm_env (world shop) refl read refl refl
      no_code_matches

-- The database fails at the first call.
abbrev failing_env : Env
failing_env = record calm_env { fault = λ t. t == 0 }

calm-SealsAndOpens : SealsAndOpens calm_env
calm-SealsAndOpens = record { nonce_length = λ t. refl; opens = λ nonce text. refl }

-- The nonce holds the number of the call, so a clock that stands still.
abbrev byte_env : Env
byte_env = record calm_env { nonce = λ t. 0 ∷ 1 ∷ 2 ∷ 3 ∷ 4 ∷ 5 ∷ 6 ∷ 7 ∷ 8 ∷ 9 ∷ 10 ∷ 11 ∷ [] }

byte-SealsAndOpens : SealsAndOpens byte_env
byte-SealsAndOpens = record { nonce_length = λ t. refl; opens = λ nonce text. refl }

byte-Octets : Octets byte_env
byte-Octets = record { nonce = λ t. omega arith; seal = λ nonce text h. h }

dec_field-enc_field_example :
    Ends
      (λ column _. dec_field byte_env column ≡ ok (b't' ∷ []))
      (enc_field (b't' ∷ []) byte_env (world shop)).0
      (enc_field (b't' ∷ []) byte_env (world shop)).1.db
dec_field-enc_field_example =
    dec_field-enc_field byte_env byte-SealsAndOpens byte-Octets (b't' ∷ []) (world shop)
      (omega arith)

abbrev sign_up_request : RegisterRequest
sign_up_request = record { email = b'n' ∷ []; password = good; captcha_token = [] }

register-Registered_example :
    Ends
      (λ resp db.
        (resp.email ≡ to_lower (trim_space sign_up_request.email))
        × Registered calm_env (normalize_email resp.email) good db
        × ((t : ℕ) × (resp.id ≡ 1000 + t)))
      (register user_deps sign_up_request calm_env (world shop)).0
      (register user_deps sign_up_request calm_env (world shop)).1.db
register-Registered_example = register-Registered user_deps sign_up_request calm_env (world shop)

abbrev one_admin : Db
one_admin = record shop { users = record (member 3) { role = role_admin } ∷ [] }

admin_set_role-admins_example :
    1 ≤ admins (admin_set_role 3 customer calm_env (world one_admin)).1.db.users
admin_set_role-admins_example =
    admin_set_role-admins calm_env calm-Quiet 3 customer (world one_admin) (omega arith)
      (omega arith)
