-- ===== src/User/Service.antt =====
-- Registration, profile, password change and roles (internal/user/service.go, internal/user/admin.go).
use stora_ecommerce.Prelude.{
  count_where, leb, ℕ, ◌-◌, ◌*◌, ⊤, Bool, not, ◌&&◌, ◌||◌, List, [], ltb, leb, is_empty,
  if◌then◌else◌,
}
use stora_ecommerce.Schema.{Text}
use stora_ecommerce.Effect.{
  Result, ok, err, M, pure, raise, ◌>>=◌, ◌>>◌, raise_if, attempt, lift, stmt, here, validation,
  captcha_invalid, invalid_role, last_admin, wrong_password, no_password, name_too_long,
}
use stora_ecommerce.Strings.{trim_space, to_lower, text_eq}
use stora_ecommerce.PasswordPolicy.{RuneClass, validate}
use stora_ecommerce.User.Repository.{
  User, customer, create_user, get_user_by_id, update_name, update_role, update_password,
  count_by_role, list_all,
}
use stora_ecommerce.Auth.Repository.{revoke_all_user_tokens}
use stora_ecommerce.Auth.Service.{role_admin, role_support, role_sales}
use stora_ecommerce.Auth.Reset.{hashed}

pub record RegisterRequest : Type 0 where
  pub email : Text
  pub password : Text
  pub captcha_token : Text

pub record ChangePasswordRequest : Type 0 where
  pub current_password : Text
  pub new_password : Text

-- `userService`: the validator, the classes of Unicode, whether captcha and revoker are there.
pub record UserDeps : Type 0 where
  pub valid_register : RegisterRequest → Bool
  pub valid_change : ChangePasswordRequest → Bool
  pub runes : RuneClass
  pub captcha : Bool
  pub revoker : Bool

pub record UserResponse : Type 0 where
  pub id : ℕ
  pub email : Text

-- The request to the captcha service; every failure is `ErrCaptchaInvalid`.
abbrev pub captcha_passed : Result Bool → M ⊤
captcha_passed (ok b) = raise_if (not b) captcha_invalid
captcha_passed (err e) = raise captcha_invalid

unfoldable pub verify_captcha : Text → M ⊤
verify_captcha token = do
  passed ← attempt (stmt (λ env t db. (ok (env.captcha_ok t token), db)))
  captcha_passed passed

abbrev pub account : ℕ → Text → Text → User
account id email hash = record {
  id = id;
  email = email;
  name = [];
  password_hash = hash;
  role = [];
  created_at = 0;
  updated_at = 0;
}

-- `uuid.New()` makes the id of the response.
unfoldable pub register : UserDeps → RegisterRequest → M UserResponse
register d req = do
  raise_if (not (d.valid_register req)) validation
  lift (validate d.runes req.password)
  if d.captcha then verify_captcha req.captcha_token else pure tt
  let email = to_lower (trim_space req.email)
  hash ← here (λ env t. hashed (env.password_hash t req.password)) >>= lift
  id ← here (λ env t. env.fresh_id t)
  create_user (account id email hash)
  pure (record { id = id; email = email })

-- `GetMe`; the response leaves the hash out.
unfoldable pub get_me : ℕ → M User
get_me id = do u ← get_user_by_id id; pure (record u { password_hash = []; updated_at = 0 })

-- `utf8.RuneCountInString`, on valid UTF-8: the bytes that begin a code point.
unfoldable pub rune_count : Text → ℕ
rune_count name = count_where (λ b. ltb b 128 || leb 192 b) name

unfoldable pub update_profile : ℕ → Text → M User
update_profile id raw = do
  let name = trim_space raw
  raise_if (ltb 100 (rune_count name)) name_too_long
  update_name id name
  get_me id

unfoldable pub change_password : UserDeps → ℕ → ChangePasswordRequest → M ⊤
change_password d id req = do
  raise_if (not (d.valid_change req)) validation
  u ← get_user_by_id id
  raise_if (is_empty u.password_hash) no_password
  matches ← here (λ env t. env.password_matches u.password_hash req.current_password)
  raise_if (not matches) wrong_password
  lift (validate d.runes req.new_password)
  hash ← here (λ env t. hashed (env.password_hash t req.new_password)) >>= lift
  update_password id hash
  if d.revoker then (do r ← attempt (revoke_all_user_tokens id); pure tt) else pure tt

-- `validRoles`
unfoldable pub valid_role : Text → Bool
valid_role role =
    text_eq role role_admin
    || (text_eq role role_support || (text_eq role role_sales || text_eq role customer))

-- The guard of the last administrator.
unfoldable pub guard_last_admin : Text → Text → M ⊤
guard_last_admin current role =
    if text_eq current role_admin && not (text_eq role role_admin)
    then (do admins ← count_by_role role_admin; raise_if (leb admins 1) last_admin)
    else pure tt

unfoldable pub admin_set_role : ℕ → Text → M ⊤
admin_set_role id role = do
  raise_if (not (valid_role role)) invalid_role
  current ← get_user_by_id id
  guard_last_admin current.role role
  update_role id role

pub record AdminUserList : Type 0 where
  pub users : List User
  pub total : ℕ
  pub page : ℕ
  pub page_size : ℕ

unfoldable pub admin_list_users : ℕ → ℕ → M AdminUserList
admin_list_users page page_size = do
  let p = if ltb page 1 then 1 else page
  let size = if ltb page_size 1 || ltb 100 page_size then 25 else page_size
  (users, total) ← list_all size ((p - 1) * size)
  pure (record { users = users; total = total; page = p; page_size = size })
