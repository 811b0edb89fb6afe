-- ===== src/Auth/SecondFactor.antt =====
-- The second factor of a login (`Login` of internal/auth/service.go), from the row that is read.
use stora_ecommerce.Prelude.{
  ℕ, ◌+◌, ◌≡◌, refl, ap, ◌∙◌, Bool, true, false, is_empty, [], ◌∷◌, any_where, find_where,
  if◌then◌else◌,
}
use stora_ecommerce.Schema.{Text}
use stora_ecommerce.Effect.{
  Env, World, Result, ok, err, M, ◌>>=◌, ◌>>◌, attempt, raise_if, pure, invalid_two_factor_code,
  two_factor_required,
}
use stora_ecommerce.Effect.Rely.{bind-ok, bind-err}
use stora_ecommerce.Strings.{to_upper, trim_space}
use stora_ecommerce.User.Repository.{User}
use stora_ecommerce.Auth.TwoFactorRows.{TwoFactor, of_user, read_two_factor, get_two_factor}
use stora_ecommerce.Auth.Service.{
  second_factor, challenge_if, is_staff_role, open_session, LoginResponse, login_user,
}
use stora_ecommerce.Auth.RecoveryCodes.{matches, second_factor_refused, get_two_factor_lem}

-- `Login` after the row of two-factor authentication has been read.
abbrev after_read : User → Text → Result TwoFactor → M LoginResponse
after_read u code r = challenge_if u.id r code >>= λ enabled.
    open_session u (if enabled then false else is_staff_role u.role)

-- `Login` where two-factor authentication is enabled.
abbrev guarded : ℕ → TwoFactor → Text → M Bool
guarded user tfa code =
    raise_if (is_empty code) two_factor_required >> (second_factor user tfa code >> pure true)

guarded_refused :
    (user : ℕ) (tfa : TwoFactor) (code : Text) (env : Env) (w : World)
    → env.totp_valid (env.now w.tick) code tfa.secret_key ≡ false
    → any_where (matches (trim_space (to_upper code))) tfa.recovery_codes ≡ false
    → guarded user tfa code env w
      ≡ (err (if is_empty code then two_factor_required else invalid_two_factor_code), w)
guarded_refused user tfa [] env w totp unknown = refl
guarded_refused user tfa (c ∷ code) env w totp unknown =
    bind-err env (second_factor user tfa (c ∷ code)) (λ _. pure true) invalid_two_factor_code w w
      (second_factor_refused user tfa (c ∷ code) env w totp unknown)

after_read_refused :
    (u : User) (code : Text) (tfa : TwoFactor) (env : Env) (w : World)
    → tfa.is_enabled ≡ true
    → env.totp_valid (env.now w.tick) code tfa.secret_key ≡ false
    → any_where (matches (trim_space (to_upper code))) tfa.recovery_codes ≡ false
    → after_read u code (ok tfa) env w
      ≡ (err (if is_empty code then two_factor_required else invalid_two_factor_code), w)
after_read_refused u code tfa env w enabled totp unknown =
    bind-err env (challenge_if u.id (ok tfa) code)
      (λ enabled. open_session u (if enabled then false else is_staff_role u.role))
      (if is_empty code then two_factor_required else invalid_two_factor_code) w w
      (ap (λ b. (if b then guarded u.id tfa code else pure false) env w) enabled
        ∙ guarded_refused u.id tfa code env w totp unknown)

-- When the row of a user has two-factor authentication enabled and is read, and the code is no
-- valid TOTP code at that time and matches no recovery code, a login fails after the right password
-- too: an empty code asks for one, any other is invalid.
pub login_user_refused :
    (u : User) (code : Text) (tfa : TwoFactor) (env : Env) (w : World)
    → env.fault w.tick ≡ false
    → read_two_factor env (find_where (of_user u.id) (env.others w.tick w.db).two_factor_auth)
      ≡ ok tfa
    → tfa.is_enabled ≡ true
    → env.totp_valid (env.now (w.tick + 1)) code tfa.secret_key ≡ false
    → any_where (matches (trim_space (to_upper code))) tfa.recovery_codes ≡ false
    → (login_user u code env w).0
      ≡ err (if is_empty code then two_factor_required else invalid_two_factor_code)
unfolding login_user
login_user_refused u code tfa env w fine read enabled totp unknown =
    let w' : World = record w { db = env.others w.tick w.db; tick = w.tick + 1 } in
    ap (λ (x : Result LoginResponse × World). x.0)
      (bind-ok env (attempt (get_two_factor u.id)) (after_read u code) (ok tfa) w w' (
        ap (λ (x : Result TwoFactor × World). (ok x.0, x.1))
          (get_two_factor_lem u.id env w fine ∙ ap (λ (r : Result TwoFactor). (r, w')) read)))
    ∙ ap (λ (x : Result LoginResponse × World). x.0)
        (after_read_refused u code tfa env w' enabled totp unknown)
