-- ===== src/Auth/TwoFactor.antt =====
-- Setting up, enabling and disabling two-factor authentication (internal/auth/service.go). The QR
-- image is left out.
use stora_ecommerce.Prelude.{
  ℕ, suc, zero, ⊤, not, List, [], ◌∷◌, ◌++◌, ltb, take, drop, length, if◌then◌else◌,
}
use stora_ecommerce.Schema.{Text, Bytes}
use stora_ecommerce.Effect.{
  Result, ok, err, M, pure, raise, ◌>>=◌, ◌>>◌, raise_if, attempt, lift, stmt, here, validation,
  two_factor_not_enabled, two_factor_already_enabled, invalid_two_factor_code,
}
use stora_ecommerce.Strings.{to_upper}
use stora_ecommerce.Auth.Fields.{to_hex}
use stora_ecommerce.Auth.TwoFactorRows.{
  TwoFactor, store_two_factor, get_two_factor, enable_two_factor, delete_two_factor,
  store_recovery_codes,
}
use stora_ecommerce.Auth.Service.{AuthDeps, second_factor}
use stora_ecommerce.Auth.Reset.{hashed}

pub record Setup2faResponse : Type 0 where
  pub secret : Text
  pub recovery_codes : List Text

-- `%X` of five bytes, cut to XXXX-XXXX.
unfoldable pub recovery_code : Bytes → Text
recovery_code bytes =
    let code = to_upper (to_hex bytes) in
    if ltb (length code) 8 then code else take 4 code ++ b'-' ∷ take 4 (drop 4 code)

unfoldable pub generate_recovery_codes : ℕ → M (List Text)
generate_recovery_codes zero = pure []
generate_recovery_codes (suc count) = do
  bytes ← stmt (λ env t db. (ok (env.random t), db))
  codes ← generate_recovery_codes count
  pure (recovery_code bytes ∷ codes)

abbrev pub drop_pending : ℕ → Result TwoFactor → M ⊤
drop_pending user (err e) = pure tt
drop_pending user (ok tfa) =
    if tfa.is_enabled
    then raise two_factor_already_enabled
    else (do gone ← attempt (delete_two_factor user); pure tt)

unfoldable pub setup_two_factor : ℕ → M Setup2faResponse
setup_two_factor user = do
  existing ← attempt (get_two_factor user)
  drop_pending user existing
  secret ← here (λ env t. hashed (env.totp_secret t)) >>= lift
  codes ← generate_recovery_codes 8
  store_two_factor user secret
  store_recovery_codes user codes
  pure (record { secret = secret; recovery_codes = codes })

abbrev pub or_not_enabled : Result TwoFactor → M TwoFactor
or_not_enabled (ok tfa) = pure tfa
or_not_enabled (err e) = raise two_factor_not_enabled

unfoldable pub enable : AuthDeps → ℕ → Text → M ⊤
enable d user code = do
  raise_if (not (d.valid_code code)) validation
  found ← attempt (get_two_factor user)
  tfa ← or_not_enabled found
  raise_if tfa.is_enabled two_factor_already_enabled
  valid ← here (λ env t. env.totp_valid (env.now t) code tfa.secret_key)
  raise_if (not valid) invalid_two_factor_code
  enable_two_factor user

unfoldable pub disable : AuthDeps → ℕ → Text → M ⊤
disable d user code = do
  raise_if (not (d.valid_code code)) validation
  tfa ← get_two_factor user
  raise_if (not tfa.is_enabled) two_factor_not_enabled
  second_factor user tfa code
  delete_two_factor user
