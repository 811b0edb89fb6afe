-- ===== src/Auth/RecoveryCodes.antt =====
-- The loop of `useRecoveryCode` and the second factor of a login (internal/auth/service.go).
use stora_ecommerce.Prelude.{
  ℕ, ◌+◌, ◌≡◌, refl, Bool, true, false, List, [], ◌∷◌, ◌++◌, any_where, find_where, Bool-cases, inl,
  inr, if◌then◌else◌,
}
use mathlib.Core.List.{append_assoc, append-nil}
use stora_ecommerce.Schema.{Text}
use stora_ecommerce.Effect.{Env, World, err, ◌>>=◌, invalid_two_factor_code}
use stora_ecommerce.Strings.{text_eq, to_upper, trim_space}
use stora_ecommerce.Auth.TwoFactorRows.{TwoFactor, of_user, read_two_factor, get_two_factor}
use stora_ecommerce.Auth.Service.{
  consume, nothing_consumed, persist, use_recovery_code, second_factor,
}

abbrev pub matches : Text → Text → Bool
matches code rc = text_eq (to_upper rc) code

-- Two codes that differ at most in case and in the blanks around the one that is entered.
abbrev pub same_code : Text → Text → Bool
same_code code rc = text_eq (to_upper rc) (to_upper (trim_space code))

-- The list without its first code that matches.
pub remove_first : Text → List Text → List Text
remove_first code [] = []
remove_first code (rc ∷ codes) = if matches code rc then codes else rc ∷ remove_first code codes

consume-found :
    (code : Text) (codes kept : List Text)
    → consume code codes (record { found = true; remaining = kept })
      ≡ record { found = true; remaining = kept ++ codes }
unfolding consume
consume-found code [] kept = rw (append-nil kept) refl
consume-found code (rc ∷ codes) kept = elim (Bool-cases (matches code rc)) [
  | inl hit ↦
      rw (hit, consume-found code codes (kept ++ rc ∷ []), append_assoc kept (rc ∷ []) codes) refl
  | inr miss ↦
      rw (miss, consume-found code codes (kept ++ rc ∷ []), append_assoc kept (rc ∷ []) codes) refl
]

consume-append :
    (code : Text) (codes kept : List Text)
    → consume code codes (record { found = false; remaining = kept }) ≡ record {
      found = any_where (matches code) codes;
      remaining = kept ++ remove_first code codes;
    }
unfolding consume remove_first
consume-append code [] kept = rw (append-nil kept) refl
consume-append code (rc ∷ codes) kept = elim (Bool-cases (matches code rc)) [
  | inl hit ↦ rw (hit, consume-found code codes kept) refl
  | inr miss ↦
      rw
        (
          miss,
          consume-append code codes (kept ++ rc ∷ []),
          append_assoc kept (rc ∷ []) (remove_first code codes),
        )
        refl
]

pub consume-remove_first :
    (code : Text) (codes : List Text)
    → consume code codes nothing_consumed
      ≡ record { found = any_where (matches code) codes; remaining = remove_first code codes }
consume-remove_first code codes = consume-append code codes []

pub second_factor_refused :
    (user : ℕ) (tfa : TwoFactor) (code : Text) (env : Env) (w : World)
    → env.totp_valid (env.now w.tick) code tfa.secret_key ≡ false
    → any_where (matches (trim_space (to_upper code))) tfa.recovery_codes ≡ false
    → second_factor user tfa code env w ≡ (err invalid_two_factor_code, w)
unfolding second_factor use_recovery_code persist
second_factor_refused user tfa code env w totp none =
    rw (totp, consume-remove_first (trim_space (to_upper code)) tfa.recovery_codes, none) refl

pub get_two_factor_lem :
    (user : ℕ) (env : Env) (w : World)
    → env.fault w.tick ≡ false
    → get_two_factor user env w ≡ (
      read_two_factor env (find_where (of_user user) (env.others w.tick w.db).two_factor_auth),
      record w { db = env.others w.tick w.db; tick = w.tick + 1 },
    )
unfolding get_two_factor
get_two_factor_lem user env w fine = rw fine refl
