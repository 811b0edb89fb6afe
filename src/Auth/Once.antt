-- ===== src/Auth/Once.antt =====
-- Rotation and logout (internal/auth/service.go), over whole calls.
use stora_ecommerce.Prelude.{ℕ, ◌≡◌, sym, ⊤, ◌||◌, true, some, refl}
use mathlib.Core.Path.{subst}
use stora_ecommerce.Schema.{Text, RefreshToken, Db}
use stora_ecommerce.Effect.{Env, World, Result, ok}
use stora_ecommerce.Effect.Rely.{Ends}
use stora_ecommerce.Effect.Hoare.{Holds, Follows}
use stora_ecommerce.Auth.Repository.{find_token}
use stora_ecommerce.Auth.Service.{LoginResponse, refresh_tokens, logout}
use stora_ecommerce.Auth.Rotation.{Rotates}
use stora_ecommerce.Auth.SingleUse.{digest_of, Ended, Ended-Stable, HasId, Holds-refresh_tokens}
use stora_ecommerce.Auth.Refused.{rotate-refused, rotate-ends, logout-ends}

module _ (env : Env) (follows : Follows Rotates env) (token : Text) where
  refresh_tokens-refused : Holds env (Ended (digest_of env token)) (refresh_tokens token) (λ _ _. ⊥)
  refresh_tokens-refused =
      Holds-refresh_tokens env follows (Ended (digest_of env token))
        (λ row db. (row.used || row.revoked) ≡ true) (λ _ _. ⊥) token
        (Ended-Stable (digest_of env token)) (λ db r (r', found', over) found. cc)
        (rotate-refused env follows token)

  refresh_tokens-ends : Holds env (λ _. ⊤) (refresh_tokens token) (λ _. Ended (digest_of env token))
  refresh_tokens-ends =
      Holds-refresh_tokens env follows (λ _. ⊤) (λ row. HasId (digest_of env token) row.id)
        (λ _. Ended (digest_of env token)) token (λ a b step p. tt)
        (λ db r p found. (r, found, refl)) (rotate-ends env follows (digest_of env token) token)

pub Ends-ok :
    {A : Type 0} (Q : A → Db → Type 0) (r : Result A) (a : A) (db : Db)
    → r ≡ ok a
    → Ends Q r db
    → Q a db
Ends-ok Q r a db e h = subst (λ r. Ends Q r db) e h

-- A token that is ended is refused, whatever happens meanwhile.
Ended-refused :
    (env env' : Env) (token : Text) (w w' : World) (resp : LoginResponse)
    → Follows Rotates env'
    → digest_of env' token ≡ digest_of env token
    → Ended (digest_of env token) w.db
    → Rotates w.db w'.db
    → ¬ ((refresh_tokens token env' w').0 ≡ ok resp)
Ended-refused env env' token w w' resp follows same over later success =
    Ends-ok (λ _ _. ⊥) (refresh_tokens token env' w').0 resp (refresh_tokens token env' w').1.db
      success
      ((refresh_tokens-refused env' follows token).run w' (
        Ended-Stable (digest_of env' token) w.db w'.db later
          (subst (λ d. Ended d w.db) (sym same) over)))

-- If others only add tokens, use them and revoke them, and the digest of the token is the same for
-- both calls, a refresh token that has given a new pair gives none again in a call that begins
-- later, with any interleaving of other requests.
pub refresh_tokens_once :
    (env env' : Env) (token : Text) (w w' w'' : World) (resp resp' : LoginResponse)
    → Follows Rotates env
    → Follows Rotates env'
    → digest_of env' token ≡ digest_of env token
    → refresh_tokens token env w ≡ (ok resp, w')
    → Rotates w'.db w''.db
    → ¬ ((refresh_tokens token env' w'').0 ≡ ok resp')
refresh_tokens_once env env' token w w' w'' resp resp' follows follows' same first later =
    Ended-refused env env' token w' w'' resp' follows' same
      (subst
        (λ (x : Result LoginResponse × World). Ends (λ _. Ended (digest_of env token)) x.0 x.1.db)
        first ((refresh_tokens-ends env follows token).run w tt))
      later

-- If others only add tokens, use them and revoke them, and the digest of the token is the same for
-- both calls, a refresh token of a user that is stored when a logout of the user begins gives no
-- new pair in a call that begins after the logout has succeeded, with any interleaving of other
-- requests.
pub logout-refresh_tokens :
    (env env' : Env) (user : ℕ) (token : Text) (row : RefreshToken) (w w' w'' : World)
    (resp : LoginResponse)
    → Follows Rotates env
    → Follows Rotates env'
    → digest_of env' token ≡ digest_of env token
    → find_token (digest_of env token) w.db.refresh_tokens ≡ some row
    → row.user_id ≡ user
    → logout user env w ≡ (ok tt, w')
    → Rotates w'.db w''.db
    → ¬ ((refresh_tokens token env' w'').0 ≡ ok resp)
logout-refresh_tokens env env' user token row w w' w'' resp follows follows' same found mine out
      later =
    Ended-refused env env' token w' w'' resp follows' same
      (subst (λ (x : Result ⊤ × World). Ends (λ _. Ended (digest_of env token)) x.0 x.1.db) out
        ((logout-ends env follows (digest_of env token) user).run w (row, found, mine)))
      later
