-- ===== src/Auth/Race.antt =====
-- The race of two rotations of one token (internal/auth/service.go).
use stora_ecommerce.Prelude.{ℕ, ◌≡◌, sym, refl, ⊤}
use mathlib.Core.Path.{subst}
use stora_ecommerce.Schema.{Text, RefreshToken}
use stora_ecommerce.Effect.{Env, World, Result, ok}
use stora_ecommerce.Effect.Rely.{Ends, Stable}
use stora_ecommerce.Effect.Hoare.{Holds, Follows}
use stora_ecommerce.Auth.Repository.{get_refresh_token, mark_used}
use stora_ecommerce.Auth.Service.{LoginResponse, rotate, refresh_tokens}
use stora_ecommerce.Auth.Taken.{Taken, mark_used-Taken, mark_used-late}
use stora_ecommerce.Auth.Rotation.{Rotates}
use stora_ecommerce.Auth.SingleUse.{
  digest_of, HasId, HasId-Stable, Holds-get_refresh_token, Holds-refresh_tokens,
}
use stora_ecommerce.Auth.Refused.{Holds-rotate}
use stora_ecommerce.Auth.Once.{Ends-ok}

Taken-Stable : (id : ℕ) → Stable Rotates (λ db. Taken id db.refresh_tokens)
Taken-Stable id a b step t = step.taken id t

module _ (env : Env) (follows : Follows Rotates env) (token : Text) where
  read-HasId :
      Holds env (λ _. ⊤) (get_refresh_token token) (λ row. HasId (digest_of env token) row.id)
  read-HasId =
      Holds-get_refresh_token env follows (λ _. ⊤) (λ row. HasId (digest_of env token) row.id) token
        (λ a b step p. tt) (λ db r p found. (r, found, refl))

  -- The winner leaves the token used.
  refresh_tokens-takes :
      (id : ℕ)
      → Holds env
          (HasId (digest_of env token) id)
          (refresh_tokens token)
          (λ _ db. Taken id db.refresh_tokens)
  refresh_tokens-takes id =
      Holds-refresh_tokens env follows (HasId (digest_of env token) id) (λ row _. row.id ≡ id)
        (λ _ db. Taken id db.refresh_tokens) token (HasId-Stable (digest_of env token) id)
        (λ db r (r', found', same) found. cc) takes
    where
      takes :
          (row : RefreshToken)
          → Holds env (λ _. row.id ≡ id) (rotate token row) (λ _ db. Taken id db.refresh_tokens)
      takes row =
          Holds-rotate env follows (λ _. row.id ≡ id) (λ db. Taken id db.refresh_tokens)
            (λ a b step p. p) (Taken-Stable id) token row
            (λ db same.
              subst
                (λ i.
                  Ends (λ _ db. Taken i db.refresh_tokens) (mark_used row.id db).0
                    (mark_used row.id db).1)
                same (mark_used-Taken row.id db))

  -- The loser finds it used.
  rotate-late :
      (row : RefreshToken)
      → Holds env (λ db. Taken row.id db.refresh_tokens) (rotate token row) (λ _ _. ⊥)
  rotate-late row =
      Holds-rotate env follows (λ db. Taken row.id db.refresh_tokens) (λ _. ⊥) (Taken-Stable row.id)
        (λ a b step p. p) token row (mark_used-late row.id)

-- If others only add tokens, use them and revoke them, and the digest of the token is the same for
-- both requests: when one request has read the row of a refresh token, and another has then given a
-- new pair for the token, the first gives none, even if the row that it read was unused.
pub refresh_tokens_race :
    (env env' : Env) (token : Text) (row : RefreshToken) (w w1 w2 w3 w4 : World)
    (resp resp' : LoginResponse)
    → Follows Rotates env
    → Follows Rotates env'
    → digest_of env' token ≡ digest_of env token
    → get_refresh_token token env w ≡ (ok row, w1)
    → Rotates w1.db w2.db
    → refresh_tokens token env' w2 ≡ (ok resp, w3)
    → Rotates w3.db w4.db
    → ¬ ((rotate token row env w4).0 ≡ ok resp')
refresh_tokens_race env env' token row w w1 w2 w3 w4 resp resp' follows follows' same read between
      won later success =
    let d = digest_of env token in
    let seen : HasId d row.id w1.db =
      subst (λ (x : Result RefreshToken × World). Ends (λ row. HasId d row.id) x.0 x.1.db) read
        ((read-HasId env follows token).run w tt) in
    let taken : Taken row.id w3.db.refresh_tokens =
      subst
        (λ (x : Result LoginResponse × World).
          Ends (λ _ db. Taken row.id db.refresh_tokens) x.0 x.1.db)
        won
        ((refresh_tokens-takes env' follows' token row.id).run w2 (
          subst (λ d. HasId d row.id w2.db) (sym same)
            (HasId-Stable d row.id w1.db w2.db between seen))) in
    Ends-ok (λ _ _. ⊥) (rotate token row env w4).0 resp' (rotate token row env w4).1.db success
      ((rotate-late env follows token row).run w4 (later.taken row.id taken))
