-- ===== src/Auth/ResetOnce.antt =====
-- A password reset token that is used (`ResetPassword` of internal/auth/service.go).
use stora_ecommerce.Prelude.{
  ℕ, ◌≡◌, refl, sym, ◌∙◌, ⊤, true, not, Option, none, some, ltb, any_where, Bool-cases, inl, inr,
  arith, if◌then◌else◌, Bool, false, [], ◌∷◌,
}
use mathlib.Core.Path.{subst}
use stora_ecommerce.Schema.{Text, Bytes, PasswordResetToken, Db}
use stora_ecommerce.Effect.{
  Env, Err, World, Result, ok, err, M, pure, lift, ◌>>=◌, ◌>>◌, raise_if, attempt, query, here,
  validation, reset_token_used, reset_token_expired,
}
use stora_ecommerce.Effect.Rely.{IsStep, Ends, Stable}
use stora_ecommerce.Effect.Hoare.{
  Holds, Keeps, Follows, Keeps-Stable, Holds-bind, Holds-raise_if, Holds-query, Holds-here,
}
use stora_ecommerce.Effect.Moves.{Moves, Moves-pure, Moves-here, Moves-bind, Moves-read}
use stora_ecommerce.PasswordPolicy.{validate}
use stora_ecommerce.User.Repository.{update_user, set_password, update_password}
use stora_ecommerce.Auth.Repository.{
  hash_token, has_reset, find_reset, or_reset_not_found, get_password_reset_token, is_reset,
  set_reset_used, mark_reset, mark_reset_token_used, revoke_all_user_tokens,
}
use stora_ecommerce.Auth.Service.{AuthDeps, ResetPasswordRequest}
use stora_ecommerce.Auth.Reset.{hashed, reset_with, reset_password}
use stora_ecommerce.Auth.Rotation.{Sticks, ResetAges, Stays, Rotates}
use stora_ecommerce.Auth.SingleUse.{digest_of, find_where-update, Holds-hash_token}
use stora_ecommerce.Auth.Rotating.{update_user-Rotates, revoke_all_user_tokens-Rotating}

-- The row under a digest has been used.
abbrev pub ResetUsed : Bytes → Db → Type 0
ResetUsed d db =
    (r : PasswordResetToken) × (find_reset d db.password_reset_tokens ≡ some r) × (r.used ≡ true)

-- A row with this id is under the digest.
abbrev ResetId : Bytes → ℕ → Db → Type 0
ResetId d id db =
    (r : PasswordResetToken) × (find_reset d db.password_reset_tokens ≡ some r) × (r.id ≡ id)

reset_later :
    (d : Bytes) (a b : Db) (r : PasswordResetToken)
    → Rotates a b
    → find_reset d a.password_reset_tokens ≡ some r
    → (r' : PasswordResetToken) × (find_reset d b.password_reset_tokens ≡ some r') × ResetAges r r'
reset_later d a b r step found =
    go (find_reset d b.password_reset_tokens) refl
      (subst (λ o. Stays ResetAges o (find_reset d b.password_reset_tokens)) found (step.resets d))
  where
    go :
        (o : Option PasswordResetToken)
        → find_reset d b.password_reset_tokens ≡ o
        → Stays ResetAges (some r) (find_reset d b.password_reset_tokens)
        → (r' : PasswordResetToken) × (find_reset d b.password_reset_tokens ≡ some r')
          × ResetAges r r'
    go none e h = absurd (subst (Stays ResetAges (some r)) e h)
    go (some r') e h = (r', e, subst (Stays ResetAges (some r)) e h)

ResetUsed-Stable : (d : Bytes) → Stable Rotates (ResetUsed d)
ResetUsed-Stable d a b step (r, found, used) =
    let (r', later, ages) = reset_later d a b r step found in
    (r', later, subst (λ u. Sticks u r'.used) used ages.used)

ResetId-Stable : (d : Bytes) (id : ℕ) → Stable Rotates (ResetId d id)
ResetId-Stable d id a b step (r, found, same) =
    let (r', later, ages) = reset_later d a b r step found in (r', later, ages.id ∙ same)

mark_reset-ResetUsed :
    (d : Bytes) (id : ℕ) (db : Db)
    → ResetId d id db
    → Ends (λ _. ResetUsed d) (mark_reset id db).0 (mark_reset id db).1
unfolding find_reset
mark_reset-ResetUsed d id db (r, found, same) =
    elim (Bool-cases (any_where (is_reset id) db.password_reset_tokens)) [
      | inl there ↦ rw there (
        if is_reset id r then set_reset_used r else r,
        find_where-update (has_reset d) (is_reset id) set_reset_used (λ a. refl)
            db.password_reset_tokens r found,
        ground (arith, same),
      )
      | inr gone ↦ rw gone tt
    ]

module _ (env : Env) (follows : Follows Rotates env) where
  keeps_reset : (P : Db → Type 0) → Stable Rotates P → Keeps env P
  keeps_reset P stable = Keeps-Stable P env stable follows

  Holds-get_password_reset_token :
      (P : Db → Type 0) (Q : PasswordResetToken → Db → Type 0) (token : Text)
      → Stable Rotates P
      → ((db : Db) (r : PasswordResetToken)
          → P db
          → find_reset (digest_of env token) db.password_reset_tokens ≡ some r
          → Q r db)
      → Holds env P (get_password_reset_token token) Q
  unfolding get_password_reset_token
  Holds-get_password_reset_token P Q token stable h =
      Holds-bind env (λ d db. P db × (d ≡ digest_of env token)) (hash_token token)
        (λ d. query (λ env t db. (or_reset_not_found (find_reset d db.password_reset_tokens), db)))
        (Holds-hash_token env follows token)
        (λ d.
          Holds-query env Q
            (λ env t db. (or_reset_not_found (find_reset d db.password_reset_tokens), db))
            (record { keep = λ t db p. ((keeps_reset P stable).keep t db p.0, p.1) })
            (λ t db p. at_row d db p (find_reset d db.password_reset_tokens) refl))
    where
      at_row :
          (d : Bytes) (db : Db)
          → P db × (d ≡ digest_of env token)
          → (o : Option PasswordResetToken) → find_reset d db.password_reset_tokens ≡ o
          → Ends Q (or_reset_not_found o) db
      at_row d db p none e = tt
      at_row d db p (some r) e =
          h db r p.0 (subst (λ x. find_reset x db.password_reset_tokens ≡ some r) p.1 e)

  Holds-lift_any : {A : Type 0} (P : Db → Type 0) (r : Result A) → Holds env P (lift r) (λ _. P)
  Holds-lift_any P (ok a) = record { run = λ w p. p }
  Holds-lift_any P (err e) = record { run = λ w p. tt }

  -- `ResetPassword`, from what is known of the row that is read.
  Holds-reset_password :
      (P : Db → Type 0) (Q : PasswordResetToken → Db → Type 0) (S : ⊤ → Db → Type 0) (d : AuthDeps)
      (req : ResetPasswordRequest)
      → Stable Rotates P
      → ((db : Db) (r : PasswordResetToken)
          → P db
          → find_reset (digest_of env req.token) db.password_reset_tokens ≡ some r
          → Q r db)
      → ((row : PasswordResetToken) → Holds env (Q row) (reset_with req.new_password row) S)
      → Holds env P (reset_password d req) S
  unfolding reset_password
  Holds-reset_password P Q S d req stable read rest =
      Holds-raise_if env S (not (d.valid_reset req)) validation
        (lift (validate d.runes req.new_password)
          >> (get_password_reset_token req.token >>= reset_with req.new_password))
        (λ valid.
          Holds-bind env (λ _. P) (lift (validate d.runes req.new_password))
            (λ _. get_password_reset_token req.token >>= reset_with req.new_password)
            (Holds-lift_any P (validate d.runes req.new_password))
            (λ _.
              Holds-bind env Q (get_password_reset_token req.token) (reset_with req.new_password)
                (Holds-get_password_reset_token P Q req.token stable read) rest))

  reset_with-refused :
      (new_password : Text) (row : PasswordResetToken)
      → Holds env (λ db. row.used ≡ true) (reset_with new_password row) (λ _ _. ⊥)
  unfolding reset_with
  reset_with-refused new_password row = record { run = λ w used. rw used tt }

  -- The update of the password and the mark.
  reset_with-marks :
      (d : Bytes) (new_password : Text) (row : PasswordResetToken)
      → Holds env (ResetId d row.id) (reset_with new_password row) (λ _. ResetUsed d)
  unfolding reset_with update_password mark_reset_token_used
  reset_with-marks d new_password row =
      Holds-raise_if env (λ _. ResetUsed d) row.used reset_token_used
        (here (λ env t. env.now t) >>= λ now.
          raise_if (ltb row.expires_at now) reset_token_expired >> (hash >>= rest))
        (λ fresh.
          Holds-bind env (λ _. ResetId d row.id) (here (λ env t. env.now t))
            (λ now. raise_if (ltb row.expires_at now) reset_token_expired >> (hash >>= rest))
            (Holds-here env (λ _. ResetId d row.id) (λ env t. env.now t) (λ t db p. p))
            (λ now.
              Holds-raise_if env (λ _. ResetUsed d) (ltb row.expires_at now) reset_token_expired
                (hash >>= rest)
                (λ valid.
                  Holds-bind env (λ _. ResetId d row.id) hash rest
                    (Holds-bind env (λ _. ResetId d row.id)
                      (here (λ env t. hashed (env.password_hash t new_password))) lift
                      (Holds-here env (λ _. ResetId d row.id)
                        (λ env t. hashed (env.password_hash t new_password)) (λ t db p. p))
                      (Holds-lift_any (ResetId d row.id)))
                    marked)))
    where
      hash : M Text
      hash = here (λ env t. hashed (env.password_hash t new_password)) >>= lift

      end : M ⊤
      end = attempt (revoke_all_user_tokens row.user_id) >> pure tt

      rest : Text → M ⊤
      rest h = update_password row.user_id h >> (mark_reset_token_used row.id >> end)

      all : (P : Db → Type 0) (r : Result ⊤) (db : Db) → P db → Ends (λ _. P) r db
      all P (ok a) db p = p
      all P (err e) db p = tt

      ended : Holds env (ResetUsed d) end (λ _. ResetUsed d)
      ended = record {
        run = λ w p.
            ResetUsed-Stable d w.db (attempt (revoke_all_user_tokens row.user_id) env w).1.db
              ((revoke_all_user_tokens-Rotating row.user_id).run env w follows) p;
      }

      marked : (h : Text) → Holds env (ResetId d row.id) (rest h) (λ _. ResetUsed d)
      marked h =
          Holds-bind env (λ _. ResetId d row.id) (update_password row.user_id h)
            (λ _. mark_reset_token_used row.id >> end)
            (Holds-query env (λ _. ResetId d row.id)
              (λ env t db. update_user row.user_id (set_password h (env.now t)) db)
              (keeps_reset (ResetId d row.id) (ResetId-Stable d row.id))
              (λ t db p.
                all (ResetId d row.id) (update_user row.user_id (set_password h (env.now t)) db).0
                  (update_user row.user_id (set_password h (env.now t)) db).1
                  (ResetId-Stable d row.id db
                    (update_user row.user_id (set_password h (env.now t)) db).1
                    (update_user-Rotates row.user_id (set_password h (env.now t)) db) p)))
            (λ _.
              Holds-bind env (λ _. ResetUsed d) (mark_reset_token_used row.id) (λ _. end)
                (Holds-query env (λ _. ResetUsed d) (λ env t db. mark_reset row.id db)
                  (keeps_reset (ResetId d row.id) (ResetId-Stable d row.id))
                  (λ t db p. mark_reset-ResetUsed d row.id db p))
                (λ _. ended))

  reset_password-refused :
      (d : AuthDeps) (req : ResetPasswordRequest)
      → Holds env (ResetUsed (digest_of env req.token)) (reset_password d req) (λ _ _. ⊥)
  reset_password-refused d req =
      Holds-reset_password (ResetUsed (digest_of env req.token)) (λ row db. row.used ≡ true)
        (λ _ _. ⊥) d req (ResetUsed-Stable (digest_of env req.token))
        (λ db r (r', found', used) found. cc) (reset_with-refused req.new_password)

  reset_password-marks :
      (d : AuthDeps) (req : ResetPasswordRequest)
      → Holds env (λ _. ⊤) (reset_password d req) (λ _. ResetUsed (digest_of env req.token))
  reset_password-marks d req =
      Holds-reset_password (λ _. ⊤) (λ row. ResetId (digest_of env req.token) row.id)
        (λ _. ResetUsed (digest_of env req.token)) d req (λ a b step p. tt)
        (λ db r p found. (r, found, refl))
        (reset_with-marks (digest_of env req.token) req.new_password)

-- A call on a used token does nothing to the tables.
module _ {R : Db → Db → Type 0} (s : IsStep R) (env : Env) (others : Follows R env) where
  moves_then :
      {A B : Type 0} (Q : A → Db → Type 0) (m : M A) (f : A → M B) (w : World)
      → R w.db (m env w).1.db
      → Ends Q (m env w).0 (m env w).1.db
      → ((a : A) (w' : World) → Q a w'.db → R w'.db (f a env w').1.db)
      → R w.db ((m >>= f) env w).1.db
  moves_then {A} {B} Q m f w first ends rest =
      s.join w.db (m env w).1.db ((m >>= f) env w).1.db first (go (m env w).0 (m env w).1 ends)
    where
      go :
          (r : Result A) (w' : World)
          → Ends Q r w'.db
          → R w'.db (((λ env w. (r, w')) >>= f) env w).1.db
      go (ok a) w' q = rest a w' q
      go (err e) w' q = s.stay w'.db

  used_does_nothing :
      (new_password : Text) (row : PasswordResetToken) (w : World)
      → row.used ≡ true
      → R w.db (reset_with new_password row env w).1.db
  unfolding reset_with
  used_does_nothing new_password row w used = rw used (s.stay w.db)

  hash_token-Moves : (token : Text) → Moves R (hash_token token)
  unfolding hash_token
  hash_token-Moves [] = Moves-pure s []
  hash_token-Moves (c ∷ token) = Moves-here s (λ env t. env.digest (c ∷ token))

  get_password_reset_token-Moves : (token : Text) → Moves R (get_password_reset_token token)
  unfolding get_password_reset_token
  get_password_reset_token-Moves token =
      Moves-bind s (hash_token token)
        (λ d. query (λ env t db. (or_reset_not_found (find_reset d db.password_reset_tokens), db)))
        (hash_token-Moves token)
        (λ d. Moves-read s (λ env t db. or_reset_not_found (find_reset d db.password_reset_tokens)))

  -- Tests that precede an action.
  guard_then :
      (b : Bool) (e : Err) (m : M ⊤) (w : World)
      → R w.db (m env w).1.db
      → R w.db ((raise_if b e >> m) env w).1.db
  guard_then true e m w h = s.stay w.db
  guard_then false e m w h = h

  lift_then :
      (r : Result ⊤) (m : M ⊤) (w : World)
      → R w.db (m env w).1.db
      → R w.db ((lift r >> m) env w).1.db
  lift_then (ok x) m w h = h
  lift_then (err e) m w h = s.stay w.db

  reset_password-does_nothing :
      (follows : Follows Rotates env) (d : AuthDeps) (req : ResetPasswordRequest) (w : World)
      → ResetUsed (digest_of env req.token) w.db
      → R w.db (reset_password d req env w).1.db
  unfolding reset_password
  reset_password-does_nothing follows d req w used =
      let read = get_password_reset_token req.token in
      guard_then (not (d.valid_reset req)) validation
        (lift (validate d.runes req.new_password) >> (read >>= reset_with req.new_password)) w
        (lift_then (validate d.runes req.new_password) (read >>= reset_with req.new_password) w (
          moves_then (λ row db. row.used ≡ true) read (reset_with req.new_password) w
            ((get_password_reset_token-Moves req.token).run env w others)
            ((Holds-get_password_reset_token env follows (ResetUsed (digest_of env req.token))
                (λ row db. row.used ≡ true) req.token (ResetUsed-Stable (digest_of env req.token))
                (λ db r (r', found', used) found. cc)).run
              w used)
            (λ row w' u. used_does_nothing req.new_password row w' u)))

-- If others only add tokens, use them and revoke them: once a reset has succeeded, a call with a
-- token of the same digest that begins after it has ended fails, and changes nothing: what happens
-- to the tables meanwhile is what the other requests do, a step of every relation that they follow.
pub reset_password_once :
    (env env' : Env) (d : AuthDeps) (req req' : ResetPasswordRequest) (w w' w'' : World)
    {R : Db → Db → Type 0}
    → IsStep R
    → Follows R env'
    → Follows Rotates env
    → Follows Rotates env'
    → digest_of env' req'.token ≡ digest_of env req.token
    → reset_password d req env w ≡ (ok tt, w')
    → Rotates w'.db w''.db
    → ¬ ((reset_password d req' env' w'').0 ≡ ok tt)
      × R w''.db (reset_password d req' env' w'').1.db
reset_password_once env env' d req req' w w' w'' step others follows follows' same first later =
    let used : ResetUsed (digest_of env' req'.token) w''.db =
      ResetUsed-Stable (digest_of env' req'.token) w'.db w''.db later (
        subst (λ x. ResetUsed x w'.db) (sym same)
          (subst
            (λ (x : Result ⊤ × World). Ends (λ _. ResetUsed (digest_of env req.token)) x.0 x.1.db)
            first ((reset_password-marks env follows d req).run w tt))) in
    (
      λ success.
          subst (λ r. Ends (λ _ _. ⊥) r (reset_password d req' env' w'').1.db) success
            ((reset_password-refused env' follows' d req').run w'' used),
      reset_password-does_nothing step env' others follows' d req' w'' used,
    )
