-- ===== src/Auth/Refused.antt =====
-- Rotation from the row that is read (`RefreshTokens` of internal/auth/service.go): what a used or
-- revoked row leads to, and what a success leaves behind.
use stora_ecommerce.Prelude.{
  ℕ, ◌+◌, ◌≡◌, ⊤, Bool, true, false, ◌||◌, ltb, Bool-cases, inl, inr, find_where, ◌==◌, [],
}
use stora_ecommerce.Schema.{Text, Bytes, RefreshToken, Db}
use stora_ecommerce.Effect.{
  Env, Result, ok, err, M, pure, lift, ◌>>=◌, raise_if, attempt, query, here, token_revoked,
  expired_token,
}
use stora_ecommerce.Effect.Rely.{Ends, Stable}
use stora_ecommerce.Effect.Hoare.{
  Holds, Follows, Holds-pure, Holds-bind, Holds-raise_if, Holds-attempt, Holds-query, Holds-here,
  Holds-weaken,
}
use stora_ecommerce.User.Repository.{User, get_user_by_id, scan_user}
use stora_ecommerce.Auth.Repository.{
  insert_token, fresh_token, store_refresh_token, hash_token, mark_used, mark_refresh_token_used,
  revoke_all, revoke_all_user_tokens,
}
use stora_ecommerce.Auth.Service.{
  LoginResponse, TokenPair, token_pair, generate_token_pair, seven_days, fifteen_minutes,
  open_session, reject_replay, reject_if_used, won_or_rejected, is_token_used, claims_of, reissue,
  rotate, logout,
}
use stora_ecommerce.Auth.Rotation.{Rotates, insert_token-Rotates}
use stora_ecommerce.Auth.SingleUse.{
  Ended, Ended-Stable, Owned, Owned-Stable, HasId, HasId-Stable, mark_used-Ended, revoke_all-Ended,
  keeps, Holds-hash_token,
}

abbrev response : TokenPair → ℕ → Bool → LoginResponse
response pair later setup = record {
  access_token = pair.access;
  refresh_token = pair.refresh;
  expires_at = later + fifteen_minutes;
  two_factor_setup_required = setup;
}

module _ (env : Env) (follows : Follows Rotates env) where
  Holds-reject_replay :
      {P : Db → Type 0} (Q : ⊤ → Db → Type 0) (user : ℕ) → Holds env P (reject_replay user) Q
  unfolding reject_replay
  Holds-reject_replay Q user = record { run = λ w p. tt }

  pub rotate-refused :
      (token : Text) (row : RefreshToken)
      → Holds env (λ db. (row.used || row.revoked) ≡ true) (rotate token row) (λ _ _. ⊥)
  unfolding rotate reject_replay
  rotate-refused token row = record {
    run = λ w p. elim (Bool-cases row.used) [
      | inl used ↦ rw used tt
      | inr fresh ↦ elim (Bool-cases row.revoked) [
        | inl revoked ↦ rw (fresh, revoked) tt
        | inr live ↦ absurd (cc p)
      ]
    ];
  }

  -- What an assertion that every step of a rotation keeps survives.
  module _ (P : Db → Type 0) (stable : Stable Rotates P) where
    Holds-lift : {A : Type 0} (r : Result A) → Holds env P (lift r) (λ _. P)
    Holds-lift r = record { run = λ w p. go r w.db p }
      where
        go : {A : Type 0} (r : Result A) (db : Db) → P db → Ends (λ _. P) r db
        go (ok a) db p = p
        go (err e) db p = tt

    Holds-read :
        {A : Type 0} (f : Env → ℕ → Db → Result A)
        → Holds env P (query (λ env t db. (f env t db, db))) (λ _. P)
    Holds-read f =
        Holds-query env (λ _. P) (λ env t db. (f env t db, db)) (keeps env follows P stable)
          (λ t db p. (Holds-lift (f env t db)).run (record { db = db; tick = t; outbox = [] }) p)

    Holds-write :
        {A : Type 0} (f : Env → ℕ → Db → Result A × Db)
        → ((t : ℕ) (db : Db) → Rotates db (f env t db).1)
        → Holds env P (query f) (λ _. P)
    Holds-write f step =
        Holds-query env (λ _. P) f (keeps env follows P stable)
          (λ t db p. all (f env t db).0 (f env t db).1 (stable db (f env t db).1 (step t db) p))
      where
        all : {A : Type 0} (r : Result A) (db : Db) → P db → Ends (λ _. P) r db
        all (ok a) db p = p
        all (err e) db p = tt

    Holds-store_refresh_token :
        (user : ℕ) (token : Text) (expires_at : ℕ)
        → Holds env P (store_refresh_token user token expires_at) (λ _. P)
    unfolding store_refresh_token
    Holds-store_refresh_token user token expires_at =
        Holds-bind env (λ _. P) (hash_token token)
          (λ d.
            query (λ env t db. insert_token (fresh_token (env.fresh_id t) user d expires_at) db))
          (Holds-weaken (hash_token token) (λ d db h. h.0) (Holds-hash_token env follows token))
          (λ d.
            Holds-write
              (λ env t db. insert_token (fresh_token (env.fresh_id t) user d expires_at) db)
              (λ t db. insert_token-Rotates (fresh_token (env.fresh_id t) user d expires_at) db))

    pub Holds-open_session : (u : User) (setup : Bool) → Holds env P (open_session u setup) (λ _. P)
    unfolding open_session generate_token_pair
    Holds-open_session u setup =
        Holds-bind env (λ _. P) (generate_token_pair u)
          (λ pair. here (λ env t. env.now t) >>= λ now.
            store_refresh_token u.id pair.refresh (now + seven_days) >>= λ _.
            here (λ env t. env.now t) >>= λ later. pure (response pair later setup))
          (Holds-bind env (λ _. P)
            (here (λ env t.
              token_pair (env.access_token t u.id u.email u.role) (env.refresh_token t u.id)))
            lift
            (Holds-here env (λ _. P)
              (λ env t.
                token_pair (env.access_token t u.id u.email u.role) (env.refresh_token t u.id))
              (λ t db p. p))
            Holds-lift)
          (λ pair.
            Holds-bind env (λ _. P) (here (λ env t. env.now t))
              (λ now. store_refresh_token u.id pair.refresh (now + seven_days) >>= λ _.
                here (λ env t. env.now t) >>= λ later. pure (response pair later setup))
              (Holds-here env (λ _. P) (λ env t. env.now t) (λ t db p. p))
              (λ now.
                Holds-bind env (λ _. P) (store_refresh_token u.id pair.refresh (now + seven_days))
                  (λ _. here (λ env t. env.now t) >>= λ later. pure (response pair later setup))
                  (Holds-store_refresh_token u.id pair.refresh (now + seven_days))
                  (λ _.
                    Holds-bind env (λ _. P) (here (λ env t. env.now t))
                      (λ later. pure (response pair later setup))
                      (Holds-here env (λ _. P) (λ env t. env.now t) (λ t db p. p))
                      (λ later. Holds-pure env (λ _. P) (response pair later setup) (λ db p. p)))))

    Holds-reissue : (token : Text) → Holds env P (reissue token) (λ _. P)
    unfolding reissue get_user_by_id
    Holds-reissue token =
        Holds-bind env (λ _. P) (here (λ env t. claims_of (env.refresh_claims t token)) >>= lift)
          (λ user. get_user_by_id user >>= λ u. open_session u false)
          (Holds-bind env (λ _. P) (here (λ env t. claims_of (env.refresh_claims t token))) lift
            (Holds-here env (λ _. P) (λ env t. claims_of (env.refresh_claims t token))
              (λ t db p. p))
            Holds-lift)
          (λ user.
            Holds-bind env (λ _. P) (get_user_by_id user) (λ u. open_session u false)
              (Holds-read (λ env t db. scan_user env (find_where (λ u. u.id == user) db.users)))
              (λ u. Holds-open_session u false))

  Holds-reject_if_used :
      (P : Db → Type 0) (row : RefreshToken) → Holds env P (reject_if_used row) (λ _. P)
  unfolding reject_replay
  Holds-reject_if_used P row = record {
    run = λ w p. elim (Bool-cases row.used) [ inl used ↦ rw used tt | inr fresh ↦ rw fresh p ];
  }

  Holds-won_or_rejected :
      (P : Db → Type 0) (user : ℕ) (r : Result ⊤)
      → Holds env (λ db. Ends (λ _. P) r db) (won_or_rejected user r) (λ _. P)
  unfolding reject_replay
  Holds-won_or_rejected P user (ok x) = Holds-pure env (λ _. P) tt (λ db p. p)
  Holds-won_or_rejected P user (err e) = record {
    run = λ w p. elim (Bool-cases (is_token_used e)) [ inl u ↦ rw u tt | inr n ↦ rw n tt ];
  }

  -- What a success of the rotation leaves behind is what its mark leaves behind.
  module _ (P S : Db → Type 0) (stable_before : Stable Rotates P) (stable : Stable Rotates S)
      (token : Text) (row : RefreshToken)
      (mark : (db : Db)
        → P db
        → Ends (λ _. S) (mark_used row.id db).0 (mark_used row.id db).1) where
    from_mark : M LoginResponse
    from_mark = attempt (mark_refresh_token_used row.id) >>= λ r.
        won_or_rejected row.user_id r >>= λ _. reissue token

    Holds-from_mark : Holds env P from_mark (λ _. S)
    unfolding from_mark mark_refresh_token_used
    Holds-from_mark =
        Holds-bind env (λ r db. Ends (λ _. S) r db) (attempt (mark_refresh_token_used row.id))
          (λ r. won_or_rejected row.user_id r >>= λ _. reissue token)
          (Holds-attempt env (λ _. S) (mark_refresh_token_used row.id)
            (Holds-query env (λ _. S) (λ env t db. mark_used row.id db)
              (keeps env follows P stable_before) (λ t db p. mark db p)))
          (λ r.
            Holds-bind env (λ _. S) (won_or_rejected row.user_id r) (λ _. reissue token)
              (Holds-won_or_rejected S row.user_id r) (λ _. Holds-reissue S stable token))

    pub Holds-rotate : Holds env P (rotate token row) (λ _. S)
    unfolding rotate from_mark
    Holds-rotate =
        Holds-bind env (λ _. P) (reject_if_used row)
          (λ _. raise_if row.revoked token_revoked >>= λ _. here (λ env t. env.now t) >>= λ now.
            raise_if (ltb row.expires_at now) expired_token >>= λ _. from_mark)
          (Holds-reject_if_used P row)
          (λ _.
            Holds-raise_if env (λ _. S) row.revoked token_revoked
              (here (λ env t. env.now t) >>= λ now.
                raise_if (ltb row.expires_at now) expired_token >>= λ _. from_mark)
              (λ live.
                Holds-bind env (λ _. P) (here (λ env t. env.now t))
                  (λ now. raise_if (ltb row.expires_at now) expired_token >>= λ _. from_mark)
                  (Holds-here env (λ _. P) (λ env t. env.now t) (λ t db p. p))
                  (λ now.
                    Holds-raise_if env (λ _. S) (ltb row.expires_at now) expired_token from_mark
                      (λ valid. Holds-from_mark))))

  pub rotate-ends :
      (d : Bytes) (token : Text) (row : RefreshToken)
      → Holds env (HasId d row.id) (rotate token row) (λ _. Ended d)
  rotate-ends d token row =
      Holds-rotate (HasId d row.id) (Ended d) (HasId-Stable d row.id) (Ended-Stable d) token row
        (mark_used-Ended d row.id)

  pub logout-ends : (d : Bytes) (user : ℕ) → Holds env (Owned d user) (logout user) (λ _. Ended d)
  unfolding logout revoke_all_user_tokens
  logout-ends d user =
      Holds-query env (λ _. Ended d) (λ env t db. (ok tt, revoke_all user db))
        (keeps env follows (Owned d user) (Owned-Stable d user))
        (λ t db p. revoke_all-Ended d user db p)
