-- ===== src/Auth/SingleUse.antt =====
-- A refresh token that is used or revoked (`RefreshTokens` and `Logout` of internal/auth/service.go).
use stora_ecommerce.Prelude.{
  ℕ, ◌≡◌, refl, ◌∙◌, Bool, true, false, ◌||◌, Option, none, some, List, [], ◌∷◌, find_where,
  any_where, update_where, Bool-cases, inl, inr, arith, if◌then◌else◌,
}
use mathlib.Core.Path.{subst}
use stora_ecommerce.Schema.{Text, Bytes, RefreshToken, Db}
use stora_ecommerce.Effect.{Env, Result, ok, err, ◌>>=◌, attempt, query, invalid_token}
use stora_ecommerce.Effect.Rely.{Ends, Stable}
use stora_ecommerce.Effect.Hoare.{
  Holds, Keeps, Follows, Keeps-Stable, Holds-pure, Holds-raise, Holds-bind, Holds-attempt,
  Holds-query, Holds-here,
}
use stora_ecommerce.Auth.Repository.{
  hash_token, has_token, find_token, or_token_not_found, get_refresh_token, is_unused, set_used,
  mark_used, is_live_of, set_revoked, revoke_all,
}
use stora_ecommerce.Auth.Service.{
  LoginResponse, or_invalid_token, rotate, refresh_tokens, is_token_not_found,
}
use stora_ecommerce.Auth.Rotation.{Sticks, Ages, Stays, Rotates}

-- The digest under which a token is stored.
abbrev pub digest_of : Env → Text → Bytes
digest_of env [] = []
digest_of env (c ∷ token) = env.digest (c ∷ token)

-- The row under a digest has come from this one.
abbrev pub Known : Bytes → RefreshToken → Db → Type 0
Known d r db = (r' : RefreshToken) × (find_token d db.refresh_tokens ≡ some r') × Ages r r'

-- The row under a digest is used or revoked.
abbrev pub Ended : Bytes → Db → Type 0
Ended d db =
    (r : RefreshToken) × (find_token d db.refresh_tokens ≡ some r) × ((r.used || r.revoked) ≡ true)

-- A row of the user is under the digest.
abbrev pub Owned : Bytes → ℕ → Db → Type 0
Owned d user db =
    (r : RefreshToken) × (find_token d db.refresh_tokens ≡ some r) × (r.user_id ≡ user)

found-later :
    (d : Bytes) (a b : Db) (r : RefreshToken)
    → Rotates a b
    → find_token d a.refresh_tokens ≡ some r
    → Known d r b
found-later d a b r step found =
    go (find_token d b.refresh_tokens) refl
      (subst (λ o. Stays Ages o (find_token d b.refresh_tokens)) found (step.tokens d))
  where
    go :
        (o : Option RefreshToken)
        → find_token d b.refresh_tokens ≡ o
        → Stays Ages (some r) (find_token d b.refresh_tokens)
        → Known d r b
    go none e h = absurd (subst (Stays Ages (some r)) e h)
    go (some r') e h = (r', e, subst (Stays Ages (some r)) e h)

ends_later : (u v u' v' : Bool) → Sticks u u' → Sticks v v' → (u || v) ≡ true → (u' || v') ≡ true
ends_later true v u' v' h k e = rw h refl
ends_later false true true v' h k e = refl
ends_later false true false v' h k e = k
ends_later false false u' v' h k e = cc

pub Ended-Stable : (d : Bytes) → Stable Rotates (Ended d)
Ended-Stable d a b step (r, found, over) =
    let (r', later, ages) = found-later d a b r step found in
    (r', later, ends_later r.used r.revoked r'.used r'.revoked ages.used ages.revoked over)

pub Owned-Stable : (d : Bytes) (user : ℕ) → Stable Rotates (Owned d user)
Owned-Stable d user a b step (r, found, mine) =
    let (r', later, ages) = found-later d a b r step found in (r', later, ages.user ∙ mine)

-- A row with this id is under the digest.
abbrev pub HasId : Bytes → ℕ → Db → Type 0
HasId d id db = (r : RefreshToken) × (find_token d db.refresh_tokens ≡ some r) × (r.id ≡ id)

pub HasId-Stable : (d : Bytes) (id : ℕ) → Stable Rotates (HasId d id)
HasId-Stable d id a b step (r, found, same) =
    let (r', later, ages) = found-later d a b r step found in (r', later, ages.id ∙ same)

-- What `find_where` finds after an update that keeps the test.
pub find_where-update :
    {A : Type 0} (p q : A → Bool) (f : A → A)
    → ((a : A) → p (f a) ≡ p a)
    → (xs : List A) (x : A) → find_where p xs ≡ some x
    → find_where p (update_where q f xs) ≡ some (if q x then f x else x)
find_where-update p q f same [] x h = cc
find_where-update p q f same (y ∷ ys) x h = elim (Bool-cases (p y)) [
  | inl hit ↦ elim (Bool-cases (q y)) [
    | inl chosen ↦ ground (arith, chosen, hit, same y)
    | inr other ↦ ground (arith, other, hit)
  ]
  | inr miss ↦ elim (Bool-cases (q y)) [
    | inl chosen ↦ ground (arith, chosen, miss, same y, find_where-update p q f same ys x)
    | inr other ↦ ground (arith, other, miss, find_where-update p q f same ys x)
  ]
]

pub mark_used-Ended :
    (d : Bytes) (id : ℕ) (db : Db)
    → HasId d id db
    → Ends (λ _ db. Ended d db) (mark_used id db).0 (mark_used id db).1
unfolding find_token
mark_used-Ended d id db (r, found, same) =
    elim (Bool-cases (any_where (is_unused id) db.refresh_tokens)) [
      | inl there ↦ rw there (
        if is_unused id r then set_used r else r,
        find_where-update (has_token d) (is_unused id) set_used (λ a. refl) db.refresh_tokens r
            found,
        ground (arith, same),
      )
      | inr gone ↦ rw gone tt
    ]

pub revoke_all-Ended :
    (d : Bytes) (user : ℕ) (db : Db) → Owned d user db → Ended d (revoke_all user db)
unfolding find_token
revoke_all-Ended d user db (r, found, mine) = (
  if is_live_of user r then set_revoked r else r,
  find_where-update (has_token d) (is_live_of user) set_revoked (λ a. refl) db.refresh_tokens r
      found,
  ground (arith, mine),
)

module _ (env : Env) (follows : Follows Rotates env) where
  pub keeps : (P : Db → Type 0) → Stable Rotates P → Keeps env P
  keeps P stable = Keeps-Stable P env stable follows

  pub Holds-hash_token :
      {P : Db → Type 0} (token : Text)
      → Holds env P (hash_token token) (λ d db. P db × (d ≡ digest_of env token))
  unfolding hash_token
  Holds-hash_token {P} [] = Holds-pure env (λ d db. P db × (d ≡ [])) [] (λ db p. (p, refl))
  Holds-hash_token {P} (c ∷ token) =
      Holds-here env (λ d db. P db × (d ≡ env.digest (c ∷ token))) (λ env t. env.digest (c ∷ token))
        (λ t db p. (p, refl))

  -- A look-up by digest, for an assertion about the row of the token.
  pub Holds-get_refresh_token :
      (P : Db → Type 0) (Q : RefreshToken → Db → Type 0) (token : Text)
      → Stable Rotates P
      → ((db : Db) (r : RefreshToken)
          → P db
          → find_token (digest_of env token) db.refresh_tokens ≡ some r
          → Q r db)
      → Holds env P (get_refresh_token token) Q
  unfolding get_refresh_token
  Holds-get_refresh_token P Q token stable h =
      Holds-bind env (λ d db. P db × (d ≡ digest_of env token)) (hash_token token)
        (λ d. query (λ env t db. (or_token_not_found (find_token d db.refresh_tokens), db)))
        (Holds-hash_token token)
        (λ d.
          Holds-query env Q (λ env t db. (or_token_not_found (find_token d db.refresh_tokens), db))
            (record { keep = λ t db p. ((keeps P stable).keep t db p.0, p.1) })
            (λ t db p. at_row d db p (find_token d db.refresh_tokens) refl))
    where
      at_row :
          (d : Bytes) (db : Db)
          → P db × (d ≡ digest_of env token)
          → (o : Option RefreshToken) → find_token d db.refresh_tokens ≡ o
          → Ends Q (or_token_not_found o) db
      at_row d db p none e = tt
      at_row d db p (some r) e =
          h db r p.0 (subst (λ x. find_token x db.refresh_tokens ≡ some r) p.1 e)

  Holds-or_invalid_token :
      (Q : RefreshToken → Db → Type 0) (r : Result RefreshToken)
      → Holds env (λ db. Ends Q r db) (or_invalid_token r) Q
  Holds-or_invalid_token Q (ok row) = Holds-pure env Q row (λ db q. q)
  Holds-or_invalid_token Q (err e) =
      Holds-raise env Q (if is_token_not_found e then invalid_token else e)

  -- `RefreshTokens`, from what is known of the row that is read.
  pub Holds-refresh_tokens :
      (P : Db → Type 0) (Q : RefreshToken → Db → Type 0) (S : LoginResponse → Db → Type 0)
      (token : Text)
      → Stable Rotates P
      → ((db : Db) (r : RefreshToken)
          → P db
          → find_token (digest_of env token) db.refresh_tokens ≡ some r
          → Q r db)
      → ((row : RefreshToken) → Holds env (Q row) (rotate token row) S)
      → Holds env P (refresh_tokens token) S
  unfolding refresh_tokens
  Holds-refresh_tokens P Q S token stable read rest =
      Holds-bind env (λ r db. Ends Q r db) (attempt (get_refresh_token token))
        (λ found. or_invalid_token found >>= rotate token)
        (Holds-attempt env Q (get_refresh_token token)
          (Holds-get_refresh_token P Q token stable read))
        (λ found.
          Holds-bind env Q (or_invalid_token found) (rotate token) (Holds-or_invalid_token Q found)
            rest)
