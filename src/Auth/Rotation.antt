-- ===== src/Auth/Rotation.antt =====
-- What may happen to the tokens of sign-in: a row stays under its digest, neither a use nor a
-- revocation is taken back, and no id that is used becomes unused.
use stora_ecommerce.Prelude.{
  ℕ, ◌≡◌, refl, ◌∙◌, ⊤, Bool, true, false, Option, none, some, List, [], ◌∷◌, ◌++◌, find_where,
  any_where, update_where, Bool-cases, inl, inr, arith,
}
use stora_ecommerce.Schema.{Bytes, RefreshToken, PasswordResetToken, Db}
use stora_ecommerce.Effect.Rely.{IsStep}
use stora_ecommerce.Auth.Taken.{Taken, Taken-append, Taken-update}
use stora_ecommerce.Auth.Repository.{
  has_row, has_token, find_token, insert_token, is_unused, set_used, mark_used, is_live_of,
  set_revoked, revoke_all, has_reset, find_reset, insert_reset, is_reset, set_reset_used,
  mark_reset,
}

-- Once true, always true.
abbrev pub Sticks : Bool → Bool → Type 0
Sticks true b = b ≡ true
Sticks false b = ⊤

pub record Ages (r r' : RefreshToken) : Type 0 where
  pub id : r'.id ≡ r.id
  pub user : r'.user_id ≡ r.user_id
  pub expiry : r'.expires_at ≡ r.expires_at
  pub used : Sticks r.used r'.used
  pub revoked : Sticks r.revoked r'.revoked

pub record ResetAges (r r' : PasswordResetToken) : Type 0 where
  pub id : r'.id ≡ r.id
  pub user : r'.user_id ≡ r.user_id
  pub used : Sticks r.used r'.used

-- A row that is there stays and ages.
abbrev pub Stays : {A : Type 0} → (A → A → Type 0) → Option A → Option A → Type 0
Stays R none o = ⊤
Stays R (some a) none = ⊥
Stays R (some a) (some b) = R a b

pub record Rotates (a b : Db) : Type 0 where
  pub tokens :
      (d : Bytes) → Stays Ages (find_token d a.refresh_tokens) (find_token d b.refresh_tokens)
  pub resets :
      (d : Bytes)
      → Stays ResetAges
          (find_reset d a.password_reset_tokens)
          (find_reset d b.password_reset_tokens)
  pub taken : (id : ℕ) → Taken id a.refresh_tokens → Taken id b.refresh_tokens

Sticks-refl : (b : Bool) → Sticks b b
Sticks-refl true = refl
Sticks-refl false = tt

Sticks-trans : (a b c : Bool) → Sticks a b → Sticks b c → Sticks a c
Sticks-trans true true c h k = k
Sticks-trans true false c h k = cc
Sticks-trans false b c h k = tt

pub Sticks-true : (b : Bool) → Sticks b true
Sticks-true true = refl
Sticks-true false = tt

pub Ages-refl : (r : RefreshToken) → Ages r r
Ages-refl r = record {
  id = refl;
  user = refl;
  expiry = refl;
  used = Sticks-refl r.used;
  revoked = Sticks-refl r.revoked;
}

Ages-trans : (a b c : RefreshToken) → Ages a b → Ages b c → Ages a c
Ages-trans a b c h k = record {
  id = k.id ∙ h.id;
  user = k.user ∙ h.user;
  expiry = k.expiry ∙ h.expiry;
  used = Sticks-trans a.used b.used c.used h.used k.used;
  revoked = Sticks-trans a.revoked b.revoked c.revoked h.revoked k.revoked;
}

ResetAges-refl : (r : PasswordResetToken) → ResetAges r r
ResetAges-refl r = record { id = refl; user = refl; used = Sticks-refl r.used }

ResetAges-trans : (a b c : PasswordResetToken) → ResetAges a b → ResetAges b c → ResetAges a c
ResetAges-trans a b c h k = record {
  id = k.id ∙ h.id;
  user = k.user ∙ h.user;
  used = Sticks-trans a.used b.used c.used h.used k.used;
}

module _ {A : Type 0} (R : A → A → Type 0) (stay : (a : A) → R a a) where
  Stays-refl : (o : Option A) → Stays R o o
  Stays-refl none = tt
  Stays-refl (some a) = stay a

  Stays-trans :
      ((a b c : A) → R a b → R b c → R a c)
      → (o p q : Option A) → Stays R o p
      → Stays R p q
      → Stays R o q
  Stays-trans join none p q h k = tt
  Stays-trans join (some a) none q h k = absurd h
  Stays-trans join (some a) (some b) none h k = absurd k
  Stays-trans join (some a) (some b) (some c) h k = join a b c h k

  Stays-append :
      (p : A → Bool) (xs ys : List A) → Stays R (find_where p xs) (find_where p (xs ++ ys))
  Stays-append p [] ys = tt
  Stays-append p (x ∷ xs) ys = elim (Bool-cases (p x)) [
    | inl hit ↦ rw hit (stay x)
    | inr miss ↦ rw miss (Stays-append p xs ys)
  ]

  Stays-update :
      (p q : A → Bool) (f : A → A)
      → ((a : A) → p (f a) ≡ p a)
      → ((a : A) → R a (f a))
      → (xs : List A) → Stays R (find_where p xs) (find_where p (update_where q f xs))
  Stays-update p q f same ages [] = tt
  Stays-update p q f same ages (x ∷ xs) = elim (Bool-cases (q x)) [
    | inl chosen ↦ elim (Bool-cases (p x)) [
      | inl hit ↦ rw (chosen, same x, hit) (ages x)
      | inr miss ↦ rw (chosen, same x, miss) (Stays-update p q f same ages xs)
    ]
    | inr other ↦ elim (Bool-cases (p x)) [
      | inl hit ↦ rw (other, hit) (stay x)
      | inr miss ↦ rw (other, miss) (Stays-update p q f same ages xs)
    ]
  ]

pub Rotates-IsStep : IsStep Rotates
Rotates-IsStep = record {
  stay = λ a. record {
    tokens = λ d. Stays-refl Ages Ages-refl (find_token d a.refresh_tokens);
    resets = λ d. Stays-refl ResetAges ResetAges-refl (find_reset d a.password_reset_tokens);
    taken = λ id t. t;
  };
  join = λ a b c h k. record {
    tokens = λ d.
        Stays-trans Ages Ages-refl Ages-trans (find_token d a.refresh_tokens)
          (find_token d b.refresh_tokens) (find_token d c.refresh_tokens) (h.tokens d) (k.tokens d);
    resets = λ d.
        Stays-trans ResetAges ResetAges-refl ResetAges-trans (find_reset d a.password_reset_tokens)
          (find_reset d b.password_reset_tokens) (find_reset d c.password_reset_tokens) (h.resets d)
          (k.resets d);
    taken = λ id t. k.taken id (h.taken id t);
  };
}

-- A step that changes only the one table or the other.
tokens-Rotates :
    (db : Db) (rows : List RefreshToken)
    → ((d : Bytes) → Stays Ages (find_token d db.refresh_tokens) (find_token d rows))
    → ((id : ℕ) → Taken id db.refresh_tokens → Taken id rows)
    → Rotates db (record db { refresh_tokens = rows })
tokens-Rotates db rows h k = record {
  tokens = h;
  resets = (Rotates-IsStep.stay db).resets;
  taken = k;
}

resets-Rotates :
    (db : Db) (rows : List PasswordResetToken)
    → ((d : Bytes) → Stays ResetAges (find_reset d db.password_reset_tokens) (find_reset d rows))
    → Rotates db (record db { password_reset_tokens = rows })
resets-Rotates db rows h = record {
  tokens = (Rotates-IsStep.stay db).tokens;
  resets = h;
  taken = λ id t. t;
}

pub insert_token-Rotates : (row : RefreshToken) (db : Db) → Rotates db (insert_token row db).1
unfolding find_token
insert_token-Rotates row db = elim (Bool-cases (any_where (has_row row.id) db.refresh_tokens)) [
  | inl clash ↦ rw clash (Rotates-IsStep.stay db)
  | inr free ↦ elim (Bool-cases (any_where (has_token row.token) db.refresh_tokens)) [
    | inl twice ↦ rw (free, twice) (Rotates-IsStep.stay db)
    | inr new ↦
        rw (free, new)
          (tokens-Rotates db (db.refresh_tokens ++ row ∷ [])
            (λ d. Stays-append Ages Ages-refl (has_token d) db.refresh_tokens (row ∷ []))
            (λ id t. Taken-append id row db.refresh_tokens free t))
  ]
]

set_used-Ages : (r : RefreshToken) → Ages r (set_used r)
set_used-Ages r = record {
  id = refl;
  user = refl;
  expiry = refl;
  used = Sticks-true r.used;
  revoked = Sticks-refl r.revoked;
}

set_revoked-Ages : (r : RefreshToken) → Ages r (set_revoked r)
set_revoked-Ages r = record {
  id = refl;
  user = refl;
  expiry = refl;
  revoked = Sticks-true r.revoked;
  used = Sticks-refl r.used;
}

pub mark_used-Rotates : (id : ℕ) (db : Db) → Rotates db (mark_used id db).1
unfolding find_token
mark_used-Rotates id db = elim (Bool-cases (any_where (is_unused id) db.refresh_tokens)) [
  | inl there ↦ rw there (
      tokens-Rotates db (update_where (is_unused id) set_used db.refresh_tokens)
        (λ d.
          Stays-update Ages Ages-refl (has_token d) (is_unused id) set_used (λ a. refl)
            set_used-Ages db.refresh_tokens)
        (λ i t.
          Taken-update i (is_unused id) set_used (λ r. refl) (λ r h. ground arith) db.refresh_tokens
            t))
  | inr gone ↦ rw gone (Rotates-IsStep.stay db)
]

pub revoke_all-Rotates : (user : ℕ) (db : Db) → Rotates db (revoke_all user db)
unfolding find_token
revoke_all-Rotates user db =
    tokens-Rotates db (update_where (is_live_of user) set_revoked db.refresh_tokens)
      (λ d.
        Stays-update Ages Ages-refl (has_token d) (is_live_of user) set_revoked (λ a. refl)
          set_revoked-Ages db.refresh_tokens)
      (λ i t.
        Taken-update i (is_live_of user) set_revoked (λ r. refl) (λ r h. h) db.refresh_tokens t)

pub insert_reset-Rotates : (row : PasswordResetToken) (db : Db) → Rotates db (insert_reset row db).1
unfolding find_reset
insert_reset-Rotates row db =
    elim (Bool-cases (any_where (is_reset row.id) db.password_reset_tokens)) [
      | inl clash ↦ rw clash (Rotates-IsStep.stay db)
      | inr new ↦ elim (Bool-cases (any_where (has_reset row.token) db.password_reset_tokens)) [
        | inl twice ↦ rw (new, twice) (Rotates-IsStep.stay db)
        | inr free ↦
            rw (new, free)
              (resets-Rotates db (db.password_reset_tokens ++ row ∷ []) (λ d.
                Stays-append ResetAges ResetAges-refl (has_reset d) db.password_reset_tokens
                  (row ∷ [])))
      ]
    ]

pub mark_reset-Rotates : (id : ℕ) (db : Db) → Rotates db (mark_reset id db).1
unfolding find_reset
mark_reset-Rotates id db = elim (Bool-cases (any_where (is_reset id) db.password_reset_tokens)) [
  | inl there ↦ rw there (
      resets-Rotates db (update_where (is_reset id) set_reset_used db.password_reset_tokens) (λ d.
        Stays-update ResetAges ResetAges-refl (has_reset d) (is_reset id) set_reset_used (λ a. refl)
          (λ r. record { id = refl; user = refl; used = Sticks-true r.used })
          db.password_reset_tokens))
  | inr gone ↦ rw gone (Rotates-IsStep.stay db)
]
