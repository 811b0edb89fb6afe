-- ===== src/User/Registered.antt =====
-- What a registration stores (`Register` of internal/user/service.go).
use stora_ecommerce.Prelude.{
  ℕ, ◌≡◌, refl, ⊤, Bool, true, false, not, some, List, [], ◌∷◌, ◌++◌, find_where, any_where,
  Bool-cases, inl, inr, arith, if◌then◌else◌, Option, none,
}
use stora_ecommerce.Schema.{Text, Bytes, UserRow, Db}
use stora_ecommerce.Effect.{
  Env, World, Result, ok, err, M, pure, lift, ◌>>=◌, ◌>>◌, query, here, validation,
}
use stora_ecommerce.Effect.Rely.{Ends}
use stora_ecommerce.Effect.Hoare.{
  Holds, Holds-pure, Holds-bind, Holds-raise_if, Holds-query, Holds-here,
}
use stora_ecommerce.Strings.{trim_space, to_lower, text_eq}
use stora_ecommerce.PasswordPolicy.{validate}
use stora_ecommerce.Crypto.{encrypt}
use stora_ecommerce.User.Repository.{customer, normalize_email, insert_user, new_user, create_user}
use stora_ecommerce.Auth.Reset.{hashed}
use stora_ecommerce.User.Service.{
  UserDeps, RegisterRequest, UserResponse, account, verify_captcha, register,
}

-- The row under the blind index of an email.
abbrev pub find_email : Bytes → List UserRow → Option UserRow
find_email index users = find_where (λ u. text_eq u.email_hmac index) users

text_eq_refl : (a : Text) → text_eq a a ≡ true
text_eq_refl [] = refl
text_eq_refl (c ∷ a) = ground (arith, text_eq_refl a)

find_where-append :
    {A : Type 0} (p : A → Bool) (xs : List A) (x : A)
    → any_where p xs ≡ false
    → p x ≡ true
    → find_where p (xs ++ x ∷ []) ≡ some x
find_where-append p [] x fresh hit = rw hit refl
find_where-append p (y ∷ ys) x fresh hit = ground (arith, find_where-append p ys x)

-- What is stored for an account.
pub record Stored (env : Env) (email password : Text) (row : UserRow) : Type 0 where
  pub default_id : (t : ℕ) × (row.id ≡ env.default_id t)
  pub hash : (t : ℕ) × (env.password_hash t password ≡ some row.password_hash)
  pub role : row.role ≡ customer
  pub index : row.email_hmac ≡ env.hmac email

abbrev pub Registered : Env → Text → Text → Db → Type 0
Registered env email password db =
    (row : UserRow) × (find_email (env.hmac email) db.users ≡ some row)
    × Stored env email password row

insert_user-Registered :
    (env : Env) (t s : ℕ) (email password hash : Text) (enc : Bytes) (db : Db)
    → env.password_hash s password ≡ some hash
    → let r = insert_user (new_user env t (env.default_id t) email enc hash customer) db in
      Ends (λ _. Registered env email password) r.0 r.1
insert_user-Registered env t s email password hash enc db hashes =
    elim (Bool-cases (any_where (λ u. text_eq u.email_hmac (env.hmac email)) db.users)) [
      | inl clash ↦ rw clash tt
      | inr free ↦ rw free (
        new_user env t (env.default_id t) email enc hash customer,
        find_where-append (λ u. text_eq u.email_hmac (env.hmac email)) db.users
            (new_user env t (env.default_id t) email enc hash customer) free
            (text_eq_refl (env.hmac email)),
        record { default_id = (t, refl); hash = (s, hashes); role = refl; index = refl },
      )
    ]

abbrev Hashes : Env → Text → Text → Type 0
Hashes env password hash = (t : ℕ) × (env.password_hash t password ≡ some hash)

module _ (env : Env) where
  Holds-any : {A : Type 0} (m : M A) → Holds env (λ _. ⊤) m (λ _ _. ⊤)
  Holds-any m = record { run = λ w p. go (m env w).0 (m env w).1.db }
    where
      go : {A : Type 0} (r : Result A) (db : Db) → Ends (λ _ _. ⊤) r db
      go (ok a) db = tt
      go (err e) db = tt

  -- `bcrypt.GenerateFromPassword`
  Holds-hash :
      (password : Text)
      → Holds env
          (λ _. ⊤)
          (here (λ env t. hashed (env.password_hash t password)) >>= lift)
          (λ hash _. Hashes env password hash)
  Holds-hash password = record {
    run = λ w p. go w.tick (env.password_hash w.tick password) refl w.db;
  }
    where
      go :
          (t : ℕ) (o : Option Text)
          → env.password_hash t password ≡ o
          → (db : Db) → Ends (λ hash _. Hashes env password hash) (hashed o) db
      go t none e db = tt
      go t (some hash) e db = (t, e)

  Holds-create_user :
      (id : ℕ) (email password hash : Text)
      → Hashes env password hash
      → Holds env
          (λ _. ⊤)
          (create_user (account id email hash))
          (λ _. Registered env (normalize_email email) password)
  unfolding create_user
  Holds-create_user id email password hash (s, hashes) =
      Holds-bind env (λ _ _. ⊤) (encrypt (normalize_email email))
        (λ enc. query (λ env t db.
          insert_user (new_user env t (env.default_id t) (normalize_email email) enc hash customer)
            db))
        (Holds-any (encrypt (normalize_email email)))
        (λ enc.
          Holds-query env (λ _. Registered env (normalize_email email) password)
            (λ env t db.
              insert_user
                (new_user env t (env.default_id t) (normalize_email email) enc hash customer) db)
            (record { keep = λ t db p. tt })
            (λ t db p.
              insert_user-Registered env t s (normalize_email email) password hash enc db hashes))

-- When `Register` succeeds, it returns the email of the request, trimmed and in lower case, and the
-- row under the blind index of that email is a customer's, with a bcrypt hash of the password of the
-- request, and its id is the default of the column, while the id that is returned is one that the
-- service has made for itself.
pub register-Registered :
    (d : UserDeps) (req : RegisterRequest) (env : Env) (w : World)
    → Ends
        (λ resp db.
          (resp.email ≡ to_lower (trim_space req.email))
          × Registered env (normalize_email resp.email) req.password db
          × ((t : ℕ) × (resp.id ≡ env.fresh_id t)))
        (register d req env w).0
        (register d req env w).1.db
unfolding register
register-Registered d req env w =
    (Holds-raise_if env S (not (d.valid_register req)) validation checked (λ valid.
        Holds-bind env (λ _ _. ⊤) (lift (validate d.runes req.password))
          (λ _. captcha >> (hash >>= store)) (Holds-any env (lift (validate d.runes req.password)))
          (λ _.
            Holds-bind env (λ _ _. ⊤) captcha (λ _. hash >>= store) (Holds-any env captcha)
              (λ _.
                Holds-bind env (λ h _. Hashes env req.password h) hash store
                  (Holds-hash env req.password) stored)))).run
      w tt
  where
    email : Text
    email = to_lower (trim_space req.email)

    captcha : M ⊤
    captcha = if d.captcha then verify_captcha req.captcha_token else pure tt

    hash : M Text
    hash = here (λ env t. hashed (env.password_hash t req.password)) >>= lift

    insert : Text → ℕ → M UserResponse
    insert h id = create_user (account id email h) >> pure (record { id = id; email = email })

    store : Text → M UserResponse
    store h = here (λ env t. env.fresh_id t) >>= insert h

    checked : M UserResponse
    checked = lift (validate d.runes req.password) >> (captcha >> (hash >>= store))

    S : UserResponse → Db → Type 0
    S resp db =
        (resp.email ≡ email)
        × Registered env (normalize_email resp.email) req.password db
        × ((t : ℕ) × (resp.id ≡ env.fresh_id t))

    stored : (h : Text) → Holds env (λ _. Hashes env req.password h) (store h) S
    stored h =
        Holds-bind env (λ id _. Hashes env req.password h × ((t : ℕ) × (id ≡ env.fresh_id t)))
          (here (λ env t. env.fresh_id t)) (insert h)
          (Holds-here env (λ id _. Hashes env req.password h × ((t : ℕ) × (id ≡ env.fresh_id t)))
            (λ env t. env.fresh_id t) (λ t db p. (p, (t, refl))))
          (λ id. record {
            run = λ w p.
                (Holds-bind env (λ _. Registered env (normalize_email email) req.password)
                    (create_user (account id email h))
                    (λ _. pure (record { id = id; email = email }))
                    (Holds-create_user env id email req.password h p.0)
                    (λ _.
                      Holds-pure env S (record { id = id; email = email })
                        (λ db r. (refl, r, p.1)))).run
                  w tt;
          })
