-- ===== src/Effect/Hoare.antt =====
-- Rules for what an action ensures when it succeeds, at a given outside: begun in `P`, it ends in
-- `Q`. Between its statements other requests do what `Env.others` says, which has to keep the
-- assertions.
use stora_ecommerce.Prelude.{ℕ, Bool, true, false, ◌≡◌, refl, Bool-cases, inl, inr}
use stora_ecommerce.Schema.{Db}
use stora_ecommerce.Effect.{
  Err, Result, ok, err, Env, World, M, pure, raise, ◌>>=◌, raise_if, attempt, query, here,
}
use stora_ecommerce.Effect.Rely.{Ends, Stable, Ends-weaken}

pub record Holds {A : Type 0} (env : Env) (P : Db → Type 0) (m : M A) (Q : A → Db → Type 0)
    : Type 0 where
  pub run : (w : World) → P w.db → Ends Q (m env w).0 (m env w).1.db

-- Other requests keep an assertion.
pub record Keeps (env : Env) (P : Db → Type 0) : Type 0 where
  pub keep : (t : ℕ) (db : Db) → P db → P (env.others t db)

module _ (env : Env) where
  pub Holds-pure :
      {A : Type 0} {P : Db → Type 0} (Q : A → Db → Type 0) (a : A)
      → ((db : Db) → P db → Q a db)
      → Holds env P (pure a) Q
  Holds-pure Q a h = record { run = λ w p. h w.db p }

  pub Holds-raise :
      {A : Type 0} {P : Db → Type 0} (Q : A → Db → Type 0) (e : Err) → Holds env P (raise e) Q
  Holds-raise Q e = record { run = λ w p. tt }

  continue-Holds :
      {A B : Type 0} (Q : A → Db → Type 0) (S : B → Db → Type 0) (f : A → M B) (r : Result A)
      (w : World)
      → ((a : A) → Holds env (Q a) (f a) S)
      → Ends Q r w.db
      → let (r', w') = ((λ env w. (r, w)) >>= f) env w in Ends S r' w'.db
  continue-Holds Q S f (ok a) w h q = (h a).run w q
  continue-Holds Q S f (err e) w h q = tt

  pub Holds-bind :
      {A B : Type 0} {P : Db → Type 0} {S : B → Db → Type 0} (Q : A → Db → Type 0) (m : M A)
      (f : A → M B)
      → Holds env P m Q
      → ((a : A) → Holds env (Q a) (f a) S)
      → Holds env P (m >>= f) S
  Holds-bind {S} Q m f first rest = record {
    run = λ w p. continue-Holds Q S f (m env w).0 (m env w).1 rest (first.run w p);
  }

  -- A test that guards the rest.
  pub Holds-raise_if :
      {B : Type 0} {P : Db → Type 0} (S : B → Db → Type 0) (b : Bool) (e : Err) (m : M B)
      → (b ≡ false → Holds env P m S)
      → Holds env P (raise_if b e >>= λ _. m) S
  Holds-raise_if S true e m h = record { run = λ w p. tt }
  Holds-raise_if S false e m h = record { run = λ w p. (h refl).run w p }

  pub Holds-attempt :
      {A : Type 0} {P : Db → Type 0} (Q : A → Db → Type 0) (m : M A)
      → Holds env P m Q
      → Holds env P (attempt m) (λ r db. Ends Q r db)
  Holds-attempt Q m h = record { run = λ w p. h.run w p }

  pub Holds-query :
      {A : Type 0} {P : Db → Type 0} (Q : A → Db → Type 0) (f : Env → ℕ → Db → Result A × Db)
      → Keeps env P
      → ((t : ℕ) (db : Db) → P db → Ends Q (f env t db).0 (f env t db).1)
      → Holds env P (query f) Q
  Holds-query Q f k h = record {
    run = λ w p. elim (Bool-cases (env.fault w.tick)) [
      | inl failed ↦ rw failed tt
      | inr fine ↦ rw fine (h w.tick (env.others w.tick w.db) (k.keep w.tick w.db p))
    ];
  }

  pub Holds-here :
      {A : Type 0} {P : Db → Type 0} (Q : A → Db → Type 0) (f : Env → ℕ → A)
      → ((t : ℕ) (db : Db) → P db → Q (f env t) db)
      → Holds env P (here f) Q
  Holds-here Q f h = record { run = λ w p. h w.tick w.db p }

  pub Holds-pre :
      {A : Type 0} {P P' : Db → Type 0} {Q : A → Db → Type 0} (m : M A)
      → ((db : Db) → P' db → P db)
      → Holds env P m Q
      → Holds env P' m Q
  Holds-pre m f h = record { run = λ w p. h.run w (f w.db p) }

pub Holds-weaken :
    {env : Env} {A : Type 0} {P : Db → Type 0} {Q S : A → Db → Type 0} (m : M A)
    → ((a : A) (db : Db) → Q a db → S a db)
    → Holds env P m Q
    → Holds env P m S
Holds-weaken {env} {Q} {S} m f h = record {
  run = λ w p. Ends-weaken Q S (m env w).0 (m env w).1.db (λ a. f a (m env w).1.db) (h.run w p);
}

-- Every commit of the others is an `R` step.
pub record Follows (R : Db → Db → Type 0) (env : Env) : Type 0 where
  pub step : (t : ℕ) (db : Db) → R db (env.others t db)

pub Keeps-Stable :
    {R : Db → Db → Type 0} (P : Db → Type 0) (env : Env) → Stable R P → Follows R env → Keeps env P
Keeps-Stable P env stable follows = record {
  keep = λ t db p. stable db (env.others t db) (follows.step t db) p;
}
