-- ===== src/Effect/Moves.antt =====
-- Rules for actions all of whose steps are `R` steps: as long as every commit of the others is one,
-- what an action does to the tables is one, whether it succeeds or fails.
use stora_ecommerce.Prelude.{ℕ, sym, ⊤, Bool, true, false, Bool-cases, inl, inr, if◌then◌else◌}
use stora_ecommerce.Schema.{Db}
use stora_ecommerce.Effect.{
  Err, Result, ok, err, Env, World, M, Message, pure, raise, lift, ◌>>=◌, raise_if, attempt, stmt,
  query, here, send, run_tx, finish_tx, with_tx,
}
use mathlib.Core.Path.{subst}
use stora_ecommerce.Effect.Rely.{IsStep, Body, Ends}
use stora_ecommerce.Effect.Silent.{Silent}
use stora_ecommerce.Effect.Hoare.{Follows}

pub record Moves (R : Db → Db → Type 0) {A : Type 0} (m : M A) : Type 0 where
  pub run : (env : Env) (w : World) → Follows R env → R w.db (m env w).1.db

module _ {R : Db → Db → Type 0} (s : IsStep R) where
  pub Moves-pure : {A : Type 0} (a : A) → Moves R (pure a)
  Moves-pure a = record { run = λ env w follows. s.stay w.db }

  pub Moves-raise : {A : Type 0} (e : Err) → Moves R (raise {A = A} e)
  Moves-raise e = record { run = λ env w follows. s.stay w.db }

  pub Moves-lift : {A : Type 0} (r : Result A) → Moves R (lift r)
  Moves-lift r = record { run = λ env w follows. s.stay w.db }

  pub Moves-here : {A : Type 0} (f : Env → ℕ → A) → Moves R (here f)
  Moves-here f = record { run = λ env w follows. s.stay w.db }

  continue-Moves :
      {A B : Type 0} (f : A → M B) (r : Result A) (env : Env) (w : World)
      → ((a : A) → Moves R (f a))
      → Follows R env
      → R w.db (((λ env w. (r, w)) >>= f) env w).1.db
  continue-Moves f (ok a) env w h follows = (h a).run env w follows
  continue-Moves f (err e) env w h follows = s.stay w.db

  pub Moves-bind :
      {A B : Type 0} (m : M A) (f : A → M B)
      → Moves R m
      → ((a : A) → Moves R (f a))
      → Moves R (m >>= f)
  Moves-bind m f first rest = record {
    run = λ env w follows.
        s.join w.db (m env w).1.db ((m >>= f) env w).1.db (first.run env w follows)
          (continue-Moves f (m env w).0 env (m env w).1 rest follows);
  }

  pub Moves-attempt : {A : Type 0} (m : M A) → Moves R m → Moves R (attempt m)
  Moves-attempt m h = record { run = λ env w follows. h.run env w follows }

  pub Moves-raise_if : (b : Bool) (e : Err) → Moves R (raise_if b e)
  Moves-raise_if true e = Moves-raise e
  Moves-raise_if false e = Moves-pure tt

  pub Moves-if :
      {A : Type 0} (b : Bool) (m k : M A) → Moves R m → Moves R k → Moves R (if b then m else k)
  Moves-if true m k h g = h
  Moves-if false m k h g = g

  pub Moves-stmt :
      {A : Type 0} (f : Env → ℕ → Db → Result A × Db)
      → ((env : Env) (t : ℕ) (db : Db) → R db (f env t db).1)
      → Moves R (stmt f)
  Moves-stmt f h = record {
    run = λ env w follows. elim (Bool-cases (env.fault w.tick)) [
      | inl failed ↦ rw failed (s.stay w.db)
      | inr fine ↦ rw fine (h env w.tick w.db)
    ];
  }

  pub Moves-query :
      {A : Type 0} (f : Env → ℕ → Db → Result A × Db)
      → ((env : Env) (t : ℕ) (db : Db) → R db (f env t db).1)
      → Moves R (query f)
  Moves-query f h = record {
    run = λ env w follows.
        s.join w.db (env.others w.tick w.db) (query f env w).1.db (follows.step w.tick w.db)
          ((Moves-stmt f h).run env (record w { db = env.others w.tick w.db }) follows);
  }

  -- A statement that returns the tables as they are.
  pub Moves-look :
      {A : Type 0} (f : Env → ℕ → Db → Result A) → Moves R (stmt (λ env t db. (f env t db, db)))
  Moves-look f = Moves-stmt (λ env t db. (f env t db, db)) (λ env t db. s.stay db)

  pub Moves-read :
      {A : Type 0} (f : Env → ℕ → Db → Result A) → Moves R (query (λ env t db. (f env t db, db)))
  Moves-read f = Moves-query (λ env t db. (f env t db, db)) (λ env t db. s.stay db)

  pub Moves-send : (msg : Message) → Moves R (send msg)
  Moves-send msg = record {
    run = λ env w follows. elim (Bool-cases (env.fault w.tick)) [
      | inl failed ↦ rw failed (s.stay w.db)
      | inr fine ↦ rw fine (s.stay w.db)
    ];
  }

module _ {R : Db → Db → Type 0} (s : IsStep R) where
  pub Moves-Silent : {A : Type 0} (m : M A) → Silent m → Moves R m
  Moves-Silent m h = record {
    run = λ env w follows. subst (λ db. R w.db db) (sym (h.same env w)) (s.stay w.db);
  }

  Moves-run_tx :
      {A : Type 0} (Q : A → Db → Type 0) (m : M A) → Body R (λ _. ⊤) m Q → Moves R (run_tx m)
  Moves-run_tx Q m body = record {
    run = λ env w follows. go Q env w.db (m env w).0 (m env w).1 (body.run env w tt);
  }
    where
      go :
          {A : Type 0} (Q : A → Db → Type 0) (env : Env) (start : Db) (r : Result A) (w : World)
          → Ends (λ a db. R start db × Q a db) r w.db
          → R start (finish_tx start r env w).1.db
      go Q env start (ok a) w q = elim (Bool-cases (env.fault w.tick)) [
        | inl failed ↦ elim (Bool-cases (env.committed w.tick)) [
          | inl done ↦ rw (failed, done) q.0
          | inr undone ↦ rw (failed, undone) (s.stay start)
        ]
        | inr fine ↦ rw fine q.0
      ]
      go Q env start (err e) w q = s.stay start

  -- A transaction whose body makes an `R` step when it succeeds.
  pub Moves-with_tx :
      {A : Type 0} (Q : A → Db → Type 0) (m : M A) → Body R (λ _. ⊤) m Q → Moves R (with_tx m)
  Moves-with_tx Q m body =
      Moves-bind s (query (λ env t db. (ok tt, db))) (λ _. run_tx m)
        (Moves-read s (λ env t db. ok tt)) (λ _. Moves-run_tx Q m body)
