-- ===== src/Effect/Rely/Rules.antt =====
-- The rules for the basic actions.
use stora_ecommerce.Prelude.{ℕ, ◌≡◌, sym, Bool-cases, inl, inr, arith}
use stora_ecommerce.Schema.{Db}
use stora_ecommerce.Effect.{
  Err, Result, ok, err, Env, World, M, Message, pure, raise, ◌>>=◌, stmt, interleave, query, send,
  attempt,
}
use mathlib.Core.Path.{subst}
use stora_ecommerce.Effect.Rely.Core.{Ends, Ends-weaken, Rely, Triple, Stable, IsStep}

module _ {R : Db → Db → Type 0} (s : IsStep R) where
  pub Triple-pure :
      {A : Type 0} {P : Db → Type 0} (Q : A → Db → Type 0) (a : A)
      → ((db : Db) → P db → Q a db)
      → Triple R P (pure a) Q
  Triple-pure Q a h = record { run = λ env w rely p. (s.stay w.db, h w.db p) }

  pub Triple-raise :
      {A : Type 0} {P : Db → Type 0} (Q : A → Db → Type 0) (e : Err) → Triple R P (raise e) Q
  Triple-raise Q e = record { run = λ env w rely p. (s.stay w.db, tt) }

  -- An action that leaves the database alone.
  pub Triple-silent :
      {A : Type 0} {P : Db → Type 0} (m : M A)
      → ((env : Env) (w : World) → (m env w).1.db ≡ w.db)
      → Triple R P m (λ a. P)
  Triple-silent {P} m h = record {
    run = λ env w rely p. (
      subst (λ db. R w.db db) (sym (h env w)) (s.stay w.db),
      Ends_all (m env w).0 (subst P (sym (h env w)) p),
    );
  }
    where
      Ends_all : {A : Type 0} {db : Db} (r : Result A) → P db → Ends (λ a. P) r db
      Ends_all (ok a) p = p
      Ends_all (err e) p = tt

  Ends-continue :
      {A B : Type 0} (Q : A → Db → Type 0) (S : B → Db → Type 0) (f : A → M B) (r : Result A)
      (env : Env) (start : Db) (w : World)
      → Rely R env
      → ((a : A) → Triple R (Q a) (f a) S)
      → R start w.db
      → Ends Q r w.db
      → let (r', w') = ((λ env w. (r, w)) >>= f) env w in R start w'.db × Ends S r' w'.db
  Ends-continue Q S f (ok a) env start w rely rest st q =
      let (st', end) = (rest a).run env w rely q in (s.join start w.db (f a env w).1.db st st', end)
  Ends-continue Q S f (err e) env start w rely rest st q = (st, tt)

  pub Triple-bind :
      {A B : Type 0} {P : Db → Type 0} {S : B → Db → Type 0} (Q : A → Db → Type 0) (m : M A)
      (f : A → M B)
      → Triple R P m Q
      → ((a : A) → Triple R (Q a) (f a) S)
      → Triple R P (m >>= f) S
  Triple-bind {S} Q m f first rest = record {
    run = λ env w rely p.
        let (st, q) = first.run env w rely p in
        Ends-continue Q S f (m env w).0 env w.db (m env w).1 rely rest st q;
  }

  pub Triple-interleave : {P : Db → Type 0} → Stable R P → Triple R P interleave (λ _. P)
  Triple-interleave stable = record {
    run = λ env w rely p.
        (rely.step w.tick w.db, stable w.db (env.others w.tick w.db) (rely.step w.tick w.db) p);
  }

  pub Triple-stmt :
      {A : Type 0} {P : Db → Type 0} (Q : A → Db → Type 0) (f : Env → ℕ → Db → Result A × Db)
      → ((env : Env) (t : ℕ) (db : Db)
          → Rely R env
          → P db
          → R db (f env t db).1 × Ends Q (f env t db).0 (f env t db).1)
      → Triple R P (stmt f) Q
  Triple-stmt Q f h = record {
    run = λ env w rely p. elim (Bool-cases (env.fault w.tick)) [
      | inl failed ↦ rw failed (s.stay w.db, tt)
      | inr fine ↦ rw fine (h env w.tick w.db rely p)
    ];
  }

  pub Triple-query :
      {A : Type 0} {P : Db → Type 0} (Q : A → Db → Type 0) (f : Env → ℕ → Db → Result A × Db)
      → Stable R P
      → ((env : Env) (t : ℕ) (db : Db)
          → Rely R env
          → P db
          → R db (f env t db).1 × Ends Q (f env t db).0 (f env t db).1)
      → Triple R P (query f) Q
  Triple-query {P} Q f stable h =
      Triple-bind (λ _. P) interleave (λ _. stmt f) (Triple-interleave stable)
        (λ _. Triple-stmt Q f h)

  pub Triple-send : {P : Db → Type 0} (msg : Message) → Triple R P (send msg) (λ _. P)
  Triple-send msg = Triple-silent (send msg) (λ env w. ground arith)

  -- What was known and is stable is known after an action too, and after a failed one.
  pub Triple-attempt :
      {A : Type 0} {P : Db → Type 0} (Q : A → Db → Type 0) (m : M A)
      → Stable R P
      → Triple R P m Q
      → Triple R P (attempt m) (λ r db. P db × Ends Q r db)
  Triple-attempt Q m stable h = record {
    run = λ env w rely p.
        let (st, q) = h.run env w rely p in (st, (stable w.db (m env w).1.db st p, q));
  }

  Ends-both :
      {A : Type 0} (P : Db → Type 0) (Q : A → Db → Type 0) (r : Result A) (db : Db)
      → P db
      → Ends Q r db
      → Ends (λ a db. P db × Q a db) r db
  Ends-both P Q (ok a) db p q = (p, q)
  Ends-both P Q (err e) db p q = tt

  pub Triple-frame :
      {A : Type 0} {P : Db → Type 0} (Q : A → Db → Type 0) (m : M A)
      → Stable R P
      → Triple R P m Q
      → Triple R P m (λ a db. P db × Q a db)
  Triple-frame {P} Q m stable h = record {
    run = λ env w rely p.
        let (st, q) = h.run env w rely p in
        (st, Ends-both P Q (m env w).0 (m env w).1.db (stable w.db (m env w).1.db st p) q);
  }

  pub Triple-weaken :
      {A : Type 0} {P : Db → Type 0} (Q S : A → Db → Type 0) (m : M A)
      → Triple R P m Q
      → ((a : A) (db : Db) → Q a db → S a db)
      → Triple R P m S
  Triple-weaken Q S m h f = record {
    run = λ env w rely p.
        let (st, q) = h.run env w rely p in
        (st, Ends-weaken Q S (m env w).0 (m env w).1.db (λ a. f a (m env w).1.db) q);
  }
