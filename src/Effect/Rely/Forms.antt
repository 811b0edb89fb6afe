-- ===== src/Effect/Rely/Forms.antt =====
-- The rules for transactions, for what is known beforehand and for the forms that services use.
use stora_ecommerce.Prelude.{
  ℕ, ◌≡◌, refl, sym, Bool, true, false, if◌then◌else◌, Bool-cases, inl, inr,
}
use stora_ecommerce.Schema.{Db}
use stora_ecommerce.Effect.{
  Err, Result, ok, err, Env, World, M, Message, ◌>>=◌, stmt, interleave, query, send, request,
  raise_if, with_tx, run_tx, finish_tx,
}
use mathlib.Core.Path.{subst}
use stora_ecommerce.Effect.Rely.Core.{
  Ends, Ends-bind, Ends-stmt, Ends-weaken, Rely, Triple, Body, Stable, IsStep,
}
use stora_ecommerce.Effect.Rely.Rules.{Triple-bind, Triple-interleave, Triple-query, Triple-send}

module _ {R : Db → Db → Type 0} (s : IsStep R) where
  Ends-finish_tx :
      {A : Type 0} (Q : A → Db → Type 0) (r : Result A) (env : Env) (start : Db) (w : World)
      → Ends (λ a db. R start db × Q a db) r w.db
      → let (r', w') = finish_tx start r env w in R start w'.db × Ends Q r' w'.db
  Ends-finish_tx Q (ok a) env start w q = elim (Bool-cases (env.fault w.tick)) [
    | inl failed ↦ elim (Bool-cases (env.committed w.tick)) [
      | inl done ↦ rw (failed, done) (q.0, tt)
      | inr undone ↦ rw (failed, undone) (s.stay start, tt)
    ]
    | inr fine ↦ rw fine q
  ]
  Ends-finish_tx Q (err e) env start w q = (s.stay start, tt)

  pub Triple-run_tx :
      {A : Type 0} {P : Db → Type 0} (Q : A → Db → Type 0) (m : M A)
      → Body R P m Q
      → Triple R P (run_tx m) Q
  Triple-run_tx Q m body = record {
    run = λ env w rely p. Ends-finish_tx Q (m env w).0 env w.db (m env w).1 (body.run env w p);
  }

  pub Triple-with_tx :
      {A : Type 0} {P : Db → Type 0} (Q : A → Db → Type 0) (m : M A)
      → Stable R P
      → Body R P m Q
      → Triple R P (with_tx m) Q
  Triple-with_tx {P} Q m stable body =
      Triple-bind s (λ _. P) (query (λ env t db. (ok tt, db))) (λ _. run_tx m)
        (Triple-query s (λ _. P) (λ env t db. (ok tt, db)) stable
          (λ env t db rely p. (s.stay db, p)))
        (λ _. Triple-run_tx Q m body)

  pub Triple-exists :
      {A X : Type 0} {P : X → Db → Type 0} (Q : A → Db → Type 0) (m : M A)
      → ((x : X) → Triple R (P x) m Q)
      → Triple R (λ db. (x : X) × P x db) m Q
  Triple-exists Q m h = record { run = λ env w rely p. (h p.0).run env w rely p.1 }

  -- A result that is known may be put in its place.
  pub Triple-known :
      {A X : Type 0} {P : Db → Type 0} (Q : A → Db → Type 0) (f : X → M A) (x y : X)
      → Triple R P (f y) Q
      → Triple R (λ db. (x ≡ y) × P db) (f x) Q
  Triple-known {P} Q f x y h = record {
    run = λ env w rely p.
        subst (λ z. R w.db (f z env w).1.db × Ends Q (f z env w).0 (f z env w).1.db) (sym p.0)
          (h.run env w rely p.1);
  }

  pub Triple-pre :
      {A : Type 0} {P : Db → Type 0} (O : Db → Type 0) (Q : A → Db → Type 0) (m : M A)
      → ((db : Db) → P db → O db)
      → Triple R O m Q
      → Triple R P m Q
  Triple-pre O Q m f h = record { run = λ env w rely p. h.run env w rely (f w.db p) }

  -- `if cond { return err }`: the rest may use that the condition does not hold.
  pub Triple-raise_if :
      {A : Type 0} {P : Db → Type 0} (Q : A → Db → Type 0) (b : Bool) (e : Err) (m : M A)
      → (b ≡ false → Triple R P m Q)
      → Triple R P (raise_if b e >>= λ _. m) Q
  Triple-raise_if Q true e m h = record { run = λ env w rely p. (s.stay w.db, tt) }
  Triple-raise_if Q false e m h = record { run = λ env w rely p. (h refl).run env w rely p }

  pub Triple-if :
      {A : Type 0} {P : Db → Type 0} (Q : A → Db → Type 0) (b : Bool) (m n : M A)
      → (b ≡ true → Triple R P m Q)
      → (b ≡ false → Triple R P n Q)
      → Triple R P (if b then m else n) Q
  Triple-if Q true m n f g = f refl
  Triple-if Q false m n f g = g refl

  -- A query that only reads.
  pub Triple-read :
      {A : Type 0} {P : Db → Type 0} (Q : A → Db → Type 0) (f : Env → ℕ → Db → Result A)
      → Stable R P
      → ((env : Env) (t : ℕ) (db : Db) → Rely R env → P db → Ends Q (f env t db) db)
      → Triple R P (query (λ env t db. (f env t db, db))) Q
  Triple-read Q f stable h =
      Triple-query s Q (λ env t db. (f env t db, db)) stable
        (λ env t db rely p. (s.stay db, h env t db rely p))

  pub Triple-request :
      {P : Db → Type 0} → (msg : Message) → Stable R P → Triple R P (request msg) (λ _. P)
  Triple-request {P} msg stable =
      Triple-bind s (λ _. P) interleave (λ _. send msg) (Triple-interleave s stable)
        (λ _. Triple-send s msg)

  -- The rules for the body of a transaction.
  pub Body-bind :
      {A B : Type 0} {P : Db → Type 0} {S : B → Db → Type 0} (Q : A → Db → Type 0) (m : M A)
      (f : A → M B)
      → Body R P m Q
      → ((a : A) → Body R (Q a) (f a) S)
      → Body R P (m >>= f) S
  Body-bind {S} Q m f first rest = record {
    run = λ env w p.
        Ends-bind (λ a b. R w.db b × Q a b) (λ c b. R w.db b × S c b) m f env w (first.run env w p)
          (λ a w' q.
            Ends-weaken (λ c b. R w'.db b × S c b) (λ c b. R w.db b × S c b) (f a env w').0
              (f a env w').1.db (λ c x. (s.join w.db w'.db (f a env w').1.db q.0 x.0, x.1))
              ((rest a).run env w' q.1));
  }

  pub Body-stmt :
      {A : Type 0} {P : Db → Type 0} (Q : A → Db → Type 0) (f : Env → ℕ → Db → Result A × Db)
      → ((env : Env) (t : ℕ) (db : Db)
          → P db
          → Ends (λ a b. R db b × Q a b) (f env t db).0 (f env t db).1)
      → Body R P (stmt f) Q
  Body-stmt Q f h = record {
    run = λ env w p. Ends-stmt (λ a b. R w.db b × Q a b) f env w (h env w.tick w.db p);
  }

  pub Body-silent :
      {A : Type 0} {P : Db → Type 0} (m : M A)
      → ((env : Env) (w : World) → (m env w).1.db ≡ w.db)
      → Body R P m (λ _. P)
  Body-silent {P} m h = record {
    run =
        λ env w p. both (m env w).0 (subst (λ b. R w.db b × P b) (sym (h env w)) (s.stay w.db, p));
  }
    where
      both : {A : Type 0} {a b : Db} (r : Result A) → R a b × P b → Ends (λ _ b. R a b × P b) r b
      both (ok a) x = x
      both (err e) x = tt
