-- ===== src/Effect/Quiet.antt =====
-- Rules for actions that change nothing while no other request is at work.
use stora_ecommerce.Prelude.{ℕ, ◌≡◌, refl, sym, List, Bool-cases, inl, inr}
use mathlib.Core.Path.{subst}
use stora_ecommerce.Schema.{Db}
use stora_ecommerce.Effect.{
  Err, Result, ok, err, Env, World, M, Message, pure, raise, ◌>>=◌, attempt, query,
}
use stora_ecommerce.Effect.Rely.{Ends}

-- No other request commits anything.
pub record Quiet (env : Env) : Type 0 where
  pub alone : (t : ℕ) (db : Db) → env.others t db ≡ db

-- Begun with these tables and this outbox, an action ends with them, and what it returns has `Q`.
pub record Still {A : Type 0} (env : Env) (db : Db) (out : List Message) (Q : A → Type 0) (m : M A)
    : Type 0 where
  pub run :
      (w : World)
      → w.db ≡ db
      → w.outbox ≡ out
      → ((m env w).1.db ≡ db) × (((m env w).1.outbox ≡ out) × Ends (λ a _. Q a) (m env w).0 db)

module _ (env : Env) (quiet : Quiet env) (db : Db) (out : List Message) where
  pub Still-pure : {A : Type 0} (Q : A → Type 0) (a : A) → Q a → Still env db out Q (pure a)
  Still-pure Q a q = record { run = λ w d o. (d, (o, q)) }

  pub Still-raise : {A : Type 0} (Q : A → Type 0) (e : Err) → Still env db out Q (raise e)
  Still-raise Q e = record { run = λ w d o. (d, (o, tt)) }

  continue-Still :
      {A B : Type 0} (Q : A → Type 0) (S : B → Type 0) (f : A → M B) (r : Result A) (w : World)
      → ((a : A) → Q a → Still env db out S (f a))
      → w.db ≡ db
      → w.outbox ≡ out
      → Ends (λ a _. Q a) r db
      → let (r', w') = ((λ env w. (r, w)) >>= f) env w in
        (w'.db ≡ db) × ((w'.outbox ≡ out) × Ends (λ a _. S a) r' db)
  continue-Still Q S f (ok a) w h d o q = (h a q).run w d o
  continue-Still Q S f (err e) w h d o q = (d, (o, tt))

  pub Still-bind :
      {A B : Type 0} (Q : A → Type 0) {S : B → Type 0} (m : M A) (f : A → M B)
      → Still env db out Q m
      → ((a : A) → Q a → Still env db out S (f a))
      → Still env db out S (m >>= f)
  Still-bind Q {S} m f first rest = record {
    run = λ w d o.
        let (d', (o', q)) = first.run w d o in
        continue-Still Q S f (m env w).0 (m env w).1 rest d' o' q;
  }

  pub Still-attempt :
      {A : Type 0} (Q : A → Type 0) (m : M A)
      → Still env db out Q m
      → Still env db out (λ r. Ends (λ a _. Q a) r db) (attempt m)
  Still-attempt Q m h = record { run = λ w d o. h.run w d o }

  pub Still-read :
      {A : Type 0} (Q : A → Type 0) (f : Env → ℕ → Db → Result A)
      → ((t : ℕ) → Ends (λ a _. Q a) (f env t db) db)
      → Still env db out Q (query (λ env t db. (f env t db, db)))
  Still-read Q f h = record {
    run = λ w d o. elim (Bool-cases (env.fault w.tick)) [
      | inl failed ↦ rw (quiet.alone w.tick w.db, failed) (d, (o, tt))
      | inr fine ↦
          rw (quiet.alone w.tick w.db, fine)
            (d, (o, subst (λ b. Ends (λ a _. Q a) (f env w.tick b) db) (sym d) (h w.tick)))
    ];
  }

-- What the tables are after an action that changes nothing and another one.
pub Still-then :
    {A B : Type 0} (env : Env) (db : Db) (Q : A → Type 0) (P : Db → Type 0) (m : M A) (f : A → M B)
    → ((out : List Message) → Still env db out Q m)
    → P db
    → ((a : A) (w : World) → Q a → w.db ≡ db → P (f a env w).1.db)
    → (w : World) → w.db ≡ db
    → P ((m >>= f) env w).1.db
Still-then {A} {B} env db Q P m f still p rest w e =
    let (d, (o, q)) = (still w.outbox).run w e refl in go (m env w).0 (m env w).1 d q
  where
    go :
        (r : Result A) (w' : World)
        → w'.db ≡ db
        → Ends (λ a _. Q a) r db
        → P (((λ env w. (r, w')) >>= f) env w).1.db
    go (ok a) w' d q = rest a w' q d
    go (err x) w' d q = subst P (sym d) p
