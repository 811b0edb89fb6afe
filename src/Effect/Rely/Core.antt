-- ===== src/Effect/Rely/Core.antt =====
-- What an action relies on and what is said of it.
use stora_ecommerce.Prelude.{Bool, true, false, ℕ, ⊤, ◌≡◌, refl, ap, Bool-cases, none, inl, inr}
use stora_ecommerce.Schema.{Db}
use stora_ecommerce.Effect.{Result, ok, err, Env, World, M, ◌>>=◌, stmt, raise_if, Err}

abbrev pub Ends : {A : Type 0} → (A → Db → Type 0) → Result A → Db → Type 0
Ends Q (ok a) db = Q a db
Ends Q (err e) db = ⊤

-- A sequence whose first action ends well goes on with the second.
pub bind-ok :
    {A B : Type 0} (env : Env) (m : M A) (f : A → M B) (a : A) (w w' : World)
    → m env w ≡ (ok a, w')
    → (m >>= f) env w ≡ f a env w'
bind-ok env m f a w w' e = ap (λ x. ((λ _ _. x) >>= f) env w) e

-- One whose first action fails, fails.
pub bind-err :
    {A B : Type 0} (env : Env) (m : M A) (f : A → M B) (e : Err) (w w' : World)
    → m env w ≡ (err e, w')
    → (m >>= f) env w ≡ (err e, w')
bind-err env m f e w w' h = ap (λ x. ((λ _ _. x) >>= f) env w) h

-- The rule for a sequence, of what holds at the end alone.
pub Ends-bind :
    {A B : Type 0} (Q : A → Db → Type 0) (S : B → Db → Type 0) (m : M A) (f : A → M B) (env : Env)
    (w : World)
    → Ends Q (m env w).0 (m env w).1.db
    → ((a : A) (w' : World) → Q a w'.db → Ends S (f a env w').0 (f a env w').1.db)
    → Ends S ((m >>= f) env w).0 ((m >>= f) env w).1.db
Ends-bind {A} {B} Q S m f env w h rest = go (m env w).0 (m env w).1 h
  where
    go :
        (r : Result A) (w' : World)
        → Ends Q r w'.db
        → let (r', w'') = ((λ env w. (r, w')) >>= f) env w in Ends S r' w''.db
    go (ok a) w' q = rest a w' q
    go (err e) w' q = tt

-- The same for a statement, which fails or does what its function does.
pub Ends-stmt :
    {A : Type 0} (Q : A → Db → Type 0) (f : Env → ℕ → Db → Result A × Db) (env : Env) (w : World)
    → Ends Q (f env w.tick w.db).0 (f env w.tick w.db).1
    → Ends Q (stmt f env w).0 (stmt f env w).1.db
Ends-stmt Q f env w h = elim (Bool-cases (env.fault w.tick)) [
  | inl failed ↦ rw failed tt
  | inr fine ↦ rw fine h
]

pub Ends-weaken :
    {A : Type 0} (Q S : A → Db → Type 0) (r : Result A) (db : Db)
    → ((a : A) → Q a db → S a db)
    → Ends Q r db
    → Ends S r db
Ends-weaken Q S (ok a) db f q = f a q
Ends-weaken Q S (err e) db f q = tt

-- `if cond { return err }`
pub Ends-raise_if :
    {A : Type 0} (S : A → Db → Type 0) (b : Bool) (e : Err) (m : M A) (env : Env) (w : World)
    → (b ≡ false → Ends S (m env w).0 (m env w).1.db)
    → Ends S ((raise_if b e >>= λ _. m) env w).0 ((raise_if b e >>= λ _. m) env w).1.db
Ends-raise_if S true e m env w h = tt
Ends-raise_if S false e m env w h = h refl

-- What an action relies on: the steps of the others, and that no result set breaks off.
pub record Rely (R : Db → Db → Type 0) (env : Env) : Type 0 where
  pub step : (t : ℕ) (db : Db) → R db (env.others t db)
  pub whole : (t : ℕ) → env.cut t ≡ none

pub record Triple {A : Type 0} (R : Db → Db → Type 0) (P : Db → Type 0) (m : M A)
    (Q : A → Db → Type 0) : Type 0 where
  pub run :
      (env : Env) (w : World)
      → Rely R env
      → P w.db
      → R w.db (m env w).1.db × Ends Q (m env w).0 (m env w).1.db

-- The same for the body of a transaction: only what is committed has to be an `R` step.
pub record Body {A : Type 0} (R : Db → Db → Type 0) (P : Db → Type 0) (m : M A)
    (Q : A → Db → Type 0) : Type 0 where
  pub run :
      (env : Env) (w : World)
      → P w.db
      → Ends (λ a db. R w.db db × Q a db) (m env w).0 (m env w).1.db

abbrev pub Stable : (Db → Db → Type 0) → (Db → Type 0) → Type 0
Stable R P = (a b : Db) → R a b → P a → P b

-- A step relation: doing nothing is a step, and two steps make one.
pub record IsStep (R : Db → Db → Type 0) : Type 0 where
  pub stay : (a : Db) → R a a
  pub join : (a b c : Db) → R a b → R b c → R a c
