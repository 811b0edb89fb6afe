-- ===== src/Effect/Silent.antt =====
-- Actions that write nothing to the database.
use stora_ecommerce.Prelude.{ℕ, ◌≡◌, refl, ◌∙◌, Bool, true, false, Bool-cases, inl, inr}
use stora_ecommerce.Schema.{Db}
use stora_ecommerce.Effect.{
  Err, Result, ok, err, Env, World, M, Message, pure, raise, ◌>>=◌, raise_if, attempt, stmt, send,
}
use stora_ecommerce.Effect.Rely.{IsStep, Triple, Triple-silent}

pub record Silent {A : Type 0} (m : M A) : Type 0 where
  pub same : (env : Env) (w : World) → (m env w).1.db ≡ w.db

module _ {A : Type 0} where
  pub Silent-pure : (a : A) → Silent (pure a)
  Silent-pure a = record { same = λ env w. refl }

  pub Silent-raise : (e : Err) → Silent (raise {A = A} e)
  Silent-raise e = record { same = λ env w. refl }

  pub Silent-attempt : (m : M A) → Silent m → Silent (attempt m)
  Silent-attempt m h = record { same = λ env w. h.same env w }

  -- A statement that returns the tables as they are.
  pub Silent-stmt : (f : Env → ℕ → Db → Result A) → Silent (stmt (λ env t db. (f env t db, db)))
  Silent-stmt f = record {
    same = λ env w. elim (Bool-cases (env.fault w.tick)) [ inl h ↦ rw h refl | inr h ↦ rw h refl ];
  }

module _ {A B : Type 0} where
  Silent-continue :
      (f : A → M B) (r : Result A) (env : Env) (w : World)
      → ((a : A) → Silent (f a))
      → (((λ env w. (r, w)) >>= f) env w).1.db ≡ w.db
  Silent-continue f (ok a) env w h = (h a).same env w
  Silent-continue f (err e) env w h = refl

  pub Silent-bind : (m : M A) (f : A → M B) → Silent m → ((a : A) → Silent (f a)) → Silent (m >>= f)
  Silent-bind m f hm hf = record {
    same = λ env w. Silent-continue f (m env w).0 env (m env w).1 hf ∙ hm.same env w;
  }

pub Silent-send : (msg : Message) → Silent (send msg)
Silent-send msg = record {
  same = λ env w. elim (Bool-cases (env.fault w.tick)) [ inl h ↦ rw h refl | inr h ↦ rw h refl ];
}

pub Silent-raise_if : (b : Bool) (e : Err) → Silent (raise_if b e)
Silent-raise_if true e = record { same = λ env w. refl }
Silent-raise_if false e = record { same = λ env w. refl }

pub Triple-Silent :
    {R : Db → Db → Type 0} (s : IsStep R) {A : Type 0} {P : Db → Type 0} (m : M A)
    → Silent m
    → Triple R P m (λ _. P)
Triple-Silent s m h = Triple-silent s m h.same

pub ruleset silent_rules = (
  Silent-pure, Silent-raise, Silent-attempt, Silent-stmt, Silent-bind, Silent-send, Silent-raise_if,
)
