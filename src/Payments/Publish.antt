-- ===== src/Payments/Publish.antt =====
-- `publishWithRetry` (internal/payments/service.go).
use stora_ecommerce.Prelude.{
  ℕ, zero, suc, ◌+◌, ◌≤◌, ◌≡◌, refl, Bool, not, ◌||◌, Bool-cases, inl, inr, [], ◌∷◌, ◌++◌, arith,
  if◌then◌else◌,
}
use stora_ecommerce.Effect.{Env, World, Message, ok, send}
use stora_ecommerce.Payments.Service.{publish_with_retry}

-- Whether one of the calls `t`, …, `t + n` is without fault.
abbrev pub some_fine : (ℕ → Bool) → ℕ → ℕ → Bool
some_fine fault t zero = not (fault t)
some_fine fault t (suc n) = not (fault t) || some_fine fault (t + 1) n

-- A message is published once if the broker accepts one of the attempts, and else not at all; the
-- caller sees no error, the tables stay, and there is at most one attempt more than backoffs.
pub publish_with_retry_lem :
    (n : ℕ) (msg : Message) (env : Env) (w : World)
    → ((publish_with_retry n (send msg) env w).0 ≡ ok tt)
      × (((publish_with_retry n (send msg) env w).1.outbox
            ≡ (if some_fine env.fault w.tick n then w.outbox ++ msg ∷ [] else w.outbox))
          × (((publish_with_retry n (send msg) env w).1.db ≡ w.db)
              × ((publish_with_retry n (send msg) env w).1.tick ≤ w.tick + n + 1)))
unfolding publish_with_retry
publish_with_retry_lem zero msg env w = elim (Bool-cases (env.fault w.tick)) [
  | inl failed ↦ rw failed (refl, (refl, (refl, omega arith)))
  | inr fine ↦ rw fine (refl, (refl, (refl, omega arith)))
]
publish_with_retry_lem (suc n) msg env w = elim (Bool-cases (env.fault w.tick)) [
  | inl failed ↦
      let (fine, (sent, (same, bound))) =
        publish_with_retry_lem n msg env (record w { tick = w.tick + 1 }) in
      rw failed (fine, (sent, (same, omega (arith, bound))))
  | inr fine ↦ rw fine (refl, (refl, (refl, omega arith)))
]
