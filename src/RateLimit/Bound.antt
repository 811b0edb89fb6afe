-- ===== src/RateLimit/Bound.antt =====
-- Bounds of the shared token bucket (`tokenBucketScript` of internal/middleware/ratelimit_redis.go).
use stora_ecommerce.Prelude.{
  ℕ, zero, suc, ◌+◌, ◌-◌, ◌*◌, ◌≤◌, ◌<◌, ◌≡◌, sym, ⊤, Option, none, some, List, [], ◌∷◌, leb,
  Bool-cases, inl, inr, arith, if◌then◌else◌,
}
use Prim.Native.Nat.{◌/◌}
use mathlib.Core.Path.{subst}
use native.Mathlib.Nat.{mul-le-mul_right, add-mul}
use stora_ecommerce.RateLimit.{
  Bucket, Limit, unit, one_token, full, seconds, lifetime, found, take_token, admitted,
}

-- A bucket as the script leaves it.
pub record IsValid (l : Limit) (b : Bucket) : Type 0 where
  pub bounded : b.tokens ≤ full l
  pub expiry : b.expires ≡ b.ts + lifetime l

-- The times do not go back.
abbrev pub Ordered : ℕ → List ℕ → Type 0
Ordered now [] = ⊤
Ordered now (t ∷ times) = (now ≤ t) × Ordered t times

abbrev pub last_of : ℕ → List ℕ → ℕ
last_of now [] = now
last_of now (t ∷ times) = last_of t times

ceil-covers : (r capacity : ℕ) → capacity ≤ (capacity + r) / suc r * suc r
ceil-covers r capacity = grind arith

seconds-covers :
    (rate capacity : ℕ) → 0 < rate → capacity * unit ≤ seconds rate capacity * unit * rate
seconds-covers zero capacity positive = absurd (omega arith)
seconds-covers (suc r) capacity positive = grind (arith, ceil-covers r capacity)

take_token-IsValid : (l : Limit) (now : ℕ) (b : Option Bucket) → IsValid l (take_token l now b).1
unfolding take_token
take_token-IsValid l now none = ground arith
take_token-IsValid l now (some b) = ground arith

-- The tokens that a call finds are at most those left and those that have come since: a bucket that
-- has expired would have been full.
found-le :
    (l : Limit) (now : ℕ) (b : Bucket)
    → 0 < l.rate
    → IsValid l b
    → b.ts ≤ now
    → found l now (some b) ≤ b.tokens + (now - b.ts) * l.rate
found-le l now b positive v h = elim (Bool-cases (leb b.expires now)) [
  | inl expired ↦
      let waited : lifetime l ≤ now - b.ts = ground (arith, expired, v.expiry) in
      rw expired (
        omega (
          arith,
          seconds-covers l.rate (l.capacity * l.per) positive,
          mul-le-mul_right l.rate waited,
        ))
  | inr live ↦ rw live (ground arith)
]

-- How many requests a call lets through.
abbrev passed : Limit → ℕ → Option Bucket → ℕ
passed l now b = if (take_token l now b).0 then 1 else 0

take_token-spends :
    (l : Limit) (now : ℕ) (b : Option Bucket)
    → passed l now b * one_token l + (take_token l now b).1.tokens ≡ found l now b
unfolding take_token
take_token-spends l now b = elim (Bool-cases (leb (one_token l) (found l now b))) [
  | inl enough ↦ rw enough (ground (arith, enough))
  | inr short ↦ rw short (omega arith)
]

take_token-ts : (l : Limit) (now : ℕ) (b : Option Bucket) → (take_token l now b).1.ts ≡ now
unfolding take_token
take_token-ts l now b = ground arith

last_of-le : (now : ℕ) (times : List ℕ) → Ordered now times → now ≤ last_of now times
last_of-le now [] o = omega arith
last_of-le now (t ∷ times) o = omega (arith, o.0, last_of-le t times o.1)

-- The accounts of one call and of those after it, added up.
join_spans :
    (n m one tokens found left last now ts rate : ℕ)
    → n * one ≤ tokens + (last - now) * rate
    → m * one + tokens ≡ found
    → found ≤ left + (now - ts) * rate
    → ts ≤ now
    → now ≤ last
    → (n + m) * one ≤ left + (last - ts) * rate
join_spans n m one tokens found left last now ts rate h k l p q =
    let split : last - ts ≡ (last - now) + (now - ts) = omega arith in
    rw (split, add-mul (last - now) (now - ts) rate, add-mul n m one) (omega (arith, h, k, l))

module _ (l : Limit) (positive : 0 < l.rate) where
  admitted-le :
      (times : List ℕ) (b : Bucket)
      → IsValid l b
      → Ordered b.ts times
      → (admitted l times (some b)).0 * one_token l
        ≤ b.tokens + (last_of b.ts times - b.ts) * l.rate
  unfolding admitted
  admitted-le [] b v o = omega arith
  admitted-le (now ∷ times) b v o =
      let b' = (take_token l now (some b)).1 in
      join_spans (admitted l times (some b')).0 (passed l now (some b)) (one_token l) b'.tokens
        (found l now (some b)) b.tokens (last_of now times) now b.ts l.rate
        (subst
          (λ t.
            (admitted l times (some b')).0 * one_token l
            ≤ b'.tokens + (last_of t times - t) * l.rate)
          (take_token-ts l now (some b))
          (admitted-le times b' (take_token-IsValid l now (some b))
            (subst (λ t. Ordered t times) (sym (take_token-ts l now (some b))) o.1)))
        (take_token-spends l now (some b)) (found-le l now b positive v o.0) o.0
        (last_of-le now times o.1)

  -- With a positive rate, a fraction of `rate` and `per`, and times that do not go back, a client
  -- without a bucket gets at most its capacity and the rate times the span from its first request
  -- to its last, both sides counted in parts of a token, in whatever bursts the requests come; that
  -- a bucket expires meanwhile changes nothing of this.
  pub admitted_bound :
      (first : ℕ) (times : List ℕ)
      → Ordered first times
      → (admitted l (first ∷ times) none).0 * one_token l
        ≤ full l + (last_of first times - first) * l.rate
  unfolding admitted
  admitted_bound first times o =
      let b' = (take_token l first none).1 in
      let rest : (admitted l times (some b')).0 * one_token l
          ≤ b'.tokens + (last_of first times - first) * l.rate =
        subst
          (λ t.
            (admitted l times (some b')).0 * one_token l
            ≤ b'.tokens + (last_of t times - t) * l.rate)
          (take_token-ts l first none)
          (admitted-le times b' (take_token-IsValid l first none)
            (subst (λ t. Ordered t times) (sym (take_token-ts l first none)) o)) in
      rw (add-mul (admitted l times (some b')).0 (passed l first none) (one_token l))
        (omega (arith, rest, take_token-spends l first none))
