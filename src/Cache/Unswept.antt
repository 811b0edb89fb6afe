-- ===== src/Cache/Unswept.antt =====
-- The cache against a specification that never sweeps (internal/cache/memory.go).
use stora_ecommerce.Prelude.{
  ℕ, ◌+◌, ◌≤◌, ◌≡◌, refl, ⊤, Option, none, some, List, [], ◌∷◌, ◌==◌, Bool-cases, inl, inr, arith,
  if◌then◌else◌,
}
use stora_ecommerce.Schema.{Bytes}
use stora_ecommerce.Cache.{
  Entry, Memory, new_memory, fresh, get, set, delete, kept, sweep, Call, get_key, set_key,
  delete_key, tick, call, answers,
}

-- The specification: an entry is what was set last, for as long as it lives, and a sweep does
-- nothing.
abbrev pub Spec : Type 0
Spec = ℕ → Option Entry

abbrev pub spec_call : ℕ → Call → Spec → Spec × Option Bytes
spec_call now (get_key key) s = (s, fresh now (s key))
spec_call now (set_key key val ttl) s =
    ((λ k. if k == key then some (record { val = val; expires_at = now + ttl }) else s k), none)
spec_call now (delete_key key) s = ((λ k. if k == key then none else s k), none)
spec_call now tick s = (s, none)

pub spec_answers : List (ℕ × Call) → Spec → List (Option Bytes)
spec_answers [] s = []
spec_answers ((now, c) ∷ calls) s = (spec_call now c s).1 ∷ spec_answers calls (spec_call now c s).0

-- The clock does not go back.
abbrev pub Ordered : ℕ → List (ℕ × Call) → Type 0
Ordered now [] = ⊤
Ordered now ((t, c) ∷ calls) = (now ≤ t) × Ordered t calls

-- From now on, nobody can tell the two apart.
record Agree (now : ℕ) (m : Memory) (s : Spec) : Type 0 where
  same : (t key : ℕ) → now ≤ t → fresh t (m key) ≡ fresh t (s key)

fresh-kept : (now t : ℕ) (o : Option Entry) → now ≤ t → fresh t (kept now o) ≡ fresh t o
fresh-kept now t none h = refl
fresh-kept now t (some e) h = ground arith

later : (now t : ℕ) (m : Memory) (s : Spec) → now ≤ t → Agree now m s → Agree t m s
later now t m s h a = record { same = λ u key k. a.same u key (omega arith) }

call-Agree :
    (now : ℕ) (c : Call) (m : Memory) (s : Spec)
    → Agree now m s
    → Agree now (call now c m).0 (spec_call now c s).0
unfolding get set delete sweep
call-Agree now (get_key key) m s a = a
call-Agree now (set_key key val ttl) m s a = record {
  same = λ t k h. elim (Bool-cases (k == key)) [
    | inl hit ↦ rw hit refl
    | inr miss ↦ rw miss (a.same t k h)
  ];
}
call-Agree now (delete_key key) m s a = record {
  same = λ t k h. elim (Bool-cases (k == key)) [
    | inl hit ↦ rw hit refl
    | inr miss ↦ rw miss (a.same t k h)
  ];
}
call-Agree now tick m s a = record { same = λ t k h. rw (fresh-kept now t (m k) h) (a.same t k h) }

call-answer :
    (now : ℕ) (c : Call) (m : Memory) (s : Spec)
    → Agree now m s
    → (call now c m).1 ≡ (spec_call now c s).1
unfolding get
call-answer now (get_key key) m s a = a.same now key (omega arith)
call-answer now (set_key key val ttl) m s a = refl
call-answer now (delete_key key) m s a = refl
call-answer now tick m s a = refl

answers-Agree :
    (now : ℕ) (calls : List (ℕ × Call)) (m : Memory) (s : Spec)
    → Ordered now calls
    → Agree now m s
    → answers calls m ≡ spec_answers calls s
unfolding answers spec_answers
answers-Agree now [] m s o a = refl
answers-Agree now ((t, c) ∷ calls) m s o a =
    let a' : Agree t m s = later now t m s o.0 a in
    rw
      (
        call-answer t c m s a',
        answers-Agree t calls (call t c m).0 (spec_call t c s).0 o.1 (call-Agree t c m s a'),
      )
      refl

-- The cache implements the specification: as long as the clock does not go back, every sequence of
-- reads, writes, deletions and sweeps, begun on an empty cache, returns what the specification
-- returns, in which sweeps do nothing.
pub answers-spec_answers :
    (calls : List (ℕ × Call))
    → Ordered 0 calls
    → answers calls new_memory ≡ spec_answers calls (λ key. none)
answers-spec_answers calls ordered =
    answers-Agree 0 calls new_memory (λ key. none) ordered (record { same = λ t key h. refl })
