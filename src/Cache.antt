-- ===== src/Cache.antt =====
-- The in-process cache (internal/cache/memory.go). A key is a number, a map is a function, the time
-- is an argument.
pub mod Unswept
use stora_ecommerce.Prelude.{
  ℕ, ◌+◌, Bool, true, false, Option, none, some, List, [], ◌∷◌, ◌==◌, ltb, if◌then◌else◌,
}
use stora_ecommerce.Schema.{Bytes}

pub record Entry : Type 0 where
  pub val : Bytes
  pub expires_at : ℕ

abbrev pub Memory : Type 0
Memory = ℕ → Option Entry

abbrev pub new_memory : Memory
new_memory key = none

-- `time.Now().After(e.expiresAt)`
abbrev pub fresh : ℕ → Option Entry → Option Bytes
fresh now none = none
fresh now (some e) = if ltb e.expires_at now then none else some e.val

unfoldable pub get : ℕ → ℕ → Memory → Option Bytes
get now key m = fresh now (m key)

unfoldable pub set : ℕ → ℕ → Bytes → ℕ → Memory → Memory
set now key val ttl m k =
    if k == key then some (record { val = val; expires_at = now + ttl }) else m k

unfoldable pub delete : ℕ → Memory → Memory
delete key m k = if k == key then none else m k

abbrev pub kept : ℕ → Option Entry → Option Entry
kept now none = none
kept now (some e) = if ltb e.expires_at now then none else some e

-- One round of `sweepLoop`.
unfoldable pub sweep : ℕ → Memory → Memory
sweep now m k = kept now (m k)

-- What happens to a cache, each at a time.
pub data Call : Type 0 where
  get_key : ℕ → Call
  set_key : ℕ → Bytes → ℕ → Call
  delete_key : ℕ → Call
  tick : Call

-- The state and what the call returns.
abbrev pub call : ℕ → Call → Memory → Memory × Option Bytes
call now (get_key key) m = (m, get now key m)
call now (set_key key val ttl) m = (set now key val ttl m, none)
call now (delete_key key) m = (delete key m, none)
call now tick m = (sweep now m, none)

-- What the calls of a client return, the sweeps being no calls of a client.
pub answers : List (ℕ × Call) → Memory → List (Option Bytes)
answers [] m = []
answers ((now, c) ∷ calls) m = (call now c m).1 ∷ answers calls (call now c m).0
