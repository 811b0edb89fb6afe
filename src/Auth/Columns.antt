-- ===== src/Auth/Columns.antt =====
-- Encrypted text columns (`encField` and `decField` of internal/auth/repository.go).
use stora_ecommerce.Prelude.{
  ℕ, ◌<◌, ◌≡◌, refl, ap, ◌∙◌, [], ◌∷◌, ◌++◌, some, All, All-append, arith,
}
use Prim.Native.Nat.{◌/◌, ◌%◌}
use stora_ecommerce.Schema.{Text, Bytes, Db}
use stora_ecommerce.Effect.{Env, World, Result, ok, err, pure}
use stora_ecommerce.Effect.Rely.{Ends, Ends-bind, Ends-stmt}
use stora_ecommerce.Crypto.{encrypt, decrypt_bytes}
use stora_ecommerce.Crypto.RoundTrip.{SealsAndOpens, decrypt-encrypt}
use stora_ecommerce.Auth.Fields.{
  hex_digit, to_hex, hex_value, from_hex, enc_field, decrypt_hex, dec_field,
}

-- Nonces are bytes, and what is sealed of bytes is bytes.
pub record Octets (env : Env) : Type 0 where
  pub nonce : (t : ℕ) → All (λ b. b < 256) (env.nonce t)
  pub seal :
      (nonce : Bytes) (text : Text)
      → All (λ b. b < 256) text
      → All (λ b. b < 256) (env.seal nonce text)

hex_value-hex_digit : (n : ℕ) → n < 16 → hex_value (hex_digit n) ≡ some n
hex_value-hex_digit n h = ground arith

from_hex-to_hex : (bytes : Bytes) → All (λ b. b < 256) bytes → from_hex (to_hex bytes) ≡ some bytes
unfolding from_hex to_hex
from_hex-to_hex [] h = refl
from_hex-to_hex (b ∷ bytes) h =
    rw
      (
        hex_value-hex_digit (b / 16) (omega arith),
        hex_value-hex_digit (b % 16) (omega arith),
        from_hex-to_hex bytes h.1,
      )
      (ap (λ x. some (x ∷ bytes)) (omega arith))

dec_field-to_hex :
    (env : Env) (c : ℕ) (text : Text) (ct : Bytes)
    → decrypt_bytes env ct ≡ ok (c ∷ text)
    → All (λ b. b < 256) ct
    → dec_field env (to_hex ct) ≡ ok (c ∷ text)
unfolding dec_field to_hex decrypt_bytes
dec_field-to_hex env c text [] opens h = cc
dec_field-to_hex env c text (b ∷ bytes) opens h =
    let e : from_hex (to_hex (b ∷ bytes)) ≡ some (b ∷ bytes) = from_hex-to_hex (b ∷ bytes) h in
    ap (decrypt_hex env) e ∙ opens

encrypt-Octets :
    (env : Env) (o : Octets env) (text : Text) (w : World)
    → All (λ b. b < 256) text
    → Ends (λ ct _. All (λ b. b < 256) ct) (encrypt text env w).0 (encrypt text env w).1.db
unfolding encrypt
encrypt-Octets env o [] w h = tt
encrypt-Octets env o (c ∷ text) w h =
    Ends-stmt (λ ct _. All (λ b. b < 256) ct)
      (λ env t db. (ok (env.nonce t ++ env.seal (env.nonce t) (c ∷ text)), db)) env w
      (All-append (λ b. b < 256) (env.nonce w.tick) (env.seal (env.nonce w.tick) (c ∷ text))
        (o.nonce w.tick) (o.seal (env.nonce w.tick) (c ∷ text) h))

Ends-both :
    {A : Type 0} (P Q : A → Db → Type 0) (r : Result A) (db : Db)
    → Ends P r db
    → Ends Q r db
    → Ends (λ a db. P a db × Q a db) r db
Ends-both P Q (ok a) db p q = (p, q)
Ends-both P Q (err e) db p q = tt

-- If the cipher keeps its promise and deals in bytes, what `encField` stores for a text of bytes, the
-- hexadecimal digits of a ciphertext, `decField` reads back as that text.
pub dec_field-enc_field :
    (env : Env) (c : SealsAndOpens env) (o : Octets env) (text : Text) (w : World)
    → All (λ b. b < 256) text
    → Ends
        (λ column _. dec_field env column ≡ ok text)
        (enc_field text env w).0
        (enc_field text env w).1.db
unfolding enc_field dec_field
dec_field-enc_field env c o [] w h = refl
dec_field-enc_field env c o (x ∷ text) w h =
    Ends-bind (λ ct _. (decrypt_bytes env ct ≡ ok (x ∷ text)) × All (λ b. b < 256) ct)
      (λ column _. dec_field env column ≡ ok (x ∷ text)) (encrypt (x ∷ text))
      (λ ct. pure (to_hex ct)) env w
      (Ends-both (λ ct _. decrypt_bytes env ct ≡ ok (x ∷ text)) (λ ct _. All (λ b. b < 256) ct)
        (encrypt (x ∷ text) env w).0 (encrypt (x ∷ text) env w).1.db
        (decrypt-encrypt env c (x ∷ text) w) (encrypt-Octets env o (x ∷ text) w h))
      (λ ct w' p. dec_field-to_hex env x text ct p.0 p.1)
