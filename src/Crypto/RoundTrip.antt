-- ===== src/Crypto/RoundTrip.antt =====
-- `Encrypt` followed by `Decrypt` (internal/crypto/aes.go).
use stora_ecommerce.Prelude.{
  ℕ, ◌≡◌, refl, ap, ◌++◌, false, [], ◌∷◌, some, length, length-append, take, drop, ltb, arith,
}
use stora_ecommerce.Schema.{Text, Bytes}
use stora_ecommerce.Effect.{Env, World, ok}
use stora_ecommerce.Effect.Rely.{Ends, Ends-stmt}
use stora_ecommerce.Crypto.{nonce_size, encrypt, opened, open_ciphertext, decrypt_bytes}

-- What AES-256-GCM promises: a nonce has the standard size, and what was sealed under it opens to
-- the text.
pub record SealsAndOpens (env : Env) : Type 0 where
  pub nonce_length : (t : ℕ) → length (env.nonce t) ≡ nonce_size
  pub opens :
      (nonce : Bytes) (text : Text) → env.open_sealed nonce (env.seal nonce text) ≡ some text

take-append : (xs ys : Bytes) (n : ℕ) → length xs ≡ n → take n (xs ++ ys) ≡ xs
take-append [] ys n h = rw (← h) refl
take-append (x ∷ xs) ys n h = rw (← h) (ap (λ zs. x ∷ zs) (take-append xs ys (length xs) refl))

drop-append : (xs ys : Bytes) (n : ℕ) → length xs ≡ n → drop n (xs ++ ys) ≡ ys
drop-append [] ys n h = rw (← h) refl
drop-append (x ∷ xs) ys n h = rw (← h) (drop-append xs ys (length xs) refl)

-- A ciphertext under a nonce of the standard size.
decrypt_bytes-seal :
    (env : Env) (c : SealsAndOpens env) (nonce : Bytes) (text : Text)
    → length nonce ≡ nonce_size
    → decrypt_bytes env (nonce ++ env.seal nonce text) ≡ ok text
unfolding decrypt_bytes open_ciphertext opened
decrypt_bytes-seal env c [] text h = absurd (omega (arith, h))
decrypt_bytes-seal env c (b ∷ nonce) text h =
    let sealed = env.seal (b ∷ nonce) text in
    let long : ltb (length (b ∷ nonce ++ sealed)) nonce_size ≡ false =
      ground (arith, h, length-append (b ∷ nonce) sealed) in
    rw
      (
        long,
        take-append (b ∷ nonce) sealed nonce_size h,
        drop-append (b ∷ nonce) sealed nonce_size h,
        c.opens (b ∷ nonce) text,
      )
      refl

-- If the cipher keeps its promise, whatever `encrypt` returns for a text decrypts to that text.
pub decrypt-encrypt :
    (env : Env) (c : SealsAndOpens env) (text : Text) (w : World)
    → Ends
        (λ bytes _. decrypt_bytes env bytes ≡ ok text)
        (encrypt text env w).0
        (encrypt text env w).1.db
unfolding encrypt decrypt_bytes
decrypt-encrypt env c [] w = refl
decrypt-encrypt env c (x ∷ text) w =
    Ends-stmt (λ bytes _. decrypt_bytes env bytes ≡ ok (x ∷ text))
      (λ env t db. (ok (env.nonce t ++ env.seal (env.nonce t) (x ∷ text)), db)) env w
      (decrypt_bytes-seal env c (env.nonce w.tick) (x ∷ text) (c.nonce_length w.tick))
