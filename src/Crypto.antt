-- ===== src/Crypto.antt =====
-- Encryption at rest (internal/crypto/aes.go): the ciphertext is the nonce followed by what
-- AES-256-GCM seals under it. The cipher is the fields `seal` and `open_sealed` of `Env`.
pub mod Silent
pub mod RoundTrip
use stora_ecommerce.Prelude.{
  ℕ, ◌++◌, [], ◌∷◌, Option, none, some, length, take, drop, ltb, if◌then◌else◌,
}
use stora_ecommerce.Schema.{Text, Bytes}
use stora_ecommerce.Effect.{
  Env, M, Result, ok, err, pure, lift, stmt, ciphertext_too_short, decrypt_failed,
}

-- `cipher.NewGCM` takes the standard nonce.
abbrev pub nonce_size : ℕ
nonce_size = 12

-- `Encryptor.Encrypt`: no ciphertext for an empty text. Reading the nonce may fail.
unfoldable pub encrypt : Text → M Bytes
encrypt [] = pure []
encrypt (c ∷ text) = stmt (λ env t db. (ok (env.nonce t ++ env.seal (env.nonce t) (c ∷ text)), db))

opened : Option Bytes → Result Text
opened none = err decrypt_failed
opened (some plain) = ok plain

open_ciphertext : Env → Bytes → Result Text
unfolding opened
open_ciphertext env bytes =
    if ltb (length bytes) nonce_size
    then err ciphertext_too_short
    else opened (env.open_sealed (take nonce_size bytes) (drop nonce_size bytes))

-- `Encryptor.Decrypt`, as a function of the cipher.
unfoldable pub decrypt_bytes : Env → Bytes → Result Text
unfolding open_ciphertext
decrypt_bytes env [] = ok []
decrypt_bytes env (b ∷ bytes) = open_ciphertext env (b ∷ bytes)

unfoldable pub decrypt : Bytes → M Text
decrypt bytes env w = lift (decrypt_bytes env bytes) env w
