-- ===== src/Crypto/Silent.antt =====
-- `Encrypt` and `Decrypt` among the actions that write no table.
use stora_ecommerce.Prelude.{◌++◌, [], ◌∷◌, refl}
use stora_ecommerce.Schema.{Text, Bytes}
use stora_ecommerce.Effect.{ok}
use stora_ecommerce.Effect.Silent.{Silent, Silent-pure, Silent-stmt}
use stora_ecommerce.Crypto.{encrypt, decrypt}

pub Silent-encrypt : (text : Text) → Silent (encrypt text)
unfolding encrypt
Silent-encrypt [] = Silent-pure []
Silent-encrypt (c ∷ text) =
    Silent-stmt (λ env t db. ok (env.nonce t ++ env.seal (env.nonce t) (c ∷ text)))

pub Silent-decrypt : (bytes : Bytes) → Silent (decrypt bytes)
unfolding decrypt
Silent-decrypt bytes = record { same = λ env w. refl }
