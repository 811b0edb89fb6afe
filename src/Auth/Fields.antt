-- ===== src/Auth/Fields.antt =====
-- Encrypted text columns (`encField` and `decField` of internal/auth/repository.go) and the
-- encodings of encoding/hex and encoding/base32.
use stora_ecommerce.Prelude.{
  ℕ, ◌+◌, ◌-◌, ◌*◌, Option, none, some, List, [], ◌∷◌, ◌++◌, ◌&&◌, leb, ltb, if◌then◌else◌,
}
use Prim.Native.Nat.{◌/◌, ◌%◌}
use stora_ecommerce.Schema.{Text, Bytes}
use stora_ecommerce.Effect.{Env, Result, ok, err, M, pure, ◌>>=◌, bad_hex}
use stora_ecommerce.Crypto.{encrypt, decrypt_bytes}

abbrev pub hex_digit : ℕ → ℕ
hex_digit n = if ltb n 10 then b'0' + n else b'a' + (n - 10)

-- `hex.EncodeToString`
unfoldable pub to_hex : Bytes → Text
to_hex [] = []
to_hex (b ∷ bytes) = hex_digit (b / 16) ∷ hex_digit (b % 16) ∷ to_hex bytes

abbrev pub hex_value : ℕ → Option ℕ
hex_value c =
    if leb b'0' c && leb c b'9'
    then some (c - b'0')
    else if leb b'a' c && leb c b'f'
    then some (c - b'a' + 10)
    else if leb b'A' c && leb c b'F'
    then some (c - b'A' + 10)
    else none

abbrev pub with_byte : Option ℕ → Option ℕ → Option Bytes → Option Bytes
with_byte (some hi) (some lo) (some bytes) = some ((hi * 16 + lo) ∷ bytes)
with_byte (some hi) (some lo) none = none
with_byte (some hi) none rest = none
with_byte none lo rest = none

-- `hex.DecodeString`
unfoldable pub from_hex : Text → Option Bytes
from_hex [] = some []
from_hex (c ∷ []) = none
from_hex (c ∷ d ∷ text) = with_byte (hex_value c) (hex_value d) (from_hex text)

unfoldable pub enc_field : Text → M Bytes
enc_field [] = pure []
enc_field (c ∷ text) = do ct ← encrypt (c ∷ text); pure (to_hex ct)

abbrev pub decrypt_hex : Env → Option Bytes → Result Text
decrypt_hex env none = err bad_hex
decrypt_hex env (some ct) = decrypt_bytes env ct

unfoldable pub dec_field : Env → Bytes → Result Text
dec_field env [] = ok []
dec_field env (c ∷ text) = decrypt_hex env (from_hex (c ∷ text))

-- `base32.StdEncoding.WithPadding(base32.NoPadding).EncodeToString`
abbrev bits_of : ℕ → List ℕ
bits_of b =
    b / 128 % 2
    ∷ b / 64 % 2
    ∷ b / 32 % 2
    ∷ b / 16 % 2
    ∷ b / 8 % 2
    ∷ b / 4 % 2
    ∷ b / 2 % 2
    ∷ b % 2
    ∷ []

bits : Bytes → List ℕ
bits [] = []
bits (b ∷ bytes) = bits_of b ++ bits bytes

abbrev base32_digit : ℕ → ℕ
base32_digit n = if ltb n 26 then b'A' + n else b'2' + (n - 26)

quintets : List ℕ → Text
quintets [] = []
quintets (a ∷ []) = base32_digit (a * 16) ∷ []
quintets (a ∷ b ∷ []) = base32_digit (a * 16 + b * 8) ∷ []
quintets (a ∷ b ∷ c ∷ []) = base32_digit (a * 16 + b * 8 + c * 4) ∷ []
quintets (a ∷ b ∷ c ∷ d ∷ []) = base32_digit (a * 16 + b * 8 + c * 4 + d * 2) ∷ []
quintets (a ∷ b ∷ c ∷ d ∷ e ∷ rest) =
    base32_digit (a * 16 + b * 8 + c * 4 + d * 2 + e) ∷ quintets rest

unfoldable pub to_base32 : Bytes → Text
unfolding bits quintets
to_base32 bytes = quintets (bits bytes)
