-- ===== src/Address.antt =====
-- Saved addresses (internal/address/service.go, internal/address/repository.go). The validator is an
-- argument.
pub mod Defaults
pub mod Tidy
pub mod Requests
use stora_ecommerce.Prelude.{
  ℕ, ⊤, Bool, true, false, not, ◌&&◌, ◌||◌, Option, none, some, List, [], ◌∷◌, ◌++◌, ◌==◌, ltb,
  count_where, find_where, any_where, update_where, delete_where, if◌then◌else◌,
}
use stora_ecommerce.Schema.{Text, Bytes, AddressRow, SavedAddress, Db}
use stora_ecommerce.Effect.{
  Env, Result, ok, err, M, pure, ◌>>=◌, ◌>>◌, raise_if, stmt, query, with_tx, rows_seen, infra,
  validation, address_not_found,
}
use stora_ecommerce.Strings.{trim_space, to_upper}
use stora_ecommerce.Crypto.{decrypt_bytes}
use stora_ecommerce.Orders.Model.{ShippingAddress, encrypt_address}

pub record AddressRequest : Type 0 where
  pub label : Text
  pub fields : ShippingAddress
  pub is_default : Bool

pub record Address : Type 0 where
  pub id : ℕ
  pub label : Option Text
  pub fields : ShippingAddress
  pub is_default : Bool
  pub created_at : ℕ

unfoldable pub normalize : AddressRequest → AddressRequest
normalize req = record {
  label = trim_space req.label;
  fields = record {
    recipient_name = trim_space req.fields.recipient_name;
    line1 = trim_space req.fields.line1;
    line2 = trim_space req.fields.line2;
    city = trim_space req.fields.city;
    region = trim_space req.fields.region;
    postal_code = trim_space req.fields.postal_code;
    country = to_upper (trim_space req.fields.country);
  };
  is_default = req.is_default;
}

-- `nullableLabel`
abbrev pub nullable_label : Text → Option Text
nullable_label [] = none
nullable_label (c ∷ label) = some (c ∷ label)

-- What cannot be decrypted reads as empty.
abbrev pub or_empty : Result Text → Text
or_empty (ok text) = text
or_empty (err e) = []

abbrev pub dec : Env → Bytes → Text
dec env bytes = or_empty (decrypt_bytes env bytes)

-- `scan`
unfoldable pub scan : Env → SavedAddress → Address
scan env a = record {
  id = a.id;
  label = a.label;
  fields = record {
    recipient_name = dec env a.fields.recipient_name_enc;
    line1 = dec env a.fields.line1_enc;
    line2 = dec env a.fields.line2_enc;
    city = dec env a.fields.city_enc;
    region = dec env a.fields.region_enc;
    postal_code = dec env a.fields.postal_code_enc;
    country = dec env a.fields.country_enc;
  };
  is_default = a.is_default;
  created_at = a.created_at;
}

abbrev pub of_user : ℕ → SavedAddress → Bool
of_user user a = a.user_id == user

abbrev pub is_mine : ℕ → ℕ → SavedAddress → Bool
is_mine id user a = a.id == id && a.user_id == user

abbrev pub scanned : Env → Option SavedAddress → Result Address
scanned env none = err address_not_found
scanned env (some a) = ok (scan env a)

unfoldable pub get_one : ℕ → ℕ → M Address
get_one user id =
    query (λ env t db. (scanned env (find_where (is_mine id user) db.saved_addresses), db))

-- `UPDATE saved_addresses SET is_default = false WHERE user_id`
abbrev pub unset : SavedAddress → SavedAddress
unset a = record a { is_default = false }

unfoldable pub clear_defaults : ℕ → M ⊤
clear_defaults user = stmt (λ env t db.
    (ok tt, record db { saved_addresses = update_where (of_user user) unset db.saved_addresses }))

abbrev pub clear_if : Bool → ℕ → M ⊤
clear_if b user = if b then clear_defaults user else pure tt

-- `INSERT INTO saved_addresses`, under the primary key.
abbrev pub insert_row : SavedAddress → Db → Result ℕ × Db
insert_row a db =
    if any_where (λ b. b.id == a.id) db.saved_addresses
    then (err infra, db)
    else (ok a.id, record db { saved_addresses = db.saved_addresses ++ a ∷ [] })

abbrev pub new_row : Env → ℕ → ℕ → AddressRequest → AddressRow → Bool → SavedAddress
new_row env t user req fields default = record {
  id = env.default_id t;
  user_id = user;
  label = nullable_label req.label;
  fields = fields;
  is_default = default;
  created_at = env.now t;
}

unfoldable pub insert_address : ℕ → AddressRequest → AddressRow → Bool → M ℕ
insert_address user req fields default =
    stmt (λ env t db. insert_row (new_row env t user req fields default) db)

unfoldable pub create_tx : ℕ → AddressRequest → AddressRow → M ℕ
create_tx user req fields = do
  count ← stmt (λ env t db. (ok (count_where (of_user user) db.saved_addresses), db))
  clear_if (req.is_default || count == 0) user
  insert_address user req fields (req.is_default || count == 0)

unfoldable pub create : (AddressRequest → Bool) → ℕ → AddressRequest → M Address
create valid user raw = do
  let req = normalize raw
  raise_if (not (valid req)) validation
  fields ← encrypt_address req.fields
  id ← with_tx (create_tx user req fields)
  get_one user id

abbrev pub rewrite : AddressRequest → AddressRow → SavedAddress → SavedAddress
rewrite req fields a = record a {
  label = nullable_label req.label;
  fields = fields;
  is_default = a.is_default || req.is_default;
}

-- An `UPDATE ... WHERE id AND user_id`; no row is an error.
abbrev pub update_row : ℕ → ℕ → (SavedAddress → SavedAddress) → Db → Result ⊤ × Db
update_row id user f db =
    if any_where (is_mine id user) db.saved_addresses
    then (
      ok tt,
      record db { saved_addresses = update_where (is_mine id user) f db.saved_addresses },
    )
    else (err address_not_found, db)

unfoldable pub update_tx : ℕ → ℕ → AddressRequest → AddressRow → M ⊤
update_tx user id req fields = do
  clear_if req.is_default user
  stmt (λ env t db. update_row id user (rewrite req fields) db)

unfoldable pub update : (AddressRequest → Bool) → ℕ → ℕ → AddressRequest → M Address
update valid user id raw = do
  let req = normalize raw
  raise_if (not (valid req)) validation
  fields ← encrypt_address req.fields
  with_tx (update_tx user id req fields)
  get_one user id

abbrev pub choose : SavedAddress → SavedAddress
choose a = record a { is_default = true }

unfoldable pub set_default_tx : ℕ → ℕ → M ⊤
set_default_tx user id = do clear_defaults user; stmt (λ env t db. update_row id user choose db)

unfoldable pub set_default : ℕ → ℕ → M ⊤
set_default user id = with_tx (set_default_tx user id)

abbrev pub delete_row : ℕ → ℕ → Db → Result ⊤ × Db
delete_row id user db =
    if any_where (is_mine id user) db.saved_addresses
    then (ok tt, record db { saved_addresses = delete_where (is_mine id user) db.saved_addresses })
    else (err address_not_found, db)

unfoldable pub delete : ℕ → ℕ → M ⊤
delete user id = query (λ env t db. delete_row id user db)

-- `ORDER BY is_default DESC, created_at DESC`
abbrev pub comes_before : SavedAddress → SavedAddress → Bool
comes_before a b =
    if a.is_default
    then (if b.is_default then ltb b.created_at a.created_at else true)
    else (if b.is_default then false else ltb b.created_at a.created_at)

unfoldable pub insert_sorted : SavedAddress → List SavedAddress → List SavedAddress
insert_sorted a [] = a ∷ []
insert_sorted a (b ∷ rest) = if comes_before b a then b ∷ insert_sorted a rest else a ∷ b ∷ rest

unfoldable pub listed : ℕ → List SavedAddress → List SavedAddress
unfolding insert_sorted
listed user [] = []
listed user (a ∷ rows) =
    let rest = listed user rows in if of_user user a then insert_sorted a rest else rest

unfoldable pub scan_each : Env → List SavedAddress → List Address
unfolding scan
scan_each env [] = []
scan_each env (a ∷ rows) = scan env a ∷ scan_each env rows

-- The rows that came, unless `rows.Err()` reports that some did not.
abbrev pub whole : Option ℕ → List Address → Result (List Address)
whole none rows = ok rows
whole (some n) rows = err infra

unfoldable pub list : ℕ → M (List Address)
list user = query (λ env t db. (
  whole (env.cut t) (scan_each env (rows_seen (env.cut t) (listed user db.saved_addresses))),
  db,
))
