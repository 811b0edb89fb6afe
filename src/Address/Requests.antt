-- ===== src/Address/Requests.antt =====
-- The requests on saved addresses (internal/address/service.go).
use stora_ecommerce.Prelude.{ℕ, ⊤, Bool, find_where, any_where, ◌==◌, Bool-cases, inl, inr, arith}
use stora_ecommerce.Schema.{AddressRow, Db}
use stora_ecommerce.Effect.{Env, World, Err, Result, M, pure, ◌>>=◌, raise_if, query, with_tx}
use stora_ecommerce.Effect.Hoare.{Follows}
use stora_ecommerce.Effect.Moves.{
  Moves, Moves-pure, Moves-bind, Moves-raise_if, Moves-query, Moves-read, Moves-Silent,
  Moves-with_tx,
}
use stora_ecommerce.Orders.Model.{ShippingAddress, encrypt_address}
use stora_ecommerce.Orders.Silent.{Silent-encrypt_address}
use stora_ecommerce.Address.{
  AddressRequest, is_mine, scanned, get_one, create_tx, create, update_tx, update, set_default_tx,
  set_default, delete_row, delete, list,
}
use stora_ecommerce.Address.Defaults.{is_default_of, count-delete}
use stora_ecommerce.Address.Tidy.{
  IsTidy, KeepsTidy, KeepsTidy-IsStep, create_tx-Body, update_tx-Body, set_default_tx-Body,
}

pub data AddressCall : Type 0 where
  create_address : ℕ → AddressRequest → AddressCall
  update_address : ℕ → ℕ → AddressRequest → AddressCall
  delete_address set_default_address : ℕ → ℕ → AddressCall
  list_addresses : ℕ → AddressCall

unfoldable pub handle_address : (AddressRequest → Bool) → AddressCall → M ⊤
handle_address valid (create_address user req) = do a ← create valid user req; pure tt
handle_address valid (update_address user id req) = do a ← update valid user id req; pure tt
handle_address valid (delete_address user id) = delete user id
handle_address valid (set_default_address user id) = set_default user id
handle_address valid (list_addresses user) = do l ← list user; pure tt

abbrev Tidying : {A : Type 0} → M A → Type 0
Tidying m = Moves KeepsTidy m

Tidying-pure : {A : Type 0} (a : A) → Tidying (pure a)
Tidying-pure = Moves-pure KeepsTidy-IsStep

Tidying-bind :
    {A B : Type 0} (m : M A) (f : A → M B)
    → Tidying m
    → ((a : A) → Tidying (f a))
    → Tidying (m >>= f)
Tidying-bind = Moves-bind KeepsTidy-IsStep

Tidying-raise_if : (b : Bool) (e : Err) → Tidying (raise_if b e)
Tidying-raise_if = Moves-raise_if KeepsTidy-IsStep

Tidying-read :
    {A : Type 0} (f : Env → ℕ → Db → Result A) → Tidying (query (λ env t db. (f env t db, db)))
Tidying-read = Moves-read KeepsTidy-IsStep

Tidying-encrypt : (a : ShippingAddress) → Tidying (encrypt_address a)
Tidying-encrypt a = Moves-Silent KeepsTidy-IsStep (encrypt_address a) (Silent-encrypt_address a)

get_one-Tidying : (user id : ℕ) → Tidying (get_one user id)
unfolding get_one
get_one-Tidying user id =
    Tidying-read (λ env t db. scanned env (find_where (is_mine id user) db.saved_addresses))

delete_row-KeepsTidy : (id user : ℕ) (db : Db) → KeepsTidy db (delete_row id user db).1
delete_row-KeepsTidy id user db =
    elim (Bool-cases (any_where (is_mine id user) db.saved_addresses)) [
      | inr gone ↦ rw gone (λ tidy. tidy)
      | inl there ↦ rw there (λ tidy. record {
        unique = λ k. omega (
          arith,
          count-delete (λ a. a.id == k) (is_mine id user) db.saved_addresses,
          tidy.unique k,
        );
        one = λ v. omega (
          arith,
          count-delete (is_default_of v) (is_mine id user) db.saved_addresses,
          tidy.one v,
        );
      })
    ]

ruleset tidying =
    (Tidying-pure, Tidying-bind, Tidying-raise_if, Tidying-read, Tidying-encrypt, get_one-Tidying)

create_tx-Tidying :
    (user : ℕ) (req : AddressRequest) (fields : AddressRow)
    → Tidying (with_tx (create_tx user req fields))
create_tx-Tidying user req fields =
    Moves-with_tx KeepsTidy-IsStep (λ _ _. ⊤) (create_tx user req fields)
      (create_tx-Body user req fields)

update_tx-Tidying :
    (user id : ℕ) (req : AddressRequest) (fields : AddressRow)
    → Tidying (with_tx (update_tx user id req fields))
update_tx-Tidying user id req fields =
    Moves-with_tx KeepsTidy-IsStep (λ _ _. ⊤) (update_tx user id req fields)
      (update_tx-Body user id req fields)

create-Tidying :
    (valid : AddressRequest → Bool) (user : ℕ) (req : AddressRequest)
    → Tidying (create valid user req)
unfolding create
create-Tidying valid user req = search (tidying, create_tx-Tidying) depth 10

update-Tidying :
    (valid : AddressRequest → Bool) (user id : ℕ) (req : AddressRequest)
    → Tidying (update valid user id req)
unfolding update
update-Tidying valid user id req = search (tidying, update_tx-Tidying) depth 10

handle_address-Tidying :
    (valid : AddressRequest → Bool) (call : AddressCall) → Tidying (handle_address valid call)
unfolding handle_address set_default delete list
handle_address-Tidying valid (create_address user req) = search (tidying, create-Tidying)
handle_address-Tidying valid (update_address user id req) = search (tidying, update-Tidying)
handle_address-Tidying valid (delete_address user id) =
    Moves-query KeepsTidy-IsStep (λ env t db. delete_row id user db)
      (λ env t db. delete_row-KeepsTidy id user db)
handle_address-Tidying valid (set_default_address user id) =
    Moves-with_tx KeepsTidy-IsStep (λ _ _. ⊤) (set_default_tx user id) (set_default_tx-Body user id)
handle_address-Tidying valid (list_addresses user) = search tidying

-- With unique ids and at most one default address for every user, and other requests that keep it
-- so, a request on saved addresses keeps it so, whether it succeeds, fails or is rolled back; the
-- statements of a transaction are taken to run with no other request between them.
pub handle_address-IsTidy :
    (valid : AddressRequest → Bool) (call : AddressCall) (env : Env) (w : World)
    → Follows KeepsTidy env
    → IsTidy w.db.saved_addresses
    → IsTidy (handle_address valid call env w).1.db.saved_addresses
handle_address-IsTidy valid call env w follows tidy =
    (handle_address-Tidying valid call).run env w follows tidy
