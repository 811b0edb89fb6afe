-- ===== src/Address/Tidy.antt =====
-- The operations of internal/address/service.go and the default address of a user.
use stora_ecommerce.Prelude.{
  ℕ, ◌+◌, ◌≤◌, ◌≡◌, refl, ⊤, Bool, true, false, ◌&&◌, ◌||◌, List, [], ◌∷◌, ◌++◌, ◌==◌, count_where,
  any_where, update_where, Bool-cases, inl, inr, arith, if◌then◌else◌,
}
use stora_ecommerce.Schema.{AddressRow, SavedAddress, Db}
use stora_ecommerce.Effect.{Env, ok, pure, ◌>>◌, stmt}
use stora_ecommerce.Effect.Rely.{IsStep, Body, Body-bind, Body-stmt, Body-silent, Ends}
use stora_ecommerce.Address.{
  AddressRequest, of_user, is_mine, unset, clear_defaults, clear_if, insert_row, new_row,
  insert_address, create_tx, rewrite, update_row, update_tx, choose, set_default_tx,
}
use stora_ecommerce.Address.Defaults.{
  defaults, is_default_of, with_id, with_id-update, count-append, defaults-clear, defaults-cleared,
  defaults-choose, defaults-rewrite, with_id-fresh,
}

-- Ids are unique, and no user has two default addresses.
pub record IsTidy (rows : List SavedAddress) : Type 0 where
  pub unique : (id : ℕ) → with_id id rows ≤ 1
  pub one : (user : ℕ) → defaults user rows ≤ 1

-- A step that keeps the table tidy.
abbrev pub KeepsTidy : Db → Db → Type 0
KeepsTidy a b = IsTidy a.saved_addresses → IsTidy b.saved_addresses

pub KeepsTidy-IsStep : IsStep KeepsTidy
KeepsTidy-IsStep = record { stay = λ a t. t; join = λ a b c f g t. g (f t) }

-- The user has no default address, where a new one is about to be made.
abbrev Ready : Bool → ℕ → Db → Type 0
Ready true user db = defaults user db.saved_addresses ≡ 0
Ready false user db = ⊤

clear-IsTidy :
    (user : ℕ) (rows : List SavedAddress)
    → IsTidy rows
    → IsTidy (update_where (of_user user) unset rows)
clear-IsTidy user rows t = record {
  unique = λ id. rw (with_id-update id (of_user user) unset rows (λ a. refl)) (t.unique id);
  one = λ v. omega (arith, defaults-clear user v rows, t.one v);
}

insert-IsTidy :
    (env : Env) (t user : ℕ) (req : AddressRequest) (fields : AddressRow) (default : Bool) (db : Db)
    → any_where (λ b. b.id == env.default_id t) db.saved_addresses ≡ false
    → Ready default user db
    → IsTidy db.saved_addresses
    → IsTidy (db.saved_addresses ++ new_row env t user req fields default ∷ [])
insert-IsTidy env t user req fields default db free ready tidy = record {
  unique = λ id. ground (
    arith,
    count-append (λ a. a.id == id) db.saved_addresses (new_row env t user req fields default),
    with_id-fresh id db.saved_addresses,
    tidy.unique id,
  );
  one = λ v. one_of v default ready;
}
  where
    one_of :
        (v : ℕ) (d : Bool)
        → Ready d user db
        → defaults v (db.saved_addresses ++ new_row env t user req fields d ∷ []) ≤ 1
    one_of v true r = ground (
      arith,
      count-append (is_default_of v) db.saved_addresses (new_row env t user req fields true),
      tidy.one v,
    )
    one_of v false r = ground (
      arith,
      count-append (is_default_of v) db.saved_addresses (new_row env t user req fields false),
      tidy.one v,
    )

clear_defaults-Body :
    (user : ℕ) → Body KeepsTidy (λ _. ⊤) (clear_defaults user) (λ _. Ready true user)
unfolding clear_defaults
clear_defaults-Body user =
    Body-stmt KeepsTidy-IsStep (λ _. Ready true user)
      (λ env t db. (
        ok tt,
        record db { saved_addresses = update_where (of_user user) unset db.saved_addresses },
      ))
      (λ env t db p.
        (clear-IsTidy user db.saved_addresses, defaults-cleared user db.saved_addresses))

clear_if-Body :
    (b : Bool) (user : ℕ) → Body KeepsTidy (λ _. ⊤) (clear_if b user) (λ _. Ready b user)
clear_if-Body true user = clear_defaults-Body user
clear_if-Body false user = Body-silent KeepsTidy-IsStep (pure tt) (λ env w. refl)

insert_address-Body :
    (user : ℕ) (req : AddressRequest) (fields : AddressRow) (default : Bool)
    → Body KeepsTidy (Ready default user) (insert_address user req fields default) (λ _ _. ⊤)
unfolding insert_address
insert_address-Body user req fields default =
    Body-stmt KeepsTidy-IsStep (λ _ _. ⊤)
      (λ env t db. insert_row (new_row env t user req fields default) db)
      (λ env t db ready.
        elim (Bool-cases (any_where (λ b. b.id == env.default_id t) db.saved_addresses)) [
          | inl clash ↦ rw clash tt
          | inr free ↦ rw free (insert-IsTidy env t user req fields default db free ready, tt)
        ])

pub create_tx-Body :
    (user : ℕ) (req : AddressRequest) (fields : AddressRow)
    → Body KeepsTidy (λ _. ⊤) (create_tx user req fields) (λ _ _. ⊤)
unfolding create_tx
create_tx-Body user req fields =
    Body-bind KeepsTidy-IsStep (λ _ _. ⊤)
      (stmt (λ env t db. (ok (count_where (of_user user) db.saved_addresses), db)))
      (λ count.
        clear_if (req.is_default || count == 0) user
        >> insert_address user req fields (req.is_default || count == 0))
      (Body-stmt KeepsTidy-IsStep (λ _ _. ⊤)
        (λ env t db. (ok (count_where (of_user user) db.saved_addresses), db))
        (λ env t db p. (λ tidy. tidy, tt)))
      (λ count.
        Body-bind KeepsTidy-IsStep (λ _. Ready (req.is_default || count == 0) user)
          (clear_if (req.is_default || count == 0) user)
          (λ _. insert_address user req fields (req.is_default || count == 0))
          (clear_if-Body (req.is_default || count == 0) user)
          (λ _. insert_address-Body user req fields (req.is_default || count == 0)))

-- An update of one row that adds a default only where there is none.
update_row-Ends :
    (b : Bool) (id user : ℕ) (f : SavedAddress → SavedAddress) (db : Db)
    → Ready b user db
    → ((a : SavedAddress) → (f a).id ≡ a.id)
    → ((v : ℕ)
        → defaults v (update_where (is_mine id user) f db.saved_addresses)
          ≤ defaults v db.saved_addresses
            + (if b && v == user then with_id id db.saved_addresses else 0))
    → Ends (λ _ d. KeepsTidy db d × ⊤) (update_row id user f db).0 (update_row id user f db).1
update_row-Ends b id user f db ready same grows =
    elim (Bool-cases (any_where (is_mine id user) db.saved_addresses)) [
      | inr gone ↦ rw gone tt
      | inl there ↦ rw there (
        λ tidy. record {
          unique = λ k.
              rw (with_id-update k (is_mine id user) f db.saved_addresses same) (tidy.unique k);
          one = λ v. one_of b ready v (grows v) (tidy.unique id) (tidy.one v);
        },
        tt,
      )
    ]
  where
    one_of :
        (b : Bool)
        → Ready b user db
        → (v : ℕ)
        → defaults v (update_where (is_mine id user) f db.saved_addresses)
          ≤ defaults v db.saved_addresses
            + (if b && v == user then with_id id db.saved_addresses else 0)
        → with_id id db.saved_addresses ≤ 1
        → defaults v db.saved_addresses ≤ 1
        → defaults v (update_where (is_mine id user) f db.saved_addresses) ≤ 1
    one_of true r v g u o = ground arith
    one_of false r v g u o = ground arith

pub update_tx-Body :
    (user id : ℕ) (req : AddressRequest) (fields : AddressRow)
    → Body KeepsTidy (λ _. ⊤) (update_tx user id req fields) (λ _ _. ⊤)
unfolding update_tx
update_tx-Body user id req fields =
    Body-bind KeepsTidy-IsStep (λ _. Ready req.is_default user) (clear_if req.is_default user)
      (λ _. stmt (λ env t db. update_row id user (rewrite req fields) db))
      (clear_if-Body req.is_default user)
      (λ _.
        Body-stmt KeepsTidy-IsStep (λ _ _. ⊤)
          (λ env t db. update_row id user (rewrite req fields) db)
          (λ env t db ready.
            update_row-Ends req.is_default id user (rewrite req fields) db ready (λ a. refl)
              (λ v. defaults-rewrite req fields id user v db.saved_addresses)))

pub set_default_tx-Body :
    (user id : ℕ) → Body KeepsTidy (λ _. ⊤) (set_default_tx user id) (λ _ _. ⊤)
unfolding set_default_tx
set_default_tx-Body user id =
    Body-bind KeepsTidy-IsStep (λ _. Ready true user) (clear_defaults user)
      (λ _. stmt (λ env t db. update_row id user choose db)) (clear_defaults-Body user)
      (λ _.
        Body-stmt KeepsTidy-IsStep (λ _ _. ⊤) (λ env t db. update_row id user choose db)
          (λ env t db ready.
            update_row-Ends true id user choose db ready (λ a. refl)
              (λ v. defaults-choose id user v db.saved_addresses)))
