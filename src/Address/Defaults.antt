-- ===== src/Address/Defaults.antt =====
-- How many default addresses a user has, under each statement of internal/address/repository.go.
use stora_ecommerce.Prelude.{
  ℕ, ◌+◌, ◌≤◌, ◌≡◌, refl, Bool, false, ◌&&◌, List, [], ◌∷◌, ◌++◌, ◌==◌, count_where, any_where,
  update_where, delete_where, Bool-cases, inl, inr, arith, if◌then◌else◌,
}
use stora_ecommerce.Schema.{AddressRow, SavedAddress}
use stora_ecommerce.Address.{AddressRequest, of_user, is_mine, unset, rewrite, choose}

abbrev pub is_default_of : ℕ → SavedAddress → Bool
is_default_of user a = a.user_id == user && a.is_default

abbrev pub defaults : ℕ → List SavedAddress → ℕ
defaults user rows = count_where (is_default_of user) rows

abbrev pub with_id : ℕ → List SavedAddress → ℕ
with_id id rows = count_where (λ a. a.id == id) rows

pub with_id-update :
    (k : ℕ) (p : SavedAddress → Bool) (f : SavedAddress → SavedAddress) (rows : List SavedAddress)
    → ((a : SavedAddress) → (f a).id ≡ a.id)
    → with_id k (update_where p f rows) ≡ with_id k rows
with_id-update k p f [] same = refl
with_id-update k p f (a ∷ rows) same = elim (Bool-cases (p a)) [
  | inl hit ↦ rw (hit, same a, with_id-update k p f rows same) refl
  | inr miss ↦ rw (miss, with_id-update k p f rows same) refl
]

pub count-append :
    (p : SavedAddress → Bool) (rows : List SavedAddress) (a : SavedAddress)
    → count_where p (rows ++ a ∷ []) ≡ count_where p rows + (if p a then 1 else 0)
count-append p [] a = omega arith
count-append p (b ∷ rows) a = omega (arith, count-append p rows a)

pub count-delete :
    (p q : SavedAddress → Bool) (rows : List SavedAddress)
    → count_where p (delete_where q rows) ≤ count_where p rows
count-delete p q [] = omega arith
count-delete p q (a ∷ rows) = ground (arith, count-delete p q rows)

pub defaults-clear :
    (user v : ℕ) (rows : List SavedAddress)
    → defaults v (update_where (of_user user) unset rows) ≤ defaults v rows
defaults-clear user v [] = omega arith
defaults-clear user v (a ∷ rows) = ground (arith, defaults-clear user v rows)

pub defaults-cleared :
    (user : ℕ) (rows : List SavedAddress)
    → defaults user (update_where (of_user user) unset rows) ≡ 0
defaults-cleared user [] = refl
defaults-cleared user (a ∷ rows) = ground (arith, defaults-cleared user rows)

-- Making the rows with an id default adds at most as many, and only to their user.
pub defaults-choose :
    (id user v : ℕ) (rows : List SavedAddress)
    → defaults v (update_where (is_mine id user) choose rows)
      ≤ defaults v rows + (if v == user then with_id id rows else 0)
defaults-choose id user v [] = omega arith
defaults-choose id user v (a ∷ rows) = ground (arith, defaults-choose id user v rows)

pub defaults-rewrite :
    (req : AddressRequest) (fields : AddressRow) (id user v : ℕ) (rows : List SavedAddress)
    → defaults v (update_where (is_mine id user) (rewrite req fields) rows)
      ≤ defaults v rows + (if req.is_default && v == user then with_id id rows else 0)
defaults-rewrite req fields id user v [] = ground arith
defaults-rewrite req fields id user v (a ∷ rows) =
    ground (arith, defaults-rewrite req fields id user v rows)

pub with_id-fresh :
    (id : ℕ) (rows : List SavedAddress)
    → any_where (λ a. a.id == id) rows ≡ false
    → with_id id rows ≡ 0
with_id-fresh id [] h = refl
with_id-fresh id (a ∷ rows) h = ground (arith, with_id-fresh id rows)
