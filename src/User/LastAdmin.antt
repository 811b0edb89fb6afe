-- ===== src/User/LastAdmin.antt =====
-- The guard of the last administrator (`AdminSetRole` of internal/user/admin.go).
use stora_ecommerce.Prelude.{
  ℕ, ◌+◌, ◌≤◌, ◌≡◌, refl, ⊤, Bool, true, false, not, ◌==◌, Option, none, some, List, [], ◌∷◌, leb,
  find_where, any_where, count_where, update_where, Bool-cases, inl, inr, arith,
}
use mathlib.Core.Path.{subst}
use stora_ecommerce.Prelude.{◌⊎◌}
use stora_ecommerce.Schema.{Text, UserRow, Db}
use stora_ecommerce.Effect.{
  Env, World, Result, ok, err, M, Message, ◌>>=◌, ◌>>◌, raise_if, query, invalid_role, last_admin,
}
use stora_ecommerce.Effect.Rely.{Ends}
use stora_ecommerce.Effect.Quiet.{
  Quiet, Still, Still-pure, Still-raise, Still-bind, Still-read, Still-then,
}
use stora_ecommerce.Strings.{text_eq}
use stora_ecommerce.Crypto.{decrypt_bytes}
use stora_ecommerce.User.Repository.{
  User, scan_user, with_email, with_name, decrypt_name, get_user_by_id, has_role, count_by_role,
  set_role, update_role,
}
use stora_ecommerce.Auth.Service.{role_admin}
use stora_ecommerce.User.Service.{valid_role, guard_last_admin, admin_set_role}

abbrev pub admins : List UserRow → ℕ
admins users = count_where (has_role role_admin) users

abbrev pub with_id : ℕ → List UserRow → ℕ
with_id id users = count_where (λ u. u.id == id) users

abbrev has_id : ℕ → UserRow → Bool
has_id id u = u.id == id

-- Giving a role to the rows with an id takes the role of administrator from at most as many.
admins-update :
    (id : ℕ) (role : Text) (now : ℕ) (users : List UserRow)
    → admins users ≤ admins (update_where (has_id id) (set_role role now) users) + with_id id users
admins-update id role now [] = omega arith
admins-update id role now (u ∷ users) = ground (arith, admins-update id role now users)

-- Giving the role of administrator takes it from nobody.
admins-promote :
    (id : ℕ) (role : Text) (now : ℕ) (users : List UserRow)
    → text_eq role role_admin ≡ true
    → admins users ≤ admins (update_where (has_id id) (set_role role now) users)
admins-promote id role now [] h = omega arith
admins-promote id role now (u ∷ users) h = ground (arith, admins-promote id role now users h)

-- A user who is no administrator stops being none.
admins-other :
    (id : ℕ) (role : Text) (now : ℕ) (users : List UserRow) (row : UserRow)
    → with_id id users ≤ 1
    → find_where (has_id id) users ≡ some row
    → text_eq row.role role_admin ≡ false
    → admins users ≤ admins (update_where (has_id id) (set_role role now) users)
admins-other id role now [] row one found h = omega arith
admins-other id role now (u ∷ users) row one found h = elim (Bool-cases (u.id == id)) [
  | inl hit ↦ ground (arith, hit, found, admins-update id role now users)
  | inr miss ↦ ground (arith, miss, found, admins-other id role now users row)
]

-- What the guard has seen when it lets a change pass.
Passed : Text → Text → List UserRow → Type 0
Passed current role users =
    (text_eq current role_admin ≡ false) ⊎ ((text_eq role role_admin ≡ true) ⊎ (2 ≤ admins users))

Passed-other :
    (current role : Text) (users : List UserRow)
    → text_eq current role_admin ≡ false
    → Passed current role users
unfolding Passed
Passed-other current role users h = inl h

Passed-same :
    (current role : Text) (users : List UserRow)
    → text_eq role role_admin ≡ true
    → Passed current role users
unfolding Passed
Passed-same current role users h = inr (inl h)

Passed-many :
    (current role : Text) (users : List UserRow) (n : ℕ)
    → n ≡ admins users
    → leb n 1 ≡ false
    → Passed current role users
unfolding Passed
Passed-many current role users n e many = inr (inr (ground (arith, many, e)))

module _ (env : Env) (quiet : Quiet env) (db : Db) where
  Still-guard :
      (current role : Text) (out : List Message)
      → Still env db out (λ _. Passed current role db.users) (guard_last_admin current role)
  unfolding guard_last_admin count_by_role
  Still-guard current role out = elim (Bool-cases (text_eq current role_admin)) [
    | inr other ↦ rw other (
        Still-pure env quiet db out (λ _. Passed current role db.users) tt
          (Passed-other current role db.users other))
    | inl admin ↦ elim (Bool-cases (text_eq role role_admin)) [
      | inl same ↦
          rw (admin, same)
            (Still-pure env quiet db out (λ _. Passed current role db.users) tt
              (Passed-same current role db.users same))
      | inr less ↦
          rw (admin, less)
            (Still-bind env quiet db out (λ n. n ≡ admins db.users)
              (query (λ env t db. (ok (count_where (has_role role_admin) db.users), db)))
              (λ n. raise_if (leb n 1) last_admin)
              (Still-read env quiet db out (λ n. n ≡ admins db.users)
                (λ env t db. ok (count_where (has_role role_admin) db.users)) (λ t. refl))
              (λ n e. enough n e))
    ]
  ]
    where
      enough :
          (n : ℕ)
          → n ≡ admins db.users
          → Still env db out (λ _. Passed current role db.users) (raise_if (leb n 1) last_admin)
      enough n e = elim (Bool-cases (leb n 1)) [
        | inl few ↦
            rw few (Still-raise env quiet db out (λ _. Passed current role db.users) last_admin)
        | inr many ↦ rw many (
            Still-pure env quiet db out (λ _. Passed current role db.users) tt
              (Passed-many current role db.users n e many))
      ]

  -- The user that is read: its role, and what `find_where` found.
  Found : ℕ → User → Type 0
  Found id u = (row : UserRow) × (find_where (has_id id) db.users ≡ some row) × (u.role ≡ row.role)

  scan_user-Found :
      (id : ℕ) (o : Option UserRow)
      → find_where (has_id id) db.users ≡ o
      → Ends (λ u _. Found id u) (scan_user env o) db
  unfolding scan_user Found
  scan_user-Found id none e = tt
  scan_user-Found id (some row) e = named (decrypt_bytes env row.email_encrypted)
    where
      finished :
          (email : Text) (r : Result Text)
          → Ends
              (λ (u : User) _.
                (x : UserRow) × (find_where (has_id id) db.users ≡ some x) × (u.role ≡ x.role))
              (with_name row email r)
              db
      finished email (ok name) = (row, e, refl)
      finished email (err x) = tt

      named :
          (r : Result Text)
          → Ends
              (λ (u : User) _.
                (x : UserRow) × (find_where (has_id id) db.users ≡ some x) × (u.role ≡ x.role))
              (with_email env row r)
              db
      named (ok email) = finished email (decrypt_name env row.name_encrypted)
      named (err x) = tt

  Still-get_user : (id : ℕ) (out : List Message) → Still env db out (Found id) (get_user_by_id id)
  unfolding get_user_by_id
  Still-get_user id out =
      Still-read env quiet db out (Found id)
        (λ env t db. scan_user env (find_where (has_id id) db.users))
        (λ t. scan_user-Found id (find_where (has_id id) db.users) refl)

  -- The update that the guard lets pass.
  updated :
      (id : ℕ) (role : Text) (u : User) (now : ℕ)
      → with_id id db.users ≤ 1
      → 1 ≤ admins db.users
      → Found id u
      → Passed u.role role db.users
      → 1 ≤ admins (update_where (has_id id) (set_role role now) db.users)
  unfolding Found Passed
  updated id role u now one some_admin (row, found, same) (inl other) =
      let h : text_eq row.role role_admin ≡ false =
        subst (λ r. text_eq r role_admin ≡ false) same other in
      omega (arith, admins-other id role now db.users row one found h)
  updated id role u now one some_admin f (inr (inl promoted)) =
      omega (arith, admins-promote id role now db.users promoted)
  updated id role u now one some_admin f (inr (inr many)) =
      omega (arith, admins-update id role now db.users)

  update_role-admins :
      (id : ℕ) (role : Text) (u : User) (w : World)
      → with_id id db.users ≤ 1
      → 1 ≤ admins db.users
      → Found id u
      → Passed u.role role db.users
      → w.db ≡ db
      → 1 ≤ admins (update_role id role env w).1.db.users
  unfolding update_role
  update_role-admins id role u w one some_admin found passed e =
      elim (Bool-cases (env.fault w.tick)) [
        | inl failed ↦ rw (quiet.alone w.tick w.db, failed, e) some_admin
        | inr fine ↦ elim (Bool-cases (any_where (has_id id) db.users)) [
          | inl there ↦
              rw (quiet.alone w.tick w.db, fine, e, there)
                (updated id role u (env.now w.tick) one some_admin found passed)
          | inr gone ↦ rw (quiet.alone w.tick w.db, fine, e, gone) some_admin
        ]
      ]

-- While no other request is at work, and ids are unique, no change of a role takes the last
-- administrator away, whatever fails on the way.
pub admin_set_role-admins :
    (env : Env) (quiet : Quiet env) (id : ℕ) (role : Text) (w : World)
    → with_id id w.db.users ≤ 1
    → 1 ≤ admins w.db.users
    → 1 ≤ admins (admin_set_role id role env w).1.db.users
unfolding admin_set_role
admin_set_role-admins env quiet id role w one some_admin =
    Still-then env w.db (λ _. ⊤) AnAdmin (raise_if (not (valid_role role)) invalid_role)
      (λ _. get_user_by_id id >>= set_for) (λ out. Still-check out) some_admin
      (λ _ w1 _ e1.
        Still-then env w.db (Found env quiet w.db id) AnAdmin (get_user_by_id id) set_for
          (Still-get_user env quiet w.db id) some_admin
          (λ u w2 found e2.
            Still-then env w.db (λ _. Passed u.role role w.db.users) AnAdmin
              (guard_last_admin u.role role) (λ _. update_role id role)
              (Still-guard env quiet w.db u.role role) some_admin
              (λ _ w3 passed e3.
                update_role-admins env quiet w.db id role u w3 one some_admin found passed e3)
              w2 e2)
          w1 e1)
      w refl
  where
    AnAdmin : Db → Type 0
    AnAdmin db = 1 ≤ admins db.users

    set_for : User → M ⊤
    set_for u = guard_last_admin u.role role >> update_role id role

    Still-check :
        (out : List Message)
        → Still env w.db out (λ _. ⊤) (raise_if (not (valid_role role)) invalid_role)
    Still-check out = elim (Bool-cases (valid_role role)) [
      | inl valid ↦ rw valid (Still-pure env quiet w.db out (λ _. ⊤) tt tt)
      | inr unknown ↦ rw unknown (Still-raise env quiet w.db out (λ _. ⊤) invalid_role)
    ]
