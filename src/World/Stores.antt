-- ===== src/World/Stores.antt =====
-- The repositories' ports as modules/auth/adapter/out/file_*_repository.go and user_repository.go
-- implement them, on tables of rows. A lookup and a write are one call of the store each.
pub mod Rows
use hexagonal_backend.Common.{
  ℕ, ◌+◌, String, Bool, true, false, ◌&&◌, ◌||◌, not, Option, none, some, List, [], ◌∷◌,
  if◌then◌else◌, is_some,
}
use hexagonal_backend.Common.Text.{str_eq}
use hexagonal_backend.Common.Time.{Time, before}
use hexagonal_backend.Common.Result.{Result, ok, err}
use hexagonal_backend.Entity.Types.{User, RefreshToken, Grant, Client}
use hexagonal_backend.Env.{Env}
use hexagonal_backend.Errors.{not_found, conflict}
use hexagonal_backend.World.{World}
use hexagonal_backend.World.Monad.{
  when◌then◌else◌, M, pure, raise, raise_if, asks, gets, modify, ◌>>=◌, ◌>>◌, now, store_call,
}

module _ {A : Type 0} where
  -- FindByField: the first row that fits.
  unfoldable pub find_row : (A → Bool) → List A → Option A
  find_row test [] = none
  find_row test (x ∷ rows) = if test x then some x else find_row test rows

  -- r.items[id] = item
  unfoldable pub upsert : (A → String) → A → List A → List A
  upsert id x [] = x ∷ []
  upsert id x (y ∷ rows) = if str_eq (id y) (id x) then x ∷ rows else y ∷ upsert id x rows

  abbrev pub or_not_found : Option A → M A
  or_not_found none = raise not_found
  or_not_found (some x) = pure x

abbrev pub optional_is : String → Option String → Bool
optional_is value none = false
optional_is value (some v) = str_eq v value

-- FindByEmail
unfoldable pub find_user_by_email : String → String → M User
unfolding find_row
find_user_by_email tenant_id email = do
  store_call
  found ← gets (λ w. find_row (λ u. str_eq u.email email) w.users)
  user ← or_not_found found
  raise_if (not (str_eq user.tenant_id tenant_id)) not_found
  pure user

-- UserRepository.FindByID
unfoldable pub find_user_by_id : String → M User
unfolding find_row
find_user_by_id id = do
  store_call
  found ← gets (λ w. find_row (λ u. str_eq u.id id) w.users)
  or_not_found found

-- UserRepository.Save
unfoldable pub save_user : User → M (Unit {0})
unfolding upsert
save_user user = do store_call; modify λ w. record w { users = upsert (λ u. u.id) user w.users }

-- CreateUser, by CreateIfFieldNotExists on the email
unfoldable pub create_user_row : User → M (Unit {0})
unfolding find_row save_user
create_user_row user = do
  store_call
  found ← gets (λ w. find_row (λ u. str_eq u.email user.email) w.users)
  raise_if (is_some found) conflict
  save_user user

-- UpdateByPasswordResetTokenHash, by UpdateByField
unfoldable pub update_user_by_reset_hash : {A : Type 0} → String → (User → M (User × A)) → M A
unfolding find_row save_user
update_user_by_reset_hash token_hash update = do
  store_call
  found ← gets (λ w. find_row (λ u. optional_is token_hash u.password_reset_token_hash) w.users)
  user ← or_not_found found
  (user', a) ← update user
  save_user user'
  pure a

-- RefreshTokenRepository.Save
unfoldable pub save_token : RefreshToken → M (Unit {0})
unfolding upsert
save_token rt = do store_call; modify λ w. record w { tokens = upsert (λ t. t.id) rt w.tokens }

-- FindByTokenHash
unfoldable pub find_token_by_hash : String → M RefreshToken
unfolding find_row
find_token_by_hash token_hash = do
  store_call
  found ← gets (λ w. find_row (λ t. str_eq t.token_hash token_hash) w.tokens)
  or_not_found found

-- The update of RevokeByTokenHash: a revoked or expired row is not found.
revoke_row : RefreshToken → M RefreshToken
revoke_row rt = elim rt.revoked_at [
  | some _ ↦ raise not_found
  | none ↦ do
    t ← now
    raise_if (before rt.expires_at t) not_found
    t' ← now
    pure (record rt { revoked_at = some t' })
]

-- RevokeByTokenHash
unfoldable pub revoke_token_by_hash : String → M (Unit {0})
unfolding find_row revoke_row save_token
revoke_token_by_hash token_hash = do
  store_call
  found ← gets (λ w. find_row (λ t. str_eq t.token_hash token_hash) w.tokens)
  rt ← or_not_found found
  revoked ← revoke_row rt
  save_token revoked

-- The loop of UpdateAll: each row that it changes reads the clock.
unfoldable pub revoke_rows :
    Env → (RefreshToken → Bool) → ℕ → List RefreshToken → List RefreshToken × ℕ
revoke_rows env test tick [] = ([], tick)
revoke_rows env test tick (rt ∷ rows) =
    let changed = test rt && not (is_some rt.revoked_at) in
    let (rows', tick') = revoke_rows env test (if changed then tick + 1 else tick) rows in
    ((if changed then record rt { revoked_at = some (env.time tick) } else rt) ∷ rows', tick')

revoke_all : (RefreshToken → Bool) → M (Unit {0})
revoke_all test env w = elim (env.fault w.calls) [
  | true ↦ store_call env w
  | false ↦
      let (rows, tick) = revoke_rows env test w.ticks w.tokens in
      (ok tt, record w { tokens = rows; ticks = tick; calls = w.calls + 1 })
]

-- RevokeAllForUser
unfoldable pub revoke_all_for_user : String → M (Unit {0})
unfolding revoke_all revoke_rows
revoke_all_for_user user_id = revoke_all (λ rt. str_eq rt.user_id user_id)

-- RevokeAllForGrant
unfoldable pub revoke_all_for_grant : String → M (Unit {0})
unfolding revoke_all revoke_rows
revoke_all_for_grant grant_id = revoke_all (λ rt. str_eq rt.grant_id grant_id)

-- GrantRepository.Save
unfoldable pub save_grant : Grant → M (Unit {0})
unfolding upsert
save_grant grant = do
  store_call
  modify λ w. record w { grants = upsert (λ g. g.id) grant w.grants }

-- GrantRepository.FindByID
unfoldable pub find_grant : String → M Grant
unfolding find_row
find_grant grant_id = do
  store_call
  found ← gets (λ w. find_row (λ g. str_eq g.id grant_id) w.grants)
  or_not_found found

-- GrantRepository.Revoke
unfoldable pub revoke_grant_row : String → Time → M (Unit {0})
unfolding find_grant save_grant
revoke_grant_row grant_id at = do
  grant ← find_grant grant_id
  raise_if (is_some grant.revoked_at) not_found
  save_grant (record grant { revoked_at = some at })

-- ConfigClientRegistry: a later client of the same tenant and id replaces an earlier one.
unfoldable pub find_client : String → String → List Client → Option Client
find_client tenant_id id [] = none
find_client tenant_id id (c ∷ rest) =
    let later = find_client tenant_id id rest in
    if is_some later
    then later
    else if str_eq c.tenant_id tenant_id && str_eq c.id id
    then some c
    else none

-- NoopUnitOfWork.Do, which the file store is wired with: what was written stays written.
unfoldable pub do_in_transaction : {A : Type 0} → M A → M A
do_in_transaction m = m
