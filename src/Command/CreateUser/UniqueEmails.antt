-- ===== src/Command/CreateUser/UniqueEmails.antt =====
-- No two users have the same email.
use hexagonal_backend.Common.{
  ◌≡◌, refl, String, Bool, true, false, not, ◌&&◌, is_some, List, [], ◌∷◌, arith, eq_iff,
}
use hexagonal_backend.Common.Text.{str_eq}
use hexagonal_backend.Common.Result.{Result}
use hexagonal_backend.Entity.Types.{User, UserArgs}
use hexagonal_backend.Entity.User.{new_user}
use hexagonal_backend.World.{World}
use hexagonal_backend.World.Monad.{now, lift, new_uuid, hash_password}
use hexagonal_backend.World.Rules.{Keeps, keeps}
use hexagonal_backend.World.Stores.{find_row, upsert, create_user_row, save_user}
use hexagonal_backend.Command.CreateUser.{Command, execute, store_user}

-- No row has the email.
unfoldable pub is_free : String → List User → Bool
is_free email [] = true
is_free email (u ∷ users) = not (str_eq u.email email) && is_free email users

-- Each row's email is not used by a later one.
unfoldable pub emails_unique : List User → Bool
unfolding is_free
emails_unique [] = true
emails_unique (u ∷ users) = is_free u.email users && emails_unique users

find-is_free :
    (email : String) (users : List User)
    → is_some (find_row (λ u. str_eq u.email email) users) ≡ false
    → is_free email users ≡ true
unfolding find_row is_free
find-is_free email [] h = refl
find-is_free email (u ∷ users) h = ground (arith, h, find-is_free email users)

upsert-is_free :
    (email : String) (v : User) (users : List User)
    → is_free email users ≡ true
    → str_eq v.email email ≡ false
    → is_free email (upsert (λ u. u.id) v users) ≡ true
unfolding upsert is_free
upsert-is_free email v [] h n = ground (arith, n)
upsert-is_free email v (u ∷ users) h n =
    ground (arith, h, n, upsert-is_free email v users, eq_iff u.id v.id)

is_free-head :
    (u v : User) (users : List User)
    → is_free v.email (u ∷ users) ≡ true
    → str_eq v.email u.email ≡ false
unfolding is_free
is_free-head u v users h = ground (arith, h, eq_iff u.email v.email, eq_iff v.email u.email)

upsert-emails_unique :
    (v : User) (users : List User)
    → emails_unique users ≡ true
    → is_free v.email users ≡ true
    → emails_unique (upsert (λ u. u.id) v users) ≡ true
unfolding upsert emails_unique is_free
upsert-emails_unique v [] h f = refl
upsert-emails_unique v (u ∷ users) h f = ground (
  arith,
  h,
  f,
  upsert-emails_unique v users,
  eq_iff u.id v.id,
  is_free-head u v users f,
  upsert-is_free u.email v users,
)

-- The invariant of the table of users.
abbrev pub EmailsUnique : World → Type 0
EmailsUnique w = emails_unique w.users ≡ true

lift-Keeps : {A : Type 0} (r : Result A) → Keeps EmailsUnique (lift r)
lift-Keeps r = record { kept = λ _ _ i. i }

now-Keeps : Keeps EmailsUnique now
now-Keeps = record { kept = λ _ _ i. i }

new_uuid-Keeps : Keeps EmailsUnique new_uuid
new_uuid-Keeps = record { kept = λ _ _ i. i }

hash_password-Keeps : (p : String) → Keeps EmailsUnique (hash_password p)
hash_password-Keeps p = record { kept = λ _ _ i. i }

new_user-Keeps : (args : UserArgs) → Keeps EmailsUnique (new_user args)
unfolding new_user
new_user-Keeps args =
    search (keeps, lift-Keeps, now-Keeps, new_uuid-Keeps, hash_password-Keeps) depth 12

create_user_row-Keeps : (user : User) → Keeps EmailsUnique (create_user_row user)
unfolding create_user_row save_user
create_user_row-Keeps user = record {
  kept = λ env w i.
      ground (arith, i, upsert-emails_unique user w.users i, find-is_free user.email w.users);
}

store_user-Keeps : (user : User) → Keeps EmailsUnique (store_user user)
unfolding store_user
store_user-Keeps user = search (keeps, create_user_row-Keeps)

-- A registration, whether it is answered or refused, leaves the emails of the users distinct.
pub create_user-EmailsUnique : (c : Command) → Keeps EmailsUnique (execute c)
unfolding execute
create_user-EmailsUnique c = search (keeps, new_user-Keeps, store_user-Keeps)
