-- ===== src/Command/RefreshToken/Extension.antt =====
-- Extending a grant leaves the table of refresh tokens alone.
use hexagonal_backend.Common.{◌≡◌, refl, String, Bool, false, none, some, Option, List}
use hexagonal_backend.Common.Time.{Time, before}
use hexagonal_backend.Entity.Grant.{is_valid}
use hexagonal_backend.Entity.Types.{RefreshToken, Grant}
use hexagonal_backend.Env.{Env}
use hexagonal_backend.World.{World}
use hexagonal_backend.World.Monad.{M, now, store_call, pure, ◌>>=◌}
use hexagonal_backend.World.Rules.{Keeps, keeps}
use hexagonal_backend.World.Stores.{save_grant, find_grant, or_not_found}
use hexagonal_backend.Command.RefreshToken.{check_and_extend_grant, or_gen_failed}

-- A property of the table of refresh tokens alone.
abbrev OnTokens : (List RefreshToken → Type 0) → World → Type 0
OnTokens Q w = Q w.tokens

module _ (Q : List RefreshToken → Type 0) where
  now-Keeps : Keeps (OnTokens Q) now
  now-Keeps = record { kept = λ _ _ i. i }

  store_call-Keeps : Keeps (OnTokens Q) store_call
  store_call-Keeps = record { kept = λ _ _ i. i }

  or_not_found-Keeps : {A : Type 0} (o : Option A) → Keeps (OnTokens Q) (or_not_found o)
  or_not_found-Keeps none = search keeps
  or_not_found-Keeps (some a) = search keeps

  ruleset leaves_tokens = (keeps, now-Keeps, store_call-Keeps, or_not_found-Keeps)

  is_valid-Keeps : (g : Grant) → Keeps (OnTokens Q) (is_valid g)
  unfolding is_valid
  is_valid-Keeps g = go g.revoked_at
    where
      go :
          (o : Option Time)
          → Keeps (OnTokens Q) (elim o as (λ _. M Bool) [
            | some _ ↦ pure false
            | none ↦ do t ← now; pure (before t g.expires_at)
          ])
      go none = search leaves_tokens
      go (some t) = search leaves_tokens

  save_grant-Keeps : (g : Grant) → Keeps (OnTokens Q) (save_grant g)
  unfolding save_grant
  save_grant-Keeps g = search leaves_tokens

  find_grant-Keeps : (id : String) → Keeps (OnTokens Q) (find_grant id)
  unfolding find_grant
  find_grant-Keeps id = search leaves_tokens

  or_gen_failed-Keeps :
      (m : M (Unit {0})) → Keeps (OnTokens Q) m → Keeps (OnTokens Q) (or_gen_failed m)
  or_gen_failed-Keeps m p = search (leaves_tokens, p)

  check_and_extend_grant-Keeps :
      (g : String) (t : Time) → Keeps (OnTokens Q) (check_and_extend_grant g t)
  unfolding check_and_extend_grant
  check_and_extend_grant-Keeps g t =
      search
        (leaves_tokens, is_valid-Keeps, save_grant-Keeps, find_grant-Keeps, or_gen_failed-Keeps)
        depth 12

pub check_and_extend_grant-tokens :
    (g : String) (t : Time) (env : Env) (w : World)
    → (check_and_extend_grant g t env w).1.tokens ≡ w.tokens
check_and_extend_grant-tokens g t env w =
    (check_and_extend_grant-Keeps (λ rows. rows ≡ w.tokens) g t).kept env w refl
