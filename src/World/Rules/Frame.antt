-- ===== src/World/Rules/Frame.antt =====
-- What leaves the cache alone: issuing tokens, and the tables of users, tokens and grants.
use hexagonal_backend.Common.{ℕ, String, Option, none, some, List}
use hexagonal_backend.Common.Time.{Time}
use hexagonal_backend.Command.ExchangeCode.{save_new_grant, save_refresh_token}
use hexagonal_backend.Entity.Grant.{new_grant}
use hexagonal_backend.Entity.Token.{new_refresh_token}
use hexagonal_backend.Entity.Types.{RefreshToken, Grant, IssuedTokens}
use hexagonal_backend.Env.{IdTokenArgs}
use hexagonal_backend.Errors.{ErrCode}
use hexagonal_backend.Service.Issuance.{
  issue_tokens, resolve_grant, issue_id_token, wrapping, IssueTokensArgs,
}
use hexagonal_backend.Service.Jwt.{gen_access_token, gen_id_token, or_unsigned}
use hexagonal_backend.World.{World, CacheItem}
use hexagonal_backend.World.Monad.{M, now, new_uuid, random_token, store_call}
use hexagonal_backend.World.Rules.{Keeps, keeps}
use hexagonal_backend.World.Stores.{save_token, save_grant, find_user_by_id, or_not_found}

module _ (P : List (String × CacheItem) → Type 0) where
  -- A property of the cache alone.
  abbrev pub OnCache : World → Type 0
  OnCache w = P w.cache

  pub now-Keeps : Keeps OnCache now
  now-Keeps = record { kept = λ _ _ i. i }

  pub new_uuid-Keeps : Keeps OnCache new_uuid
  new_uuid-Keeps = record { kept = λ _ _ i. i }

  pub random_token-Keeps : Keeps OnCache random_token
  random_token-Keeps = record { kept = λ _ _ i. i }

  pub store_call-Keeps : Keeps OnCache store_call
  store_call-Keeps = record { kept = λ _ _ i. i }

  pub or_unsigned-Keeps : (t : Option String) → Keeps OnCache (or_unsigned t)
  or_unsigned-Keeps none = search keeps
  or_unsigned-Keeps (some t) = search keeps

  pub or_not_found-Keeps : {A : Type 0} (o : Option A) → Keeps OnCache (or_not_found o)
  or_not_found-Keeps none = search keeps
  or_not_found-Keeps (some t) = search keeps

  pub ruleset reading = (
    keeps, now-Keeps, new_uuid-Keeps, random_token-Keeps, store_call-Keeps, or_unsigned-Keeps,
    or_not_found-Keeps,
  )

  pub save_token-Keeps : (rt : RefreshToken) → Keeps OnCache (save_token rt)
  unfolding save_token
  save_token-Keeps rt = search (reading)

  pub gen_access_token-Keeps : (u s g : String) (n : ℕ) → Keeps OnCache (gen_access_token u s g n)
  unfolding gen_access_token
  gen_access_token-Keeps u s g n = search reading

  pub gen_id_token-Keeps : (args : IdTokenArgs) → Keeps OnCache (gen_id_token args)
  unfolding gen_id_token
  gen_id_token-Keeps args = search reading

  pub new_grant-Keeps : (u c : String) → Keeps OnCache (new_grant u c)
  unfolding new_grant
  new_grant-Keeps u c = search reading

  pub wrapping-Keeps :
      {A : Type 0} (code : ErrCode) (m : M A) → Keeps OnCache m → Keeps OnCache (wrapping code m)
  wrapping-Keeps code m p = search (reading, p)

  pub resolve_grant-Keeps : (req : IssueTokensArgs) → Keeps OnCache (resolve_grant req)
  unfolding resolve_grant
  resolve_grant-Keeps req = search (reading, new_grant-Keeps)

  pub issue_id_token-Keeps :
      (req : IssueTokensArgs) (g : String) → Keeps OnCache (issue_id_token req g)
  unfolding issue_id_token
  issue_id_token-Keeps req g = search (reading, gen_id_token-Keeps, wrapping-Keeps)

  pub issue_tokens-Keeps : (req : IssueTokensArgs) → Keeps OnCache (issue_tokens req)
  unfolding issue_tokens
  issue_tokens-Keeps req =
      search
        (reading, resolve_grant-Keeps, issue_id_token-Keeps, wrapping-Keeps, gen_access_token-Keeps)

  pub save_grant-Keeps : (g : Grant) → Keeps OnCache (save_grant g)
  unfolding save_grant
  save_grant-Keeps g = search reading

  pub save_new_grant-Keeps : (g : Option Grant) (t : Time) → Keeps OnCache (save_new_grant g t)
  unfolding save_new_grant
  save_new_grant-Keeps none t = search reading
  save_new_grant-Keeps (some g) t = save_grant-Keeps _

  pub new_refresh_token-Keeps :
      (u c : String) (tokens : IssuedTokens) → Keeps OnCache (new_refresh_token u c tokens)
  unfolding new_refresh_token
  new_refresh_token-Keeps u c tokens = search reading

  pub save_refresh_token-Keeps :
      (u c : String) (tokens : IssuedTokens) → Keeps OnCache (save_refresh_token u c tokens)
  unfolding save_refresh_token
  save_refresh_token-Keeps u c tokens =
      search (reading, new_refresh_token-Keeps, save_new_grant-Keeps, save_token-Keeps)

  pub find_user_by_id-Keeps : (id : String) → Keeps OnCache (find_user_by_id id)
  unfolding find_user_by_id
  find_user_by_id-Keeps id = search reading

  pub ruleset leaves_cache =
      (reading, issue_tokens-Keeps, save_refresh_token-Keeps, find_user_by_id-Keeps)
