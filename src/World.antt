-- ===== src/World.antt =====
-- The state that the use cases share: the tables of the repositories, the cache, the mails sent,
-- the revocations counter, and how many readings of the environment have been made.
pub mod Monad
pub mod Stores
pub mod Cache
pub mod Map
pub mod Rules
use hexagonal_backend.Common.{ℕ, String, Bool, List, Option}
use hexagonal_backend.Common.Time.{Time}
use hexagonal_backend.Entity.Types.{User, AuthorizeRequest, AuthCode, RefreshToken, Grant}

-- What the program keeps in the cache, each kind under keys of its own.
pub data CacheValue : Type 0 where
  request : AuthorizeRequest → CacheValue
  code : AuthCode → CacheValue
  flag : Bool → CacheValue
  number : ℕ → CacheValue

-- cacheItem; `none` is the zero time, no expiry.
pub record CacheItem : Type 0 where
  pub value : CacheValue
  pub expires_at : Option Time

pub record World : Type 0 where
  pub ticks : ℕ
  pub draws : ℕ
  pub calls : ℕ
  pub users : List User
  pub tokens : List RefreshToken
  pub grants : List Grant
  pub cache : List (String × CacheItem)
  pub mails : List (String × String)
  pub revocations : ℕ
