-- ===== src/World/Cache.antt =====
-- The cache port (core/cache/cache.go) as infrastructure/cache/memory.go implements it. A call may
-- fail, as one to Redis does. A stored value is read back as the type that it was stored at.
use hexagonal_backend.Common.{
  ℕ, String, Bool, true, false, Option, none, some, ltb, if◌then◌else◌, is_some,
}
use hexagonal_backend.Common.Int.{incr64}
use hexagonal_backend.Common.Time.{Time, before, after, add}
use hexagonal_backend.Errors.{plain, backend}
use hexagonal_backend.Common.Result.{ok, err}
use hexagonal_backend.World.{CacheItem, CacheValue, number}
use hexagonal_backend.World.Map.{lookup, insert, delete}
use hexagonal_backend.World.Monad.{
  when◌then◌else◌, M, pure, raise, gets, attempt, modify, ◌>>=◌, ◌>>◌, now, store_call,
}

unfoldable pub put_item : String → CacheItem → M (Unit {0})
put_item key item = modify λ w. record w { cache = insert key item w.cache }

unfoldable pub remove_item : String → M (Unit {0})
remove_item key = modify λ w. record w { cache = delete key w.cache }

-- `if ttl != nil && *ttl > 0`
expiry : Option ℕ → M (Option Time)
expiry none = pure none
expiry (some ttl) = when ltb 0 ttl then (do t ← now; pure (some (add t ttl))) else pure none

-- Set
unfoldable pub cache_set : String → CacheValue → Option ℕ → M (Unit {0})
unfolding put_item expiry
cache_set key value ttl = do
  store_call
  expires ← expiry ttl
  put_item key (record { value = value; expires_at = expires })

-- The tests of getLiveItem on an item that is there: two readings of the clock.
unfoldable pub live_or_removed : String → CacheItem → M (Option CacheItem)
unfolding remove_item
live_or_removed key item = elim item.expires_at [
  | none ↦ pure (some item)
  | some expires ↦ do
    t ← now
    when before t expires then pure (some item) else (do
      t' ← now
      when after t' expires then remove_item key >> pure none else pure (some item))
]

-- getLiveItem
unfoldable pub get_live_item : String → M (Option CacheItem)
unfolding live_or_removed
get_live_item key = do
  found ← gets (λ w. lookup key w.cache)
  elim found [ none ↦ pure none | some item ↦ live_or_removed key item ]

-- GetErr with a nil destination
unfoldable pub cache_has : String → M Bool
unfolding get_live_item
cache_has key = do store_call; item ← get_live_item key; pure (is_some item)

is_past : CacheItem → M Bool
is_past item = elim item.expires_at [
  | none ↦ pure false
  | some expires ↦ do t ← now; pure (after t expires)
]

module _ {A : Type 0} where
  -- GetErr: `none` is a miss, and a value of another type is an error.
  unfoldable pub cache_get : (CacheValue → Option A) → String → M (Option A)
  unfolding get_live_item
  cache_get decode key = do
    store_call
    found ← get_live_item key
    elim found [
      | none ↦ pure none
      | some item ↦ elim (decode item.value) [ none ↦ raise backend | some a ↦ pure (some a) ]
    ]

  take_item : (CacheValue → Option A) → String → CacheItem → Bool → M (Option A)
  unfolding remove_item
  take_item decode key item true = remove_item key >> pure none
  take_item decode key item false = remove_item key >> pure (decode item.value)

  take_found : (CacheValue → Option A) → String → M (Option A)
  unfolding take_item is_past
  take_found decode key = do
    found ← gets (λ w. lookup key w.cache)
    elim found [
      | none ↦ pure none
      | some item ↦ do past ← is_past item; take_item decode key item past
    ]

  -- GetAndDelete: `none` is the answer false. A failed call answers false too.
  unfoldable pub get_and_delete : (CacheValue → Option A) → String → M (Option A)
  unfolding take_found
  get_and_delete decode key = do
    reached ← attempt store_call
    elim reached [ err _ ↦ pure none | ok _ ↦ take_found decode key ]

-- The item that IncrWindow counts on from: the stored one unless its time is past.
pub data Counting : Type 0 where
  wrong_type : Counting
  from : ℕ → Option Time → Counting

counting : Option CacheItem → Time → Counting
counting none t = from 0 none
counting (some item) t =
    let kept : Counting = elim item.value [ number n ↦ from n item.expires_at | _ ↦ wrong_type ] in
    elim item.expires_at [
      | none ↦ kept
      | some expires ↦ if after t expires then from 0 none else kept
    ]

count_on : String → ℕ → Time → Counting → M ℕ
unfolding put_item
count_on key window t wrong_type =
    raise (plain "WRONGTYPE operation against key holding non-integer value")
count_on key window t (from n expires) =
    let ends : Time = elim expires [ none ↦ add t window | some e ↦ e ] in
    put_item key (record { value = number (incr64 n); expires_at = some ends }) >> pure (incr64 n)

-- IncrWindow
unfoldable pub incr_window : String → ℕ → M ℕ
unfolding counting count_on
incr_window key window = do
  store_call
  t ← now
  found ← gets (λ w. lookup key w.cache)
  count_on key window t (counting found t)
