-- ===== src/Redis.antt =====
-- app/redis.py: what Redis holds for the rows of app/repository/asset_repository.py, each value under
-- its key until it expires. A time is a number of seconds. There may be no Redis at all; a call to it
-- that fails is like that.
use adehun_api.Prelude.{
  ℕ, ◌+◌, not, ◌&&◌, List, [], ◌∷◌, Option, none, some, find, select_all, ltb, ◌==◌,
}
use adehun_api.Models.{Asset}

pub record Slot (A : Type 0) : Type 0 where
  pub key : ℕ
  pub value : A
  pub expires_at : ℕ

-- The values under `asset:{id}`, `agreement:{id}:asset` and `condition:{id}:asset`.
pub record Cache : Type 0 where
  pub assets : List (Slot Asset)
  pub agreement_assets : List (Slot (List Asset))
  pub condition_assets : List (Slot (List Asset))

abbrev pub empty_cache : Cache
empty_cache = record { assets = []; agreement_assets = []; condition_assets = [] }

module _ {A : Type 0} where
  abbrev value_of : Option (Slot A) → Option A
  value_of none = none
  value_of (some slot) = some slot.value

  -- `_cache_get`
  unfoldable pub cache_get : ℕ → ℕ → List (Slot A) → Option A
  cache_get now k slots = value_of (find (λ x. x.key == k && ltb now x.expires_at) slots)

  -- `_cache_delete`
  unfoldable pub cache_delete : ℕ → List (Slot A) → List (Slot A)
  cache_delete k slots = select_all (λ x. not (x.key == k)) slots

  -- `_cache_set`: SETEX
  unfoldable pub cache_set : ℕ → ℕ → A → ℕ → List (Slot A) → List (Slot A)
  cache_set now k value ttl slots =
      record { key = k; value = value; expires_at = now + ttl } ∷ cache_delete k slots
