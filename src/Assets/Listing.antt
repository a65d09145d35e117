-- ===== src/Assets/Listing.antt =====
-- The second listing of a condition by app/service/asset_service.py, from the cache.
use adehun_api.Prelude.{ℕ, ◌≡◌, Option, some, List, [], ◌∷◌}
use adehun_api.Models.{Asset, Condition}
use adehun_api.Redis.{cache_get}
use adehun_api.Session.{Session, asked}
use adehun_api.Conditions.{condition_by_id}

-- What the cache holds of a condition's files.
abbrev cached : ℕ → ℕ → Session → Option (List Asset)
cached now c s = asked (λ cache. cache_get now c cache.condition_assets) s.redis

-- The condition is there, and until a time the cache holds a list of its files that is not empty.
abbrev IsWarm : ℕ → ℕ → List Asset → Session → Type 0
IsWarm later c [] t = Unit {0}
IsWarm later c (x ∷ xs) t =
    (row : Condition) × (condition_by_id c t.working ≡ some row)
    × (cached later c t ≡ some (x ∷ xs))
