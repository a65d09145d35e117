-- ===== src/Assets/Feeds.antt =====
-- The reads of app/repository/asset_repository.py and app/service/asset_service.py: the assets of a
-- condition and of an agreement, each from the cache if it is there, which then fails: the responses
-- need what the cache does not hold.
use adehun_api.Prelude.{
  ℕ, Bool, false, ◌&&◌, List, [], ◌∷◌, Option, none, some, select_all, is_some, ◌==◌,
}
use adehun_api.Models.{Db, Condition, Asset}
use adehun_api.Errors.{condition_not_found, agreement_not_found, asset_retrieval}
use adehun_api.Redis.{cache_get, cache_set}
use adehun_api.Session.{Action, pure, raise, query, or_raise, ◌>>=◌, ◌>>◌, ask_redis, tell_redis}
use adehun_api.AgreementService.{agreement_by_id}
use adehun_api.Conditions.{condition_by_id}
use adehun_api.Assets.{asset_ttl, is_under}

abbrev agrees : ℕ → Option Condition → Bool
agrees a none = false
agrees a (some condition) = condition.agreement_id == a

-- The inner join with the conditions.
abbrev pub is_under_agreement : ℕ → Db → Option ℕ → Bool
is_under_agreement a db none = false
is_under_agreement a db (some c) = agrees a (condition_by_id c db)

abbrev pub condition_rows : ℕ → Db → List Asset
condition_rows c db =
    select_all (λ x. is_under c x.condition_id && is_some (condition_by_id c db)) db.assets

abbrev pub agreement_rows : ℕ → Db → List Asset
agreement_rows a db = select_all (λ x. is_under_agreement a db x.condition_id) db.assets

-- An empty list is not cached.
unfoldable pub remember_condition : ℕ → ℕ → List Asset → Action (Unit {0})
remember_condition now c [] = pure tt
remember_condition now c (x ∷ xs) = tell_redis (λ cache. record cache {
  condition_assets = cache_set now c (x ∷ xs) asset_ttl cache.condition_assets;
})

unfoldable pub remember_agreement : ℕ → ℕ → List Asset → Action (Unit {0})
remember_agreement now a [] = pure tt
remember_agreement now a (x ∷ xs) = tell_redis (λ cache. record cache {
  agreement_assets = cache_set now a (x ∷ xs) asset_ttl cache.agreement_assets;
})

-- An object made of what the cache held has no file and no uploader, so no response is made of it.
abbrev parsed : List Asset → Action (List Asset)
parsed [] = pure []
parsed (x ∷ xs) = raise asset_retrieval

-- What follows the read of the cache in `get_condition_assets`.
unfoldable pub condition_feed : ℕ → ℕ → Option (List Asset) → Action (List Asset)
condition_feed now c (some xs) = parsed xs
condition_feed now c none = do xs ← query (condition_rows c); remember_condition now c xs; pure xs

unfoldable pub get_condition_assets : ℕ → ℕ → Action (List Asset)
get_condition_assets now c = do
  cached ← ask_redis (λ cache. cache_get now c cache.condition_assets)
  condition_feed now c cached

-- What follows the read of the cache in `get_agreement_assets`.
unfoldable pub agreement_feed : ℕ → ℕ → Option (List Asset) → Action (List Asset)
agreement_feed now a (some xs) = parsed xs
agreement_feed now a none = do xs ← query (agreement_rows a); remember_agreement now a xs; pure xs

unfoldable pub get_agreement_assets : ℕ → ℕ → Action (List Asset)
get_agreement_assets now a = do
  cached ← ask_redis (λ cache. cache_get now a cache.agreement_assets)
  agreement_feed now a cached

unfoldable pub get_assets_for_condition : ℕ → ℕ → Action (List Asset)
get_assets_for_condition now c = do
  found ← query (condition_by_id c)
  or_raise condition_not_found found
  get_condition_assets now c

unfoldable pub get_assets_for_agreement : ℕ → ℕ → Action (List Asset)
get_assets_for_agreement now a = do
  found ← query (agreement_by_id a)
  or_raise agreement_not_found found
  get_agreement_assets now a

-- `create_asset_signature`, up to the call that signs.
unfoldable pub create_asset_signature : ℕ → Action (Unit {0})
create_asset_signature c = do
  found ← query (condition_by_id c)
  or_raise condition_not_found found
  pure tt
