-- ===== src/Tests/Assets.antt =====
-- Files under condition 30 of the market, with and without a cache.
use adehun_api.Prelude.{◌≡◌, refl, true, false, [], ◌∷◌, some}
use adehun_api.Models.{Asset}
use adehun_api.Errors.{Error}
use adehun_api.Redis.{empty_cache, cache_get, cache_set, cache_delete}
use adehun_api.Session.{
  Session, err, ◌>>=◌, commit, constraints, no_clash, distinct_references, one_active_dispute,
  fresh, ask_redis, tell_redis,
}
use adehun_api.Assets.{
  Upload, add_asset_to_condition, hand_in, add_files, add_assets, add_asset, forget_condition,
  decide, get_by_id, fetch, remember, save_asset, write_asset, deliverable, approve_asset,
  reject_asset,
}
use adehun_api.Assets.HandIn.{IsListed, add_asset_to_condition-IsListed}
use adehun_api.Assets.Reviews.{IsDecided, review-IsDecided, reviewed_once}
use adehun_api.Tests.Data.{market}

abbrev cached_market : Session
cached_market = record (fresh market 100) { redis = some empty_cache }

abbrev photo : Upload
photo = record { url = 1; type = 2; name = 3; size = 4 }

-- User 8 hands in a photo.
abbrev photographed : Session
photographed = (add_asset_to_condition 8 30 (photo ∷ []) cached_market).1

abbrev handed : Asset
handed = deliverable 101 30 21 (record { id = 100; url = 1; type = 2; name = 3; size = 4 })

add_asset_to_condition-IsListed_example : IsListed (photo ∷ []) 30 cached_market photographed
unfolding add_asset_to_condition hand_in add_files add_assets add_asset forget_condition tell_redis
    commit constraints no_clash distinct_references one_active_dispute ◌>>=◌
add_asset_to_condition-IsListed_example =
    add_asset_to_condition-IsListed 8 30 (photo ∷ []) (handed ∷ []) cached_market photographed refl

-- User 7 pays for it and approves.
abbrev judged : Session
judged = (approve_asset 1000 30 101 7 photographed).1

review-IsDecided_example :
    IsDecided true 30 101 7 photographed (record handed { is_approved = true }) judged
unfolding add_asset_to_condition hand_in add_files add_assets add_asset forget_condition tell_redis
    decide get_by_id fetch remember save_asset write_asset ask_redis cache_get cache_set
    cache_delete commit constraints no_clash distinct_references one_active_dispute ◌>>=◌
review-IsDecided_example =
    review-IsDecided true 1000 30 101 7 photographed judged (record handed { is_approved = true })
      refl refl

reviewed_once_example : (e : Error) × (reject_asset 2000 30 101 7 judged ≡ (err e, judged))
unfolding add_asset_to_condition hand_in add_files add_assets add_asset forget_condition tell_redis
    decide get_by_id fetch remember save_asset write_asset ask_redis cache_get cache_set
    cache_delete commit constraints no_clash distinct_references one_active_dispute ◌>>=◌
reviewed_once_example =
    reviewed_once true false 1000 2000 30 30 101 7 7 photographed judged
      (record handed { is_approved = true }) refl refl refl refl
