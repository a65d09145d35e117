-- ===== src/Assets/Stable.antt =====
-- Invariants of a session over app/routers/asset.py, the evidence of app/service/dispute_service.py and
-- app/service/notification_service.py.
use adehun_api.Prelude.{ℕ, Bool, List, [], ◌∷◌, Option, none, some}
use adehun_api.Models.{Asset, AssetFile}
use adehun_api.Errors.{Error}
use adehun_api.Session.{Session, commit, rollback, uuid4}
use adehun_api.Session.Keeps.{Keeps, keeps_rules, Keeps-bind, Keeps-pure}
use adehun_api.WalletRepository.Stable.{Stable}
use adehun_api.Escrow.Stable.{StableRows}
use adehun_api.Authz.{agreement_exists, require_participant, require_read_access}
use adehun_api.Assets.{
  Upload, Fetched, attached, transient, fetched, remember, fetch, get_by_id, save_asset,
  forget_condition, decide, decide_failed, review, add_files, add_assets, hand_in, hand_in_failed,
  add_asset_to_condition,
}
use adehun_api.Assets.Feeds.{
  remember_condition, remember_agreement, condition_feed, get_condition_assets, agreement_feed,
  get_agreement_assets, get_assets_for_condition, get_assets_for_agreement,
}
use adehun_api.Assets.Routes.{
  agreement_id_for_condition, agreement_assets_route, condition_assets_route, add_asset_route,
}

module _ {P : Session → Type 0} (stable : Stable P) (rows : StableRows P) where
  open rows use {at_add_asset, at_asset, at_redis}

  commits : Keeps P commit
  commits = stable.at_commit

  rolls_back : Keeps P rollback
  rolls_back = stable.at_rollback

  uuids : Keeps P uuid4
  uuids = stable.at_uuid4

  remember-keeps : (now i : ℕ) (o : Option Asset) → Keeps P (remember now i o)
  unfolding remember
  remember-keeps now i none = search keeps_rules
  remember-keeps now i (some x) = at_redis _

  fetched-keeps : (o : Option Asset) → Keeps P (fetched o)
  fetched-keeps none = search keeps_rules
  fetched-keeps (some x) = search keeps_rules

  fetch-keeps : (now i : ℕ) (o : Option Asset) → Keeps P (fetch now i o)
  unfolding fetch
  fetch-keeps now i (some x) = search keeps_rules
  fetch-keeps now i none = search (keeps_rules, remember-keeps, fetched-keeps) depth 10

  get_by_id-keeps : (now i : ℕ) → Keeps P (get_by_id now i)
  unfolding get_by_id
  get_by_id-keeps now i = search (keeps_rules, fetch-keeps)

  save_asset-keeps : (b : Bool) (x : Fetched) → Keeps P (save_asset b x)
  unfolding save_asset
  save_asset-keeps b (attached x) = search (keeps_rules, at_asset, commits)
  save_asset-keeps b (transient x) = search (keeps_rules, at_add_asset, commits)

  forget_condition-keeps : (c : ℕ) → Keeps P (forget_condition c)
  unfolding forget_condition
  forget_condition-keeps c = at_redis _

  decide-keeps : (b : Bool) (now c i u : ℕ) → Keeps P (decide b now c i u)
  unfolding decide
  decide-keeps b now c i u =
      search (keeps_rules, get_by_id-keeps, save_asset-keeps, forget_condition-keeps) depth 24

  decide_failed-keeps : (e : Error) → Keeps P (decide_failed e)
  unfolding decide_failed
  decide_failed-keeps e = search (keeps_rules, rolls_back)

  pub review-keeps : (b : Bool) (now c i u : ℕ) → Keeps P (review b now c i u)
  review-keeps b now c i u = search (keeps_rules, decide-keeps, decide_failed-keeps)

  add_files-keeps : (fs : List Upload) → Keeps P (add_files fs)
  unfolding add_files
  add_files-keeps [] = Keeps-pure _
  add_files-keeps (f ∷ fs) =
      Keeps-bind _ _ uuids (λ i. Keeps-bind _ _ (add_files-keeps fs) (λ _. Keeps-pure _))

  add_assets-keeps : (c p : ℕ) (fs : List AssetFile) → Keeps P (add_assets c p fs)
  unfolding add_assets
  add_assets-keeps c p [] = Keeps-pure _
  add_assets-keeps c p (f ∷ fs) = Keeps-bind _ _ uuids (λ i.
      Keeps-bind _ _ (at_add_asset _)
        (λ _. Keeps-bind _ _ (add_assets-keeps c p fs) (λ _. Keeps-pure _)))

  hand_in-keeps : (u c : ℕ) (fs : List Upload) → Keeps P (hand_in u c fs)
  unfolding hand_in
  hand_in-keeps u c fs =
      search (keeps_rules, add_files-keeps, add_assets-keeps, commits, forget_condition-keeps) depth
        24

  hand_in_failed-keeps : (e : Error) → Keeps P (hand_in_failed e)
  unfolding hand_in_failed
  hand_in_failed-keeps e = search (keeps_rules, rolls_back)

  add_asset_to_condition-keeps :
      (u c : ℕ) (fs : List Upload) → Keeps P (add_asset_to_condition u c fs)
  unfolding add_asset_to_condition
  add_asset_to_condition-keeps u c fs = search (keeps_rules, hand_in-keeps, hand_in_failed-keeps)

  exists-keeps : (a : ℕ) → Keeps P (agreement_exists a)
  unfolding agreement_exists
  exists-keeps a = search keeps_rules

  require_participant-keeps : (a u : ℕ) → Keeps P (require_participant a u)
  unfolding require_participant
  require_participant-keeps a u = search (keeps_rules, exists-keeps) depth 10

  require_read_access-keeps : (a u : ℕ) (email : Option ℕ) → Keeps P (require_read_access a u email)
  unfolding require_read_access
  require_read_access-keeps a u email = search (keeps_rules, exists-keeps) depth 12

  agreement_id_for_condition-keeps : (c : ℕ) → Keeps P (agreement_id_for_condition c)
  unfolding agreement_id_for_condition
  agreement_id_for_condition-keeps c = search keeps_rules depth 10

  pub add_asset_route-keeps : (u c : ℕ) (fs : List Upload) → Keeps P (add_asset_route u c fs)
  unfolding add_asset_route
  add_asset_route-keeps u c fs =
      search
        (
          keeps_rules, agreement_id_for_condition-keeps, require_participant-keeps,
          add_asset_to_condition-keeps,
        )
        depth 10

  remember_condition-keeps : (now c : ℕ) (xs : List Asset) → Keeps P (remember_condition now c xs)
  unfolding remember_condition
  remember_condition-keeps now c [] = search keeps_rules
  remember_condition-keeps now c (x ∷ xs) = at_redis _

  remember_agreement-keeps : (now a : ℕ) (xs : List Asset) → Keeps P (remember_agreement now a xs)
  unfolding remember_agreement
  remember_agreement-keeps now a [] = search keeps_rules
  remember_agreement-keeps now a (x ∷ xs) = at_redis _

  condition_feed-keeps : (now c : ℕ) (o : Option (List Asset)) → Keeps P (condition_feed now c o)
  unfolding condition_feed
  condition_feed-keeps now c (some []) = search keeps_rules
  condition_feed-keeps now c (some (x ∷ xs)) = search keeps_rules
  condition_feed-keeps now c none = search (keeps_rules, remember_condition-keeps) depth 10

  agreement_feed-keeps : (now a : ℕ) (o : Option (List Asset)) → Keeps P (agreement_feed now a o)
  unfolding agreement_feed
  agreement_feed-keeps now a (some []) = search keeps_rules
  agreement_feed-keeps now a (some (x ∷ xs)) = search keeps_rules
  agreement_feed-keeps now a none = search (keeps_rules, remember_agreement-keeps) depth 10

  pub condition_assets_route-keeps :
      (now c u : ℕ) (email : Option ℕ) → Keeps P (condition_assets_route now c u email)
  unfolding condition_assets_route get_assets_for_condition get_condition_assets
  condition_assets_route-keeps now c u email =
      search
        (
          keeps_rules, agreement_id_for_condition-keeps, require_read_access-keeps,
          condition_feed-keeps,
        )
        depth 16

  pub agreement_assets_route-keeps :
      (now a u : ℕ) (email : Option ℕ) → Keeps P (agreement_assets_route now a u email)
  unfolding agreement_assets_route get_assets_for_agreement get_agreement_assets
  agreement_assets_route-keeps now a u email =
      search (keeps_rules, require_read_access-keeps, agreement_feed-keeps) depth 16
