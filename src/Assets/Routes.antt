-- ===== src/Assets/Routes.antt =====
-- app/routers/asset.py: who may reach the operations on assets. A caller is given by the id and the
-- e-mail address.
use adehun_api.Prelude.{ℕ, List, Option}
use adehun_api.Models.{Asset}
use adehun_api.Errors.{condition_not_found}
use adehun_api.Session.{Action, query, or_raise, ◌>>=◌, ◌>>◌, pure}
use adehun_api.Conditions.{condition_by_id}
use adehun_api.Authz.{require_participant, require_read_access}
use adehun_api.Assets.{Upload, add_asset_to_condition}
use adehun_api.Assets.Feeds.{
  get_assets_for_condition, get_assets_for_agreement, create_asset_signature,
}

-- `_agreement_id_for_condition`
unfoldable pub agreement_id_for_condition : ℕ → Action ℕ
agreement_id_for_condition c = do
  found ← query (condition_by_id c)
  condition ← or_raise condition_not_found found
  pure condition.agreement_id

unfoldable pub agreement_assets_route : ℕ → ℕ → ℕ → Option ℕ → Action (List Asset)
agreement_assets_route now a u email = do
  require_read_access a u email
  get_assets_for_agreement now a

unfoldable pub condition_assets_route : ℕ → ℕ → ℕ → Option ℕ → Action (List Asset)
condition_assets_route now c u email = do
  a ← agreement_id_for_condition c
  require_read_access a u email
  get_assets_for_condition now c

unfoldable pub add_asset_route : ℕ → ℕ → List Upload → Action (List Asset)
add_asset_route u c uploads = do
  a ← agreement_id_for_condition c
  require_participant a u
  add_asset_to_condition u c uploads

unfoldable pub asset_signature_route : ℕ → ℕ → Action (Unit {0})
asset_signature_route c u = do
  a ← agreement_id_for_condition c
  require_participant a u
  create_asset_signature c
