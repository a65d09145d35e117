-- ===== src/Assets.antt =====
-- app/service/asset_service.py over app/repository/asset_repository.py, and the routes of
-- app/routers/asset.py: the files that are handed in under a condition. Left out: the signature of
-- an upload itself.
pub mod Feeds
pub mod Routes
pub mod Stable
pub mod Reviews
pub mod HandIn
pub mod Listing
use adehun_api.Prelude.{
  ℕ, Bool, true, false, not, ◌&&◌, List, [], ◌∷◌, Option, none, some, find, select_all, any,
  update_where, if◌then◌else◌, ◌==◌,
}
use adehun_api.Enums.{is_depositor}
use adehun_api.Models.{Db, Condition, Asset, AssetFile}
use adehun_api.Errors.{
  Error, condition_not_found, forbidden, asset_not_found, asset_upload, asset_approval,
}
use adehun_api.Redis.{Cache, cache_get, cache_set, cache_delete}
use adehun_api.Session.{
  Action, pure, raise, query, or_raise, ◌>>=◌, ◌>>◌, raise_if, try_except, modify, uuid4, commit,
  rollback, ask_redis, tell_redis,
}
use adehun_api.AgreementService.{participant_for_user}
use adehun_api.Conditions.{condition_by_id}

-- A file that was uploaded to the store (app/schemas/asset_schema.py).
pub record Upload : Type 0 where
  pub url : ℕ
  pub type : ℕ
  pub name : ℕ
  pub size : ℕ

-- `_TTL_ASSETS`, `_TTL_CONDITION_ASSETS`, `_TTL_AGREEMENT_ASSETS`
abbrev pub asset_ttl : ℕ
asset_ttl = 86400

abbrev pub asset_by_id : ℕ → Db → Option Asset
asset_by_id i db = find (λ x. x.id == i) db.assets

unfoldable pub add_asset : Asset → Db → Db
add_asset x db = record db { assets = x ∷ db.assets }

abbrev pub set_approved : Bool → Asset → Asset
set_approved b x = record x { is_approved = b }

unfoldable pub write_asset : ℕ → (Asset → Asset) → Db → Db
write_asset i f db = record db { assets = update_where (λ x. x.id == i) f db.assets }

-- What `get_by_id` returns: a row of the session, or an object made of what the cache held, which
-- the session does not know.
pub data Fetched : Type 0 where
  attached transient : Asset → Fetched

abbrev pub asset_of : Fetched → Asset
asset_of (attached x) = x
asset_of (transient x) = x

abbrev pub fetched : Option Asset → Action (Option Fetched)
fetched none = pure none
fetched (some x) = pure (some (attached x))

unfoldable pub remember : ℕ → ℕ → Option Asset → Action (Unit {0})
remember now i none = pure tt
remember now i (some x) =
    tell_redis (λ cache. record cache { assets = cache_set now i x asset_ttl cache.assets })

-- What follows the read of the cache in `get_by_id`.
unfoldable pub fetch : ℕ → ℕ → Option Asset → Action (Option Fetched)
fetch now i (some x) = pure (some (transient x))
fetch now i none = do row ← query (asset_by_id i); remember now i row; fetched row

unfoldable pub get_by_id : ℕ → ℕ → Action (Option Fetched)
get_by_id now i = do cached ← ask_redis (λ cache. cache_get now i cache.assets); fetch now i cached

-- `save_asset` after `is_approved` was set: an UPDATE of a row that the session knows, else an INSERT.
unfoldable pub save_asset : Bool → Fetched → Action (Unit {0})
save_asset b (attached x) = do modify (write_asset x.id (set_approved b)); commit
save_asset b (transient x) = do modify (add_asset (set_approved b x)); commit

abbrev pub is_under : ℕ → Option ℕ → Bool
is_under c none = false
is_under c (some d) = d == c

unfoldable pub forget_condition : ℕ → Action (Unit {0})
forget_condition c =
    tell_redis (λ cache. record cache { condition_assets = cache_delete c cache.condition_assets })

-- `approve_asset` and `reject_asset` inside their `try`; they differ in what they set.
unfoldable pub decide : Bool → ℕ → ℕ → ℕ → ℕ → Action Asset
decide b now c i u = do
  found ← query (condition_by_id c)
  condition ← or_raise condition_not_found found
  member ← query (participant_for_user condition.agreement_id u)
  participant ← or_raise forbidden member
  raise_if (not (is_depositor participant.role)) forbidden
  known ← get_by_id now i
  x ← or_raise asset_not_found known
  raise_if (not (is_under c (asset_of x).condition_id)) asset_not_found
  save_asset b x
  forget_condition c
  pure (set_approved b (asset_of x))

-- The errors that the service raises on purpose are passed on.
abbrev pub is_expected : Error → Bool
is_expected Error.condition_not_found = true
is_expected Error.forbidden = true
is_expected Error.asset_not_found = true
is_expected _ = false

unfoldable pub decide_failed : Error → Action Asset
decide_failed e = if is_expected e then raise e else (do rollback; raise asset_approval)

abbrev pub review : Bool → ℕ → ℕ → ℕ → ℕ → Action Asset
review b now c i u = try_except (decide b now c i u) decide_failed

abbrev pub approve_asset : ℕ → ℕ → ℕ → ℕ → Action Asset
approve_asset now c i u = review true now c i u

abbrev pub reject_asset : ℕ → ℕ → ℕ → ℕ → Action Asset
reject_asset now c i u = review false now c i u

abbrev pub new_file : ℕ → Upload → AssetFile
new_file i f = record { id = i; url = f.url; type = f.type; name = f.name; size = f.size }

unfoldable pub add_files : List Upload → Action (List AssetFile)
add_files [] = pure []
add_files (f ∷ fs) = do i ← uuid4; rest ← add_files fs; pure (new_file i f ∷ rest)

abbrev pub deliverable : ℕ → ℕ → ℕ → AssetFile → Asset
deliverable i c p file = record {
  id = i;
  condition_id = some c;
  dispute_id = none;
  file = file;
  uploaded_by = p;
  is_approved = false;
}

-- The new rows' ids are returned.
unfoldable pub add_assets : ℕ → ℕ → List AssetFile → Action (List ℕ)
add_assets c p [] = pure []
add_assets c p (file ∷ files) = do
  i ← uuid4
  modify (add_asset (deliverable i c p file))
  rest ← add_assets c p files
  pure (i ∷ rest)

-- `get_assets_by_ids`
abbrev pub assets_by_ids : List ℕ → Db → List Asset
assets_by_ids is db = select_all (λ x. any (λ i. x.id == i) is) db.assets

-- `add_asset_to_condition` inside its `try`
unfoldable pub hand_in : ℕ → ℕ → List Upload → Action (List Asset)
hand_in u c uploads = do
  found ← query (condition_by_id c)
  condition ← or_raise condition_not_found found
  member ← query (participant_for_user condition.agreement_id u)
  participant ← or_raise forbidden member
  files ← add_files uploads
  is ← add_assets c participant.id files
  commit
  forget_condition c
  query (assets_by_ids is)

unfoldable pub hand_in_failed : Error → Action (List Asset)
hand_in_failed e = if is_expected e then raise e else (do rollback; raise asset_upload)

unfoldable pub add_asset_to_condition : ℕ → ℕ → List Upload → Action (List Asset)
add_asset_to_condition u c uploads = try_except (hand_in u c uploads) hand_in_failed
