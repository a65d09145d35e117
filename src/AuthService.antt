-- ===== src/AuthService.antt =====
-- app/service/auth_service.py over app/repository/refresh_token_repository.py and
-- app/repository/user_repository.py, and the checks of app/service/token_service.py: login, the
-- rotation of refresh tokens and logout. What PyJWT decodes and Firebase verifies is an argument, and
-- so is the time in seconds. Left out: the access token, profiles, the Redis cache, notifications.
pub mod Stable
pub mod Rotation
pub mod Live
use adehun_api.Prelude.{
  ℕ, ◌+◌, ◌*◌, Bool, true, false, not, ◌&&◌, ◌||◌, List, ◌∷◌, Option, none, some, find,
  update_where, select_all, is_some, if◌then◌else◌, ◌==◌, ltb, leb,
}
use adehun_api.Models.{Db, User, RefreshToken}
use adehun_api.Errors.{unauthorized, admin_access_required}
use adehun_api.Session.{
  Action, pure, raise, query, or_raise, ◌>>=◌, ◌>>◌, raise_if, modify, uuid4, commit,
}

pub data TokenType : Type 0 where
  access refresh : TokenType

abbrev pub is_refresh : TokenType → Bool
is_refresh TokenType.refresh = true
is_refresh TokenType.access = false

-- The claims that are read.
pub record Claims : Type 0 where
  pub sub : ℕ
  pub type : TokenType
  pub jti : ℕ
  pub exp : ℕ

-- PyJWT refuses a token once its `exp` has come.
abbrev pub is_outdated : ℕ → Claims → Bool
is_outdated now claims = leb claims.exp now

-- `refresh_token_expiration_days`, in seconds
abbrev pub lifetime : ℕ
lifetime = 3 * 24 * 60 * 60

-- `verify_token` for a refresh token; `none` is a token that PyJWT refuses for another reason than its
-- `exp`. A subject is not empty.
unfoldable pub verify_refresh : ℕ → Option Claims → Action Claims
verify_refresh now decoded = do
  claims ← or_raise unauthorized decoded
  raise_if (is_outdated now claims) unauthorized
  raise_if (not (is_refresh claims.type)) unauthorized
  pure claims

abbrev pub user_by_id : ℕ → Db → Option User
user_by_id u db = find (λ x. x.id == u) db.users

abbrev pub user_by_email : ℕ → Db → Option User
user_by_email email db = find (λ x. x.email == email) db.users

abbrev pub is_inactive : User → Bool
is_inactive x = x.active == 0

-- `_load_user`, and `get_by_id` with the check that follows it in `refresh_token`
unfoldable pub load_user : ℕ → Action User
load_user u = do
  found ← query (user_by_id u)
  user ← or_raise unauthorized found
  raise_if (is_inactive user) unauthorized
  pure user

-- `get_admin_user` on the user of the token
unfoldable pub get_admin_user : ℕ → Action User
get_admin_user u = do
  user ← load_user u
  raise_if (not user.is_admin) admin_access_required
  pure user

unfoldable pub write_users : (List User → List User) → Db → Db
write_users f db = record db { users = f db.users }

unfoldable pub write_tokens : (List RefreshToken → List RefreshToken) → Db → Db
write_tokens f db = record db { refresh_tokens = f db.refresh_tokens }

-- `get`
abbrev pub token_by_jti : ℕ → Db → Option RefreshToken
token_by_jti j db = find (λ t. t.jti == j) db.refresh_tokens

abbrev pub issued : ℕ → ℕ → ℕ → RefreshToken
issued now u j = record {
  jti = j;
  user_id = u;
  issued_at = now;
  expires_at = now + lifetime;
  revoked_at = none;
  replaced_by_jti = none;
}

abbrev pub add_token : RefreshToken → List RefreshToken → List RefreshToken
add_token t ts = t ∷ ts

abbrev pub revoked : ℕ → Option ℕ → RefreshToken → RefreshToken
revoked now successor t = record t { revoked_at = some now; replaced_by_jti = successor }

-- `revoke`
unfoldable pub revoke : ℕ → Option ℕ → ℕ → List RefreshToken → List RefreshToken
revoke now successor j = update_where (λ t. t.jti == j) (revoked now successor)

-- A token of the user that is not revoked.
abbrev pub is_live : ℕ → RefreshToken → Bool
is_live u t = t.user_id == u && not (is_some t.revoked_at)

-- `revoke_all_for_user`
unfoldable pub revoke_all_for_user : ℕ → ℕ → List RefreshToken → List RefreshToken
revoke_all_for_user now u = update_where (is_live u) (λ t. record t { revoked_at = some now })

-- `purge_expired`
unfoldable pub purge_expired : ℕ → List RefreshToken → List RefreshToken
purge_expired now = select_all (λ t. not (ltb t.expires_at now))

-- `_issue_token_pair`; the fresh `jti` is the refresh token
unfoldable pub issue_token_pair : ℕ → ℕ → Action ℕ
issue_token_pair now u = do
  j ← uuid4
  modify (write_tokens (add_token (issued now u j)))
  commit
  pure j

unfoldable pub add_user : User → List User → List User
add_user x xs = x ∷ xs

-- `verify_id_token` after Firebase has verified the token, on its user id and e-mail address
abbrev pub sign_in : ℕ → ℕ → ℕ → Option User → Action ℕ
sign_in now uid email none = do
  modify (write_users (add_user (record { id = uid; email = email; active = 1; is_admin = false })))
  commit
  issue_token_pair now uid
sign_in now uid email (some user) = do
  raise_if (is_inactive user) unauthorized
  issue_token_pair now user.id

unfoldable pub verify_id_token : ℕ → ℕ → ℕ → Action ℕ
verify_id_token now uid email = do found ← query (user_by_email email); sign_in now uid email found

-- The row that was presented is replaced by a new one.
unfoldable pub rotate : ℕ → ℕ → RefreshToken → Action ℕ
rotate now u row = do
  raise_if (ltb row.expires_at now) unauthorized
  load_user u
  j ← uuid4
  modify (write_tokens (revoke now (some j) row.jti))
  modify (write_tokens (add_token (issued now u j)))
  commit
  pure j

-- A token that was used before kills all tokens of its user.
unfoldable pub reject_reuse : ℕ → ℕ → Action ℕ
reject_reuse now u = do
  modify (write_tokens (revoke_all_for_user now u))
  commit
  raise unauthorized

unfoldable pub refresh_token : ℕ → Option Claims → Action ℕ
refresh_token now decoded = do
  claims ← verify_refresh now decoded
  found ← query (token_by_jti claims.jti)
  row ← or_raise unauthorized found
  raise_if (not (row.user_id == claims.sub)) unauthorized
  if is_some row.revoked_at then reject_reuse now claims.sub else rotate now claims.sub row

abbrev pub revoke_found : ℕ → Option RefreshToken → Action (Unit {0})
revoke_found now none = pure tt
revoke_found now (some row) =
    if is_some row.revoked_at
    then pure tt
    else (do modify (write_tokens (revoke now none row.jti)); commit)

-- A token that is refused is ignored.
unfoldable pub logout : ℕ → Option Claims → Action (Unit {0})
logout now none = pure tt
logout now (some claims) =
    if not (is_outdated now claims) && is_refresh claims.type
    then (do row ← query (token_by_jti claims.jti); revoke_found now row)
    else pure tt

-- `deactivate_user`
abbrev pub deactivate_found : Option User → Action Bool
deactivate_found none = pure false
deactivate_found (some user) = do
  modify (write_users (update_where (λ x. x.id == user.id) (λ x. record x { active = 0 })))
  commit
  pure true

unfoldable pub deactivate_user : ℕ → Action Bool
deactivate_user u = do found ← query (user_by_id u); deactivate_found found
