-- ===== src/AuthService/Stable.antt =====
-- Invariants of a session over app/service/auth_service.py.
use adehun_api.Prelude.{ℕ, Option, none, some, List}
use adehun_api.Models.{User, RefreshToken}
use adehun_api.Session.{Session, modify, commit, uuid4}
use adehun_api.Session.Keeps.{Keeps, keeps_rules}
use adehun_api.WalletRepository.Stable.{Stable}
use adehun_api.AuthService.{
  Claims, verify_refresh, load_user, write_users, write_tokens, issue_token_pair, sign_in,
  verify_id_token, rotate, reject_reuse, refresh_token, revoke_found, logout, deactivate_found,
  deactivate_user,
}

-- The writes of the tables of users and tokens.
pub record StableUsers (P : Session → Type 0) : Type 0 where
  pub at_users : (f : List User → List User) → Keeps P (modify (write_users f))
  pub at_tokens : (f : List RefreshToken → List RefreshToken) → Keeps P (modify (write_tokens f))

module _ {P : Session → Type 0} (stable : Stable P) (users : StableUsers P) where
  open users use {at_users, at_tokens}

  commits : Keeps P commit
  commits = stable.at_commit

  uuids : Keeps P uuid4
  uuids = stable.at_uuid4

  verify_refresh-keeps : (now : ℕ) (decoded : Option Claims) → Keeps P (verify_refresh now decoded)
  unfolding verify_refresh
  verify_refresh-keeps now decoded = search keeps_rules depth 10

  load_user-keeps : (u : ℕ) → Keeps P (load_user u)
  unfolding load_user
  load_user-keeps u = search keeps_rules depth 10

  issue_token_pair-keeps : (now u : ℕ) → Keeps P (issue_token_pair now u)
  unfolding issue_token_pair
  issue_token_pair-keeps now u = search (keeps_rules, uuids, at_tokens, commits) depth 12

  sign_in-keeps : (now uid email : ℕ) (o : Option User) → Keeps P (sign_in now uid email o)
  sign_in-keeps now uid email none =
      search (keeps_rules, at_users, commits, issue_token_pair-keeps) depth 10
  sign_in-keeps now uid email (some user) = search (keeps_rules, issue_token_pair-keeps)

  pub verify_id_token-keeps : (now uid email : ℕ) → Keeps P (verify_id_token now uid email)
  unfolding verify_id_token
  verify_id_token-keeps now uid email = search (keeps_rules, sign_in-keeps)

  rotate-keeps : (now u : ℕ) (row : RefreshToken) → Keeps P (rotate now u row)
  unfolding rotate
  rotate-keeps now u row = search (keeps_rules, load_user-keeps, uuids, at_tokens, commits) depth 18

  reject_reuse-keeps : (now u : ℕ) → Keeps P (reject_reuse now u)
  unfolding reject_reuse
  reject_reuse-keeps now u = search (keeps_rules, at_tokens, commits) depth 10

  pub refresh_token-keeps :
      (now : ℕ) (decoded : Option Claims) → Keeps P (refresh_token now decoded)
  unfolding refresh_token
  refresh_token-keeps now decoded =
      search (keeps_rules, verify_refresh-keeps, rotate-keeps, reject_reuse-keeps) depth 16

  revoke_found-keeps : (now : ℕ) (o : Option RefreshToken) → Keeps P (revoke_found now o)
  revoke_found-keeps now none = search keeps_rules
  revoke_found-keeps now (some row) = search (keeps_rules, at_tokens, commits) depth 10

  pub logout-keeps : (now : ℕ) (decoded : Option Claims) → Keeps P (logout now decoded)
  unfolding logout
  logout-keeps now none = search keeps_rules
  logout-keeps now (some claims) = search (keeps_rules, revoke_found-keeps) depth 10

  deactivate_found-keeps : (o : Option User) → Keeps P (deactivate_found o)
  deactivate_found-keeps none = search keeps_rules
  deactivate_found-keeps (some user) = search (keeps_rules, at_users, commits) depth 10

  pub deactivate_user-keeps : (u : ℕ) → Keeps P (deactivate_user u)
  unfolding deactivate_user
  deactivate_user-keeps u = search (keeps_rules, deactivate_found-keeps)
