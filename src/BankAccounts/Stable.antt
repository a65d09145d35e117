-- ===== src/BankAccounts/Stable.antt =====
-- Invariants of a session over app/service/bank_account_service.py.
use adehun_api.Prelude.{ℕ, Bool, true, false, List}
use adehun_api.Models.{BankAccount}
use adehun_api.Session.{Session, Result, ok, err, modify, commit, uuid4}
use adehun_api.Session.Keeps.{Keeps, keeps_rules}
use adehun_api.WalletRepository.Stable.{Stable}
use adehun_api.BankAccounts.{
  Banks, returned, require_bank, write_accounts, set_default, deactivate, save_account,
  add_bank_account, set_default_bank_account, remove_bank_account,
}

-- The writes of the table of bank accounts.
pub record StableAccounts (P : Session → Type 0) : Type 0 where
  pub at_accounts : (f : List BankAccount → List BankAccount) → Keeps P (modify (write_accounts f))

module _ {P : Session → Type 0} (stable : Stable P) (accounts : StableAccounts P) where
  open accounts use {at_accounts}

  commits : Keeps P commit
  commits = stable.at_commit

  uuids : Keeps P uuid4
  uuids = stable.at_uuid4

  returned-keeps : {A : Type 0} (r : Result A) → Keeps P (returned r)
  unfolding returned
  returned-keeps (ok a) = search keeps_rules
  returned-keeps (err e) = search keeps_rules

  require_bank-keeps : (banks : Banks) (code : ℕ) → Keeps P (require_bank banks code)
  unfolding require_bank
  require_bank-keeps banks code = search (keeps_rules, returned-keeps)

  set_default-keeps : (u i : ℕ) → Keeps P (set_default u i)
  unfolding set_default
  set_default-keeps u i = search (keeps_rules, at_accounts, commits) depth 12

  deactivate-keeps : (i : ℕ) → Keeps P (deactivate i)
  unfolding deactivate
  deactivate-keeps i = search (keeps_rules, at_accounts, commits)

  save_account-keeps : (a : BankAccount) (b : Bool) → Keeps P (save_account a b)
  unfolding save_account
  save_account-keeps a true = search (keeps_rules, at_accounts, set_default-keeps)
  save_account-keeps a false = search (keeps_rules, at_accounts, commits)

  pub add_bank_account-keeps :
      (banks : Banks) (u bank number : ℕ) (make_default : Bool)
      → Keeps P (add_bank_account banks u bank number make_default)
  unfolding add_bank_account
  add_bank_account-keeps banks u bank number make_default =
      search (keeps_rules, returned-keeps, require_bank-keeps, uuids, save_account-keeps) depth 24

  pub set_default_bank_account-keeps : (i u : ℕ) → Keeps P (set_default_bank_account i u)
  unfolding set_default_bank_account
  set_default_bank_account-keeps i u = search (keeps_rules, set_default-keeps) depth 10

  pub remove_bank_account-keeps : (i u : ℕ) → Keeps P (remove_bank_account i u)
  unfolding remove_bank_account
  remove_bank_account-keeps i u = search (keeps_rules, deactivate-keeps) depth 12
