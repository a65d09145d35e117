-- ===== src/BankAccounts.antt =====
-- app/service/bank_account_service.py over app/repository/bank_account_repository.py: the accounts that
-- a user withdraws to. What Paystack answers about banks and recipients is a parameter (`Banks`).
-- Left out: the names, the listings, and the Redis cache of the banks.
pub mod Stable
pub mod Default
pub mod Removal
use adehun_api.Prelude.{
  ℕ, Bool, true, false, not, ◌&&◌, ◌||◌, List, ◌∷◌, Option, none, some, find, any, update_where,
  is_some, if◌then◌else◌, ◌==◌,
}
use adehun_api.Enums.{is_pending}
use adehun_api.Models.{Db, BankAccount}
use adehun_api.Errors.{bad_request, bank_account_not_found, duplicate_bank_account}
use adehun_api.Session.{
  Result, ok, err, Action, pure, raise, query, or_raise, ◌>>=◌, ◌>>◌, raise_if, modify, uuid4,
  commit,
}
use adehun_api.WalletService.{bank_account_for_user, default_bank_account}

-- The codes of the banks, the check of an account number, and a new recipient code.
pub record Banks : Type 0 where
  pub list_banks : Result (List ℕ)
  pub resolve_account_number : ℕ → ℕ → Result (Unit {0})
  pub create_transfer_recipient : ℕ → ℕ → Result ℕ

-- The answer of a call, or its error.
unfoldable pub returned : {A : Type 0} → Result A → Action A
returned (ok a) = pure a
returned (err e) = raise e

abbrev pub is_account : ℕ → ℕ → ℕ → BankAccount → Bool
is_account u bank number a =
    a.user_id == u && a.bank_code == bank && a.account_number == number && a.is_active

abbrev pub find_active_duplicate : ℕ → ℕ → ℕ → Db → Option BankAccount
find_active_duplicate u bank number db = find (is_account u bank number) db.bank_accounts

abbrev pub targets : ℕ → Option ℕ → Bool
targets i none = false
targets i (some j) = j == i

-- `has_pending_withdrawal`
unfoldable pub has_pending_withdrawal : ℕ → Db → Bool
has_pending_withdrawal i db =
    any (λ p. targets i p.bank_account_id && is_pending p.status) db.paystack

-- `_bank_name`
unfoldable pub require_bank : Banks → ℕ → Action (Unit {0})
require_bank banks code = do
  codes ← returned banks.list_banks
  raise_if (not (any (λ c. c == code) codes)) bad_request

unfoldable pub write_accounts : (List BankAccount → List BankAccount) → Db → Db
write_accounts f db = record db { bank_accounts = f db.bank_accounts }

abbrev pub set_flag : ℕ → Bool → List BankAccount → List BankAccount
set_flag i flag = update_where (λ a. a.id == i) (λ a. record a { is_default = flag })

-- Another account that is the default is cleared first.
abbrev pub clear_other : ℕ → Option BankAccount → List BankAccount → List BankAccount
clear_other i none xs = xs
clear_other i (some current) xs = if current.id == i then xs else set_flag current.id false xs

-- `set_default`
unfoldable pub set_default : ℕ → ℕ → Action (Unit {0})
set_default u i = do
  current ← query (default_bank_account u)
  modify (write_accounts (clear_other i current))
  modify (write_accounts (set_flag i true))
  commit

abbrev pub closed : BankAccount → BankAccount
closed a = record a { is_active = false; is_default = false }

-- `deactivate`
unfoldable pub deactivate : ℕ → Action (Unit {0})
deactivate i = do modify (write_accounts (update_where (λ a. a.id == i) closed)); commit

abbrev pub add_account : BankAccount → List BankAccount → List BankAccount
add_account a xs = a ∷ xs

-- The new row, committed at once or together with the default.
unfoldable pub save_account : BankAccount → Bool → Action (Unit {0})
save_account a true = do modify (write_accounts (add_account a)); set_default a.user_id a.id
save_account a false = do modify (write_accounts (add_account a)); commit

-- The first account of a user is their default, whatever they asked for.
unfoldable pub add_bank_account : Banks → ℕ → ℕ → ℕ → Bool → Action ℕ
add_bank_account banks u bank number make_default = do
  duplicate ← query (find_active_duplicate u bank number)
  raise_if (is_some duplicate) duplicate_bank_account
  require_bank banks bank
  returned (banks.resolve_account_number number bank)
  recipient ← returned (banks.create_transfer_recipient number bank)
  current ← query (default_bank_account u)
  i ← uuid4
  save_account
      (record {
        id = i;
        user_id = u;
        bank_code = bank;
        account_number = number;
        recipient_code = recipient;
        is_default = false;
        is_active = true;
      })
      (make_default || not (is_some current))
  pure i

unfoldable pub set_default_bank_account : ℕ → ℕ → Action (Unit {0})
set_default_bank_account i u = do
  found ← query (bank_account_for_user i u)
  account ← or_raise bank_account_not_found found
  set_default account.user_id account.id

unfoldable pub remove_bank_account : ℕ → ℕ → Action (Unit {0})
remove_bank_account i u = do
  found ← query (bank_account_for_user i u)
  account ← or_raise bank_account_not_found found
  pending ← query (has_pending_withdrawal account.id)
  raise_if pending bad_request
  deactivate account.id
