-- ===== src/WalletService.antt =====
-- app/service/wallet_service.py: escrow movements and withdrawals. What Paystack answers is a
-- parameter (`Provider`), and so are the settings. Left out: the texts of an entry and of a failure,
-- `transfer_code` and `paystack_id`, and what a response repeats.
pub mod Stable
pub mod Release
pub mod Reversal
use adehun_api.Prelude.{
  ℕ, Bool, true, false, not, ◌&&◌, Option, none, some, find, if◌then◌else◌, ◌==◌, ℤ,
}
use adehun_api.Enums.{
  LedgerEntryType, LedgerEntryStatus, TransactionStatus, TransactionType, is_pending,
}
use adehun_api.Money.{Decimal, less, to_kobo}
use adehun_api.Reference.{Reference, esc_lock, esc_ref, wd, wdrev}
use adehun_api.Models.{Db, Wallet, PaystackTransaction, BankAccount}
use adehun_api.Errors.{
  Error, bad_request, withdrawal_not_allowed, bank_account_not_found, transaction_not_found,
  is_paystack_error,
}
use adehun_api.Session.{
  Result, ok, err, Action, pure, raise, query, or_raise, ◌>>=◌, ◌>>◌, raise_if, uuid4,
}
use adehun_api.WalletRepository.{
  EntryRequest, LedgerLeg, LedgerResult, TransferResult, user_wallet, ensure_wallet, apply_entry,
  apply_transfer, mark_entry_status, create_paystack_transaction, save_paystack_transaction,
  get_paystack_transaction, get_paystack_transaction_for_user,
}

-- The texts that Paystack gives as the status of a transfer or a charge, in lower case.
pub data ProviderStatus : Type 0 where
  success failed reversed abandoned unknown : ProviderStatus

pub data Currency : Type 0 where
  ngn other : Currency

-- The fields of a verified charge that are read.
pub record Charge : Type 0 where
  pub status : ProviderStatus
  pub currency : Option Currency
  pub amount : Option ℤ

-- What `paystack_client` answers, for an amount in kobo and a reference.
pub record Provider : Type 0 where
  pub initiate_transfer : ℤ → ℕ → Result (Unit {0})
  pub verify_transfer : ℕ → Result ProviderStatus
  pub verify_transaction : ℕ → Result Charge
  pub initialize_transaction : ℤ → ℕ → Result (Unit {0})

-- The fields of app/config.py that are read.
pub record Settings : Type 0 where
  pub paystack_transfers_enabled : Bool
  pub withdrawal_min_amount : Decimal
  pub withdrawal_max_amount : Decimal

pub record WithdrawalResponse : Type 0 where
  pub reference : ℕ
  pub amount : Decimal
  pub status : TransactionStatus
  pub available_balance : Option ℤ

abbrev pub balance_of : Option Wallet → Option ℤ
balance_of none = none
balance_of (some w) = some w.available_balance

unfoldable pub lock_escrow : ℕ → Decimal → ℕ → Option ℕ → Option ℕ → Action LedgerResult
lock_escrow user_id amount agreement_id participant_id counterparty_user_id = apply_entry (record {
  user_id = user_id;
  entry_type = LedgerEntryType.escrow_lock;
  amount = amount;
  reference = esc_lock agreement_id;
  status = LedgerEntryStatus.completed;
  group_id = none;
  agreement_id = some agreement_id;
  participant_id = participant_id;
  paystack_transaction_id = none;
  counterparty_user_id = counterparty_user_id;
})

abbrev pub release_leg : LedgerEntryType → ℕ → ℕ → ℕ → Decimal → LedgerLeg
release_leg entry_type agreement_id user_id counterparty amount = record {
  user_id = user_id;
  entry_type = entry_type;
  amount = amount;
  agreement_id = some agreement_id;
  participant_id = none;
  paystack_transaction_id = none;
  counterparty_user_id = some counterparty;
}

unfoldable pub release_escrow : ℕ → ℕ → ℕ → Decimal → Action TransferResult
release_escrow agreement_id depositor beneficiary amount =
    apply_transfer agreement_id
      (release_leg LedgerEntryType.escrow_release_out agreement_id depositor beneficiary amount)
      (release_leg LedgerEntryType.escrow_release_in agreement_id beneficiary depositor amount)

unfoldable pub refund_escrow : ℕ → ℕ → Decimal → Action LedgerResult
refund_escrow agreement_id depositor amount = apply_entry (record {
  user_id = depositor;
  entry_type = LedgerEntryType.escrow_refund;
  amount = amount;
  reference = esc_ref agreement_id;
  status = LedgerEntryStatus.completed;
  group_id = none;
  agreement_id = some agreement_id;
  participant_id = none;
  paystack_transaction_id = none;
  counterparty_user_id = none;
})

-- `get_balance` and `get_wallet_state_for_ws`: the wallet is created on the first read.
unfoldable pub get_balance : ℕ → Action (ℤ × ℤ)
get_balance user_id = do w ← ensure_wallet user_id; pure (w.available_balance, w.escrow_balance)

-- What follows `initialize_transaction`; another error than Paystack's leaves the row pending.
unfoldable pub after_checkout : PaystackTransaction → Result (Unit {0}) → Action ℕ
after_checkout p (ok _) = pure p.reference
after_checkout p (err e) =
    if is_paystack_error e
    then (do
      save_paystack_transaction (record p { status = TransactionStatus.failed }) true
      raise e)
    else raise e

-- BankAccountRepository.get_for_user and get_default_for_user
abbrev pub bank_account_for_user : ℕ → ℕ → Db → Option BankAccount
bank_account_for_user i u db =
    find (λ a. a.id == i && a.user_id == u && a.is_active) db.bank_accounts

abbrev pub default_bank_account : ℕ → Db → Option BankAccount
default_bank_account u db =
    find (λ a. a.user_id == u && a.is_default && a.is_active) db.bank_accounts

-- `_resolve_bank_account`
unfoldable pub resolve_bank_account : ℕ → Option ℕ → Action BankAccount
resolve_bank_account u (some i) = do
  account ← query (bank_account_for_user i u)
  or_raise bank_account_not_found account
resolve_bank_account u none = do
  account ← query (default_bank_account u)
  or_raise bank_account_not_found account

abbrev pub save_if_found : TransactionStatus → Option PaystackTransaction → Action (Unit {0})
save_if_found status none = pure tt
save_if_found status (some p) = do
  save_paystack_transaction (record p { status = status }) false
  pure tt

abbrev pub reversal : ℕ → ℕ → Decimal → Option ℕ → EntryRequest
reversal reference user_id amount paystack_id = record {
  user_id = user_id;
  entry_type = LedgerEntryType.withdrawal_reversal;
  amount = amount;
  reference = wdrev reference;
  status = LedgerEntryStatus.completed;
  group_id = none;
  agreement_id = none;
  participant_id = none;
  paystack_transaction_id = paystack_id;
  counterparty_user_id = none;
}

-- `_reverse_withdrawal`
unfoldable pub reverse_withdrawal : ℕ → ℕ → Decimal → Action (Unit {0})
reverse_withdrawal reference user_id amount = do
  found ← get_paystack_transaction reference
  save_if_found TransactionStatus.failed found
  mark_entry_status (wd reference) LedgerEntryStatus.reversed false false
  apply_entry (reversal reference user_id amount none)
  pure tt

abbrev pub withdrawal_response : PaystackTransaction → Option ℤ → WithdrawalResponse
withdrawal_response p balance = record {
  reference = p.reference;
  amount = p.amount;
  status = p.status;
  available_balance = balance;
}

-- What follows `initiate_transfer`: its two `except` clauses, or the success. An unknown outcome
-- leaves everything pending; a refusal puts the money back and raises.
unfoldable pub after_transfer :
    PaystackTransaction → LedgerResult → Result (Unit {0}) → Action WithdrawalResponse
after_transfer p debit (ok _) = do
  save_paystack_transaction p true
  pure (withdrawal_response p (some debit.wallet.available_balance))
after_transfer p debit (err Error.paystack_timeout) =
    pure (withdrawal_response p (some debit.wallet.available_balance))
after_transfer p debit (err Error.paystack_duplicate_reference) =
    pure (withdrawal_response p (some debit.wallet.available_balance))
after_transfer p debit (err e) =
    if is_paystack_error e
    then (do reverse_withdrawal p.reference p.user_id p.amount; raise e)
    else raise e

-- The debit of a withdrawal.
abbrev pub withdrawal_debit : PaystackTransaction → EntryRequest
withdrawal_debit p = record {
  user_id = p.user_id;
  entry_type = LedgerEntryType.withdrawal;
  amount = p.amount;
  reference = wd p.reference;
  status = LedgerEntryStatus.pending;
  group_id = none;
  agreement_id = none;
  participant_id = none;
  paystack_transaction_id = some p.id;
  counterparty_user_id = none;
}

module _ (settings : Settings) (provider : Provider) where
  -- `payload` is the amount and the account. The reference is a fresh id.
  unfoldable pub request_withdrawal : ℕ → Decimal → Option ℕ → Action WithdrawalResponse
  request_withdrawal user_id amount bank_account_id = do
    raise_if (not settings.paystack_transfers_enabled) withdrawal_not_allowed
    raise_if (less amount settings.withdrawal_min_amount) bad_request
    raise_if (less settings.withdrawal_max_amount amount) bad_request
    account ← resolve_bank_account user_id bank_account_id
    reference ← uuid4
    p ←
        create_paystack_transaction user_id reference amount TransactionType.withdrawal
          (some account.id) false
    debit ← apply_entry (withdrawal_debit p)
    after_transfer p debit (provider.initiate_transfer (to_kobo amount) reference)

module _ (provider : Provider) where
  -- The row is committed before Paystack is asked. The reference is a fresh id.
  unfoldable pub request_wallet_fund : ℕ → Decimal → Action ℕ
  request_wallet_fund user_id amount = do
    reference ← uuid4
    p ←
        create_paystack_transaction user_id reference amount TransactionType.escrow_deposit none
          true
    after_checkout p (provider.initialize_transaction (to_kobo amount) reference)

-- What `_reconcile_pending_withdrawal` does with the answer of `verify_transfer`.
unfoldable pub reconcile : PaystackTransaction → Result ProviderStatus → Action (Unit {0})
reconcile p (ok ProviderStatus.success) = do
  save_paystack_transaction (record p { status = TransactionStatus.success }) false
  mark_entry_status (wd p.reference) LedgerEntryStatus.completed false true
  pure tt
reconcile p (ok ProviderStatus.unknown) = pure tt
reconcile p (ok _) = reverse_withdrawal p.reference p.user_id p.amount
reconcile p (err e) = if is_paystack_error e then pure tt else raise e

module _ (provider : Provider) where
  abbrev pub reconcile_pending : PaystackTransaction → Action (Unit {0})
  reconcile_pending p = reconcile p (provider.verify_transfer p.reference)

  unfoldable pub get_withdrawal : ℕ → ℕ → Action WithdrawalResponse
  get_withdrawal user_id reference = do
    found ← get_paystack_transaction_for_user reference user_id
    p ← or_raise transaction_not_found found
    if is_pending p.status then reconcile_pending p else pure tt
    now ← get_paystack_transaction_for_user reference user_id
    row ← or_raise transaction_not_found now
    w ← query (user_wallet user_id)
    pure (withdrawal_response row (balance_of w))
