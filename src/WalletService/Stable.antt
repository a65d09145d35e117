-- ===== src/WalletService/Stable.antt =====
-- Invariants of a session over the operations of app/service/wallet_service.py.
use adehun_api.Prelude.{ℕ, refl, Bool, Option, none, some}
use adehun_api.Enums.{TransactionStatus, TransactionType, LedgerEntryStatus}
use adehun_api.Money.{Decimal}
use adehun_api.Reference.{Reference}
use adehun_api.Models.{PaystackTransaction}
use adehun_api.Errors.{Error}
use adehun_api.Session.{Session, Result, ok, err, uuid4}
use adehun_api.Session.Keeps.{Keeps, keeps_rules}
use adehun_api.WalletRepository.{
  LedgerResult, ensure_wallet, apply_entry, mark_entry_status, create_paystack_transaction,
  save_paystack_transaction, get_paystack_transaction, get_paystack_transaction_for_user,
}
use adehun_api.WalletRepository.Stable.{
  Stable, StablePayouts, Stable-Grows, apply_entry-keeps, apply_any_entry-keeps,
  apply_transfer-keeps, mark_entry_status-keeps, create_paystack_transaction-keeps,
  save_paystack_transaction-keeps, get_paystack_transaction-keeps,
  get_paystack_transaction_for_user-keeps,
}
use adehun_api.WalletRepository.Grows.{ensure_wallet-keeps}
use adehun_api.WalletService.{
  ProviderStatus, Provider, Settings, lock_escrow, release_escrow, refund_escrow,
  resolve_bank_account, save_if_found, reverse_withdrawal, reversal, withdrawal_debit,
  after_transfer, request_withdrawal, reconcile, get_withdrawal, get_balance, after_checkout,
  request_wallet_fund,
}

module _ {P : Session → Type 0} (stable : Stable P) where
  makes_wallet : (u : ℕ) → Keeps P (ensure_wallet u)
  makes_wallet = ensure_wallet-keeps (Stable-Grows stable)

  uuids : Keeps P uuid4
  uuids = stable.at_uuid4

  reverses :
      (ref u : ℕ) (amount : Decimal) (p : Option ℕ)
      → Keeps P (apply_entry (reversal ref u amount p))
  reverses ref u amount p = apply_entry-keeps stable (reversal ref u amount p) tt tt

  debits : (p : PaystackTransaction) → Keeps P (apply_entry (withdrawal_debit p))
  debits p = apply_entry-keeps stable (withdrawal_debit p) tt tt

  marks :
      (r : Reference) (status : LedgerEntryStatus) (stamped now : Bool)
      → Keeps P (mark_entry_status r status stamped now)
  marks = mark_entry_status-keeps stable

  creates :
      (u ref : ℕ) (amount : Decimal) (kind : TransactionType) (bank : Option ℕ) (now : Bool)
      → Keeps P (create_paystack_transaction u ref amount kind bank now)
  creates = create_paystack_transaction-keeps stable

  saves : (p : PaystackTransaction) (now : Bool) → Keeps P (save_paystack_transaction p now)
  saves = save_paystack_transaction-keeps stable

  gets : (ref : ℕ) → Keeps P (get_paystack_transaction ref)
  gets = get_paystack_transaction-keeps stable

  gets_for_user : (ref u : ℕ) → Keeps P (get_paystack_transaction_for_user ref u)
  gets_for_user = get_paystack_transaction_for_user-keeps stable

  pub lock_escrow-keeps :
      (u : ℕ) (amount : Decimal) (a : ℕ) (p c : Option ℕ) → Keeps P (lock_escrow u amount a p c)
  unfolding lock_escrow
  lock_escrow-keeps u amount a p c = apply_entry-keeps stable _ tt (a, refl, refl)

  module _ (payouts : StablePayouts P) where
    pub release_escrow-keeps :
        (a d b : ℕ) (amount : Decimal) → Keeps P (release_escrow a d b amount)
    unfolding release_escrow
    release_escrow-keeps a d b amount =
        apply_transfer-keeps stable payouts a _ _ (a, refl, refl) (a, refl, refl)

    pub refund_escrow-keeps : (a d : ℕ) (amount : Decimal) → Keeps P (refund_escrow a d amount)
    unfolding refund_escrow
    refund_escrow-keeps a d amount =
        apply_any_entry-keeps stable _ (λ i. payouts.at_entry i _ (a, refl, refl))

  resolve_bank_account-keeps : (u : ℕ) (b : Option ℕ) → Keeps P (resolve_bank_account u b)
  unfolding resolve_bank_account
  resolve_bank_account-keeps u none = search keeps_rules
  resolve_bank_account-keeps u (some i) = search keeps_rules

  save_if_found-keeps :
      (t : TransactionStatus) (o : Option PaystackTransaction) → Keeps P (save_if_found t o)
  save_if_found-keeps t none = search keeps_rules
  save_if_found-keeps t (some p) = search (keeps_rules, saves)

  pub reverse_withdrawal-keeps :
      (ref u : ℕ) (amount : Decimal) → Keeps P (reverse_withdrawal ref u amount)
  unfolding reverse_withdrawal
  reverse_withdrawal-keeps ref u amount =
      search (keeps_rules, reverses, marks, gets, save_if_found-keeps) depth 10

  after_transfer-keeps :
      (p : PaystackTransaction) (d : LedgerResult) (x : Result (Unit {0}))
      → Keeps P (after_transfer p d x)
  unfolding after_transfer
  after_transfer-keeps p d (ok _) = search (keeps_rules, saves)
  after_transfer-keeps p d (err Error.paystack_timeout) = search keeps_rules
  after_transfer-keeps p d (err _) = search (keeps_rules, reverse_withdrawal-keeps)

  pub request_withdrawal-keeps :
      (settings : Settings) (provider : Provider) (u : ℕ) (amount : Decimal) (b : Option ℕ)
      → Keeps P (request_withdrawal settings provider u amount b)
  unfolding request_withdrawal
  request_withdrawal-keeps settings provider u amount b =
      search
        (
          keeps_rules, uuids, reverses, debits, creates, resolve_bank_account-keeps,
          after_transfer-keeps,
        )
        depth 12

  reconcile-keeps : (p : PaystackTransaction) (x : Result ProviderStatus) → Keeps P (reconcile p x)
  unfolding reconcile
  reconcile-keeps p (ok ProviderStatus.success) = search (keeps_rules, marks, saves) depth 8
  reconcile-keeps p (ok _) = search (keeps_rules, reverse_withdrawal-keeps)
  reconcile-keeps p (err e) = search keeps_rules

  pub get_withdrawal-keeps :
      (provider : Provider) (u ref : ℕ) → Keeps P (get_withdrawal provider u ref)
  unfolding get_withdrawal
  get_withdrawal-keeps provider u ref =
      search (keeps_rules, gets_for_user, reconcile-keeps) depth 12

  pub get_balance-keeps : (u : ℕ) → Keeps P (get_balance u)
  unfolding get_balance
  get_balance-keeps u = search (keeps_rules, makes_wallet)

  after_checkout-keeps :
      (p : PaystackTransaction) (x : Result (Unit {0})) → Keeps P (after_checkout p x)
  unfolding after_checkout
  after_checkout-keeps p (ok _) = search keeps_rules
  after_checkout-keeps p (err e) = search (keeps_rules, saves) depth 10

  pub request_wallet_fund-keeps :
      (provider : Provider) (u : ℕ) (amount : Decimal)
      → Keeps P (request_wallet_fund provider u amount)
  unfolding request_wallet_fund
  request_wallet_fund-keeps provider u amount =
      search (keeps_rules, uuids, creates, after_checkout-keeps) depth 12
