-- ===== src/WalletRepository/Types.antt =====
-- The arguments and results of the money movements of app/repository/wallet_repository.py.
use adehun_api.Prelude.{ℕ, Bool, true, false, Option, some}
use adehun_api.Enums.{LedgerEntryType, LedgerEntryStatus}
use adehun_api.Money.{Decimal}
use adehun_api.Reference.{Reference}
use adehun_api.Models.{Wallet, Transaction}

-- The keyword arguments of `apply_entry`.
pub record EntryRequest : Type 0 where
  pub user_id : ℕ
  pub entry_type : LedgerEntryType
  pub amount : Decimal
  pub reference : Reference
  pub status : LedgerEntryStatus
  pub group_id : Option ℕ
  pub agreement_id : Option ℕ
  pub participant_id : Option ℕ
  pub paystack_transaction_id : Option ℕ
  pub counterparty_user_id : Option ℕ

pub record LedgerLeg : Type 0 where
  pub user_id : ℕ
  pub entry_type : LedgerEntryType
  pub amount : Decimal
  pub agreement_id : Option ℕ
  pub participant_id : Option ℕ
  pub paystack_transaction_id : Option ℕ
  pub counterparty_user_id : Option ℕ

pub record LedgerResult : Type 0 where
  pub entry : Transaction
  pub wallet : Wallet
  pub replayed : Bool

pub record TransferResult : Type 0 where
  pub debit : Transaction
  pub credit : Transaction
  pub replayed : Bool

-- `status is LedgerEntryStatus.COMPLETED`
abbrev pub is_completed : LedgerEntryStatus → Bool
is_completed LedgerEntryStatus.completed = true
is_completed _ = false

-- `reference=..., group_id=group_id, **leg.as_kwargs()`; the status is the default of
-- `_apply_ledger_entry`.
abbrev pub leg_request : Reference → ℕ → LedgerLeg → EntryRequest
leg_request reference g leg = record {
  user_id = leg.user_id;
  entry_type = leg.entry_type;
  amount = leg.amount;
  reference = reference;
  status = LedgerEntryStatus.completed;
  group_id = some g;
  agreement_id = leg.agreement_id;
  participant_id = leg.participant_id;
  paystack_transaction_id = leg.paystack_transaction_id;
  counterparty_user_id = leg.counterparty_user_id;
}
