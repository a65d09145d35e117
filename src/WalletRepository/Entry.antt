-- ===== src/WalletRepository/Entry.antt =====
-- The ledger of app/repository/wallet_repository.py up to `_apply_ledger_entry`: what each type of
-- entry does, the lookups, the wallets and their locks, and the one function that moves money.
use adehun_api.WalletRepository.Types.{EntryRequest, is_completed}
use adehun_api.Prelude.{
  ℕ, Bool, false, not, List, ◌∷◌, Option, none, some, find, select_all, any, update_where,
  if◌then◌else◌, ◌==◌, ℤ, pos, negsuc, ◌+ℤ◌, ◌*ℤ◌, ltb_ℤ,
}
use adehun_api.Enums.{LedgerEntryType, LedgerDirection}
use adehun_api.Money.{quantize, is_positive, is_two_places}
use adehun_api.Reference.{Reference, same_reference}
use adehun_api.Models.{Db, Wallet, Transaction}
use adehun_api.Errors.{
  bad_request, wallet_not_found, insufficient_funds, insufficient_escrow_balance,
}
use adehun_api.Session.{
  Action, pure, query, or_raise, ◌>>=◌, ◌>>◌, raise_if, modify, uuid4, commit, wait_for_lock,
}

-- `_LEDGER_EFFECTS`: the signs of (available, escrow)
unfoldable pub ledger_effects : LedgerEntryType → ℤ × ℤ
ledger_effects LedgerEntryType.deposit = (pos 1, pos 0)
ledger_effects LedgerEntryType.escrow_lock = (negsuc 0, pos 1)
ledger_effects LedgerEntryType.escrow_release_out = (pos 0, negsuc 0)
ledger_effects LedgerEntryType.escrow_release_in = (pos 1, pos 0)
ledger_effects LedgerEntryType.escrow_refund = (pos 1, negsuc 0)
ledger_effects LedgerEntryType.withdrawal = (negsuc 0, pos 0)
ledger_effects LedgerEntryType.withdrawal_reversal = (pos 1, pos 0)
ledger_effects LedgerEntryType.adjustment_credit = (pos 1, pos 0)
ledger_effects LedgerEntryType.adjustment_debit = (negsuc 0, pos 0)

-- `_LEDGER_DIRECTION`
unfoldable pub ledger_direction : LedgerEntryType → LedgerDirection
ledger_direction LedgerEntryType.deposit = LedgerDirection.credit
ledger_direction LedgerEntryType.escrow_lock = LedgerDirection.debit
ledger_direction LedgerEntryType.escrow_release_out = LedgerDirection.debit
ledger_direction LedgerEntryType.escrow_release_in = LedgerDirection.credit
ledger_direction LedgerEntryType.escrow_refund = LedgerDirection.credit
ledger_direction LedgerEntryType.withdrawal = LedgerDirection.debit
ledger_direction LedgerEntryType.withdrawal_reversal = LedgerDirection.credit
ledger_direction LedgerEntryType.adjustment_credit = LedgerDirection.credit
ledger_direction LedgerEntryType.adjustment_debit = LedgerDirection.debit

abbrev pub user_wallet : ℕ → Db → Option Wallet
user_wallet u db = find (λ w. w.user_id == u) db.wallets

abbrev pub wallet_by_id : ℕ → Db → Option Wallet
wallet_by_id i db = find (λ w. w.id == i) db.wallets

abbrev pub entry_by_reference : Reference → Db → Option Transaction
entry_by_reference r db = find (λ e. same_reference e.reference r) db.entries

abbrev in_group : ℕ → Option ℕ → Bool
in_group g none = false
in_group g (some h) = h == g

abbrev pub entries_by_group : ℕ → Db → List Transaction
entries_by_group g db = select_all (λ e. in_group g e.group_id) db.entries

-- INSERT ... ON CONFLICT (user_id) DO NOTHING
abbrev pub insert_wallet : ℕ → ℕ → Db → Db
insert_wallet i u db = if any (λ w. w.user_id == u) db.wallets then db else record db {
  wallets =
      record { id = i; user_id = u; available_balance = pos 0; escrow_balance = pos 0 }
      ∷ db.wallets;
}

-- The row that `ensure_wallet` inserts has a fresh id.
unfoldable pub create_wallet : ℕ → Action (Unit {0})
create_wallet u = do i ← uuid4; modify (insert_wallet i u)

unfoldable pub ensure_wallet : ℕ → Action Wallet
unfolding create_wallet
ensure_wallet u = do create_wallet u; commit; w ← query (user_wallet u); or_raise wallet_not_found w

abbrev pub or_ensure : ℕ → Option Wallet → Action ℕ
or_ensure u none = do w ← ensure_wallet u; pure w.id
or_ensure u (some w) = pure w.id

-- `_resolve_wallet_id`
unfoldable pub resolve_wallet_id : ℕ → Action ℕ
unfolding ensure_wallet
resolve_wallet_id u = do found ← query (user_wallet u); or_ensure u found

-- `_lock_wallet`
unfoldable pub lock_wallet : ℕ → Action Wallet
lock_wallet i = do wait_for_lock; w ← query (wallet_by_id i); or_raise wallet_not_found w

-- The row that `_apply_ledger_entry` adds for a wallet.
unfoldable pub new_entry : Wallet → EntryRequest → Transaction
new_entry w r =
    let (available_sign, escrow_sign) = ledger_effects r.entry_type in
    let available_delta = pos (quantize r.amount) *ℤ available_sign in
    let escrow_delta = pos (quantize r.amount) *ℤ escrow_sign in
    record {
      user_id = r.user_id;
      wallet_id = w.id;
      reference = r.reference;
      group_id = r.group_id;
      agreement_id = r.agreement_id;
      participant_id = r.participant_id;
      paystack_transaction_id = r.paystack_transaction_id;
      counterparty_user_id = r.counterparty_user_id;
      amount = r.amount;
      available_delta = available_delta;
      escrow_delta = escrow_delta;
      balance_after = w.available_balance +ℤ available_delta;
      escrow_after = w.escrow_balance +ℤ escrow_delta;
      type = r.entry_type;
      direction = ledger_direction r.entry_type;
      status = r.status;
      processed = is_completed r.status;
    }

-- The entry is added and the balances of its wallet are set.
unfoldable pub write_entry : Transaction → Db → Db
write_entry e db = record db {
  entries = e ∷ db.entries;
  wallets =
      update_where (λ w. w.id == e.wallet_id)
        (λ w. record w { available_balance = e.balance_after; escrow_balance = e.escrow_after })
        db.wallets;
}

-- `_apply_ledger_entry`. The locked ORM object is the row that the open transaction sees.
unfoldable pub apply_ledger_entry : ℕ → EntryRequest → Action Transaction
apply_ledger_entry wallet_id r = do
  raise_if (not (is_positive r.amount)) bad_request
  raise_if (not (is_two_places r.amount)) bad_request
  row ← query (wallet_by_id wallet_id)
  w ← or_raise wallet_not_found row
  let e = new_entry w r
  raise_if (ltb_ℤ e.balance_after (pos 0)) insufficient_funds
  raise_if (ltb_ℤ e.escrow_after (pos 0)) insufficient_escrow_balance
  modify (write_entry e)
  pure e
