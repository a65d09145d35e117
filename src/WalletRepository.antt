-- ===== src/WalletRepository.antt =====
-- app/repository/wallet_repository.py: the wallets, the ledger and the records of Paystack
-- transactions. Every movement of money goes through `apply_ledger_entry` (Entry), and a caller
-- commits it by `apply_entry` or `apply_transfer`. Left out: the deletion of cache keys, logging, and
-- the texts of an entry (description, metadata).
mod Types
mod Entry
pub mod Sums
pub mod Invariant
pub mod Outcome
pub mod Grows
pub mod Stable
pub mod Soundness
pub mod Replay
pub mod Payouts
pub mod Limits
pub mod Effect
pub use Types.*
unfoldable pub use Entry.*
use adehun_api.Prelude.{
  ℕ, ◌≡◌, Bool, true, false, not, ◌&&◌, ◌||◌, List, [], ◌∷◌, Option, none, some, find, select_all,
  any, length, update_where, if◌then◌else◌, leb, ◌==◌, ℤ, pos, negsuc, ◌+ℤ◌, ◌*ℤ◌, ltb_ℤ,
}
use adehun_api.Enums.{
  LedgerEntryType, LedgerDirection, LedgerEntryStatus, TransactionStatus, TransactionType,
}
use adehun_api.Money.{Decimal, quantize, is_positive, is_two_places}
use adehun_api.Reference.{Reference, esc_rel_out, esc_rel_in, same_reference}
use adehun_api.Models.{Db, Wallet, Transaction, PaystackTransaction}
use adehun_api.Errors.{
  Error, bad_request, wallet_not_found, insufficient_funds, insufficient_escrow_balance,
  integrity_error, stop_iteration,
}
use adehun_api.Session.{
  Action, pure, raise, query, or_raise, ◌>>=◌, ◌>>◌, try_except, raise_if, modify, uuid4, commit,
  rollback, wait_for_lock,
}

-- `_replay`
unfoldable pub replay : Transaction → Action LedgerResult
replay e = do
  row ← query (wallet_by_id e.wallet_id)
  w ← or_raise wallet_not_found row
  pure (record { entry = e; wallet = w; replayed = true })

abbrev pub replay_or_raise : Error → Option Transaction → Action LedgerResult
replay_or_raise error none = raise error
replay_or_raise error (some e) = replay e

-- The handlers of `apply_entry`: a lost race for the reference is a replay.
unfoldable pub entry_failed : Reference → Error → Action LedgerResult
entry_failed r Error.integrity_error = do
  rollback
  existing ← query (entry_by_reference r)
  replay_or_raise integrity_error existing
entry_failed r e = do rollback; raise e

-- The `try` block of `apply_entry` from the lock on, and the reload of the wallet after it.
unfoldable pub write_locked : ℕ → EntryRequest → Action LedgerResult
write_locked wallet_id r = do
  e ← apply_ledger_entry wallet_id r
  commit
  row ← query (wallet_by_id e.wallet_id)
  w ← or_raise wallet_not_found row
  pure (record { entry = e; wallet = w; replayed = false })

-- The `try` block of `apply_entry`.
unfoldable pub write_and_commit : ℕ → EntryRequest → Action LedgerResult
write_and_commit wallet_id r = do lock_wallet wallet_id; write_locked wallet_id r

abbrev pub apply_unless : EntryRequest → Option Transaction → Action LedgerResult
apply_unless r (some e) = replay e
apply_unless r none = do
  wallet_id ← resolve_wallet_id r.user_id
  try_except (write_and_commit wallet_id r) (entry_failed r.reference)

unfoldable pub apply_entry : EntryRequest → Action LedgerResult
apply_entry r = do existing ← query (entry_by_reference r.reference); apply_unless r existing

-- `_replay_transfer`
unfoldable pub replay_transfer : ℕ → List Transaction → Action TransferResult
replay_transfer g entries = do
  debit ← or_raise stop_iteration (find (λ e. same_reference e.reference (esc_rel_out g)) entries)
  credit ←
      or_raise stop_iteration (find (λ e. not (same_reference e.reference (esc_rel_out g))) entries)
  pure (record { debit = debit; credit = credit; replayed = true })

-- The handlers of `apply_transfer`.
unfoldable pub transfer_failed : ℕ → Error → Action TransferResult
transfer_failed g Error.integrity_error = do
  rollback
  existing ← query (entries_by_group g)
  if length existing == 2 then replay_transfer g existing else raise integrity_error
transfer_failed g e = do rollback; raise e

-- `_lock_wallets`: one statement for each different id, in ascending order.
unfoldable pub lock_wallets : ℕ → ℕ → Action (Unit {0})
lock_wallets i j = do
  lock_wallet (if leb i j then i else j)
  if i == j then pure tt else (do lock_wallet (if leb i j then j else i); pure tt)

-- The `try` block of `apply_transfer` from the locks on.
unfoldable pub write_legs : ℕ → ℕ → ℕ → LedgerLeg → LedgerLeg → Action TransferResult
write_legs g i j debit credit = do
  debit_entry ← apply_ledger_entry i (leg_request (esc_rel_out g) g debit)
  credit_entry ← apply_ledger_entry j (leg_request (esc_rel_in g) g credit)
  commit
  pure (record { debit = debit_entry; credit = credit_entry; replayed = false })

-- The `try` block of `apply_transfer`.
unfoldable pub write_both_and_commit : ℕ → ℕ → ℕ → LedgerLeg → LedgerLeg → Action TransferResult
write_both_and_commit g i j debit credit = do lock_wallets i j; write_legs g i j debit credit

-- The group `esc_rel_{g}` is given by `g`; no other groups are used.
unfoldable pub apply_transfer : ℕ → LedgerLeg → LedgerLeg → Action TransferResult
apply_transfer g debit credit = do
  existing ← query (entries_by_group g)
  if length existing == 2 then replay_transfer g existing else do
    debit_wallet_id ← resolve_wallet_id debit.user_id
    credit_wallet_id ← resolve_wallet_id credit.user_id
    try_except (write_both_and_commit g debit_wallet_id credit_wallet_id debit credit)
        (transfer_failed g)

-- The row that `mark_entry_status` leaves; `stamped` says that `processed_at` was passed.
unfoldable pub with_status : LedgerEntryStatus → Bool → Transaction → Transaction
with_status status stamped e = record e {
  status = status;
  processed = stamped || is_completed status || e.processed;
}

abbrev pub commit_if : Bool → Action (Unit {0})
commit_if true = commit
commit_if false = pure tt

abbrev pub set_status : Reference → LedgerEntryStatus → Bool → Db → Db
set_status r status stamped db = record db {
  entries =
      update_where (λ x. same_reference x.reference r) (with_status status stamped) db.entries;
}

abbrev pub mark_found :
    Reference → LedgerEntryStatus → Bool → Bool → Option Transaction → Action (Option Transaction)
mark_found r status stamped now none = pure none
mark_found r status stamped now (some e) = do
  modify (set_status r status stamped)
  commit_if now
  pure (some (with_status status stamped e))

unfoldable pub mark_entry_status :
    Reference → LedgerEntryStatus → Bool → Bool → Action (Option Transaction)
mark_entry_status r status stamped now = do
  found ← query (entry_by_reference r)
  mark_found r status stamped now found

unfoldable pub add_paystack : PaystackTransaction → Db → Db
add_paystack p db = record db { paystack = p ∷ db.paystack }

-- The changed ORM object is the row with its id.
unfoldable pub write_paystack : PaystackTransaction → Db → Db
write_paystack p db = record db { paystack = update_where (λ x. x.id == p.id) (λ _. p) db.paystack }

unfoldable pub create_paystack_transaction :
    ℕ → ℕ → Decimal → TransactionType → Option ℕ → Bool → Action PaystackTransaction
create_paystack_transaction user_id reference amount kind bank_account_id now = do
  i ← uuid4
  let row : PaystackTransaction = record {
    id = i;
    user_id = user_id;
    reference = reference;
    amount = amount;
    status = TransactionStatus.pending;
    transaction_type = kind;
    bank_account_id = bank_account_id;
  }
  modify (add_paystack row)
  commit_if now
  pure row

unfoldable pub save_paystack_transaction : PaystackTransaction → Bool → Action PaystackTransaction
save_paystack_transaction p now = do modify (write_paystack p); commit_if now; pure p

-- Takes the row lock.
unfoldable pub get_paystack_transaction : ℕ → Action (Option PaystackTransaction)
get_paystack_transaction reference = do
  wait_for_lock
  query (λ db. find (λ p. p.reference == reference) db.paystack)

unfoldable pub get_paystack_transaction_for_user : ℕ → ℕ → Action (Option PaystackTransaction)
get_paystack_transaction_for_user reference user_id =
    query (λ db. find (λ p. p.reference == reference && p.user_id == user_id) db.paystack)
