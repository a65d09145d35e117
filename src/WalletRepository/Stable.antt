-- ===== src/WalletRepository/Stable.antt =====
-- Invariants of a session over the operations of app/repository/wallet_repository.py: `Stable P`
-- lists the single steps that are to keep `P`.
use adehun_api.Prelude.{ℕ, Bool, true, false, Option, none, some, List}
use adehun_api.Enums.{LedgerEntryStatus, TransactionType}
use adehun_api.Money.{Decimal}
use adehun_api.Reference.{Reference, esc_rel_out, esc_rel_in, IsPlain, IsFiled}
use adehun_api.Models.{Transaction, PaystackTransaction}
use adehun_api.Errors.{Error}
use adehun_api.Session.{Session, commit, rollback, wait_for_lock, uuid4, modify}
use adehun_api.Session.Keeps.{Keeps, keeps_rules}
use adehun_api.WalletRepository.Grows.{
  Grows, resolve_wallet_id-keeps, write_and_commit-keeps, write_both_and_commit-keeps,
}
use adehun_api.WalletRepository.{
  EntryRequest, LedgerLeg, create_wallet, resolve_wallet_id, apply_ledger_entry, write_and_commit,
  replay, replay_or_raise, entry_failed, apply_unless, apply_entry, replay_transfer,
  transfer_failed, write_both_and_commit, apply_transfer, set_status, commit_if, mark_found,
  mark_entry_status, add_paystack, write_paystack, create_paystack_transaction,
  save_paystack_transaction, get_paystack_transaction, get_paystack_transaction_for_user,
}

pub record Stable (P : Session → Type 0) : Type 0 where
  pub at_commit : Keeps P commit
  pub at_rollback : Keeps P rollback
  pub at_wait : Keeps P wait_for_lock
  pub at_uuid4 : Keeps P uuid4
  pub at_create_wallet : (u : ℕ) → Keeps P (create_wallet u)
  pub at_ledger_entry :
      (i : ℕ) (r : EntryRequest)
      → IsPlain r.reference
      → IsFiled r.entry_type r.agreement_id r.reference
      → Keeps P (apply_ledger_entry i r)
  pub at_set_status :
      (r : Reference) (status : LedgerEntryStatus) (stamped : Bool)
      → Keeps P (modify (set_status r status stamped))
  pub at_add_paystack : (p : PaystackTransaction) → Keeps P (modify (add_paystack p))
  pub at_write_paystack : (p : PaystackTransaction) → Keeps P (modify (write_paystack p))

-- The entries of the escrow payouts are kept too.
pub record StablePayouts (P : Session → Type 0) : Type 0 where
  pub at_entry :
      (i : ℕ) (r : EntryRequest)
      → IsFiled r.entry_type r.agreement_id r.reference
      → Keeps P (apply_ledger_entry i r)

pub Stable-Grows : {P : Session → Type 0} → Stable P → Grows P
Stable-Grows stable = record {
  at_commit = stable.at_commit;
  at_wait = stable.at_wait;
  at_create_wallet = stable.at_create_wallet;
}

module _ {P : Session → Type 0} (stable : Stable P) where
  open stable use {
    at_create_wallet, at_ledger_entry, at_set_status, at_add_paystack, at_write_paystack,
  }

  commits : Keeps P commit
  commits = stable.at_commit

  rolls_back : Keeps P rollback
  rolls_back = stable.at_rollback

  waits : Keeps P wait_for_lock
  waits = stable.at_wait

  uuids : Keeps P uuid4
  uuids = stable.at_uuid4

  resolves : (u : ℕ) → Keeps P (resolve_wallet_id u)
  resolves = resolve_wallet_id-keeps (Stable-Grows stable)

  pub replay-keeps : (e : Transaction) → Keeps P (replay e)
  unfolding replay
  replay-keeps e = search keeps_rules

  replay_or_raise-keeps : (x : Error) (o : Option Transaction) → Keeps P (replay_or_raise x o)
  replay_or_raise-keeps x none = search keeps_rules
  replay_or_raise-keeps x (some e) = search (keeps_rules, replay-keeps)

  pub entry_failed-keeps : (r : Reference) (e : Error) → Keeps P (entry_failed r e)
  unfolding entry_failed
  entry_failed-keeps r Error.integrity_error =
      search (keeps_rules, rolls_back, replay_or_raise-keeps)
  entry_failed-keeps r _ = search (keeps_rules, rolls_back)

  module _ (r : EntryRequest) (writes : (i : ℕ) → Keeps P (apply_ledger_entry i r)) where
    written : (i : ℕ) → Keeps P (write_and_commit i r)
    written = write_and_commit-keeps (Stable-Grows stable) r writes

    apply_unless-keeps : (o : Option Transaction) → Keeps P (apply_unless r o)
    apply_unless-keeps (some e) = replay-keeps e
    apply_unless-keeps none = search (keeps_rules, resolves, written, entry_failed-keeps)

    pub apply_any_entry-keeps : Keeps P (apply_entry r)
    unfolding apply_entry
    apply_any_entry-keeps = search (keeps_rules, apply_unless-keeps)

  pub apply_entry-keeps :
      (r : EntryRequest)
      → IsPlain r.reference
      → IsFiled r.entry_type r.agreement_id r.reference
      → Keeps P (apply_entry r)
  apply_entry-keeps r plain filed = apply_any_entry-keeps r (λ i. at_ledger_entry i r plain filed)

  pub replay_transfer-keeps : (g : ℕ) (es : List Transaction) → Keeps P (replay_transfer g es)
  unfolding replay_transfer
  replay_transfer-keeps g es = search keeps_rules

  pub transfer_failed-keeps : (g : ℕ) (e : Error) → Keeps P (transfer_failed g e)
  unfolding transfer_failed
  transfer_failed-keeps g Error.integrity_error =
      search (keeps_rules, rolls_back, replay_transfer-keeps) depth 10
  transfer_failed-keeps g _ = search (keeps_rules, rolls_back)

  module _ (payouts : StablePayouts P) (g : ℕ) (debit credit : LedgerLeg)
      (leaves : IsFiled debit.entry_type debit.agreement_id (esc_rel_out g))
      (arrives : IsFiled credit.entry_type credit.agreement_id (esc_rel_in g)) where
    pays : (i j : ℕ) → Keeps P (write_both_and_commit g i j debit credit)
    pays =
        write_both_and_commit-keeps (Stable-Grows stable) g debit credit
          (λ i. payouts.at_entry i _ leaves) (λ i. payouts.at_entry i _ arrives)

    pub apply_transfer-keeps : Keeps P (apply_transfer g debit credit)
    unfolding apply_transfer
    apply_transfer-keeps =
        search (keeps_rules, resolves, pays, transfer_failed-keeps, replay_transfer-keeps) depth 10

  commit_if-keeps : (b : Bool) → Keeps P (commit_if b)
  commit_if-keeps true = commits
  commit_if-keeps false = search keeps_rules

  mark_found-keeps :
      (r : Reference) (status : LedgerEntryStatus) (stamped now : Bool) (o : Option Transaction)
      → Keeps P (mark_found r status stamped now o)
  mark_found-keeps r status stamped now none = search keeps_rules
  mark_found-keeps r status stamped now (some e) =
      search (keeps_rules, at_set_status, commit_if-keeps) depth 10

  pub mark_entry_status-keeps :
      (r : Reference) (status : LedgerEntryStatus) (stamped now : Bool)
      → Keeps P (mark_entry_status r status stamped now)
  unfolding mark_entry_status
  mark_entry_status-keeps r status stamped now = search (keeps_rules, mark_found-keeps)

  pub create_paystack_transaction-keeps :
      (u ref : ℕ) (amount : Decimal) (kind : TransactionType) (bank : Option ℕ) (now : Bool)
      → Keeps P (create_paystack_transaction u ref amount kind bank now)
  unfolding create_paystack_transaction
  create_paystack_transaction-keeps u ref amount kind bank now =
      search (keeps_rules, uuids, at_add_paystack, commit_if-keeps) depth 10

  pub save_paystack_transaction-keeps :
      (p : PaystackTransaction) (now : Bool) → Keeps P (save_paystack_transaction p now)
  unfolding save_paystack_transaction
  save_paystack_transaction-keeps p now =
      search (keeps_rules, at_write_paystack, commit_if-keeps) depth 10

  pub get_paystack_transaction-keeps : (ref : ℕ) → Keeps P (get_paystack_transaction ref)
  unfolding get_paystack_transaction
  get_paystack_transaction-keeps ref = search (keeps_rules, waits)

  pub get_paystack_transaction_for_user-keeps :
      (ref u : ℕ) → Keeps P (get_paystack_transaction_for_user ref u)
  unfolding get_paystack_transaction_for_user
  get_paystack_transaction_for_user-keeps ref u = search keeps_rules
