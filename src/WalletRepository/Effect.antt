-- ===== src/WalletRepository/Effect.antt =====
-- `apply_entry` of app/repository/wallet_repository.py on a database where nobody interferes: what
-- each type of entry does to the balances.
use adehun_api.Prelude.{
  ℕ, ◌≡◌, refl, ap, ◌∙◌, true, false, not, ◌∷◌, none, some, select_all, ◌==◌, ==_refl, find-update,
  find-update_other, ℤ, pos, ◌+ℤ◌, ◌-ℤ◌, ◌*ℤ◌, ltb_ℤ, mul_one, mul_zero, mul_neg_one,
}
use adehun_api.Enums.{LedgerEntryType}
use adehun_api.Money.{quantize, is_positive, is_two_places}
use adehun_api.Reference.{same_refl}
use adehun_api.Models.{Db, Wallet, Transaction}
use adehun_api.Session.{Session, ok, fresh, ◌>>=◌, commit, wait_for_lock}
use adehun_api.Session.Commits.{IsCommittable}
use adehun_api.WalletRepository.{
  EntryRequest, LedgerResult, wallet_by_id, user_wallet, entry_by_reference, ledger_effects,
  new_entry, write_entry, lock_wallet, resolve_wallet_id, apply_ledger_entry, write_locked,
  write_and_commit, apply_entry,
}
use adehun_api.WalletRepository.Limits.{
  is_balance, others-update_id, not_less, write_entry-IsCommittable,
}
use adehun_api.WalletRepository.Sums.{UniqueIds, find_by_id_of_find, set_balances}

abbrev minus : ℕ → ℤ
minus m = pos 0 -ℤ pos m

-- How a movement of `m` kobo changes the available balance and the escrow balance.
abbrev pub change : LedgerEntryType → ℕ → ℤ × ℤ
change LedgerEntryType.deposit m = (pos m, pos 0)
change LedgerEntryType.escrow_lock m = (minus m, pos m)
change LedgerEntryType.escrow_release_out m = (pos 0, minus m)
change LedgerEntryType.escrow_release_in m = (pos m, pos 0)
change LedgerEntryType.escrow_refund m = (pos m, minus m)
change LedgerEntryType.withdrawal m = (minus m, pos 0)
change LedgerEntryType.withdrawal_reversal m = (pos m, pos 0)
change LedgerEntryType.adjustment_credit m = (pos m, pos 0)
change LedgerEntryType.adjustment_debit m = (minus m, pos 0)

-- The balances after a request.
abbrev pub available_after : Wallet → EntryRequest → ℤ
available_after w r = w.available_balance +ℤ (change r.entry_type (quantize r.amount)).0

abbrev pub escrow_after : Wallet → EntryRequest → ℤ
escrow_after w r = w.escrow_balance +ℤ (change r.entry_type (quantize r.amount)).1

signs :
    (t : LedgerEntryType) (m : ℕ)
    → (pos m *ℤ (ledger_effects t).0 ≡ (change t m).0)
      × (pos m *ℤ (ledger_effects t).1 ≡ (change t m).1)
unfolding ledger_effects
signs LedgerEntryType.deposit m = (mul_one m, mul_zero m)
signs LedgerEntryType.escrow_lock m = (mul_neg_one m, mul_one m)
signs LedgerEntryType.escrow_release_out m = (mul_zero m, mul_neg_one m)
signs LedgerEntryType.escrow_release_in m = (mul_one m, mul_zero m)
signs LedgerEntryType.escrow_refund m = (mul_one m, mul_neg_one m)
signs LedgerEntryType.withdrawal m = (mul_neg_one m, mul_zero m)
signs LedgerEntryType.withdrawal_reversal m = (mul_one m, mul_zero m)
signs LedgerEntryType.adjustment_credit m = (mul_one m, mul_zero m)
signs LedgerEntryType.adjustment_debit m = (mul_neg_one m, mul_zero m)

-- A session that nobody interferes with, with what was committed and what its transaction sees.
abbrev pub opened : Db → Db → ℕ → Session
opened saved db n = record (fresh db n) { committed = saved }

-- A movement was committed: its entry was added to the ledger, and the balances of the user's wallet
-- changed by the rounded amount as its type says, and no other wallet did.
pub record IsPosted (r : EntryRequest) (saved db : Db) (n : ℕ) (w : Wallet) : Type 0 where
  pub result : LedgerResult
  pub after : Db
  pub runs : apply_entry r (opened saved db n) ≡ (ok result, fresh after n)
  pub is_new : result.replayed ≡ false
  pub logged : after.entries ≡ result.entry ∷ db.entries
  pub named : result.entry.reference ≡ r.reference
  pub found : entry_by_reference r.reference after ≡ some result.entry
  pub wallet : user_wallet r.user_id after ≡ some result.wallet
  pub available : result.wallet.available_balance ≡ available_after w r
  pub escrow : result.wallet.escrow_balance ≡ escrow_after w r
  pub others :
      select_all (λ v. not (v.id == w.id)) after.wallets
      ≡ select_all (λ v. not (v.id == w.id)) db.wallets

module _ (r : EntryRequest) (saved db : Db) (n : ℕ) (w : Wallet) where
  abbrev entry : Transaction
  entry = new_entry w r

  abbrev moved : Wallet
  moved = set_balances entry.balance_after entry.escrow_after w

  new_entry-available : entry.balance_after ≡ available_after w r
  unfolding new_entry
  new_entry-available =
      ap (λ x. w.available_balance +ℤ x) (signs r.entry_type (quantize r.amount)).0

  new_entry-escrow : entry.escrow_after ≡ escrow_after w r
  unfolding new_entry
  new_entry-escrow = ap (λ x. w.escrow_balance +ℤ x) (signs r.entry_type (quantize r.amount)).1

  moved_row :
      wallet_by_id w.id db ≡ some w
      → wallet_by_id entry.wallet_id (write_entry entry db) ≡ some moved
  unfolding new_entry write_entry
  moved_row h =
      find-update (λ x. x.id == w.id) (set_balances entry.balance_after entry.escrow_after)
        db.wallets (λ x here. here) h

  entry_reference : entry.reference ≡ r.reference
  unfolding new_entry
  entry_reference = refl

  -- Where nobody interferes and what the open transaction sees satisfies the constraints, a
  -- movement of a positive amount of whole kobo, under a reference that is not in use, for a
  -- user with a wallet, by which each of its balances stays at least 0 and below 10^12 kobo, is
  -- committed: the ledger has the new entry, the two balances change by the amount as the table
  -- of entry types says, and the other wallets are as before.
  pub apply_entry_effect :
      IsCommittable db
      → UniqueIds db.wallets
      → user_wallet r.user_id db ≡ some w
      → entry_by_reference r.reference db ≡ none
      → is_positive r.amount ≡ true
      → is_two_places r.amount ≡ true
      → is_balance (available_after w r) ≡ true
      → is_balance (escrow_after w r) ≡ true
      → IsPosted r saved db n w
  unfolding apply_entry resolve_wallet_id write_and_commit write_locked lock_wallet wait_for_lock
      apply_ledger_entry commit ◌>>=◌
  apply_entry_effect good unique owned new positive places covered held = record {
    result = record { entry = entry; wallet = moved; replayed = false };
    after = write_entry entry db;
    runs = rw (
      new,
      owned,
      by_id,
      positive,
      places,
      by_id,
      afloat,
      solvent,
      kept.0,
      kept.1,
      moved_row by_id,
    );
    is_new = refl;
    named = entry_reference;
    logged = unfold write_entry in refl;
    found = unfold write_entry new_entry in rw (same_refl r.reference) refl;
    wallet =
        unfold write_entry new_entry in
        find-update_other (λ x. x.user_id == r.user_id) (λ x. x.id == w.id)
          (set_balances entry.balance_after entry.escrow_after) db.wallets (λ x. refl) owned
          (==_refl w.id);
    available = new_entry-available;
    escrow = new_entry-escrow;
    others =
        unfold write_entry new_entry in
        others-update_id w.id (set_balances entry.balance_after entry.escrow_after) db.wallets
          (λ x. refl);
  }
    where
      by_id : wallet_by_id w.id db ≡ some w
      by_id = find_by_id_of_find (λ x. x.user_id == r.user_id) db.wallets unique owned

      in_range : is_balance entry.balance_after ≡ true
      in_range = ap is_balance new_entry-available ∙ covered

      in_escrow : is_balance entry.escrow_after ≡ true
      in_escrow = ap is_balance new_entry-escrow ∙ held

      afloat : ltb_ℤ entry.balance_after (pos 0) ≡ false
      afloat = not_less entry.balance_after in_range

      solvent : ltb_ℤ entry.escrow_after (pos 0) ≡ false
      solvent = not_less entry.escrow_after in_escrow

      kept : IsCommittable (write_entry entry db)
      kept = write_entry-IsCommittable entry db good (rw entry_reference new) in_range in_escrow
