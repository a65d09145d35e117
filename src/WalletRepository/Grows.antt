-- ===== src/WalletRepository/Grows.antt =====
-- The locked part of `apply_entry` and `apply_transfer` of app/repository/wallet_repository.py, which
-- rolls nothing back: `Grows Q` lists the steps that are to keep `Q`, and the entries that are
-- written are a parameter.
use adehun_api.Prelude.{ℕ, Option, none, some}
use adehun_api.Reference.{esc_rel_out, esc_rel_in}
use adehun_api.Models.{Wallet}
use adehun_api.Session.{Session, commit, wait_for_lock}
use adehun_api.Session.Keeps.{Keeps, keeps_rules}
use adehun_api.WalletRepository.{
  EntryRequest, LedgerLeg, leg_request, create_wallet, ensure_wallet, or_ensure, resolve_wallet_id,
  lock_wallet, lock_wallets, apply_ledger_entry, write_locked, write_and_commit, write_legs,
  write_both_and_commit,
}

pub record Grows (Q : Session → Type 0) : Type 0 where
  pub at_commit : Keeps Q commit
  pub at_wait : Keeps Q wait_for_lock
  pub at_create_wallet : (u : ℕ) → Keeps Q (create_wallet u)

module _ {Q : Session → Type 0} (grows : Grows Q) where
  open grows use {at_create_wallet}

  commits : Keeps Q commit
  commits = grows.at_commit

  waits : Keeps Q wait_for_lock
  waits = grows.at_wait

  pub ensure_wallet-keeps : (u : ℕ) → Keeps Q (ensure_wallet u)
  unfolding ensure_wallet
  ensure_wallet-keeps u = search (keeps_rules, commits, at_create_wallet)

  or_ensure-keeps : (u : ℕ) (o : Option Wallet) → Keeps Q (or_ensure u o)
  or_ensure-keeps u none = search (keeps_rules, ensure_wallet-keeps)
  or_ensure-keeps u (some w) = search keeps_rules

  pub resolve_wallet_id-keeps : (u : ℕ) → Keeps Q (resolve_wallet_id u)
  unfolding resolve_wallet_id
  resolve_wallet_id-keeps u = search (keeps_rules, or_ensure-keeps)

  pub lock_wallet-keeps : (i : ℕ) → Keeps Q (lock_wallet i)
  unfolding lock_wallet
  lock_wallet-keeps i = search (keeps_rules, waits)

  lock_wallets-keeps : (i j : ℕ) → Keeps Q (lock_wallets i j)
  unfolding lock_wallets
  lock_wallets-keeps i j = search (keeps_rules, lock_wallet-keeps) depth 10

  module _ (r : EntryRequest) (writes : (i : ℕ) → Keeps Q (apply_ledger_entry i r)) where
    write_locked-keeps : (i : ℕ) → Keeps Q (write_locked i r)
    unfolding write_locked
    write_locked-keeps i = search (keeps_rules, writes, commits) depth 10

    pub write_and_commit-keeps : (i : ℕ) → Keeps Q (write_and_commit i r)
    unfolding write_and_commit
    write_and_commit-keeps i = search (keeps_rules, lock_wallet-keeps, write_locked-keeps)

  module _ (g : ℕ) (debit credit : LedgerLeg)
      (pays : (i : ℕ) → Keeps Q (apply_ledger_entry i (leg_request (esc_rel_out g) g debit)))
      (receives : (i : ℕ)
        → Keeps Q (apply_ledger_entry i (leg_request (esc_rel_in g) g credit))) where
    write_legs-keeps : (i j : ℕ) → Keeps Q (write_legs g i j debit credit)
    unfolding write_legs
    write_legs-keeps i j = search (keeps_rules, pays, receives, commits) depth 10

    pub write_both_and_commit-keeps : (i j : ℕ) → Keeps Q (write_both_and_commit g i j debit credit)
    unfolding write_both_and_commit
    write_both_and_commit-keeps i j = search (keeps_rules, lock_wallets-keeps, write_legs-keeps)
