-- ===== src/WalletRepository/Invariant.antt =====
-- The invariant at the head of app/repository/wallet_repository.py, for one database and for a
-- session: each balance is the sum of the deltas of its ledger rows, and no balance is negative.
use adehun_api.Prelude.{
  List, ℕ, suc, ◌≤◌, ◌≡◌, true, none, some, find, any, arith, if◌then◌else◌, ◌==◌, Bool-cases, inl,
  inr, pos, ◌+ℤ◌, ◌≤ℤ◌, int_laws,
}
use adehun_api.Models.{Db, Wallet, Transaction}
use adehun_api.Session.{Session, distinct_references}
use adehun_api.WalletRepository.{insert_wallet, write_entry, wallet_by_id}
use adehun_api.WalletRepository.Sums.{
  available_of, escrow_of, sum_available, sum_escrow, AllBelow, UniqueIds, AllBelow-mono,
  AllBelow-update, UniqueIds-update, find_below, available_of-find, escrow_of-find,
  available_of-update, escrow_of-update, available_of_missing, escrow_of_missing,
}

-- `n` is above every wallet id in use.
pub record IsBalanced (n : ℕ) (ws : List Wallet) (es : List Transaction) : Type 0 where
  pub available_sum : (i : ℕ) → available_of i ws ≡ sum_available i es
  pub escrow_sum : (i : ℕ) → escrow_of i ws ≡ sum_escrow i es
  pub available_nonneg : (i : ℕ) → pos 0 ≤ℤ available_of i ws
  pub escrow_nonneg : (i : ℕ) → pos 0 ≤ℤ escrow_of i ws
  pub below : AllBelow n ws
  pub unique : UniqueIds ws

abbrev pub IsLedger : ℕ → Db → Type 0
IsLedger n db = IsBalanced n db.wallets db.entries

-- Committed rows have distinct references as well. What other transactions commit keeps all this.
pub record IsSound (s : Session) : Type 0 where
  pub committed : IsLedger s.next_id s.committed
  pub distinct : distinct_references s.committed.entries ≡ true
  pub working : IsLedger s.next_id s.working
  pub concurrent : (n : ℕ) (db : Db) → IsLedger n db → IsLedger n (s.concurrent db)
  pub concurrent_distinct :
      (db : Db)
      → distinct_references db.entries ≡ true
      → distinct_references (s.concurrent db).entries ≡ true

pub IsLedger-mono : (n m : ℕ) (db : Db) → n ≤ m → IsLedger n db → IsLedger m db
IsLedger-mono n m db p h = record {
  available_sum = h.available_sum;
  escrow_sum = h.escrow_sum;
  available_nonneg = h.available_nonneg;
  escrow_nonneg = h.escrow_nonneg;
  below = AllBelow-mono n m db.wallets p h.below;
  unique = h.unique;
}

-- A new wallet has no rows, and its balances are zero.
pub insert_wallet-IsLedger :
    (n u : ℕ) (db : Db) → IsLedger n db → IsLedger (suc n) (insert_wallet n u db)
insert_wallet-IsLedger n u db h = elim (Bool-cases (any (λ w. w.user_id == u) db.wallets)) [
  | inl there ↦ rw there (IsLedger-mono n (suc n) db (omega arith) h)
  | inr new ↦ rw new (record {
    available_sum = λ i. ground (arith, h.available_sum i, available_zero, h.available_sum n);
    escrow_sum = λ i. ground (arith, h.escrow_sum i, escrow_zero);
    available_nonneg = λ i. ground (arith, h.available_nonneg i);
    escrow_nonneg = λ i. ground (arith, h.escrow_nonneg i);
    below = (omega arith, AllBelow-mono n (suc n) db.wallets (omega arith) h.below);
    unique = (missing, h.unique);
  })
]
  where
    missing : find (λ x. x.id == n) db.wallets ≡ none
    missing = find_below n n db.wallets h.below (omega arith)

    available_zero : available_of n db.wallets ≡ pos 0
    available_zero = available_of_missing n db.wallets missing

    escrow_zero : escrow_of n db.wallets ≡ pos 0
    escrow_zero = escrow_of_missing n db.wallets missing

-- Writing a row whose balances are its wallet's balances plus its deltas, none of them negative.
pub write_entry-IsLedger :
    (n : ℕ) (db : Db) (w : Wallet) (e : Transaction)
    → IsLedger n db
    → wallet_by_id e.wallet_id db ≡ some w
    → e.balance_after ≡ w.available_balance +ℤ e.available_delta
    → e.escrow_after ≡ w.escrow_balance +ℤ e.escrow_delta
    → pos 0 ≤ℤ e.balance_after
    → pos 0 ≤ℤ e.escrow_after
    → IsLedger n (write_entry e db)
unfolding write_entry
write_entry-IsLedger n db w e h found sum_a sum_e pos_a pos_e = record {
  available_sum =
      λ i. grind (int_laws, h.available_sum i, h.available_sum e.wallet_id, now_a i, had_a);
  escrow_sum = λ i. grind (int_laws, h.escrow_sum i, h.escrow_sum e.wallet_id, now_e i, had_e);
  available_nonneg = λ i. ground (arith, h.available_nonneg i, now_a i);
  escrow_nonneg = λ i. ground (arith, h.escrow_nonneg i, now_e i);
  below = AllBelow-update e.wallet_id e.balance_after e.escrow_after n db.wallets h.below;
  unique = UniqueIds-update e.wallet_id e.balance_after e.escrow_after db.wallets h.unique;
}
  where
    now_a :
        (i : ℕ)
        → available_of i (write_entry e db).wallets
          ≡ (if e.wallet_id == i then e.balance_after else available_of i db.wallets)
    now_a i = available_of-update e.wallet_id e.balance_after e.escrow_after i db.wallets found

    now_e :
        (i : ℕ)
        → escrow_of i (write_entry e db).wallets
          ≡ (if e.wallet_id == i then e.escrow_after else escrow_of i db.wallets)
    now_e i = escrow_of-update e.wallet_id e.balance_after e.escrow_after i db.wallets found

    had_a : available_of e.wallet_id db.wallets ≡ w.available_balance
    had_a = available_of-find e.wallet_id db.wallets found

    had_e : escrow_of e.wallet_id db.wallets ≡ w.escrow_balance
    had_e = escrow_of-find e.wallet_id db.wallets found
