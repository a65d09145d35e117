-- ===== src/WalletRepository/Soundness.antt =====
-- The ledger's invariant over the steps and operations of app/repository/wallet_repository.py.
use mathlib.Core.Path.{subst}
use native.Mathlib.Numerals.{add-one}
use adehun_api.Prelude.{
  ℕ, ◌+◌, ◌≡◌, Bool, true, false, some, List, [], ◌∷◌, arith, update_where, ◌+ℤ◌, ltb_ℤ, pos, refl,
  sym, ◌∙◌, inl, inr,
}
use adehun_api.Enums.{LedgerEntryStatus}
use adehun_api.Reference.{Reference}
use adehun_api.Models.{Db, Wallet, Transaction, PaystackTransaction}
use adehun_api.Session.{
  Session, ◌>>=◌, modify, uuid4, commit, rollback, wait_for_lock, constraints, distinct_references,
  commit_cases,
}
use adehun_api.Session.Keeps.{Keeps}
use adehun_api.WalletRepository.{
  EntryRequest, write_entry, create_wallet, apply_ledger_entry, new_entry, wallet_by_id,
  with_status, set_status, add_paystack, write_paystack, apply_entry,
}
use adehun_api.WalletRepository.Sums.{find_id, sum_available, sum_escrow}
use adehun_api.WalletRepository.Outcome.{apply_ledger_entry_cases}
use adehun_api.WalletRepository.Stable.{Stable, StablePayouts, apply_any_entry-keeps}
use adehun_api.WalletRepository.Invariant.{
  IsLedger, IsSound, IsLedger-mono, insert_wallet-IsLedger, write_entry-IsLedger,
}

constraints_distinct : (db : Db) → constraints db ≡ true → distinct_references db.entries ≡ true
unfolding constraints
constraints_distinct db h = ground arith

pub commit-IsSound : Keeps IsSound commit
commit-IsSound = record {
  at = λ s h. elim (commit_cases s) [
    | inl (done, passed) ↦ rw done (record {
      committed = h.working;
      distinct = constraints_distinct s.working passed;
      working = h.working;
      concurrent = h.concurrent;
      concurrent_distinct = h.concurrent_distinct;
    })
    | inr (e, failed) ↦ rw failed h
  ];
}

pub rollback-IsSound : Keeps IsSound rollback
unfolding rollback
rollback-IsSound = record {
  at = λ s h. record {
    committed = h.committed;
    distinct = h.distinct;
    working = h.committed;
    concurrent = h.concurrent;
    concurrent_distinct = h.concurrent_distinct;
  };
}

pub wait_for_lock-IsSound : Keeps IsSound wait_for_lock
unfolding wait_for_lock
wait_for_lock-IsSound = record {
  at = λ s h. record {
    committed = h.concurrent s.next_id s.committed h.committed;
    distinct = h.concurrent_distinct s.committed h.distinct;
    working = h.concurrent s.next_id s.working h.working;
    concurrent = h.concurrent;
    concurrent_distinct = h.concurrent_distinct;
  };
}

-- A write of the open transaction.
pub modify-IsSound :
    (f : Db → Db)
    → ((n : ℕ) (db : Db) → IsLedger n db → IsLedger n (f db))
    → Keeps IsSound (modify f)
unfolding ◌>>=◌
modify-IsSound f keep = record {
  at = λ s h. record {
    committed = h.committed;
    distinct = h.distinct;
    working = keep s.next_id s.working h.working;
    concurrent = h.concurrent;
    concurrent_distinct = h.concurrent_distinct;
  };
}

pub uuid4-IsSound : Keeps IsSound uuid4
unfolding ◌>>=◌
uuid4-IsSound = record {
  at = λ s h. record {
    committed = IsLedger-mono s.next_id (s.next_id + 1) s.committed (omega arith) h.committed;
    distinct = h.distinct;
    working = IsLedger-mono s.next_id (s.next_id + 1) s.working (omega arith) h.working;
    concurrent = h.concurrent;
    concurrent_distinct = h.concurrent_distinct;
  };
}

-- A new wallet under a fresh id.
create_wallet-IsSound : (u : ℕ) → Keeps IsSound (create_wallet u)
unfolding create_wallet ◌>>=◌
create_wallet-IsSound u = record {
  at = λ s h. record {
    committed = IsLedger-mono s.next_id (s.next_id + 1) s.committed (omega arith) h.committed;
    distinct = h.distinct;
    working = rw add-one (insert_wallet-IsLedger s.next_id u s.working h.working);
    concurrent = h.concurrent;
    concurrent_distinct = h.concurrent_distinct;
  };
}

-- The deltas of a new entry are what its balances are moved by.
new_entry_sums :
    (w : Wallet) (r : EntryRequest)
    → ((new_entry w r).balance_after ≡ w.available_balance +ℤ (new_entry w r).available_delta)
      × ((new_entry w r).escrow_after ≡ w.escrow_balance +ℤ (new_entry w r).escrow_delta)
      × ((new_entry w r).wallet_id ≡ w.id)
unfolding new_entry
new_entry_sums w r = (refl, refl, refl)

written-IsLedger :
    (n : ℕ) (db : Db) (i : ℕ) (r : EntryRequest) {w : Wallet}
    → IsLedger n db
    → wallet_by_id i db ≡ some w
    → ltb_ℤ (new_entry w r).balance_after (pos 0) ≡ false
    → ltb_ℤ (new_entry w r).escrow_after (pos 0) ≡ false
    → IsLedger n (write_entry (new_entry w r) db)
written-IsLedger n db i r {w} h found a e =
    let (sum_a, sum_e, id) = new_entry_sums w r in
    let same = id ∙ find_id i db.wallets found in
    write_entry-IsLedger n db w (new_entry w r) h
      (subst (λ k. wallet_by_id k db ≡ some w) (sym same) found) sum_a sum_e (ground arith)
      (ground arith)

pub apply_ledger_entry-IsSound : (i : ℕ) (r : EntryRequest) → Keeps IsSound (apply_ledger_entry i r)
apply_ledger_entry-IsSound i r = record {
  at = λ s h. elim (apply_ledger_entry_cases i r s) [
    | inr (e, failed) ↦ rw failed h
    | inl (w, found, (_, _, a, b), done) ↦ rw done (record {
      committed = h.committed;
      distinct = h.distinct;
      working = written-IsLedger s.next_id s.working i r h.working found a b;
      concurrent = h.concurrent;
      concurrent_distinct = h.concurrent_distinct;
    })
  ];
}

module _ (p : Transaction → Bool) (status : LedgerEntryStatus) (stamped : Bool) (i : ℕ) where
  -- A status is no part of a sum.
  sum_available-status :
      (es : List Transaction)
      → sum_available i (update_where p (with_status status stamped) es) ≡ sum_available i es
  unfolding with_status
  sum_available-status [] = refl
  sum_available-status (e ∷ es) = ground (arith, sum_available-status es)

  sum_escrow-status :
      (es : List Transaction)
      → sum_escrow i (update_where p (with_status status stamped) es) ≡ sum_escrow i es
  unfolding with_status
  sum_escrow-status [] = refl
  sum_escrow-status (e ∷ es) = ground (arith, sum_escrow-status es)

set_status-IsLedger :
    (r : Reference) (status : LedgerEntryStatus) (stamped : Bool) (n : ℕ) (db : Db)
    → IsLedger n db
    → IsLedger n (set_status r status stamped db)
set_status-IsLedger r status stamped n db h = record {
  available_sum = λ i. rw sum_available-status (h.available_sum i);
  escrow_sum = λ i. rw sum_escrow-status (h.escrow_sum i);
  available_nonneg = h.available_nonneg;
  escrow_nonneg = h.escrow_nonneg;
  below = h.below;
  unique = h.unique;
}

-- A write that leaves the wallets and the entries alone.
pub add_paystack-IsSound : (p : PaystackTransaction) → Keeps IsSound (modify (add_paystack p))
unfolding add_paystack
add_paystack-IsSound p = modify-IsSound _ (λ n db h. h)

pub write_paystack-IsSound : (p : PaystackTransaction) → Keeps IsSound (modify (write_paystack p))
unfolding write_paystack
write_paystack-IsSound p = modify-IsSound _ (λ n db h. h)

set_status-IsSound :
    (r : Reference) (status : LedgerEntryStatus) (stamped : Bool)
    → Keeps IsSound (modify (set_status r status stamped))
set_status-IsSound r status stamped = modify-IsSound _ (set_status-IsLedger r status stamped)

-- Every step keeps the ledger sound, and so does every operation.
pub IsSound-stable : Stable IsSound
IsSound-stable = record {
  at_commit = commit-IsSound;
  at_rollback = rollback-IsSound;
  at_wait = wait_for_lock-IsSound;
  at_uuid4 = uuid4-IsSound;
  at_create_wallet = create_wallet-IsSound;
  at_ledger_entry = λ i r plain filed. apply_ledger_entry-IsSound i r;
  at_set_status = set_status-IsSound;
  at_add_paystack = add_paystack-IsSound;
  at_write_paystack = write_paystack-IsSound;
}

pub IsSound-payouts : StablePayouts IsSound
IsSound-payouts = record { at_entry = λ i r filed. apply_ledger_entry-IsSound i r }

-- A movement on one wallet keeps the ledger sound whether it returns, replays, raises or loses a
-- race.
pub apply_entry-IsSound : (r : EntryRequest) (s : Session) → IsSound s → IsSound (apply_entry r s).1
apply_entry-IsSound r =
    (apply_any_entry-keeps IsSound-stable r (λ i. apply_ledger_entry-IsSound i r)).at
