-- ===== src/WalletService/Reversal.antt =====
-- `_reverse_withdrawal` of app/service/wallet_service.py where nobody interferes.
use adehun_api.Prelude.{
  ℕ, ◌≡◌, refl, ap, ◌∙◌, Bool, true, false, List, [], ◌∷◌, none, some, find, update_where, ◌==◌,
  arith, any-update, find-update, find-update_other_none, ℤ, pos, ◌+ℤ◌, int_laws,
}
use adehun_api.Enums.{LedgerEntryStatus, TransactionStatus}
use adehun_api.Money.{Decimal, quantize, is_positive, is_two_places}
use adehun_api.Reference.{wd, wdrev, same_reference}
use adehun_api.Models.{Db, Wallet, Transaction, PaystackTransaction}
use adehun_api.Session.{Session, ok, fresh, ◌>>=◌, constraints, distinct_references, wait_for_lock}
use adehun_api.Session.Commits.{IsCommittable}
use adehun_api.WalletRepository.{
  EntryRequest, user_wallet, entry_by_reference, with_status, set_status, mark_entry_status,
  write_paystack, save_paystack_transaction, get_paystack_transaction,
}
use adehun_api.WalletRepository.Limits.{is_balance}
use adehun_api.WalletRepository.Sums.{UniqueIds}
use adehun_api.WalletRepository.Effect.{IsPosted, apply_entry_effect}
use adehun_api.WalletService.{reversal, reverse_withdrawal}

distinct_references-update :
    (q : Transaction → Bool) (f : Transaction → Transaction) (es : List Transaction)
    → ((e : Transaction) → (f e).reference ≡ e.reference)
    → distinct_references (update_where q f es) ≡ distinct_references es
unfolding distinct_references
distinct_references-update q f [] keep = refl
distinct_references-update q f (e ∷ es) keep = ground (
  arith,
  keep e,
  any-update (λ x. same_reference e.reference x.reference) q f es,
  distinct_references-update q f es keep,
)

-- The database before the reversal is booked: the withdrawal has failed and its debit is reversed.
abbrev pub given_up : PaystackTransaction → Db → Db
given_up row db =
    set_status (wd row.reference) LedgerEntryStatus.reversed false
      (write_paystack (record row { status = TransactionStatus.failed }) db)

given_up-IsCommittable :
    (row : PaystackTransaction) (db : Db) → IsCommittable db → IsCommittable (given_up row db)
unfolding write_paystack constraints with_status
given_up-IsCommittable row db (fits, good) = (fits, same ∙ good)
  where
    same : constraints (given_up row db) ≡ constraints db
    same =
        rw
          (distinct_references-update (λ x. same_reference x.reference (wd row.reference))
            (with_status LedgerEntryStatus.reversed false) db.entries (λ e. refl))
          refl

-- The database satisfies its constraints and has the withdrawal, its user's wallet and its debit, which
-- was not put back; with the amount of the withdrawal the balance stays below 10^12 kobo.
pub record IsDebited (row : PaystackTransaction) (debit : Transaction) (db : Db) (w : Wallet)
    : Type 0 where
  pub good : IsCommittable db
  pub unique : UniqueIds db.wallets
  pub known : find (λ p. p.reference == row.reference) db.paystack ≡ some row
  pub owned : user_wallet row.user_id db ≡ some w
  pub debited : entry_by_reference (wd row.reference) db ≡ some debit
  pub new : entry_by_reference (wdrev row.reference) db ≡ none
  pub positive : is_positive row.amount ≡ true
  pub places : is_two_places row.amount ≡ true
  pub fits : is_balance (w.available_balance +ℤ pos (quantize row.amount)) ≡ true
  pub holds : is_balance w.escrow_balance ≡ true

-- The debit of a withdrawal was put back and marked as reversed.
pub record IsReversed (reference u : ℕ) (amount : Decimal) (w : Wallet) (debit : Transaction)
    (t : Session) : Type 0 where
  pub saved : t.committed ≡ t.working
  pub wallet : Wallet
  pub found : user_wallet u t.committed ≡ some wallet
  pub available : wallet.available_balance ≡ w.available_balance +ℤ pos (quantize amount)
  pub escrow : wallet.escrow_balance ≡ w.escrow_balance
  pub credit : Transaction
  pub booked : entry_by_reference (wdrev reference) t.committed ≡ some credit
  pub marked :
      entry_by_reference (wd reference) t.committed
      ≡ some (record debit { status = LedgerEntryStatus.reversed })

plus_zero : (x : ℤ) → x +ℤ pos 0 ≡ x
plus_zero x = grind int_laws

module _ (row : PaystackTransaction) (debit : Transaction) (db : Db) (n : ℕ) (w : Wallet) where
  abbrev put_back : EntryRequest
  put_back = reversal row.reference row.user_id row.amount none

  given_up-unused :
      entry_by_reference (wdrev row.reference) db ≡ none
      → entry_by_reference (wdrev row.reference) (given_up row db) ≡ none
  unfolding write_paystack with_status
  given_up-unused h =
      find-update_other_none (λ e. same_reference e.reference (wdrev row.reference))
        (λ e. same_reference e.reference (wd row.reference))
        (with_status LedgerEntryStatus.reversed false) db.entries (λ e. refl) h

  given_up-marked :
      entry_by_reference (wd row.reference) db ≡ some debit
      → entry_by_reference (wd row.reference) (given_up row db)
        ≡ some (record debit { status = LedgerEntryStatus.reversed })
  unfolding write_paystack with_status
  given_up-marked h =
      find-update (λ e. same_reference e.reference (wd row.reference))
        (with_status LedgerEntryStatus.reversed false) db.entries (λ e here. here) h

  module _ (h : IsDebited row debit db w) where
    posted : IsPosted put_back db (given_up row db) n w
    unfolding write_paystack
    posted =
        apply_entry_effect put_back db (given_up row db) n w (given_up-IsCommittable row db h.good)
          h.unique h.owned (given_up-unused h.new) h.positive h.places h.fits
          (ap is_balance (plus_zero w.escrow_balance) ∙ h.holds)

    -- The reversal of a withdrawal ends, and puts its debit back.
    pub reverse_withdrawal-IsReversed :
        (t : Session) × (reverse_withdrawal row.reference row.user_id row.amount (fresh db n)
          ≡ (ok tt, t))
        × IsReversed row.reference row.user_id row.amount w debit t
    unfolding reverse_withdrawal get_paystack_transaction save_paystack_transaction
        mark_entry_status wait_for_lock write_paystack ◌>>=◌
    reverse_withdrawal-IsReversed = (
      fresh posted.after n,
      rw (h.known, h.debited, posted.runs) refl,
      record {
        saved = refl;
        wallet = posted.result.wallet;
        found = posted.wallet;
        available = posted.available;
        escrow = posted.escrow ∙ plus_zero w.escrow_balance;
        credit = posted.result.entry;
        booked = posted.found;
        marked = rw (posted.logged, posted.named) (given_up-marked h.debited);
      },
    )
