-- ===== src/Tests/Listings.antt =====
-- The listings of ledger rows and notifications at concrete runs.
use adehun_api.Prelude.{ℕ, ◌≡◌, refl, false, [], ◌∷◌, none, some, select_all, pos, arith}
use adehun_api.Models.{Notification, Transaction, empty_db}
use adehun_api.Session.{Session, fresh}
use adehun_api.Session.Ensures.{Post}
use adehun_api.Notifications.{get_unread_count, mark_as_read, mark_all_as_read}
use adehun_api.Notifications.Reading.{IsCounted, reading_counts}
use adehun_api.Transactions.{Filters, no_filters, filtered}
use adehun_api.Transactions.Totals.{own, IsPaged, get_user_transactions_lem}
use adehun_api.Enums.{LedgerEntryType, LedgerEntryStatus, LedgerDirection}
use adehun_api.Reference.{wd}
use adehun_api.Tests.Data.{naira}

abbrev credited : Filters
credited = record no_filters { direction = some LedgerDirection.credit }

abbrev entry : LedgerDirection → ℕ → ℕ → Transaction
entry d u i = record {
  user_id = u;
  wallet_id = 1;
  reference = wd i;
  group_id = none;
  agreement_id = none;
  participant_id = none;
  paystack_transaction_id = none;
  counterparty_user_id = none;
  amount = naira 20;
  available_delta = pos 0;
  escrow_delta = pos 0;
  balance_after = pos 0;
  escrow_after = pos 0;
  type = LedgerEntryType.withdrawal;
  direction = d;
  status = LedgerEntryStatus.pending;
  processed = false;
}

abbrev booked : Session
booked =
    fresh
      (record empty_db {
        entries =
            entry LedgerDirection.debit 7 5
            ∷ entry LedgerDirection.debit 8 4
            ∷ entry LedgerDirection.credit 7 6
            ∷ [];
      })
      100

get_user_transactions_lem_example :
    IsPaged 7 1 2 no_filters booked (own 7 booked.working.entries)
    × IsPaged 7 1 2 credited booked
        (select_all (filtered 7 credited) (own 7 booked.working.entries))
get_user_transactions_lem_example = get_user_transactions_lem 7 1 2 credited booked (ground arith)

abbrev note : ℕ → ℕ → Notification
note i u = record { id = i; user_id = u; is_read = false }

abbrev inbox : Session
inbox = fresh (record empty_db { notifications = note 1 7 ∷ note 2 7 ∷ note 3 8 ∷ [] }) 100

reading_counts_example :
    Post (λ n t. IsCounted 7 8 n inbox.working t.working) (mark_as_read (1 ∷ 3 ∷ []) 7 inbox)
    × Post
        (λ n t. (IsCounted 7 8 n inbox.working t.committed) × (get_unread_count 7 t.committed ≡ 0))
        (mark_all_as_read 7 inbox)
reading_counts_example = reading_counts 7 8 inbox refl (1 ∷ 3 ∷ [])
