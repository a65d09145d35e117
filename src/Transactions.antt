-- ===== src/Transactions.antt =====
-- The listing of app/service/transaction_service.py over app/repository/transaction_repository.py: the
-- ledger rows of a user, newest first. The filters on the date and on the texts are a parameter. The
-- sum of a NUMERIC(12, 2) column is kept in kobo.
pub mod Totals
use adehun_api.Prelude.{
  ℕ, ◌+◌, Bool, true, false, not, ◌&&◌, List, [], ◌∷◌, Option, none, some, find, any, select_all,
  length, page, if◌then◌else◌, ◌==◌, ℤ, pos, ◌+ℤ◌,
}
use adehun_api.Enums.{LedgerEntryType, LedgerDirection, LedgerEntryStatus}
use adehun_api.Money.{Decimal, less, to_kobo}
use adehun_api.Models.{Db, Transaction}
use adehun_api.Session.{Action, pure, query, or_raise, ◌>>=◌, ◌>>◌}

-- What stands in the column of an entry type, as a number.
abbrev type_code : LedgerEntryType → ℕ
type_code LedgerEntryType.deposit = 0
type_code LedgerEntryType.escrow_lock = 1
type_code LedgerEntryType.escrow_release_out = 2
type_code LedgerEntryType.escrow_release_in = 3
type_code LedgerEntryType.escrow_refund = 4
type_code LedgerEntryType.withdrawal = 5
type_code LedgerEntryType.withdrawal_reversal = 6
type_code LedgerEntryType.adjustment_credit = 7
type_code LedgerEntryType.adjustment_debit = 8

abbrev status_text : LedgerEntryStatus → ℕ
status_text LedgerEntryStatus.pending = 0
status_text LedgerEntryStatus.completed = 1
status_text LedgerEntryStatus.reversed = 2

abbrev pub is_credit : LedgerDirection → Bool
is_credit LedgerDirection.credit = true
is_credit LedgerDirection.debit = false

pub record Filters : Type 0 where
  pub types : List LedgerEntryType
  pub direction : Option LedgerDirection
  pub status : Option LedgerEntryStatus
  pub agreement_id : Option ℕ
  pub min_amount : Option Decimal
  pub max_amount : Option Decimal
  pub dated : Transaction → Bool

abbrev of_types : List LedgerEntryType → Transaction → Bool
of_types [] e = true
of_types (t ∷ ts) e = any (λ x. type_code e.type == type_code x) (t ∷ ts)

-- A filter that was not given lets every row pass.
abbrev if_given : {A : Type 0} → (A → Bool) → Option A → Bool
if_given p none = true
if_given p (some x) = p x

abbrev has_direction : Transaction → LedgerDirection → Bool
has_direction e d = if is_credit d then is_credit e.direction else not (is_credit e.direction)

abbrev is_agreement : Option ℕ → ℕ → Bool
is_agreement none a = false
is_agreement (some b) a = b == a

-- `_filtered`
unfoldable pub filtered : ℕ → Filters → Transaction → Bool
filtered u f e =
    e.user_id == u
    && of_types f.types e
    && if_given (has_direction e) f.direction
    && if_given (λ t. status_text e.status == status_text t) f.status
    && if_given (is_agreement e.agreement_id) f.agreement_id
    && if_given (λ x. not (less e.amount x)) f.min_amount
    && if_given (λ x. not (less x e.amount)) f.max_amount
    && f.dated e

abbrev pub rows_for_user : ℕ → Filters → Db → List Transaction
rows_for_user u f db = select_all (filtered u f) db.entries

abbrev pub count_for_user : ℕ → Filters → Db → ℕ
count_for_user u f db = length (rows_for_user u f db)

pub record Summary : Type 0 where
  pub total_credit : ℤ
  pub total_debit : ℤ
  pub credit_count : ℕ
  pub debit_count : ℕ

abbrev pub total : List Transaction → ℤ
total [] = pos 0
total (e ∷ es) = to_kobo e.amount +ℤ total es

-- The group of a direction; one without rows counts as 0.
abbrev pub credits : List Transaction → List Transaction
credits es = select_all (λ e. is_credit e.direction) es

abbrev pub debits : List Transaction → List Transaction
debits es = select_all (λ e. not (is_credit e.direction)) es

unfoldable pub summary_for_user : ℕ → Filters → Db → Summary
summary_for_user u f db = record {
  total_credit = total (credits (rows_for_user u f db));
  total_debit = total (debits (rows_for_user u f db));
  credit_count = length (credits (rows_for_user u f db));
  debit_count = length (debits (rows_for_user u f db));
}

pub record TransactionList : Type 0 where
  pub transactions : List Transaction
  pub total : ℕ
  pub skip : ℕ
  pub limit : ℕ
  pub summary : Summary

unfoldable pub get_user_transactions : ℕ → ℕ → ℕ → Filters → Action TransactionList
get_user_transactions u skip limit f = do
  entries ← query (λ db. page skip limit (rows_for_user u f db))
  count ← query (count_for_user u f)
  summary ← query (summary_for_user u f)
  pure (record {
    transactions = entries;
    total = count;
    skip = skip;
    limit = limit;
    summary = summary;
  })

abbrev pub no_filters : Filters
no_filters = record {
  types = [];
  direction = none;
  status = none;
  agreement_id = none;
  min_amount = none;
  max_amount = none;
  dated = λ e. true;
}

unfoldable pub get_summary : ℕ → Action Summary
get_summary u = query (summary_for_user u no_filters)
