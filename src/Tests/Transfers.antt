-- ===== src/Tests/Transfers.antt =====
-- Requests to Paystack at concrete answers.
use adehun_api.Prelude.{
  ◌+ℤ◌, ℕ, zero, suc, ◌≡◌, refl, true, [], ◌∷◌, some, none, pos, negsuc, false, arith,
}
use adehun_api.Enums.{
  LedgerEntryType, LedgerEntryStatus, LedgerDirection, TransactionStatus, TransactionType,
}
use adehun_api.Models.{Db, empty_db, PaystackTransaction}
use adehun_api.Errors.{Error, is_paystack_error}
use adehun_api.Session.{
  Session, ok, err, fresh, constraints, no_clash, distinct_references, one_active_dispute,
}
use adehun_api.Money.{is_positive, is_two_places, quantize}
use adehun_api.WalletService.Reversal.{IsDebited, IsReversed}
use adehun_api.Reference.{wd}
use adehun_api.WalletRepository.{LedgerResult}
use adehun_api.WalletService.{withdrawal_response}
use adehun_api.PaystackClient.{Reply, timed_out, response, get_transfer, request}
use adehun_api.PaystackClient.Attempts.{IsRun, request-IsRun}
use adehun_api.PaystackClient.Transfers.{
  transferred, finished, transfer_call, transfer_unknown, transfer_refused,
}
use adehun_api.Tests.Data.{naira, start}

-- A server error, then a late answer, then data.
abbrev flaky : ℕ → Reply ℕ
flaky zero = response 503 none
flaky (suc zero) = timed_out
flaky _ = response 200 (some (record { is_success = true; message = λ x. true; payload = some 9 }))

late_then_data : (request flaky (get_transfer 4) 2).outcome ≡ ok 9
unfolding adehun_api.PaystackClient.attempt_from
late_then_data = refl

request-IsRun_example : IsRun flaky (get_transfer 4) 0 2 (request flaky (get_transfer 4) 2)
request-IsRun_example = request-IsRun flaky (get_transfer 4) 2 (ground arith)

abbrev row : PaystackTransaction
row = record {
  id = 6;
  user_id = 7;
  reference = 90;
  amount = naira 20;
  status = TransactionStatus.pending;
  transaction_type = TransactionType.withdrawal;
  bank_account_id = some 60;
}

abbrev receipt : LedgerResult
receipt = record {
  entry = record {
    user_id = 7;
    wallet_id = 1;
    reference = wd 90;
    group_id = none;
    agreement_id = none;
    participant_id = none;
    paystack_transaction_id = some 6;
    counterparty_user_id = none;
    amount = naira 20;
    available_delta = negsuc 1999;
    escrow_delta = pos 0;
    balance_after = pos 8000;
    escrow_after = pos 0;
    type = LedgerEntryType.withdrawal;
    direction = LedgerDirection.debit;
    status = LedgerEntryStatus.pending;
    processed = false;
  };
  wallet = record { id = 1; user_id = 7; available_balance = pos 8000; escrow_balance = pos 0 };
  replayed = false;
}

abbrev late : ℕ → Reply ℕ
late _ = timed_out

transfer_unknown_example :
    (transferred late row 44).sent ≡ transfer_call late row 44 ∷ []
    × (finished late row 44 receipt start ≡ (ok (withdrawal_response row (some (pos 8000))), start))
transfer_unknown_example = transfer_unknown late row 44 receipt start refl

abbrev server_error : ℕ → Reply ℕ
server_error _ = response 503 none

-- The database with the withdrawal and its debit.
abbrev withdrawn : Db
withdrawn = record empty_db {
  wallets = receipt.wallet ∷ [];
  entries = receipt.entry ∷ [];
  paystack = row ∷ [];
}

withdrawn-IsDebited : IsDebited row receipt.entry withdrawn receipt.wallet
unfolding constraints no_clash distinct_references one_active_dispute is_positive is_two_places
    quantize ◌+ℤ◌
withdrawn-IsDebited = record {
  good = (refl, refl);
  unique = (refl, tt);
  known = refl;
  owned = refl;
  debited = refl;
  new = refl;
  positive = refl;
  places = refl;
  fits = refl;
  holds = refl;
}

transfer_refused_example :
    (transferred server_error row 44).sent ≡ transfer_call server_error row 44 ∷ []
    × ((e : Error) × (t : Session) × (is_paystack_error e ≡ true)
        × (finished server_error row 44 receipt (fresh withdrawn 100) ≡ (err e, t))
        × IsReversed 90 7 (naira 20) receipt.wallet receipt.entry t)
transfer_refused_example =
    transfer_refused server_error row 44 receipt withdrawn 100 receipt.wallet withdrawn-IsDebited
      refl refl
