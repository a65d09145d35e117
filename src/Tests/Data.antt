-- ===== src/Tests/Data.antt =====
-- A small market: user 7 pays user 8 under agreement 1, whose one condition is submitted; user 9 is an
-- administrator. Paystack row 5 is a deposit of user 7.
use adehun_api.Prelude.{ℕ, ◌*◌, true, false, [], ◌∷◌, none, some, pos, refl, arith}
use adehun_api.Enums.{
  ParticipantRole, InvitationStatus, AgreementStatus, LedgerEntryType, LedgerEntryStatus,
  TransactionStatus, TransactionType,
}
use adehun_api.Money.{Decimal}
use adehun_api.Reference.{dep}
use adehun_api.Models.{Db, ConditionStatus, empty_db}
use adehun_api.Session.{Session, Result, ok, err, fresh}
use adehun_api.WalletRepository.{EntryRequest, apply_entry}
use adehun_api.WalletRepository.Invariant.{IsSound}
use adehun_api.WalletRepository.Soundness.{apply_entry-IsSound}
use adehun_api.WalletService.{Provider, ProviderStatus, Currency, Settings}
use adehun_api.BankAccounts.{Banks}
use adehun_api.Webhook.{Event, EventType}
use adehun_api.Idempotency.{Claim, reservation, with_response}
use adehun_api.Escrow.{fund_agreement}
use adehun_api.Escrow.Soundness.{fund_agreement-IsSound}

abbrev pub naira : ℕ → Decimal
naira n = record { negative = false; coefficient = n * 100; places = 2 }

abbrev pub market : Db
market = record empty_db {
  agreements =
      record { id = 1; user_id = 7; amount = naira 60; status = AgreementStatus.active } ∷ [];
  participants =
      record {
        id = 20;
        agreement_id = 1;
        user_id = 7;
        role = ParticipantRole.depositor;
        status = InvitationStatus.accepted;
      }
      ∷ record {
        id = 21;
        agreement_id = 1;
        user_id = 8;
        role = ParticipantRole.beneficiary;
        status = InvitationStatus.accepted;
      }
      ∷ [];
  conditions =
      record {
        id = 30;
        agreement_id = 1;
        participant_id = 20;
        invitation_id = none;
        required_from_participant_id = some 21;
        status = ConditionStatus.submitted;
        approved = false;
        rejected_reason = none;
      }
      ∷ [];
  paystack =
      record {
        id = 5;
        user_id = 7;
        reference = 5;
        amount = naira 100;
        status = TransactionStatus.pending;
        transaction_type = TransactionType.escrow_deposit;
        bank_account_id = none;
      }
      ∷ [];
}

abbrev pub start : Session
start = fresh market 100

pub start-IsSound : IsSound start
start-IsSound = record {
  committed = balanced;
  distinct = unfold adehun_api.Session.distinct_references in refl;
  working = balanced;
  concurrent = λ n db h. h;
  concurrent_distinct = λ db h. h;
}
  where
    balanced : adehun_api.WalletRepository.Invariant.IsBalanced 100 [] []
    balanced = record {
      available_sum = λ i. refl;
      escrow_sum = λ i. refl;
      available_nonneg = λ i. grind arith;
      escrow_nonneg = λ i. grind arith;
      below = tt;
      unique = tt;
    }

-- A deposit of 100 naira of user 7.
abbrev pub deposit_100 : EntryRequest
deposit_100 = record {
  user_id = 7;
  entry_type = LedgerEntryType.deposit;
  amount = naira 100;
  reference = dep 5;
  status = LedgerEntryStatus.completed;
  group_id = none;
  agreement_id = none;
  participant_id = none;
  paystack_transaction_id = some 5;
  counterparty_user_id = none;
}

abbrev pub after_deposit : Session
after_deposit = (apply_entry deposit_100 start).1

pub after_deposit-IsSound : IsSound after_deposit
after_deposit-IsSound = apply_entry-IsSound deposit_100 start start-IsSound

abbrev pub after_funding : Session
after_funding = (fund_agreement none 1 7 after_deposit).1

pub after_funding-IsSound : IsSound after_funding
after_funding-IsSound = fund_agreement-IsSound none 1 7 after_deposit after_deposit-IsSound

-- Paystack confirms 100 naira, and every transfer.
abbrev pub paystack : Provider
paystack = record {
  initiate_transfer = λ amount ref. ok tt;
  initialize_transaction = λ amount ref. ok tt;
  verify_transfer = λ ref. ok ProviderStatus.success;
  verify_transaction = λ ref. ok (record {
    status = ProviderStatus.success;
    currency = some Currency.ngn;
    amount = some (pos 10000);
  });
}

-- Banks 44 and 58, and the account's number as its recipient code.
abbrev pub banks : Banks
banks = record {
  list_banks = ok (44 ∷ 58 ∷ []);
  resolve_account_number = λ number bank. ok tt;
  create_transfer_recipient = λ number bank. ok number;
}

abbrev pub settings : Settings
settings = record {
  paystack_transfers_enabled = true;
  withdrawal_min_amount = naira 10;
  withdrawal_max_amount = naira 1000;
}

-- Paystack's event for that deposit.
abbrev pub charge : Event
charge = record {
  dedupe_key = 3;
  event_type = EventType.charge_success;
  reference = some 5;
  currency = none;
}

-- User 7's claim of key 11 for endpoint 2.
abbrev pub key_11 : Claim
key_11 = record { user_id = 7; endpoint = 2; key = 11; request_hash = 77 }

abbrev pub answered : Session
answered =
    fresh
      (record market {
        idempotency_keys = with_response (some 202) (reservation 60 key_11 1000) ∷ [];
      })
      100
