-- ===== src/Webhook.antt =====
-- app/service/paystack_webhook_service.py: an event is claimed, handled by its type, and marked. Left
-- out: notifications, websocket frames, and the texts that a row keeps of the event.
pub mod Stable
pub mod Soundness
pub mod Presence
pub mod Redelivery
use adehun_api.Prelude.{
  ℕ, suc, ◌+◌, Bool, true, false, not, ◌&&◌, List, [], ◌∷◌, Option, none, some, find, update_where,
  if◌then◌else◌, ltb, ◌==◌, ℤ, pos, negsuc, ltb_ℤ, pos_part, neg_part,
}
use adehun_api.Enums.{
  LedgerEntryType, LedgerEntryStatus, TransactionStatus, WebhookEventStatus, is_pending, is_success,
}
use adehun_api.Money.{Decimal}
use adehun_api.Reference.{Reference, wd, wdrev, dep}
use adehun_api.Models.{Db, Transaction, PaystackTransaction, WebhookEvent}
use adehun_api.Errors.{Error, is_app_error, is_paystack_error, status_code}
use adehun_api.Session.{
  Result, ok, err, Action, pure, raise, query, ◌>>=◌, ◌>>◌, try_except, modify, commit, rollback,
}
use adehun_api.WalletRepository.{
  EntryRequest, entry_by_reference, apply_entry, mark_entry_status, save_paystack_transaction,
  get_paystack_transaction,
}
use adehun_api.WebhookEvents.{claim, mark, mark_failed}
use adehun_api.WalletService.{ProviderStatus, Currency, Charge, Provider, reversal}

pub data EventType : Type 0 where
  charge_success transfer_success transfer_failed transfer_reversed other : EventType

-- The fields of a delivered event that are read.
pub record Event : Type 0 where
  pub dedupe_key : ℕ
  pub event_type : EventType
  pub reference : Option ℕ
  pub currency : Option Currency

-- `WebhookOutcome.status`
pub data OutcomeStatus : Type 0 where
  duplicate ignored unknown_reference already_processed verify_failed not_verified : OutcomeStatus
  unsupported_currency malformed processed reversed no_ledger_entry failed error : OutcomeStatus

pub record WebhookOutcome : Type 0 where
  pub http_status : ℕ
  pub status : OutcomeStatus

abbrev pub outcome : ℕ → OutcomeStatus → WebhookOutcome
outcome h s = record { http_status = h; status = s }

-- `(Decimal(int(paid_kobo)) / 100).quantize(Decimal("0.01"))`
abbrev pub of_paid : ℤ → Decimal
of_paid (pos n) = record { negative = false; coefficient = n; places = 2 }
of_paid (negsuc n) = record { negative = true; coefficient = suc n; places = 2 }

abbrev pub deposit_request : PaystackTransaction → Decimal → EntryRequest
deposit_request p credited = record {
  user_id = p.user_id;
  entry_type = LedgerEntryType.deposit;
  amount = credited;
  reference = dep p.reference;
  status = LedgerEntryStatus.completed;
  group_id = none;
  agreement_id = none;
  participant_id = none;
  paystack_transaction_id = some p.id;
  counterparty_user_id = none;
}

abbrev pub is_ngn : Currency → Bool
is_ngn Currency.ngn = true
is_ngn Currency.other = false

-- `str(verified.get("currency") or data.get("currency") or "").upper() == SUPPORTED_CURRENCY`
abbrev pub supported : Option Currency → Option Currency → Bool
supported (some c) given = is_ngn c
supported none (some c) = is_ngn c
supported none none = false

-- The credit of a verified amount.
unfoldable pub credit_charge : PaystackTransaction → Option ℤ → Action WebhookOutcome
credit_charge p none = pure (outcome 200 OutcomeStatus.malformed)
credit_charge p (some paid) = do
  save_paystack_transaction (record p { amount = of_paid paid; status = TransactionStatus.success })
      false
  apply_entry (deposit_request p (of_paid paid))
  pure (outcome 200 OutcomeStatus.processed)

abbrev pub is_provider_success : ProviderStatus → Bool
is_provider_success ProviderStatus.success = true
is_provider_success _ = false

-- `_handle_charge_success` from the answer of `verify_transaction` on.
unfoldable pub verified_charge :
    PaystackTransaction → Option Currency → Result Charge → Action WebhookOutcome
unfolding credit_charge
verified_charge p given (err e) =
    if is_paystack_error e then pure (outcome 500 OutcomeStatus.verify_failed) else raise e
verified_charge p given (ok c) =
    if not (is_provider_success c.status)
    then pure (outcome 200 OutcomeStatus.not_verified)
    else if not (supported c.currency given)
    then pure (outcome 200 OutcomeStatus.unsupported_currency)
    else credit_charge p c.amount

module _ (provider : Provider) where
  abbrev pub charge_found : Event → Option PaystackTransaction → Action WebhookOutcome
  charge_found ev none = pure (outcome 200 OutcomeStatus.unknown_reference)
  charge_found ev (some p) =
      if not (is_pending p.status)
      then pure (outcome 200 OutcomeStatus.already_processed)
      else verified_charge p ev.currency (provider.verify_transaction p.reference)

  -- `_handle_charge_success`
  unfoldable pub handle_charge_success : Event → Option ℕ → Action WebhookOutcome
  handle_charge_success ev none = pure (outcome 200 OutcomeStatus.ignored)
  handle_charge_success ev (some reference) = do
    found ← get_paystack_transaction reference
    charge_found ev found

-- `_handle_transfer_success` from the answer of `verify_transfer` on.
unfoldable pub verified_transfer :
    PaystackTransaction → Result ProviderStatus → Action WebhookOutcome
verified_transfer p (err e) =
    if is_paystack_error e then pure (outcome 500 OutcomeStatus.verify_failed) else raise e
verified_transfer p (ok status) =
    if not (is_provider_success status) then pure (outcome 200 OutcomeStatus.not_verified) else (do
      save_paystack_transaction (record p { status = TransactionStatus.success }) false
      mark_entry_status (wd p.reference) LedgerEntryStatus.completed true true
      pure (outcome 200 OutcomeStatus.processed))

module _ (provider : Provider) where
  abbrev pub transfer_found : Option PaystackTransaction → Action WebhookOutcome
  transfer_found none = pure (outcome 200 OutcomeStatus.unknown_reference)
  transfer_found (some p) =
      if not (is_pending p.status)
      then pure (outcome 200 OutcomeStatus.already_processed)
      else verified_transfer p (provider.verify_transfer p.reference)

  -- `_handle_transfer_success`
  unfoldable pub handle_transfer_success : Option ℕ → Action WebhookOutcome
  handle_transfer_success none = pure (outcome 200 OutcomeStatus.ignored)
  handle_transfer_success (some reference) = do
    found ← get_paystack_transaction reference
    transfer_found found

-- The statuses from which a final status may be reached: a reversal may follow a success.
abbrev pub may_reverse : TransactionStatus → TransactionStatus → Bool
may_reverse TransactionStatus.refunded TransactionStatus.pending = true
may_reverse TransactionStatus.refunded TransactionStatus.success = true
may_reverse TransactionStatus.refunded _ = false
may_reverse final TransactionStatus.pending = true
may_reverse final _ = false

-- The credit for a debit that is on the ledger, and nothing for one that is not.
abbrev pub reverse_original :
    PaystackTransaction → TransactionStatus → Option Transaction → Action WebhookOutcome
reverse_original p final none = do
  save_paystack_transaction (record p { status = final }) true
  pure (outcome 200 OutcomeStatus.no_ledger_entry)
reverse_original p final (some original) = do
  save_paystack_transaction (record p { status = final }) false
  mark_entry_status original.reference LedgerEntryStatus.reversed false false
  apply_entry (reversal p.reference p.user_id original.amount (some p.id))
  pure (outcome 200 OutcomeStatus.reversed)

abbrev pub reversal_found : TransactionStatus → Option PaystackTransaction → Action WebhookOutcome
reversal_found final none = pure (outcome 200 OutcomeStatus.unknown_reference)
reversal_found final (some p) =
    if not (may_reverse final p.status)
    then pure (outcome 200 OutcomeStatus.already_processed)
    else (do
      original ← query (entry_by_reference (wd p.reference))
      reverse_original p final original)

-- `_handle_transfer_reversal`
unfoldable pub handle_transfer_reversal : TransactionStatus → Option ℕ → Action WebhookOutcome
handle_transfer_reversal final none = pure (outcome 200 OutcomeStatus.ignored)
handle_transfer_reversal final (some reference) = do
  found ← get_paystack_transaction reference
  reversal_found final found

-- `err.status_code < 500`: acknowledged; else the provider is asked to deliver again.
unfoldable pub handler_failed : ℕ → Error → Action WebhookOutcome
handler_failed k e =
    if is_app_error e
    then (do
      mark_failed k
      pure (outcome (if ltb (status_code e) 500 then 200 else 500) OutcomeStatus.failed))
    else (do mark_failed k; pure (outcome 500 OutcomeStatus.error))

-- The mark after a handler that returned, by its HTTP status.
abbrev pub finish : ℕ → WebhookOutcome → Action WebhookOutcome
finish k out =
    if ltb out.http_status 500
    then (do mark k WebhookEventStatus.processed; pure out)
    else (do mark_failed k; pure out)

-- The `try` of `handle`, which says whether the handler returned, and the mark after it.
abbrev pub finish_if : ℕ → WebhookOutcome × Bool → Action WebhookOutcome
finish_if k (out, true) = finish k out
finish_if k (out, false) = pure out

unfoldable pub run_handler : ℕ → Action WebhookOutcome → Action WebhookOutcome
run_handler k handler = do
  result ←
      try_except (do out ← handler; pure (out, true))
        (λ e. do out ← handler_failed k e; pure (out, false))
  finish_if k result

module _ (provider : Provider) where
  -- The table of handlers, and the branch for other events.
  abbrev pub dispatch : Event → EventType → Action WebhookOutcome
  dispatch ev EventType.charge_success =
      run_handler ev.dedupe_key (handle_charge_success provider ev ev.reference)
  dispatch ev EventType.transfer_success =
      run_handler ev.dedupe_key (handle_transfer_success provider ev.reference)
  dispatch ev EventType.transfer_failed =
      run_handler ev.dedupe_key (handle_transfer_reversal TransactionStatus.failed ev.reference)
  dispatch ev EventType.transfer_reversed =
      run_handler ev.dedupe_key (handle_transfer_reversal TransactionStatus.refunded ev.reference)
  dispatch ev EventType.other = do
    mark ev.dedupe_key WebhookEventStatus.ignored
    pure (outcome 200 OutcomeStatus.ignored)

  unfoldable pub handle_event : Event → Action WebhookOutcome
  handle_event ev = do
    claimed ← claim ev.dedupe_key
    if claimed then dispatch ev ev.event_type else pure (outcome 200 OutcomeStatus.duplicate)
