-- ===== src/Webhook/Stable.antt =====
-- Invariants of a session over the handlers of app/service/paystack_webhook_service.py.
use adehun_api.Prelude.{ℕ, ◌≡◌, refl, Bool, true, false, Option, none, some, ℤ}
use adehun_api.Enums.{WebhookEventStatus, TransactionStatus, LedgerEntryStatus}
use adehun_api.Money.{Decimal}
use adehun_api.Reference.{Reference}
use adehun_api.Models.{WebhookEvent, PaystackTransaction, Transaction}
use adehun_api.Errors.{Error}
use adehun_api.Session.{Session, Result, ok, err, Action, modify, commit, rollback}
use adehun_api.Session.Keeps.{Keeps, keeps_rules, Keeps-bind, Keeps-try_except}
use adehun_api.WalletRepository.{
  apply_entry, mark_entry_status, save_paystack_transaction, get_paystack_transaction,
}
use adehun_api.WalletRepository.Stable.{
  Stable, apply_entry-keeps, mark_entry_status-keeps, save_paystack_transaction-keeps,
  get_paystack_transaction-keeps,
}
use adehun_api.WalletService.{Currency, Charge, Provider, ProviderStatus, reversal}
use adehun_api.WebhookEvents.{
  add_event, update_event, again, with_event_status, claim_row, claim, mark_row, mark, mark_failed,
}
use adehun_api.Webhook.{
  Event, EventType, WebhookOutcome, deposit_request, credit_charge, verified_charge, charge_found,
  handle_charge_success, verified_transfer, transfer_found, handle_transfer_success,
  reverse_original, reversal_found, handle_transfer_reversal, handler_failed, finish, finish_if,
  run_handler, dispatch, handle_event,
}

module _ {P : Session → Type 0} (stable : Stable P)
    (adds : (k : ℕ) → Keeps P (modify (add_event k)))
    (updates : (k : ℕ) (f : WebhookEvent → WebhookEvent)
      → ((e : WebhookEvent) → (f e).dedupe_key ≡ e.dedupe_key)
      → Keeps P (modify (update_event k f))) where
  commits : Keeps P commit
  commits = stable.at_commit

  rolls_back : Keeps P rollback
  rolls_back = stable.at_rollback

  reverses :
      (ref u : ℕ) (amount : Decimal) (p : Option ℕ)
      → Keeps P (apply_entry (reversal ref u amount p))
  reverses ref u amount p = apply_entry-keeps stable (reversal ref u amount p) tt tt

  deposits :
      (p : PaystackTransaction) (amount : Decimal)
      → Keeps P (apply_entry (deposit_request p amount))
  deposits p amount = apply_entry-keeps stable (deposit_request p amount) tt tt

  marks :
      (r : Reference) (status : LedgerEntryStatus) (stamped now : Bool)
      → Keeps P (mark_entry_status r status stamped now)
  marks = mark_entry_status-keeps stable

  saves : (p : PaystackTransaction) (now : Bool) → Keeps P (save_paystack_transaction p now)
  saves = save_paystack_transaction-keeps stable

  gets : (ref : ℕ) → Keeps P (get_paystack_transaction ref)
  gets = get_paystack_transaction-keeps stable

  again-keeps : (k : ℕ) → Keeps P (modify (update_event k again))
  again-keeps k = updates k again (λ e. refl)

  status-keeps :
      (k : ℕ) (t : WebhookEventStatus) → Keeps P (modify (update_event k (with_event_status t)))
  status-keeps k t = updates k (with_event_status t) (λ e. refl)

  claim_row-keeps : (k : ℕ) (o : Option WebhookEvent) → Keeps P (claim_row k o)
  claim_row-keeps k none = search (keeps_rules, adds, commits) depth 10
  claim_row-keeps k (some e) = search (keeps_rules, again-keeps, commits) depth 12

  claim-keeps : (k : ℕ) → Keeps P (claim k)
  unfolding claim
  claim-keeps k = search (keeps_rules, claim_row-keeps)

  mark_row-keeps :
      (k : ℕ) (t : WebhookEventStatus) (o : Option WebhookEvent) → Keeps P (mark_row k t o)
  mark_row-keeps k t none = search keeps_rules
  mark_row-keeps k t (some e) = search (keeps_rules, status-keeps, commits) depth 10

  mark-keeps : (k : ℕ) (t : WebhookEventStatus) → Keeps P (mark k t)
  unfolding mark
  mark-keeps k t = search (keeps_rules, mark_row-keeps)

  mark_failed-keeps : (k : ℕ) → Keeps P (mark_failed k)
  unfolding mark_failed
  mark_failed-keeps k = search (keeps_rules, rolls_back, mark-keeps)

  credit_charge-keeps : (p : PaystackTransaction) (paid : Option ℤ) → Keeps P (credit_charge p paid)
  unfolding credit_charge
  credit_charge-keeps p none = search keeps_rules
  credit_charge-keeps p (some paid) = search (keeps_rules, saves, deposits) depth 10

  verified_charge-keeps :
      (p : PaystackTransaction) (c : Option Currency) (x : Result Charge)
      → Keeps P (verified_charge p c x)
  unfolding verified_charge
  verified_charge-keeps p c (ok x) = search (keeps_rules, credit_charge-keeps) depth 10
  verified_charge-keeps p c (err e) = search keeps_rules

  verified_transfer-keeps :
      (p : PaystackTransaction) (x : Result ProviderStatus) → Keeps P (verified_transfer p x)
  unfolding verified_transfer
  verified_transfer-keeps p (ok t) = search (keeps_rules, saves, marks) depth 12
  verified_transfer-keeps p (err e) = search keeps_rules

  reverse_original-keeps :
      (p : PaystackTransaction) (t : TransactionStatus) (o : Option Transaction)
      → Keeps P (reverse_original p t o)
  reverse_original-keeps p t none = search (keeps_rules, saves) depth 10
  reverse_original-keeps p t (some e) = search (keeps_rules, saves, marks, reverses) depth 12

  reversal_found-keeps :
      (t : TransactionStatus) (o : Option PaystackTransaction) → Keeps P (reversal_found t o)
  reversal_found-keeps t none = search keeps_rules
  reversal_found-keeps t (some p) = search (keeps_rules, reverse_original-keeps) depth 10

  pub handle_transfer_reversal-keeps :
      (t : TransactionStatus) (ref : Option ℕ) → Keeps P (handle_transfer_reversal t ref)
  unfolding handle_transfer_reversal
  handle_transfer_reversal-keeps t none = search keeps_rules
  handle_transfer_reversal-keeps t (some ref) = search (keeps_rules, gets, reversal_found-keeps)

  handler_failed-keeps : (k : ℕ) (e : Error) → Keeps P (handler_failed k e)
  unfolding handler_failed
  handler_failed-keeps k e = search (keeps_rules, mark_failed-keeps) depth 10

  finish-keeps : (k : ℕ) (out : WebhookOutcome) → Keeps P (finish k out)
  finish-keeps k out = search (keeps_rules, mark-keeps, mark_failed-keeps) depth 10

  finish_if-keeps : (k : ℕ) (x : WebhookOutcome × Bool) → Keeps P (finish_if k x)
  finish_if-keeps k (out, true) = finish-keeps k out
  finish_if-keeps k (out, false) = search keeps_rules

  pub run_handler-keeps :
      (k : ℕ) (m : Action WebhookOutcome) → Keeps P m → Keeps P (run_handler k m)
  unfolding run_handler
  run_handler-keeps k m h =
      Keeps-bind _ _
        (Keeps-try_except _ _ (Keeps-bind _ _ h (λ out. search keeps_rules))
          (λ e. search (keeps_rules, handler_failed-keeps)))
        (finish_if-keeps k)

  module _ (provider : Provider) where
    charge_found-keeps :
        (ev : Event) (o : Option PaystackTransaction) → Keeps P (charge_found provider ev o)
    charge_found-keeps ev none = search keeps_rules
    charge_found-keeps ev (some p) = search (keeps_rules, verified_charge-keeps)

    pub handle_charge_success-keeps :
        (ev : Event) (ref : Option ℕ) → Keeps P (handle_charge_success provider ev ref)
    unfolding handle_charge_success
    handle_charge_success-keeps ev none = search keeps_rules
    handle_charge_success-keeps ev (some ref) = search (keeps_rules, gets, charge_found-keeps)

    transfer_found-keeps : (o : Option PaystackTransaction) → Keeps P (transfer_found provider o)
    transfer_found-keeps none = search keeps_rules
    transfer_found-keeps (some p) = search (keeps_rules, verified_transfer-keeps)

    pub handle_transfer_success-keeps :
        (ref : Option ℕ) → Keeps P (handle_transfer_success provider ref)
    unfolding handle_transfer_success
    handle_transfer_success-keeps none = search keeps_rules
    handle_transfer_success-keeps (some ref) = search (keeps_rules, gets, transfer_found-keeps)

    dispatch-keeps : (ev : Event) (t : EventType) → Keeps P (dispatch provider ev t)
    dispatch-keeps ev EventType.charge_success =
        run_handler-keeps _ _ (handle_charge_success-keeps ev ev.reference)
    dispatch-keeps ev EventType.transfer_success =
        run_handler-keeps _ _ (handle_transfer_success-keeps ev.reference)
    dispatch-keeps ev EventType.transfer_failed =
        run_handler-keeps _ _ (handle_transfer_reversal-keeps TransactionStatus.failed ev.reference)
    dispatch-keeps ev EventType.transfer_reversed =
        run_handler-keeps _ _
          (handle_transfer_reversal-keeps TransactionStatus.refunded ev.reference)
    dispatch-keeps ev EventType.other = search (keeps_rules, mark-keeps)

    pub handle_event-keeps : (ev : Event) → Keeps P (handle_event provider ev)
    unfolding handle_event
    handle_event-keeps ev = search (keeps_rules, claim-keeps, dispatch-keeps)
