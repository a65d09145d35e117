-- ===== src/Tests/Webhook.antt =====
-- The theorem on redelivered events at a charge of the market.
use adehun_api.Prelude.{◌≡◌, refl, ◌+ℤ◌, ◌*ℤ◌}
use adehun_api.Money.{to_kobo, quantize, is_positive, is_two_places}
use adehun_api.Session.{
  Session, ok, ◌>>=◌, commit, constraints, no_clash, distinct_references, one_active_dispute,
  wait_for_lock,
}
use adehun_api.WalletRepository.{
  ledger_effects, new_entry, write_entry, insert_wallet, create_wallet, ensure_wallet,
  resolve_wallet_id, lock_wallet, apply_ledger_entry, write_locked, write_and_commit, apply_entry,
  write_paystack, save_paystack_transaction, get_paystack_transaction,
}
use adehun_api.WebhookEvents.{claim, add_event, update_event, mark}
use adehun_api.Webhook.{
  OutcomeStatus, outcome, credit_charge, verified_charge, handle_charge_success, run_handler,
  handle_event,
}
use adehun_api.Webhook.Redelivery.{settled_event_is_duplicate}
use adehun_api.Tests.Data.{charge, start, paystack}

abbrev credited : Session
credited = (handle_event paystack charge start).1

credits : handle_event paystack charge start ≡ (ok (outcome 200 OutcomeStatus.processed), credited)
unfolding handle_event claim add_event update_event mark run_handler handle_charge_success
    verified_charge credit_charge get_paystack_transaction save_paystack_transaction write_paystack
    wait_for_lock apply_entry resolve_wallet_id ensure_wallet create_wallet insert_wallet
    lock_wallet write_and_commit write_locked apply_ledger_entry new_entry write_entry
    ledger_effects to_kobo quantize is_positive is_two_places commit constraints no_clash
    distinct_references one_active_dispute ◌>>=◌ ◌+ℤ◌ ◌*ℤ◌
credits = refl

settled_event_is_duplicate_example :
    handle_event paystack charge credited ≡ (ok (outcome 200 OutcomeStatus.duplicate), credited)
settled_event_is_duplicate_example =
    settled_event_is_duplicate paystack charge (outcome 200 OutcomeStatus.processed) start credited
      (λ db h. h) credits refl
