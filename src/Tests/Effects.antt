-- ===== src/Tests/Effects.antt =====
-- The theorems on single operations at runs of the market.
use adehun_api.Prelude.{
  length, ◌≤◌, ◌≡◌, ◌*◌, ◌^◌, refl, true, false, List, [], ◌∷◌, none, some, pos, arith, ◌+ℤ◌, ◌*ℤ◌,
}
use adehun_api.Money.{to_kobo, quantize, is_positive, is_two_places}
use adehun_api.Models.{Db, Wallet}
use adehun_api.Errors.{idempotency_conflict}
use adehun_api.Session.{
  Session, ok, err, fresh, ◌>>=◌, commit, constraints, distinct_references, one_active_dispute,
  wait_for_lock,
}
use adehun_api.WalletRepository.{
  LedgerResult, ledger_effects, new_entry, write_entry, resolve_wallet_id, lock_wallet,
  apply_ledger_entry, write_locked, write_and_commit, apply_entry,
}
use adehun_api.WalletRepository.Replay.{apply_entry_twice}
use adehun_api.WalletRepository.Effect.{IsPosted, apply_entry_effect}
use adehun_api.WebhookEvents.{claim, add_event}
use adehun_api.WebhookEvents.Claim.{claim_once}
use adehun_api.Webhook.{of_paid}
use adehun_api.Idempotency.{
  reserve, reservation, add_key, with_response, begin_claim, replay, complete, complete_key,
  write_key,
}
use adehun_api.Idempotency.RoundTrip.{begin_claim-complete}
use adehun_api.Money.RoundTrip.{of_paid-to_kobo}
use adehun_api.Idempotency.Replay.{stepped, completed_replays, reserved_key_conflicts}
use adehun_api.Requests.{Request, serve_all}
use adehun_api.Requests.Soundness.{serve_all-IsSound}
use adehun_api.Requests.AtMostOnce.{Movement, movements, serve_all_at_most_once}
use adehun_api.WalletRepository.Invariant.{IsSound}
use adehun_api.Tests.Data.{
  charge, key_11, answered, naira, market, start, start-IsSound, deposit_100, paystack, banks,
  settings,
}

abbrev wallet_7 : Wallet
wallet_7 = record { id = 50; user_id = 7; available_balance = pos 0; escrow_balance = pos 0 }

-- The market where user 7 has an empty wallet.
abbrev shop : Db
shop = record market { wallets = wallet_7 ∷ [] }

abbrev deposited : Session
deposited = fresh (write_entry (new_entry wallet_7 deposit_100) shop) 100

abbrev receipt : LedgerResult
receipt = record {
  entry = new_entry wallet_7 deposit_100;
  wallet = record wallet_7 { available_balance = pos 10000 };
  replayed = false;
}

apply_entry_effect_example : IsPosted deposit_100 shop shop 100 wallet_7
unfolding constraints ◌+ℤ◌ quantize is_positive is_two_places distinct_references one_active_dispute
apply_entry_effect_example =
    apply_entry_effect deposit_100 shop shop 100 wallet_7 (refl, refl) (refl, tt) refl refl refl
      refl refl refl

deposits : apply_entry deposit_100 (fresh shop 100) ≡ (ok receipt, deposited)
unfolding apply_entry resolve_wallet_id write_and_commit write_locked lock_wallet wait_for_lock
    apply_ledger_entry commit constraints write_entry new_entry ◌+ℤ◌ ◌*ℤ◌ to_kobo quantize
    is_positive is_two_places distinct_references ledger_effects one_active_dispute ◌>>=◌
deposits = refl

apply_entry_twice_example :
    apply_entry deposit_100 deposited ≡ (ok (record receipt { replayed = true }), deposited)
apply_entry_twice_example =
    apply_entry_twice deposit_100 (fresh shop 100) deposited receipt deposits

-- A session that has claimed event 3.
abbrev claimed : Session
claimed = fresh (add_event 3 market) 100

claims : claim 3 start ≡ (ok true, claimed)
unfolding claim ◌>>=◌ commit constraints add_event
claims = refl

claim_once_example : claim 3 claimed ≡ (ok false, claimed)
claim_once_example = claim_once 3 start claimed claims

completed_replays_example :
    begin_claim key_11 1005 false answered ≡ (ok (replay (some 202)), stepped answered)
unfolding commit constraints
completed_replays_example =
    completed_replays key_11 1005 false answered
      (with_response (some 202) (reservation 60 key_11 1000)) refl refl refl

-- The session in which key 11 is reserved at time 1000.
abbrev reserving : Session
reserving = record {
  committed = add_key 100 key_11 1000 market;
  working = add_key 100 key_11 1000 market;
  next_id = 101;
  concurrent = λ db. db;
  redis = none;
}

reserves : reserve key_11 1000 false start ≡ (ok (some 100), reserving)
unfolding reserve ◌>>=◌ commit constraints add_key
reserves = refl

reserved_key_conflicts_example :
    begin_claim key_11 1100 false reserving ≡ (err idempotency_conflict, stepped reserving)
reserved_key_conflicts_example =
    reserved_key_conflicts key_11 1000 1100 100 false start reserving reserves (omega arith)

-- The reservation is completed with response 202.
begin_claim-complete_example :
    begin_claim key_11 5000 false (complete (some 100) (some 202) reserving).1
    ≡ (ok (replay (some 202)), stepped (complete (some 100) (some 202) reserving).1)
unfolding complete complete_key write_key ◌>>=◌ commit constraints add_key
begin_claim-complete_example =
    begin_claim-complete key_11 1000 5000 100 false (some 202) start reserving reserving
      (complete (some 100) (some 202) reserving).1 reserves refl refl

of_paid-to_kobo_example :
    (of_paid (to_kobo (naira 60))).coefficient * 10 ^ 2
    ≡ 6000 * 10 ^ (of_paid (to_kobo (naira 60))).places
unfolding is_two_places quantize
of_paid-to_kobo_example = of_paid-to_kobo (naira 60) refl refl

-- A deal: deposit, funding, approval and the release it triggers, a repeated release, a withdrawal.
abbrev deal : List Request
deal =
    Request.deliver charge
    ∷ Request.fund none 1 7
    ∷ Request.approve 30 7
    ∷ Request.release 1 8
    ∷ Request.withdraw 8 (naira 20) none
    ∷ Request.deliver charge
    ∷ []

serve_all-IsSound_example : IsSound (serve_all settings paystack banks (λ e. none) deal start)
serve_all-IsSound_example =
    serve_all-IsSound settings paystack banks (λ e. none) deal start start-IsSound

serve_all_at_most_once_example :
    length (
      movements Movement.payout 1
        (serve_all settings paystack banks (λ e. none) deal start).committed.entries)
    ≤ 1
serve_all_at_most_once_example =
    serve_all_at_most_once settings paystack banks (λ e. none) deal start Movement.payout 1
      start-IsSound (record { committed = tt; working = tt; concurrent = λ db h. h })
