-- ===== src/Webhook/Redelivery.antt =====
-- app/service/paystack_webhook_service.py: a delivery of an event that was handled before.
use mathlib.Core.Path.{subst}
use adehun_api.Prelude.{
  ℕ, ◌≡◌, refl, Bool, true, false, not, ◌&&◌, some, arith, if◌then◌else◌, ◌==◌, ==_refl, ltb,
  find-update, Bool-cases, Option-cases, inl, inr,
}
use adehun_api.Enums.{WebhookEventStatus}
use adehun_api.Models.{Db, WebhookEvent}
use adehun_api.Errors.{Error, is_app_error}
use adehun_api.Session.{
  Session, Result, ok, err, Action, ◌>>=◌, ◌>>◌, commit_cases, commit_again, continue, handle, pure,
}
use adehun_api.Session.Keeps.{Keeps}
use adehun_api.Session.Ensures.{Post, Ensures, Ensures-bind, Ensures-if, Post-bind}
use adehun_api.WebhookEvents.{
  event_by_key, add_event, update_event, again, max_attempts, with_event_status, mark, claim,
  is_failed, mark_failed,
}
use adehun_api.WalletService.{Provider}
use adehun_api.Webhook.{
  Event, EventType, OutcomeStatus, WebhookOutcome, outcome, handler_failed, finish, finish_if,
  run_handler, dispatch, handle_event,
}
use adehun_api.Webhook.Presence.{
  HasEvent, IsPresent, IsPresent-stable, add_event-IsPresent, update_event-IsPresent,
}
use adehun_api.Webhook.Stable.{
  handle_charge_success-keeps, handle_transfer_success-keeps, handle_transfer_reversal-keeps,
}

abbrev is_failure : OutcomeStatus → Bool
is_failure OutcomeStatus.failed = true
is_failure OutcomeStatus.error = true
is_failure _ = false

-- The provider is told not to deliver again, and the handler did not fail.
abbrev pub is_settled : WebhookOutcome → Bool
is_settled out = ltb out.http_status 500 && not (is_failure out.status)

-- A further claim is refused.
abbrev Refused : ℕ → Session → Type 0
Refused k s = claim k s ≡ (ok false, s)

abbrev IfSettled : ℕ → WebhookOutcome → Session → Type 0
IfSettled k out s = is_settled out ≡ true → Refused k s

-- A mark that is not `failed` on a row that is there.
mark_refuses :
    (k : ℕ) (t : WebhookEventStatus) (s : Session)
    → is_failed t ≡ false
    → HasEvent k s.working
    → Post (λ _ s'. Refused k s') (mark k t s)
unfolding mark claim update_event ◌>>=◌
mark_refuses k t s final (e, found) =
    elim (commit_cases (record s { working = update_event k (with_event_status t) s.working })) [
      | inr (x, failed) ↦ rw (found, failed) tt
      | inl (done, good) ↦
          rw (found, done)
            (rw (
              find-update (λ x. x.dedupe_key == k) (with_event_status t) s.working.webhook_events
                  (λ x h. h) found,
              final,
              commit_again (record s { working = update_event k (with_event_status t) s.working })
                  done,
            ))
    ]

finish_refuses :
    (k : ℕ) (out : WebhookOutcome) (s : Session)
    → HasEvent k s.working
    → Post (IfSettled k) (finish k out s)
finish_refuses k out s there = elim (Bool-cases (ltb out.http_status 500)) [
  | inl acknowledged ↦ rw acknowledged (
      Post-bind (λ _. Refused k) (IfSettled k) (mark k WebhookEventStatus.processed) _ s
        (mark_refuses k WebhookEventStatus.processed s refl there)
        (λ _ t refused. unfold ◌>>=◌ in λ _. refused))
  | inr again ↦ rw again ((unanswered again).at s)
]
  where
    unanswered : ltb out.http_status 500 ≡ false → Ensures (IfSettled k) (mark_failed k >> pure out)
    unanswered again = Ensures-bind _ _ (λ _. unfold ◌>>=◌ in record { at = λ t h. ground arith })

handler_failed-Ensures :
    (k : ℕ) (e : Error) → Ensures (λ out _. is_settled out ≡ false) (handler_failed k e)
unfolding handler_failed
handler_failed-Ensures k e =
    Ensures-if (is_app_error e) _ _
      (Ensures-bind _ _ (λ _. unfold ◌>>=◌ in record { at = λ t. ground arith }))
      (Ensures-bind _ _ (λ _. unfold ◌>>=◌ in record { at = λ t. refl }))

-- What holds after the `try`: the row is there, or the outcome is not settled.
abbrev Tried : ℕ → WebhookOutcome × Bool → Session → Type 0
Tried k (out, true) s = HasEvent k s.working
Tried k (out, false) s = is_settled out ≡ false

finish_if_refuses :
    (k : ℕ) (x : WebhookOutcome × Bool) (s : Session)
    → Tried k x s
    → Post (IfSettled k) (finish_if k x s)
unfolding ◌>>=◌
finish_if_refuses k (out, true) s there = finish_refuses k out s there
finish_if_refuses k (out, false) s unsettled = λ h. ground arith

-- The handler's result and the session it leaves, through the `try`.
tried :
    (k : ℕ) (r : Result WebhookOutcome) (t : Session)
    → HasEvent k t.working
    → let (x, u) = continue {B = WebhookOutcome × Bool} r (λ out. pure (out, true)) t in
      Post (Tried k) (handle x (λ e. handler_failed k e >>= λ out. pure (out, false)) u)
unfolding ◌>>=◌
tried k (ok out) t there = there
tried k (err e) t there =
    Post-bind (λ out _. is_settled out ≡ false) (Tried k) (handler_failed k e) _ t
      ((handler_failed-Ensures k e).at t) (λ out u unsettled. unsettled)

run_handler_refuses :
    (k : ℕ) (handler : Action WebhookOutcome) (s : Session)
    → Keeps (IsPresent k) handler
    → IsPresent k s
    → Post (IfSettled k) (run_handler k handler s)
unfolding run_handler
run_handler_refuses k handler s kept p =
    Post-bind (Tried k) (IfSettled k) _ (finish_if k) s
      (unfold ◌>>=◌ in let (r, t) = handler s in tried k r t (kept.at s p).working)
      (finish_if_refuses k)

module _ (provider : Provider) where
  dispatch_refuses :
      (ev : Event) (t : EventType) (s : Session)
      → IsPresent ev.dedupe_key s
      → Post (IfSettled ev.dedupe_key) (dispatch provider ev t s)
  dispatch_refuses ev EventType.charge_success s = run_handler_refuses _ _ s (
      handle_charge_success-keeps (IsPresent-stable ev.dedupe_key)
        (add_event-IsPresent ev.dedupe_key) (update_event-IsPresent ev.dedupe_key) provider ev
        ev.reference)
  dispatch_refuses ev EventType.transfer_success s = run_handler_refuses _ _ s (
      handle_transfer_success-keeps (IsPresent-stable ev.dedupe_key)
        (add_event-IsPresent ev.dedupe_key) (update_event-IsPresent ev.dedupe_key) provider
        ev.reference)
  dispatch_refuses ev EventType.transfer_failed s = run_handler_refuses _ _ s (
      handle_transfer_reversal-keeps (IsPresent-stable ev.dedupe_key)
        (add_event-IsPresent ev.dedupe_key) (update_event-IsPresent ev.dedupe_key) _ ev.reference)
  dispatch_refuses ev EventType.transfer_reversed s = run_handler_refuses _ _ s (
      handle_transfer_reversal-keeps (IsPresent-stable ev.dedupe_key)
        (add_event-IsPresent ev.dedupe_key) (update_event-IsPresent ev.dedupe_key) _ ev.reference)
  dispatch_refuses ev EventType.other s = λ p.
      Post-bind (λ _. Refused ev.dedupe_key) (IfSettled ev.dedupe_key)
        (mark ev.dedupe_key WebhookEventStatus.ignored) _ s
        (mark_refuses ev.dedupe_key WebhookEventStatus.ignored s refl p.working)
        (λ _ t refused. unfold ◌>>=◌ in λ _. refused)

-- After a claim that succeeded the event's row is there; after one that was refused, the next is too.
abbrev Claimed : ℕ → Bool → Session → Type 0
Claimed k claimed s = if claimed then IsPresent k s else Refused k s

claim_presents :
    (k : ℕ) (s : Session)
    → ((db : Db) → HasEvent k db → HasEvent k (s.concurrent db))
    → Post (Claimed k) (claim k s)
unfolding claim add_event update_event ◌>>=◌
claim_presents k s keep = elim (Option-cases (event_by_key k s.working)) [
  | inl missing ↦ elim (commit_cases (record s { working = add_event k s.working })) [
    | inr (e, failed) ↦ rw (missing, failed) tt
    | inl (done, good) ↦
        rw (missing, done)
          (record {
            committed = (received, rw (==_refl k));
            working = (received, rw (==_refl k));
            concurrent = keep;
          })
  ]
  | inr (e, found) ↦ elim (Bool-cases (is_failed e.status && ltb e.attempts max_attempts)) [
    | inl retry ↦ elim (commit_cases (record s { working = update_event k again s.working })) [
      | inr (x, failed) ↦ rw (found, retry, failed) tt
      | inl (done, good) ↦
          rw (found, retry, done)
            (record {
              committed = (again e, row e found);
              working = (again e, row e found);
              concurrent = keep;
            })
    ]
    | inr handled ↦ elim (commit_cases s) [
      | inr (x, failed) ↦ rw (found, handled, failed) tt
      | inl (done, good) ↦ rw (found, handled, done) (rw (found, handled, commit_again s done))
    ]
  ]
]
  where
    received : WebhookEvent
    received = record { dedupe_key = k; status = WebhookEventStatus.received; attempts = 1 }

    row :
        (e : WebhookEvent)
        → event_by_key k s.working ≡ some e
        → event_by_key k (update_event k again s.working) ≡ some (again e)
    row e found =
        find-update (λ x. x.dedupe_key == k) again s.working.webhook_events (λ x h. h) found

module _ (provider : Provider) where
  answer_refuses :
      (ev : Event) (claimed : Bool) (s : Session)
      → Claimed ev.dedupe_key claimed s
      → Post (IfSettled ev.dedupe_key) (
          (if claimed
              then dispatch provider ev ev.event_type
              else pure (outcome 200 OutcomeStatus.duplicate))
            s)
  unfolding ◌>>=◌
  answer_refuses ev true s p = dispatch_refuses provider ev ev.event_type s p
  answer_refuses ev false s refused = λ _. refused

  handle_event_refuses :
      (ev : Event) (s : Session)
      → ((db : Db) → HasEvent ev.dedupe_key db → HasEvent ev.dedupe_key (s.concurrent db))
      → Post (IfSettled ev.dedupe_key) (handle_event provider ev s)
  unfolding handle_event
  handle_event_refuses ev s keep =
      Post-bind (Claimed ev.dedupe_key) (IfSettled ev.dedupe_key) (claim ev.dedupe_key) _ s
        (claim_presents ev.dedupe_key s keep) (answer_refuses ev)

  -- After handling an event returned an outcome with an HTTP status below 500 that reports no
  -- failure of the handler, a redelivery of the event to the session that the handling left is
  -- answered as a duplicate with status 200 and changes nothing. Other transactions that commit
  -- at the waits for a lock are assumed to leave the event's row in its table.
  pub settled_event_is_duplicate :
      (ev : Event) (out : WebhookOutcome) (s s' : Session)
      → ((db : Db) → HasEvent ev.dedupe_key db → HasEvent ev.dedupe_key (s.concurrent db))
      → handle_event provider ev s ≡ (ok out, s')
      → is_settled out ≡ true
      → handle_event provider ev s' ≡ (ok (outcome 200 OutcomeStatus.duplicate), s')
  unfolding handle_event ◌>>=◌
  settled_event_is_duplicate ev out s s' keep h settled =
      rw (subst (Post (IfSettled ev.dedupe_key)) h (handle_event_refuses ev s keep) settled)
