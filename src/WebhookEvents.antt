-- ===== src/WebhookEvents.antt =====
-- app/repository/webhook_event_repository.py: the rows by which an event is handled once. The dedupe
-- key of an event is a number.
pub mod Claim
pub mod Retry
use adehun_api.Prelude.{
  ℕ, ◌+◌, Bool, true, false, ◌&&◌, List, [], ◌∷◌, Option, none, some, find, update_where,
  if◌then◌else◌, ltb, ◌==◌,
}
use adehun_api.Enums.{WebhookEventStatus}
use adehun_api.Models.{Db, WebhookEvent}
use adehun_api.Session.{Action, pure, query, ◌>>=◌, ◌>>◌, modify, commit, rollback}

abbrev pub max_attempts : ℕ
max_attempts = 5

abbrev pub is_failed : WebhookEventStatus → Bool
is_failed WebhookEventStatus.failed = true
is_failed _ = false

abbrev pub event_by_key : ℕ → Db → Option WebhookEvent
event_by_key k db = find (λ e. e.dedupe_key == k) db.webhook_events

unfoldable pub add_event : ℕ → Db → Db
add_event k db = record db {
  webhook_events =
      record { dedupe_key = k; status = WebhookEventStatus.received; attempts = 1 }
      ∷ db.webhook_events;
}

unfoldable pub update_event : ℕ → (WebhookEvent → WebhookEvent) → Db → Db
update_event k f db = record db {
  webhook_events = update_where (λ e. e.dedupe_key == k) f db.webhook_events;
}

abbrev pub again : WebhookEvent → WebhookEvent
again e = record e { status = WebhookEventStatus.received; attempts = e.attempts + 1 }

-- The INSERT ... ON CONFLICT DO UPDATE ... WHERE of `claim`, by the row that is there.
abbrev pub claim_row : ℕ → Option WebhookEvent → Action Bool
claim_row k none = do modify (add_event k); commit; pure true
claim_row k (some e) =
    if is_failed e.status && ltb e.attempts max_attempts
    then (do modify (update_event k again); commit; pure true)
    else (do commit; pure false)

unfoldable pub claim : ℕ → Action Bool
claim k = do existing ← query (event_by_key k); claim_row k existing

abbrev pub with_event_status : WebhookEventStatus → WebhookEvent → WebhookEvent
with_event_status status e = record e { status = status }

abbrev pub mark_row : ℕ → WebhookEventStatus → Option WebhookEvent → Action (Unit {0})
mark_row k status none = pure tt
mark_row k status (some e) = do modify (update_event k (with_event_status status)); commit

unfoldable pub mark : ℕ → WebhookEventStatus → Action (Unit {0})
mark k status = do existing ← query (event_by_key k); mark_row k status existing

unfoldable pub mark_failed : ℕ → Action (Unit {0})
unfolding mark
mark_failed k = do rollback; mark k WebhookEventStatus.failed
