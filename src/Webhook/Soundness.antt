-- ===== src/Webhook/Soundness.antt =====
-- The ledger's invariant over app/service/paystack_webhook_service.py.
use adehun_api.Prelude.{ℕ, ◌≡◌}
use adehun_api.Models.{WebhookEvent}
use adehun_api.Session.{modify}
use adehun_api.Session.Keeps.{Keeps}
use adehun_api.WalletRepository.Invariant.{IsSound}
use adehun_api.WalletRepository.Soundness.{modify-IsSound}
use adehun_api.WebhookEvents.{add_event, update_event}

pub add_event-IsSound : (k : ℕ) → Keeps IsSound (modify (add_event k))
unfolding add_event
add_event-IsSound k = modify-IsSound _ (λ n db h. h)

pub update_event-IsSound :
    (k : ℕ) (f : WebhookEvent → WebhookEvent)
    → ((e : WebhookEvent) → (f e).dedupe_key ≡ e.dedupe_key)
    → Keeps IsSound (modify (update_event k f))
unfolding update_event
update_event-IsSound k f same = modify-IsSound _ (λ n db h. h)
