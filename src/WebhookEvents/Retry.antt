-- ===== src/WebhookEvents/Retry.antt =====
-- A failed event of app/repository/webhook_event_repository.py is claimed again, up to the cap.
use mathlib.Core.Path.{subst}
use adehun_api.Prelude.{
  ℕ, suc, ◌≡◌, refl, ap, ◌∙◌, true, none, some, ◌==◌, ==_refl, find, ltb, Bool-cases, inl, inr,
  find-update, arith,
}
use adehun_api.Enums.{WebhookEventStatus}
use adehun_api.Models.{Db, WebhookEvent}
use adehun_api.Session.{Session, ok, ◌>>=◌, constraints, rollback}
use adehun_api.Session.Commits.{IsCommittable, saved, commit_ok, commit_splits}
use adehun_api.Session.Ensures.{Post}
use adehun_api.WebhookEvents.{
  max_attempts, event_by_key, add_event, update_event, again, with_event_status, claim, mark_failed,
}

-- `n` attempts were made to handle a new event, and each was marked as failed. While an event is
-- handled, its table is left as it is.
pub data HasFailed (k : ℕ) : ℕ → Session → Type 0 where
  once :
      (s t u v : Session)
      → event_by_key k s.working ≡ none
      → claim k s ≡ (ok true, t)
      → u.committed.webhook_events ≡ t.committed.webhook_events
      → mark_failed k u ≡ (ok tt, v)
      → HasFailed k 1 v
  once_more :
      {n : ℕ} (s t u v : Session)
      → HasFailed k n s
      → claim k s ≡ (ok true, t)
      → u.committed.webhook_events ≡ t.committed.webhook_events
      → mark_failed k u ≡ (ok tt, v)
      → HasFailed k (suc n) v

-- A row of the event that counts `n` attempts.
record IsCounted (k n : ℕ) (db : Db) : Type 0 where
  pub row : WebhookEvent
  pub found : event_by_key k db ≡ some row
  pub counted : row.attempts ≡ n

-- The row is marked as failed, and can be committed.
record IsMarked (k : ℕ) (e : WebhookEvent) (s : Session) : Type 0 where
  pub good : IsCommittable s.working
  pub found : event_by_key k s.working ≡ some (with_event_status WebhookEventStatus.failed e)

module _ (k : ℕ) (e : WebhookEvent) (s : Session) where
  mark_failed-Post :
      event_by_key k s.committed ≡ some e → Post (λ _ t. IsMarked k e t) (mark_failed k s)
  unfolding mark_failed rollback update_event ◌>>=◌
  mark_failed-Post found = elim (commit_splits ended) [
    | inr (x, failed) ↦ rw (found, failed) tt
    | inl (good, done) ↦
        rw (found, done)
          (record {
            good = good;
            found =
                find-update (λ x. x.dedupe_key == k) (with_event_status WebhookEventStatus.failed)
                  s.committed.webhook_events (λ x h. h) found;
          })
  ]
    where
      ended : Session
      ended = record s {
        working = update_event k (with_event_status WebhookEventStatus.failed) s.committed;
      }

  taken : Session
  taken = record s { working = update_event k again s.working }

  -- A claim of a failed row that returns true has committed one more attempt.
  claim-Post :
      event_by_key k s.working ≡ some (with_event_status WebhookEventStatus.failed e)
      → Post (λ b t. b ≡ true → IsCounted k (suc e.attempts) t.committed) (claim k s)
  unfolding claim update_event taken ◌>>=◌
  claim-Post found = elim (Bool-cases (ltb e.attempts max_attempts)) [
    | inr many ↦ elim (commit_splits s) [
      | inr (x, failed) ↦ rw (found, many, failed) tt
      | inl (good, done) ↦ rw (found, many, done) (λ no. ground arith)
    ]
    | inl few ↦ elim (commit_splits taken) [
      | inr (x, failed) ↦ rw (found, few, failed) tt
      | inl (good, done) ↦
          rw (found, few, done)
            (λ _. record {
              row = again e;
              found =
                  find-update (λ x. x.dedupe_key == k) again s.working.webhook_events (λ x h. h)
                    found;
              counted = omega arith;
            })
    ]
  ]

  claim_marked : IsMarked k e s → (t : Session) × (claim k s ≡ (ok (ltb e.attempts 5), t))
  unfolding claim update_event constraints taken ◌>>=◌
  claim_marked m = elim (Bool-cases (ltb e.attempts 5)) [
    | inl few ↦ (saved taken, rw (m.found, few, commit_ok taken m.good) refl)
    | inr many ↦ (saved s, rw (m.found, many, commit_ok s m.good) refl)
  ]

-- The claim of a new event commits a row of one attempt.
new_claim-Post :
    (k : ℕ) (s : Session)
    → event_by_key k s.working ≡ none
    → Post (λ b t. b ≡ true → IsCounted k 1 t.committed) (claim k s)
unfolding claim add_event ◌>>=◌
new_claim-Post k s unknown = elim (commit_splits (record s { working = add_event k s.working })) [
  | inr (x, failed) ↦ rw (unknown, failed) tt
  | inl (good, done) ↦
      rw (unknown, done)
        (λ _. record {
          row = record { dedupe_key = k; status = WebhookEventStatus.received; attempts = 1 };
          found = rw (==_refl k) refl;
          counted = refl;
        })
]

-- The row of an event of which `n` attempts failed.
record IsDown (k n : ℕ) (s : Session) : Type 0 where
  pub row : WebhookEvent
  pub marked : IsMarked k row s
  pub counted : row.attempts ≡ n

marked-IsDown :
    (k n : ℕ) (t u v : Session)
    → IsCounted k n t.committed
    → u.committed.webhook_events ≡ t.committed.webhook_events
    → mark_failed k u ≡ (ok tt, v)
    → IsDown k n v
marked-IsDown k n t u v c same marks = record {
  row = c.row;
  marked =
      subst (Post (λ _ w. IsMarked k c.row w)) marks
        (mark_failed-Post k c.row u (ap (λ es. find (λ e. e.dedupe_key == k) es) same ∙ c.found));
  counted = c.counted;
}

HasFailed-IsDown : (k : ℕ) {n : ℕ} {s : Session} → HasFailed k n s → IsDown k n s
HasFailed-IsDown k (HasFailed.once s t u v unknown claims same marks) =
    marked-IsDown k 1 t u v
      (subst (Post (λ b w. b ≡ true → IsCounted k 1 w.committed)) claims
        (new_claim-Post k s unknown) refl)
      same marks
HasFailed-IsDown k (HasFailed.once_more {n} s t u v before claims same marks) =
    let down = HasFailed-IsDown k before in
    marked-IsDown k (suc n) t u v
      (subst (λ m. IsCounted k (suc m) t.committed) down.counted
        (subst (Post (λ b w. b ≡ true → IsCounted k (suc down.row.attempts) w.committed)) claims
          (claim-Post k down.row s down.marked.found) refl))
      same marks

-- When all attempts to handle a new event failed, each marked as failed before the next claim and
-- with the event's table left alone while it was handled, the next claim returns: with true after
-- one to four attempts, and with false after five, so that no sixth attempt is made.
pub claim-mark_failed :
    (k n : ℕ) (s : Session) → HasFailed k n s → (t : Session) × (claim k s ≡ (ok (ltb n 5), t))
claim-mark_failed k n s failed =
    let down = HasFailed-IsDown k failed in
    subst (λ m. (t : Session) × (claim k s ≡ (ok (ltb m 5), t))) down.counted
      (claim_marked k down.row s down.marked)
