-- ===== src/WebhookEvents/Claim.antt =====
-- `claim` of app/repository/webhook_event_repository.py, repeated.
use mathlib.Core.Path.{subst}
use adehun_api.Prelude.{
  ℕ, ◌≡◌, ◌&&◌, refl, Bool, true, false, none, some, arith, ◌==◌, ==_refl, ltb, Bool-cases,
  Option-cases, inl, inr, find-update,
}
use adehun_api.Models.{WebhookEvent}
use adehun_api.Session.{Session, ok, ◌>>=◌, ◌>>◌, modify, commit, commit_cases, commit_again}
use adehun_api.Session.Ensures.{Post}
use adehun_api.WebhookEvents.{
  max_attempts, is_failed, event_by_key, add_event, update_event, again, claim_row, claim,
}

-- A claim that was taken refuses the next one.
abbrev Taken : ℕ → Bool → Session → Type 0
Taken k claimed s = claimed ≡ true → claim k s ≡ (ok false, s)

module _ (k : ℕ) (s : Session) where
  insert_takes : event_by_key k s.working ≡ none → Post (Taken k) (claim_row k none s)
  unfolding claim add_event ◌>>=◌
  insert_takes missing = elim (commit_cases (record s { working = add_event k s.working })) [
    | inr (e, failed) ↦ rw failed tt
    | inl (done, good) ↦
        rw done
          (λ _. rw (==_refl k, commit_again (record s { working = add_event k s.working }) done))
  ]

  retake_takes :
      (e : WebhookEvent)
      → event_by_key k s.working ≡ some e
      → Post (Taken k) ((modify (update_event k again) >> commit >> (λ t. (ok true, t))) s)
  unfolding claim update_event ◌>>=◌
  retake_takes e found =
      elim (commit_cases (record s { working = update_event k again s.working })) [
        | inr (x, failed) ↦ rw failed tt
        | inl (done, good) ↦ rw done (λ _. rw (
          find-update (λ x. x.dedupe_key == k) again s.working.webhook_events (λ x h. h) found,
          commit_again (record s { working = update_event k again s.working }) done,
        ))
      ]

  commit_refuses : Post (Taken k) ((commit >> (λ t. (ok false, t))) s)
  unfolding ◌>>=◌
  commit_refuses = elim (commit_cases s) [
    | inr (e, failed) ↦ rw failed tt
    | inl (done, good) ↦ rw done (λ h. ground arith)
  ]

claim_takes : (k : ℕ) (s : Session) → Post (Taken k) (claim k s)
unfolding claim ◌>>=◌
claim_takes k s = elim (Option-cases (event_by_key k s.working)) [
  | inl missing ↦ rw missing (insert_takes k s missing)
  | inr (e, found) ↦ elim (Bool-cases (is_failed e.status && ltb e.attempts max_attempts)) [
    | inl retry ↦ rw (found, retry) (retake_takes k s e found)
    | inr handled ↦ rw (found, handled) (commit_refuses k s)
  ]
]

-- After a claim of an event that succeeded, whether on a new event or on one that failed before,
-- claiming it again returns false and changes nothing.
pub claim_once : (k : ℕ) (s s' : Session) → claim k s ≡ (ok true, s') → claim k s' ≡ (ok false, s')
claim_once k s s' h = subst (Post (Taken k)) h (claim_takes k s) refl
