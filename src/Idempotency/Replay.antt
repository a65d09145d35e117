-- ===== src/Idempotency/Replay.antt =====
-- `begin` of app/core/idempotency.py for a key that was used before.
use mathlib.Core.Path.{subst}
use adehun_api.Prelude.{
  ℕ, ◌+◌, ◌≤◌, ◌≡◌, refl, Bool, true, false, ◌&&◌, Option, none, some, arith, if◌then◌else◌, ◌==◌,
  ==_refl, ltb, all, find-update_other, Bool-cases, Option-cases, inl, inr,
}
use adehun_api.Enums.{IdempotencyStatus}
use adehun_api.Models.{IdempotencyKey}
use adehun_api.Errors.{idempotency_conflict, idempotency_key_reused}
use adehun_api.Session.{Session, ok, err, ◌>>=◌, commit, commit_cases, fits_numeric, constraints}
use adehun_api.Session.Ensures.{Post}
use adehun_api.Idempotency.{
  Claim, replay, inflight_timeout, is_in_progress, names_row, key_of, add_key, reservation,
  write_key, taken_over, reserve, begin_taken, begin_claim,
}

-- The session after a request that only drew an id and committed what was there.
abbrev pub stepped : Session → Session
stepped s = record s { next_id = s.next_id + 1; committed = s.working }

-- A key with a row that is not an abandoned reservation is not reserved.
not_reserved :
    (c : Claim) (now : ℕ) (sweeps : Bool) (s : Session) (k : IdempotencyKey)
    → key_of c s.working ≡ some k
    → is_in_progress k.status && ltb (k.created_at + inflight_timeout) now ≡ false
    → commit (record s { next_id = s.next_id + 1 }) ≡ (ok tt, stepped s)
    → begin_claim c now sweeps s ≡ begin_taken c (some k) (stepped s)
unfolding begin_claim reserve ◌>>=◌
not_reserved c now sweeps s k found held done = rw (found, held, done, found)

-- For a key whose row is completed, where the session can commit, a request with the same body
-- gets the stored response and one with another body is refused; nothing is reserved.
pub completed_replays :
    (c : Claim) (now : ℕ) (sweeps : Bool) (s : Session) (k : IdempotencyKey)
    → key_of c s.working ≡ some k
    → k.status ≡ IdempotencyStatus.completed
    → commit (record s { next_id = s.next_id + 1 }) ≡ (ok tt, stepped s)
    → begin_claim c now sweeps s ≡ (
      if k.request_hash == c.request_hash
          then ok (replay k.response)
          else err idempotency_key_reused,
      stepped s,
    )
unfolding ◌>>=◌
completed_replays c now sweeps s k found finished done =
    elim (Bool-cases (k.request_hash == c.request_hash)) [
      | inl same ↦ rw (not_reserved c now sweeps s k found (rw finished refl) done, same, finished)
      | inr other ↦ rw (not_reserved c now sweeps s k found (rw finished refl) done, other)
    ]

-- A request for a key with a reservation that is not stale.
in_flight :
    (c : Claim) (now : ℕ) (sweeps : Bool) (s : Session) (k : IdempotencyKey)
    → key_of c s.working ≡ some k
    → is_in_progress k.status ≡ true
    → k.request_hash ≡ c.request_hash
    → now ≤ k.created_at + inflight_timeout
    → commit (record s { next_id = s.next_id + 1 }) ≡ (ok tt, stepped s)
    → begin_claim c now sweeps s ≡ (err idempotency_conflict, stepped s)
unfolding ◌>>=◌
in_flight c now sweeps s k found going same early done =
    rw
      (not_reserved c now sweeps s k found (ground arith) done, same, ==_refl c.request_hash, going)

-- Until the timeout, nobody else gets a key that was reserved at `now`.
abbrev Held : Claim → ℕ → Option ℕ → Session → Type 0
Held c now reserved s =
    (i later : ℕ) (sweeps : Bool)
    → reserved ≡ some i
    → later ≤ now + inflight_timeout
    → begin_claim c later sweeps s ≡ (err idempotency_conflict, stepped s)

-- A commit looks at no id.
commit_later :
    (s : Session)
    → commit s ≡ (ok tt, record s { committed = s.working })
    → commit (record s { next_id = s.next_id + 1; committed = s.working }) ≡ (ok tt, stepped s)
unfolding commit
commit_later s h = elim (Bool-cases (all fits_numeric s.working.wallets)) [
  | inr big ↦ ground arith
  | inl fits ↦ elim (Bool-cases (constraints s.working)) [
    | inl good ↦ rw (fits, good)
    | inr bad ↦ ground arith
  ]
]

module _ (c : Claim) (now : ℕ) (s : Session) where
  names_itself : names_row c (reservation s.next_id c now) ≡ true
  names_itself = ground arith

  insert_holds : key_of c s.working ≡ none → Post (Held c now) (reserve c now false s)
  unfolding reserve add_key ◌>>=◌
  insert_holds missing = elim (commit_cases added) [
    | inr (e, failed) ↦ rw (missing, failed) tt
    | inl (done, good) ↦
        rw (missing, done)
          (λ i later sweeps taken early.
            in_flight c later sweeps (record added { committed = added.working })
              (reservation s.next_id c now) (rw names_itself) refl refl early
              (commit_later added done))
  ]
    where
      added : Session
      added = record s { next_id = s.next_id + 1; working = add_key s.next_id c now s.working }

  retake_holds :
      (k : IdempotencyKey)
      → key_of c s.working ≡ some k
      → is_in_progress k.status && ltb (k.created_at + inflight_timeout) now ≡ true
      → Post (Held c now) (reserve c now false s)
  unfolding reserve write_key ◌>>=◌
  retake_holds k found stale = elim (commit_cases taken) [
    | inr (e, failed) ↦ rw (found, stale, failed) tt
    | inl (done, good) ↦
        rw (found, stale, done)
          (λ i later sweeps held early.
            in_flight c later sweeps (record taken { committed = taken.working })
              (taken_over c now k) row refl refl early (commit_later taken done))
  ]
    where
      taken : Session
      taken = record s {
        next_id = s.next_id + 1;
        working = write_key k.id (taken_over c now) s.working;
      }

      row : key_of c taken.working ≡ some (taken_over c now k)
      row =
          find-update_other (names_row c) (λ x. x.id == k.id) (taken_over c now)
            s.working.idempotency_keys (λ x. refl) found (==_refl k.id)

  refused_holds :
      (k : IdempotencyKey)
      → key_of c s.working ≡ some k
      → is_in_progress k.status && ltb (k.created_at + inflight_timeout) now ≡ false
      → Post (Held c now) (reserve c now false s)
  unfolding reserve ◌>>=◌
  refused_holds k found live = elim (commit_cases (record s { next_id = s.next_id + 1 })) [
    | inr (e, failed) ↦ rw (found, live, failed) tt
    | inl (done, good) ↦ rw (found, live, done) (λ i later sweeps held early. ground arith)
  ]

  reserve_holds : Post (Held c now) (reserve c now false s)
  reserve_holds = elim (Option-cases (key_of c s.working)) [
    | inl missing ↦ insert_holds missing
    | inr (k, found) ↦
        elim (Bool-cases (is_in_progress k.status && ltb (k.created_at + inflight_timeout) now)) [
          | inl stale ↦ retake_holds k found stale
          | inr live ↦ refused_holds k found live
        ]
  ]

-- After a reservation of a key at some time, new or taken over, without a sweep, every further
-- request with that key and body until the in-flight timeout is refused with a conflict.
pub reserved_key_conflicts :
    (c : Claim) (now later i : ℕ) (sweeps : Bool) (s s' : Session)
    → reserve c now false s ≡ (ok (some i), s')
    → later ≤ now + inflight_timeout
    → begin_claim c later sweeps s' ≡ (err idempotency_conflict, stepped s')
reserved_key_conflicts c now later i sweeps s s' h early =
    subst (Post (Held c now)) h (reserve_holds c now s) i later sweeps refl early
