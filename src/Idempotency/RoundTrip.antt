-- ===== src/Idempotency/RoundTrip.antt =====
-- `begin` and `complete` of app/core/idempotency.py: the response that was stored is the one that a
-- repeated request gets.
use mathlib.Core.Path.{subst}
use adehun_api.Prelude.{
  ℕ, ◌+◌, ◌≡◌, ◌∙◌, refl, Bool, true, false, ◌&&◌, Option, none, some, List, [], ◌∷◌, find, arith,
  ◌==◌, ==_refl, ltb, find-update_other, Bool-cases, Option-cases, inl, inr,
}
use adehun_api.Enums.{IdempotencyStatus}
use adehun_api.Models.{Db, IdempotencyKey}
use adehun_api.Session.{Session, ok, ◌>>=◌}
use adehun_api.Session.Commits.{IsCommittable, commit_ok, commit_splits}
use adehun_api.Session.Ensures.{Post}
use adehun_api.Idempotency.{
  Claim, replay, inflight_timeout, is_in_progress, names_row, key_of, add_key, reservation,
  write_key, taken_over, with_response, reserve, begin_claim, complete_key, complete,
}
use adehun_api.Idempotency.Replay.{stepped, completed_replays}

-- The row of the claim is the reservation `i`, for the same body.
abbrev pub Reserves : Claim → ℕ → Db → Type 0
Reserves c i db =
    (k : IdempotencyKey) × (key_of c db ≡ some k)
    × ((k.id == i) ≡ true)
    × ((k.request_hash == c.request_hash) ≡ true)

find_any :
    (p q : IdempotencyKey → Bool) (xs : List IdempotencyKey) {x : IdempotencyKey}
    → find p xs ≡ some x
    → q x ≡ true
    → (y : IdempotencyKey) × (find q xs ≡ some y)
find_any p q [] found holds = absurd cc
find_any p q (y ∷ ys) {x} found holds = elim (Bool-cases (q y)) [
  | inl here ↦ rw here (y, refl)
  | inr there ↦ rw there (find_any p q ys {x = x} (ground arith) holds)
]

abbrev Granted : Claim → Option ℕ → Session → Type 0
Granted c o t = (i : ℕ) → o ≡ some i → Reserves c i t.working

-- What `reserve` gives out is the row of the claim.
module _ (c : Claim) (now : ℕ) (s : Session) where
  inserted : key_of c s.working ≡ none → Post (Granted c) (reserve c now false s)
  unfolding reserve add_key ◌>>=◌
  inserted missing = elim (commit_splits added) [
    | inr (e, failed) ↦ rw (missing, failed) tt
    | inl (good, done) ↦
        rw (missing, done)
          (λ i taken. (
            reservation s.next_id c now,
            rw (==_refl c.user_id, ==_refl c.endpoint, ==_refl c.key) refl,
            ground arith,
            ==_refl c.request_hash,
          ))
  ]
    where
      added : Session
      added = record s { next_id = s.next_id + 1; working = add_key s.next_id c now s.working }

  retaken :
      (k : IdempotencyKey)
      → key_of c s.working ≡ some k
      → is_in_progress k.status && ltb (k.created_at + inflight_timeout) now ≡ true
      → Post (Granted c) (reserve c now false s)
  unfolding reserve write_key ◌>>=◌
  retaken k found stale = elim (commit_splits taken) [
    | inr (e, failed) ↦ rw (found, stale, failed) tt
    | inl (good, done) ↦
        rw (found, stale, done)
          (λ i held. (
            taken_over c now k,
            find-update_other (names_row c) (λ x. x.id == k.id) (taken_over c now)
                s.working.idempotency_keys (λ x. refl) found (==_refl k.id),
            ground arith,
            ==_refl c.request_hash,
          ))
  ]
    where
      taken : Session
      taken = record s {
        next_id = s.next_id + 1;
        working = write_key k.id (taken_over c now) s.working;
      }

  refused :
      (k : IdempotencyKey)
      → key_of c s.working ≡ some k
      → is_in_progress k.status && ltb (k.created_at + inflight_timeout) now ≡ false
      → Post (Granted c) (reserve c now false s)
  unfolding reserve ◌>>=◌
  refused k found live = elim (commit_splits (record s { next_id = s.next_id + 1 })) [
    | inr (e, failed) ↦ rw (found, live, failed) tt
    | inl (good, done) ↦ rw (found, live, done) (λ i held. absurd (nothing i held))
  ]
    where
      nothing : (i : ℕ) → none ≡ some i → ⊥
      nothing i held = cc

  reserve-Post : Post (Granted c) (reserve c now false s)
  reserve-Post = elim (Option-cases (key_of c s.working)) [
    | inl missing ↦ inserted missing
    | inr (k, found) ↦
        elim (Bool-cases (is_in_progress k.status && ltb (k.created_at + inflight_timeout) now)) [
          | inl stale ↦ retaken k found stale
          | inr live ↦ refused k found live
        ]
  ]

-- The row of the claim has the response, and can be committed.
record IsStored (c : Claim) (r : Option ℕ) (s : Session) : Type 0 where
  pub good : IsCommittable s.working
  pub row : IdempotencyKey
  pub found : key_of c s.working ≡ some row
  pub finished : row.status ≡ IdempotencyStatus.completed
  pub response : row.response ≡ r
  pub same : (row.request_hash == c.request_hash) ≡ true

complete_key-Post :
    (c : Claim) (i : ℕ) (r : Option ℕ) (s : Session)
    → Reserves c i s.working
    → Post (λ _ t. IsStored c r t) (complete_key i r s)
unfolding complete_key write_key ◌>>=◌
complete_key-Post c i r s (k, found, own, same) =
    let (x, there) = find_any (names_row c) (λ y. y.id == i) s.working.idempotency_keys found own in
    elim (commit_splits ended) [
      | inr (e, failed) ↦ rw (there, failed) tt
      | inl (good, done) ↦
          rw (there, done)
            (record {
              good = good;
              row = with_response r k;
              found =
                  find-update_other (names_row c) (λ y. y.id == i) (with_response r)
                    s.working.idempotency_keys (λ y. refl) found own;
              finished = refl;
              response = refl;
              same = same;
            })
    ]
  where
    ended : Session
    ended = record s { working = write_key i (with_response r) s.working }

-- When a key was reserved without a sweep, and the reservation is completed with a response from
-- a session with the same table of keys, a later request with that key and body gets that
-- response and reserves nothing.
pub begin_claim-complete :
    (c : Claim) (now later i : ℕ) (sweeps : Bool) (r : Option ℕ) (s s' t t' : Session)
    → reserve c now false s ≡ (ok (some i), s')
    → t.working.idempotency_keys ≡ s'.working.idempotency_keys
    → complete (some i) r t ≡ (ok tt, t')
    → begin_claim c later sweeps t' ≡ (ok (replay r), stepped t')
unfolding complete
begin_claim-complete c now later i sweeps r s s' t t' reserved kept finished =
    completed_replays c later sweeps t' stored.row stored.found stored.finished
      (commit_ok (record t' { next_id = t'.next_id + 1 }) stored.good)
    ∙ rw (stored.same, stored.response) refl
  where
    granted : Reserves c i s'.working
    granted = subst (Post (Granted c)) reserved (reserve-Post c now s) i refl

    carried : Reserves c i t.working
    carried = let (k, found, own, same) = granted in (k, rw kept found, own, same)

    stored : IsStored c r t'
    stored = subst (Post (λ _ u. IsStored c r u)) finished (complete_key-Post c i r t carried)
