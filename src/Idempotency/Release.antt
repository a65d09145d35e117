-- ===== src/Idempotency/Release.antt =====
-- `release` of app/repository/idempotency_repository.py.
use adehun_api.Prelude.{ℕ, ◌≡◌, false, ◌&&◌, some, arith, ◌==◌, find-select_all, inl, inr}
use adehun_api.Models.{IdempotencyKey}
use adehun_api.Session.{Session, ◌>>=◌, commit_cases, rollback}
use adehun_api.Idempotency.{Claim, names_row, key_of, is_in_progress, remove_keys, release}

abbrev cleared : ℕ → Session → Session
cleared i s = record s {
  working = remove_keys (λ x. x.id == i && is_in_progress x.status) s.committed;
}

-- Releasing a reservation drops no committed row that is completed, whether the release goes
-- through or its commit fails.
pub release_keeps_completed :
    (i : ℕ) (c : Claim) (s : Session) (k : IdempotencyKey)
    → key_of c s.committed ≡ some k
    → is_in_progress k.status ≡ false
    → key_of c ((release i s).1).committed ≡ some k
unfolding release remove_keys ◌>>=◌ rollback
release_keeps_completed i c s k found finished = elim (commit_cases (cleared i s)) [
  | inr (e, failed) ↦ rw failed found
  | inl (done, good) ↦
      rw done (find-select_all (names_row c) _ s.committed.idempotency_keys found (ground arith))
]
