-- ===== src/Session/Commits.antt =====
-- Which open transactions `commit` takes over.
use adehun_api.Prelude.{◌≡◌, refl, true, false, all, ◌⊎◌, inl, inr, Bool-cases}
use adehun_api.Models.{Db}
use adehun_api.Errors.{Error, integrity_error, data_error}
use adehun_api.Session.{Session, ok, err, commit, constraints, fits_numeric}

-- The rows satisfy the table constraints.
abbrev pub IsCommittable : Db → Type 0
IsCommittable db = (all fits_numeric db.wallets ≡ true) × (constraints db ≡ true)

-- The session after a commit that went through.
abbrev pub saved : Session → Session
saved s = record s { committed = s.working }

pub commit_ok : (s : Session) → IsCommittable s.working → commit s ≡ (ok tt, saved s)
unfolding commit
commit_ok s (fits, good) = rw (fits, good) refl

pub commit_splits :
    (s : Session)
    → (IsCommittable s.working × (commit s ≡ (ok tt, saved s)))
      ⊎ ((e : Error) × (commit s ≡ (err e, s)))
unfolding commit
commit_splits s = elim (Bool-cases (all fits_numeric s.working.wallets)) [
  | inr big ↦ inr (data_error, rw big)
  | inl fits ↦ elim (Bool-cases (constraints s.working)) [
    | inl good ↦ inl ((fits, good), rw (fits, good))
    | inr bad ↦ inr (integrity_error, rw (fits, bad))
  ]
]

-- A commit that the constraints forbid.
pub commit_refused :
    (s : Session)
    → constraints s.working ≡ false
    → (commit s ≡ (err data_error, s)) ⊎ (commit s ≡ (err integrity_error, s))
unfolding commit
commit_refused s bad = elim (Bool-cases (all fits_numeric s.working.wallets)) [
  | inr big ↦ inl (rw big refl)
  | inl fits ↦ inr (rw (fits, bad) refl)
]
