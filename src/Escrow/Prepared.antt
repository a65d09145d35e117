-- ===== src/Escrow/Prepared.antt =====
-- What `prepare_release` and `prepare_refund` of app/service/agreement_service.py leave.
use adehun_api.Prelude.{ℕ, ◌≡◌, Bool, false, some, ◌⊎◌, inl, inr, Bool-cases, Option-cases}
use adehun_api.Enums.{AgreementStatus}
use adehun_api.Models.{Agreement}
use adehun_api.Errors.{Error, bad_request, agreement_not_found}
use adehun_api.Session.{Session, Result, ok, err, ◌>>=◌}
use adehun_api.AgreementService.{
  EscrowContext, agreement_by_id, set_agreement_status, blocks_release, blocks_refund,
  prepare_release, prepare_refund,
}
use adehun_api.Escrow.Closed.{get_escrow_context-Reads}

-- The session with a new status of an agreement.
abbrev pub restated_in : ℕ → AgreementStatus → Session → Session
restated_in a t s = record s { working = set_agreement_status a t s.working }

-- It raised and changed nothing, or the agreement was there in a status that does not block it, and
-- now has the status `t`.
abbrev pub IsPrepared :
    (AgreementStatus → Bool)
    → AgreementStatus
    → ℕ
    → Session
    → Result EscrowContext × Session
    → Type 0
IsPrepared blocks t a s outcome =
    ((e : Error) × (outcome ≡ (err e, s)))
    ⊎ ((c : EscrowContext) × (x : Agreement) × (agreement_by_id a s.working ≡ some x)
        × (blocks x.status ≡ false)
        × (outcome ≡ (ok c, restated_in a t s)))

pub prepare_release_cases :
    (a : ℕ) (s : Session)
    → IsPrepared blocks_release AgreementStatus.completed a s (prepare_release a s)
unfolding prepare_release ◌>>=◌
prepare_release_cases a s = elim ((get_escrow_context-Reads a).at s) [
  | inr (e, failed) ↦ inl (e, rw failed)
  | inl (c, there) ↦ elim (Option-cases (agreement_by_id a s.working)) [
    | inl missing ↦ inl (agreement_not_found, rw (there, missing))
    | inr (x, found) ↦ elim (Bool-cases (blocks_release x.status)) [
      | inl stuck ↦ inl (bad_request, rw (there, found, stuck))
      | inr free ↦ inr (c, x, found, free, rw (there, found, free))
    ]
  ]
]

pub prepare_refund_cases :
    (a : ℕ) (s : Session)
    → IsPrepared blocks_refund AgreementStatus.refunded a s (prepare_refund a s)
unfolding prepare_refund ◌>>=◌
prepare_refund_cases a s = elim ((get_escrow_context-Reads a).at s) [
  | inr (e, failed) ↦ inl (e, rw failed)
  | inl (c, there) ↦ elim (Option-cases (agreement_by_id a s.working)) [
    | inl missing ↦ inl (agreement_not_found, rw (there, missing))
    | inr (x, found) ↦ elim (Bool-cases (blocks_refund x.status)) [
      | inl stuck ↦ inl (bad_request, rw (there, found, stuck))
      | inr free ↦ inr (c, x, found, free, rw (there, found, free))
    ]
  ]
]
