-- ===== src/Conditions/Authority.antt =====
-- Who may decide on a condition in app/service/condition_service.py.
use adehun_api.Prelude.{
  ℕ, ◌≡◌, Bool, false, not, ◌&&◌, Option, none, some, inl, inr, arith, Bool-cases, Option-cases,
}
use adehun_api.Enums.{is_depositor}
use adehun_api.Models.{Db, AgreementParticipant, Condition}
use adehun_api.Errors.{Error, forbidden, bad_request}
use adehun_api.Session.{Session, err, ◌>>=◌}
use adehun_api.AgreementService.{agreement_by_id, participant_for_user}
use adehun_api.Conditions.{
  condition_by_id, is_approved, is_active, require_depositor, approve_condition, reject_condition,
}

abbrev pub pays : Option AgreementParticipant → Bool
pays none = false
pays (some p) = is_depositor p.role

-- The user pays under the condition's agreement, which is active, and the condition is not approved.
abbrev pub decides : Condition → ℕ → Db → Bool
decides c u db =
    pays (participant_for_user c.agreement_id u db)
    && is_active (agreement_by_id c.agreement_id db)
    && not (is_approved c.status)

require_depositor_refuses :
    (c : Condition) (u : ℕ) (s : Session)
    → decides c u s.working ≡ false
    → (e : Error) × (require_depositor c u s ≡ (err e, s))
unfolding require_depositor ◌>>=◌
require_depositor_refuses c u s h =
    elim (Option-cases (participant_for_user c.agreement_id u s.working)) [
      | inl stranger ↦ (forbidden, rw stranger)
      | inr (p, found) ↦ elim (Bool-cases (is_depositor p.role)) [
        | inr payee ↦ (forbidden, rw (found, payee))
        | inl payer ↦ elim (Bool-cases (is_active (agreement_by_id c.agreement_id s.working))) [
          | inr idle ↦ (bad_request, rw (found, payer, idle))
          | inl going ↦ elim (Bool-cases (is_approved c.status)) [
            | inl final ↦ (bad_request, rw (found, payer, going, final))
            | inr waiting ↦ ground arith
          ]
        ]
      ]
    ]

-- Unless the user pays under a condition's agreement, the agreement is active and the condition
-- is not approved, both approving and rejecting the condition raise the same error and change
-- nothing.
pub decision_refused :
    (c u reason : ℕ) (s : Session) (row : Condition)
    → condition_by_id c s.working ≡ some row
    → decides row u s.working ≡ false
    → (e : Error) × (approve_condition c u s ≡ (err e, s))
      × (reject_condition c u reason s ≡ (err e, s))
unfolding approve_condition reject_condition ◌>>=◌
decision_refused c u reason s row found h =
    let (e, refused) = require_depositor_refuses row u s h in
    (e, rw (found, refused), rw (found, refused))
