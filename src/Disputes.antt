-- ===== src/Disputes.antt =====
-- app/service/dispute_service.py over app/repository/dispute_repository.py, and the resolve route of
-- app/routers/admin_dispute.py. Left out: categories, descriptions, notes, notifications.
pub mod Freeze
pub mod Attached
pub mod Evidence
pub mod Stable
pub mod Filed
pub mod Listings
pub mod Scope
use adehun_api.Prelude.{
  ℕ, Bool, true, false, not, ◌&&◌, List, [], ◌∷◌, Option, none, some, find, update_where, is_some,
  if◌then◌else◌, ◌==◌,
}
use adehun_api.Enums.{
  AgreementStatus, DisputeStatus, DisputeResolutionOutcome, is_open, is_accepted, same_status,
}
use adehun_api.Models.{Db, Agreement, AgreementParticipant, Dispute, Asset, AssetFile}
use adehun_api.Errors.{
  Error, agreement_not_found, forbidden, bad_request, dispute_already_exists, dispute_not_found,
  dispute_not_open, dispute_creation, participant_not_found,
}
use adehun_api.Session.{
  Action, pure, raise, query, or_raise, ◌>>=◌, ◌>>◌, raise_if, try_except, modify, uuid4, commit,
  rollback,
}
use adehun_api.AgreementService.{
  agreement_by_id, participants_for, participant_for_user, set_agreement_status,
}
use adehun_api.Assets.{Upload, new_file, add_asset}
use adehun_api.Escrow.{
  is_agreement_funded, is_agreement_released, perform_escrow_release, perform_escrow_refund,
}

abbrev pub dispute_by_id : ℕ → Db → Option Dispute
dispute_by_id d db = find (λ x. x.id == d) db.disputes

-- `get_active_for_agreement`
abbrev pub active_dispute : ℕ → Db → Option Dispute
active_dispute a db = find (λ d. d.agreement_id == a && is_open d.status) db.disputes

unfoldable pub add_dispute : Dispute → Db → Db
add_dispute d db = record db { disputes = d ∷ db.disputes }

unfoldable pub write_dispute : ℕ → (Dispute → Dispute) → Db → Db
write_dispute d f db = record db { disputes = update_where (λ x. x.id == d) f db.disputes }

-- `_require_participant`
unfoldable pub require_accepted : ℕ → ℕ → Action AgreementParticipant
require_accepted a u = do
  found ← query (participant_for_user a u)
  participant ← or_raise forbidden found
  raise_if (not (is_accepted participant.status)) forbidden
  pure participant

abbrev pub evidence : ℕ → ℕ → ℕ → AssetFile → Asset
evidence i d p file = record {
  id = i;
  condition_id = none;
  dispute_id = some d;
  file = file;
  uploaded_by = p;
  is_approved = false;
}

-- The loop of `add_evidence` in the repository; the new rows' ids are returned.
unfoldable pub attach : ℕ → ℕ → List Upload → Action (List ℕ)
attach d p [] = pure []
attach d p (f ∷ fs) = do
  i ← uuid4
  j ← uuid4
  modify (add_asset (evidence j d p (new_file i f)))
  rest ← attach d p fs
  pure (j ∷ rest)

-- The row, the evidence, the freeze and the commit of `raise_dispute`, inside its `try`.
unfoldable pub open_dispute : ℕ → ℕ → ℕ → AgreementStatus → ℕ → List Upload → Action ℕ
open_dispute a u other before p files = do
  i ← uuid4
  modify (
      add_dispute (record {
        id = i;
        agreement_id = a;
        raised_by_user_id = u;
        against_user_id = other;
        status = DisputeStatus.opened;
        agreement_status_before = before;
        resolution_outcome = none;
        resolved_by_user_id = none;
      }))
  attach i p files
  modify (set_agreement_status a AgreementStatus.disputed)
  commit
  pure i

-- The two `except` branches of `raise_dispute`.
unfoldable pub raise_failed : Error → Action ℕ
raise_failed Error.integrity_error = do rollback; raise dispute_already_exists
raise_failed _ = do rollback; raise dispute_creation

unfoldable pub raise_dispute : ℕ → ℕ → List Upload → Action ℕ
raise_dispute a u files = do
  found ← query (agreement_by_id a)
  agreement ← or_raise agreement_not_found found
  participant ← require_accepted a u
  active ← query (active_dispute a)
  raise_if (is_some active) dispute_already_exists
  raise_if (not (same_status agreement.status AgreementStatus.active)) bad_request
  participants ← query (participants_for a)
  other ← or_raise participant_not_found (find (λ p. not (p.user_id == u)) participants)
  try_except (open_dispute a u other.user_id agreement.status participant.id files) raise_failed

abbrev is_unclaimed : DisputeStatus → Bool
is_unclaimed DisputeStatus.opened = true
is_unclaimed _ = false

abbrev pub under_review : Dispute → Dispute
under_review d = record d { status = DisputeStatus.under_review }

-- `admin_mark_under_review`
unfoldable pub mark_under_review : ℕ → Action (Unit {0})
mark_under_review d = do
  found ← query (dispute_by_id d)
  dispute ← or_raise dispute_not_found found
  raise_if (not (is_unclaimed dispute.status)) dispute_not_open
  modify (write_dispute d under_review)
  commit

abbrev pub resolved : DisputeResolutionOutcome → ℕ → Dispute → Dispute
resolved outcome admin d = record d {
  status = DisputeStatus.resolved;
  resolution_outcome = some outcome;
  resolved_by_user_id = some admin;
}

-- Only what a dispute froze is unfrozen.
unfoldable pub unfreeze : ℕ → AgreementStatus → Option Agreement → Db → Db
unfreeze a before none db = db
unfreeze a before (some agreement) db =
    if same_status agreement.status AgreementStatus.disputed
    then set_agreement_status a before db
    else db

unfoldable pub resolve_failed : Error → Action (Unit {0})
resolve_failed e = do rollback; raise dispute_creation

-- `admin_resolve_dispute`; the resolved dispute's agreement is returned
unfoldable pub resolve_dispute : ℕ → ℕ → DisputeResolutionOutcome → Action ℕ
resolve_dispute d admin outcome = do
  found ← query (dispute_by_id d)
  dispute ← or_raise dispute_not_found found
  raise_if (not (is_open dispute.status)) dispute_not_open
  modify (write_dispute d (resolved outcome admin))
  agreement ← query (agreement_by_id dispute.agreement_id)
  modify (unfreeze dispute.agreement_id dispute.agreement_status_before agreement)
  try_except commit resolve_failed
  pure dispute.agreement_id

-- The payout of an outcome.
abbrev pub pay_outcome : ℕ → DisputeResolutionOutcome → Action (Unit {0})
pay_outcome a DisputeResolutionOutcome.favour_beneficiary = do perform_escrow_release a; pure tt
pay_outcome a DisputeResolutionOutcome.favour_depositor = do perform_escrow_refund a; pure tt
pay_outcome a _ = pure tt

-- POST /admin/disputes/{id}/resolve; a failed payout is only reported
unfoldable pub resolve_route : ℕ → ℕ → DisputeResolutionOutcome → Action (Unit {0})
resolve_route d admin outcome = do
  a ← resolve_dispute d admin outcome
  funded ← query (is_agreement_funded a)
  released ← query (is_agreement_released a)
  try_except (if funded && not released then pay_outcome a outcome else pure tt) (λ e. pure tt)
