-- ===== src/AgreementService.antt =====
-- app/service/agreement_service.py over app/repository/agreement_repository.py: the escrow context of
-- an agreement, the guards before money moves, and how an agreement is accepted, declined and
-- cancelled. What decides on the status of an agreement reads the row (`get_attached`), but the guard
-- on funding reads `get_by_id`, so it takes the status of the copy that Redis holds, if it holds one,
-- as a parameter. The other fields that `get_by_id` shows do not change. Left out: responses and
-- e-mails.
pub mod Creation
pub mod Steps
pub mod Deal
use adehun_api.Prelude.{
  ℕ, Bool, true, false, not, ◌&&◌, List, ◌∷◌, Option, none, some, find, select_all, length,
  update_where, if◌then◌else◌, leb, ◌==◌,
}
use adehun_api.Enums.{
  ParticipantRole, InvitationStatus, AgreementStatus, is_depositor, is_beneficiary, is_accepted,
  is_rejected, same_status,
}
use adehun_api.Money.{Decimal}
use adehun_api.Models.{Db, Agreement, AgreementParticipant, Invitation, InviteState}
use adehun_api.Errors.{
  bad_request, forbidden, agreement_not_found, participant_not_found, agreement_acceptance,
}
use adehun_api.Session.{Action, pure, query, or_raise, ◌>>=◌, ◌>>◌, raise_if, modify, uuid4, commit}

pub record EscrowContext : Type 0 where
  pub agreement_id : ℕ
  pub amount : Decimal
  pub depositor_user_id : ℕ
  pub beneficiary_user_id : ℕ
  pub depositor_participant_id : ℕ
  pub beneficiary_participant_id : ℕ

-- `get_by_id` and `get_attached`
abbrev pub agreement_by_id : ℕ → Db → Option Agreement
agreement_by_id a db = find (λ x. x.id == a) db.agreements

abbrev pub participants_for : ℕ → Db → List AgreementParticipant
participants_for a db = select_all (λ p. p.agreement_id == a) db.participants

abbrev pub participant_for_user : ℕ → ℕ → Db → Option AgreementParticipant
participant_for_user a u db = find (λ p. p.agreement_id == a && p.user_id == u) db.participants

abbrev pub invitation_for_email : ℕ → ℕ → Db → Option Invitation
invitation_for_email email a db = find (λ i. i.agreement_id == a && i.email == email) db.invitations

-- `agreement.status = ...` and `session.add(agreement)`
unfoldable pub set_agreement_status : ℕ → AgreementStatus → Db → Db
set_agreement_status a status db = record db {
  agreements = update_where (λ x. x.id == a) (λ x. record x { status = status }) db.agreements;
}

-- `save_agreement` on a changed status, with its commit
unfoldable pub save_agreement : ℕ → AgreementStatus → Action (Unit {0})
save_agreement a status = do modify (set_agreement_status a status); commit

unfoldable pub get_escrow_context : ℕ → Action EscrowContext
get_escrow_context a = do
  found ← query (agreement_by_id a)
  agreement ← or_raise agreement_not_found found
  participants ← query (participants_for a)
  depositor ← or_raise participant_not_found (find (λ p. is_depositor p.role) participants)
  beneficiary ← or_raise participant_not_found (find (λ p. is_beneficiary p.role) participants)
  pure (record {
    agreement_id = agreement.id;
    amount = agreement.amount;
    depositor_user_id = depositor.user_id;
    beneficiary_user_id = beneficiary.user_id;
    depositor_participant_id = depositor.id;
    beneficiary_participant_id = beneficiary.id;
  })

-- The statuses in which an agreement cannot be funded.
unfoldable pub blocks_funding : AgreementStatus → Bool
blocks_funding AgreementStatus.cancelled = true
blocks_funding AgreementStatus.completed = true
blocks_funding AgreementStatus.refunded = true
blocks_funding AgreementStatus.disputed = true
blocks_funding _ = false

-- The status that `get_by_id` shows: that of the copy in Redis if there is one, however old.
abbrev pub shown_status : Option AgreementStatus → AgreementStatus → AgreementStatus
shown_status none t = t
shown_status (some cached) t = cached

abbrev blocked : Option AgreementStatus → Option Agreement → Bool
blocked copy none = false
blocked copy (some agreement) = blocks_funding (shown_status copy agreement.status)

-- With the status of the copy that Redis holds of the agreement.
unfoldable pub prepare_escrow_funding : Option AgreementStatus → ℕ → ℕ → Action EscrowContext
prepare_escrow_funding copy a u = do
  context ← get_escrow_context a
  raise_if (not (context.depositor_user_id == u)) forbidden
  agreement ← query (agreement_by_id a)
  raise_if (blocked copy agreement) bad_request
  pure context

-- The statuses in which the escrow cannot be released.
unfoldable pub blocks_release : AgreementStatus → Bool
blocks_release AgreementStatus.disputed = true
blocks_release AgreementStatus.cancelled = true
blocks_release AgreementStatus.refunded = true
blocks_release _ = false

unfoldable pub prepare_release : ℕ → Action EscrowContext
prepare_release a = do
  context ← get_escrow_context a
  found ← query (agreement_by_id a)
  agreement ← or_raise agreement_not_found found
  raise_if (blocks_release agreement.status) bad_request
  modify (set_agreement_status a AgreementStatus.completed)
  pure context

-- The status in which the escrow cannot be refunded.
unfoldable pub blocks_refund : AgreementStatus → Bool
blocks_refund AgreementStatus.completed = true
blocks_refund _ = false

unfoldable pub prepare_refund : ℕ → Action EscrowContext
prepare_refund a = do
  context ← get_escrow_context a
  found ← query (agreement_by_id a)
  agreement ← or_raise agreement_not_found found
  raise_if (blocks_refund agreement.status) bad_request
  modify (set_agreement_status a AgreementStatus.refunded)
  pure context

-- A participant row with a new status, or a new row for an invitee.
unfoldable pub set_participant : ℕ → ℕ → InvitationStatus → Db → Db
set_participant a u status db = record db {
  participants =
      update_where (λ p. p.agreement_id == a && p.user_id == u) (λ p. record p { status = status })
        db.participants;
}

unfoldable pub add_participant : AgreementParticipant → Db → Db
add_participant p db = record db { participants = p ∷ db.participants }

abbrev pub join :
    ℕ → ℕ → ParticipantRole → InvitationStatus → Option AgreementParticipant → Action ℕ
join a u role status (some p) = do modify (set_participant a u status); pure p.id
join a u role status none = do
  i ← uuid4
  modify (
      add_participant
        (record { id = i; agreement_id = a; user_id = u; role = role; status = status }))
  pure i

unfoldable pub set_invitation : ℕ → InviteState → Db → Db
set_invitation i state db = record db {
  invitations =
      update_where (λ x. x.id == i) (λ x. record x { status = some state }) db.invitations;
}

-- `(invitation.status or "pending") != "pending"`
abbrev pub is_spent : Option InviteState → Bool
is_spent none = false
is_spent (some InviteState.pending) = false
is_spent (some _) = true

abbrev pub has_status : (InvitationStatus → Bool) → Option AgreementParticipant → Bool
has_status test none = false
has_status test (some p) = test p.status

abbrev names : ℕ → Option ℕ → Bool
names j none = false
names j (some k) = k == j

-- `update_agreement_conditions_with_invitation`, with its commit when there are conditions
unfoldable pub point_conditions : ℕ → ℕ → ℕ → Db → Db
point_conditions a i p db = record db {
  conditions =
      update_where (λ c. c.agreement_id == a && names i c.invitation_id)
        (λ c. record c { required_from_participant_id = some p }) db.conditions;
}

-- The status after an acceptance: active once two participants have accepted.
abbrev pub status_after : List AgreementParticipant → AgreementStatus
status_after ps =
    if leb 2 (length (select_all (λ p. is_accepted p.status) ps))
    then AgreementStatus.active
    else AgreementStatus.pending

-- `accept_agreement` from the first guard on, for a caller who has not accepted yet.
abbrev pub accept_new : ℕ → ℕ → Invitation → Option AgreementParticipant → Action (Unit {0})
accept_new a u invitation participant = do
  found ← query (agreement_by_id a)
  existing ← or_raise agreement_not_found found
  raise_if (not (same_status existing.status AgreementStatus.pending)) bad_request
  raise_if (is_spent invitation.status) bad_request
  p ← join a u invitation.role InvitationStatus.accepted participant
  modify (set_invitation invitation.id InviteState.accepted)
  commit
  participants ← query (participants_for a)
  save_agreement a (status_after participants)
  modify (point_conditions a invitation.id p)
  commit

unfoldable pub accept_agreement : ℕ → ℕ → ℕ → Action (Unit {0})
accept_agreement a u email = do
  found ← query (invitation_for_email email a)
  invitation ← or_raise agreement_acceptance found
  participant ← query (participant_for_user a u)
  if has_status is_accepted participant then pure tt else accept_new a u invitation participant

-- The statuses in which a participant may cancel.
unfoldable pub may_cancel : AgreementStatus → Bool
may_cancel AgreementStatus.pending = true
may_cancel AgreementStatus.active = true
may_cancel _ = false

unfoldable pub cancel_agreement : ℕ → ℕ → Action (Unit {0})
cancel_agreement a u = do
  found ← query (agreement_by_id a)
  agreement ← or_raise agreement_not_found found
  participant ← query (participant_for_user a u)
  or_raise forbidden participant
  if same_status agreement.status AgreementStatus.cancelled then pure tt else (do
    raise_if (not (may_cancel agreement.status)) bad_request
    save_agreement a AgreementStatus.cancelled)

-- `reject_agreement` after its lookups.
abbrev pub reject_new : ℕ → ℕ → Invitation → Option AgreementParticipant → Action (Unit {0})
reject_new a u invitation participant = do
  join a u invitation.role InvitationStatus.rejected participant
  modify (set_invitation invitation.id InviteState.expired)
  commit
  save_agreement a AgreementStatus.cancelled

unfoldable pub reject_agreement : ℕ → ℕ → ℕ → Action (Unit {0})
reject_agreement a u email = do
  found ← query (agreement_by_id a)
  existing ← or_raise agreement_not_found found
  raise_if (not (may_cancel existing.status)) bad_request
  invited ← query (invitation_for_email email a)
  invitation ← or_raise agreement_acceptance invited
  participant ← query (participant_for_user a u)
  if has_status is_rejected participant then pure tt else reject_new a u invitation participant
