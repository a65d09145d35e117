-- ===== src/AgreementService/Creation.antt =====
-- `create_agreement` of app/service/agreement_service.py: the agreement, its creator, the invitation of
-- the other party and the conditions, committed together. The amount and the e-mail addresses were
-- validated by the request's schema. Left out: the token of the invitation and its cache, the e-mail.
use adehun_api.Prelude.{ℕ, zero, suc, ◌==◌, Option, none, some, ◌∷◌, false}
use adehun_api.Enums.{ParticipantRole, InvitationStatus, AgreementStatus}
use adehun_api.Money.{Decimal}
use adehun_api.Models.{
  Db, Agreement, AgreementParticipant, Invitation, InviteState, ConditionStatus,
}
use adehun_api.Errors.{Error, bad_request, agreement_not_found, agreement_creation}
use adehun_api.Session.{
  Action, pure, raise, query, or_raise, ◌>>=◌, ◌>>◌, raise_if, try_except, modify, uuid4, commit,
  rollback,
}
use adehun_api.AgreementService.{agreement_by_id, participant_for_user, add_participant}
use adehun_api.Conditions.{add_row}

-- The role of the invitee.
abbrev pub opposite : ParticipantRole → ParticipantRole
opposite ParticipantRole.depositor = ParticipantRole.beneficiary
opposite ParticipantRole.beneficiary = ParticipantRole.depositor

-- `flush`
unfoldable pub add_agreement : Agreement → Db → Db
add_agreement x db = record db { agreements = x ∷ db.agreements }

-- `invite_participant`
unfoldable pub add_invitation : Invitation → Db → Db
add_invitation i db = record db { invitations = i ∷ db.invitations }

-- The conditions, as many as the request has; they name the invitation until it is accepted.
unfoldable pub add_conditions : ℕ → ℕ → ℕ → ℕ → Action (Unit {0})
add_conditions zero a p i = pure tt
add_conditions (suc k) a p i = do
  c ← uuid4
  modify (
      add_row (record {
        id = c;
        agreement_id = a;
        participant_id = p;
        invitation_id = some i;
        required_from_participant_id = none;
        status = ConditionStatus.pending;
        approved = false;
        rejected_reason = none;
      }))
  add_conditions k a p i

abbrev pub creator : ℕ → ℕ → ℕ → ParticipantRole → AgreementParticipant
creator p a u role = record {
  id = p;
  agreement_id = a;
  user_id = u;
  role = role;
  status = InvitationStatus.accepted;
}

-- The second look for the creator's row.
abbrev pub ensure_creator :
    ℕ → ℕ → ParticipantRole → Option AgreementParticipant → Action (Unit {0})
ensure_creator a u role (some p) = pure tt
ensure_creator a u role none = do p ← uuid4; modify (add_participant (creator p a u role)); commit

-- The `try` block from the creator's row on.
unfoldable pub fill_in : ParticipantRole → ℕ → ℕ → ℕ → ℕ → Action ℕ
fill_in role u invitee k a = do
  p ← uuid4
  modify (add_participant (creator p a u role))
  i ← uuid4
  modify (
      add_invitation (record {
        id = i;
        email = invitee;
        agreement_id = a;
        role = opposite role;
        status = some InviteState.pending;
      }))
  add_conditions k a p i
  commit
  existing ← query (participant_for_user a u)
  ensure_creator a u role existing
  found ← query (agreement_by_id a)
  or_raise agreement_not_found found
  pure a

abbrev pub proposed : ℕ → ℕ → Decimal → Agreement
proposed a u amount = record {
  id = a;
  user_id = u;
  amount = amount;
  status = AgreementStatus.pending;
}

-- The `try` block.
unfoldable pub set_up : ParticipantRole → ℕ → ℕ → Decimal → ℕ → Action ℕ
set_up role u invitee amount k = do
  a ← uuid4
  modify (add_agreement (proposed a u amount))
  fill_in role u invitee k a

unfoldable pub creation_failed : Error → Action ℕ
creation_failed e = do rollback; raise agreement_creation

-- `email` is the caller's, and `k` the number of conditions.
unfoldable pub create_agreement : ParticipantRole → ℕ → ℕ → ℕ → Decimal → ℕ → Action ℕ
create_agreement role u email invitee amount k = do
  raise_if (invitee == email) bad_request
  try_except (set_up role u invitee amount k) creation_failed
