-- ===== src/Authz.antt =====
-- app/core/authz.py: which user may touch an agreement. The empty e-mail address is `none`.
use adehun_api.Prelude.{ℕ, Bool, false, not, ◌||◌, Option, none, some, is_some, if◌then◌else◌}
use adehun_api.Enums.{ParticipantRole, is_depositor}
use adehun_api.Models.{Db, Agreement, AgreementParticipant, Invitation}
use adehun_api.Errors.{agreement_not_found, forbidden}
use adehun_api.Session.{Action, pure, query, or_raise, ◌>>=◌, ◌>>◌, raise_if}
use adehun_api.AgreementService.{
  agreement_by_id, participant_for_user, invitation_for_email, is_spent,
}

abbrev same_role : ParticipantRole → ParticipantRole → Bool
same_role a b = if is_depositor a then is_depositor b else not (is_depositor b)

-- `_agreement_exists`
unfoldable pub agreement_exists : ℕ → Action Agreement
agreement_exists a = do found ← query (agreement_by_id a); or_raise agreement_not_found found

unfoldable pub require_participant : ℕ → ℕ → Action AgreementParticipant
require_participant a u = do
  agreement_exists a
  participant ← query (participant_for_user a u)
  or_raise forbidden participant

unfoldable pub require_role : ℕ → ℕ → ParticipantRole → Action AgreementParticipant
require_role a u role = do
  participant ← require_participant a u
  raise_if (not (same_role participant.role role)) forbidden
  pure participant

abbrev pub is_waiting : Option Invitation → Bool
is_waiting none = false
is_waiting (some i) = not (is_spent i.status)

unfoldable pub has_pending_invitation : ℕ → Option ℕ → Db → Bool
has_pending_invitation a none db = false
has_pending_invitation a (some email) db = is_waiting (invitation_for_email email a db)

unfoldable pub require_read_access : ℕ → ℕ → Option ℕ → Action (Unit {0})
require_read_access a u email = do
  agreement_exists a
  participant ← query (participant_for_user a u)
  invited ← query (has_pending_invitation a email)
  raise_if (not (is_some participant || invited)) forbidden
