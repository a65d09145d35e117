-- ===== src/Conditions.antt =====
-- app/service/condition_service.py over app/repository/condition_repository.py: who adds and who
-- decides on the conditions that hold an escrow. Left out: titles, descriptions and responses.
pub mod Authority
use adehun_api.Prelude.{
  ℕ, Bool, true, false, not, ◌&&◌, List, [], ◌∷◌, Option, none, some, find, select_all, all,
  update_where, ◌==◌,
}
use adehun_api.Enums.{AgreementStatus, is_depositor, same_status}
use adehun_api.Models.{Db, Agreement, AgreementParticipant, Invitation, Condition, ConditionStatus}
use adehun_api.Errors.{
  bad_request, forbidden, condition_not_found, participant_not_found, condition_save,
}
use adehun_api.Session.{
  Action, pure, raise, query, or_raise, ◌>>=◌, ◌>>◌, raise_if, modify, uuid4, commit, rollback,
  try_except,
}
use adehun_api.AgreementService.{agreement_by_id, participant_for_user, invitation_for_email}

abbrev pub condition_by_id : ℕ → Db → Option Condition
condition_by_id c db = find (λ x. x.id == c) db.conditions

abbrev pub conditions_of : ℕ → Db → List Condition
conditions_of a db = select_all (λ c. c.agreement_id == a) db.conditions

abbrev pub is_approved : ConditionStatus → Bool
is_approved ConditionStatus.approved = true
is_approved _ = false

abbrev pub is_active : Option Agreement → Bool
is_active none = false
is_active (some agreement) = same_status agreement.status AgreementStatus.active

-- `_require_depositor`; every status but `approved` is decidable
unfoldable pub require_depositor : Condition → ℕ → Action (Unit {0})
require_depositor c u = do
  found ← query (participant_for_user c.agreement_id u)
  participant ← or_raise forbidden found
  raise_if (not (is_depositor participant.role)) forbidden
  agreement ← query (agreement_by_id c.agreement_id)
  raise_if (not (is_active agreement)) bad_request
  raise_if (is_approved c.status) bad_request

unfoldable pub write_condition : ℕ → (Condition → Condition) → Db → Db
write_condition c f db = record db { conditions = update_where (λ x. x.id == c) f db.conditions }

-- `approved_at` is kept as whether it is set.
abbrev pub approved : Condition → Condition
approved c = record c { approved = true; rejected_reason = none; status = ConditionStatus.approved }

abbrev pub rejected : ℕ → Condition → Condition
rejected reason c = record c {
  approved = false;
  rejected_reason = some reason;
  status = ConditionStatus.rejected;
}

abbrev owns : ℕ → Option ℕ → Bool
owns u none = false
owns u (some v) = u == v

-- `get_participant_or_invitation_by_email`, its first part
abbrev participant_by_email : (ℕ → Option ℕ) → ℕ → ℕ → Db → Option AgreementParticipant
participant_by_email owner email a db =
    find (λ p. p.agreement_id == a && owns p.user_id (owner email)) db.participants

abbrev has_email : Option AgreementParticipant → Option Invitation → Bool
has_email (some p) i = true
has_email none (some i) = true
has_email none none = false

abbrev participant_id_of : Option AgreementParticipant → Option ℕ
participant_id_of none = none
participant_id_of (some p) = some p.id

-- The invitation is looked up when no participant has the address.
abbrev invitation_id_of : Option AgreementParticipant → Option Invitation → Option ℕ
invitation_id_of none (some i) = some i.id
invitation_id_of _ _ = none

unfoldable pub add_row : Condition → Db → Db
add_row c db = record db { conditions = c ∷ db.conditions }

-- `save_condition` and its `except`
unfoldable pub save_condition : Condition → Action (Unit {0})
save_condition c =
    try_except (do modify (add_row c); commit) (λ e. do rollback; raise condition_save)

-- `add_condition`; `owner` is the user table, which has the user of an e-mail address
unfoldable pub add_condition : (ℕ → Option ℕ) → ℕ → ℕ → ℕ → Action ℕ
add_condition owner a u email = do
  found ← query (participant_for_user a u)
  current ← or_raise participant_not_found found
  existing ← query (agreement_by_id a)
  agreement ← or_raise participant_not_found existing
  raise_if (not (same_status agreement.status AgreementStatus.pending)) bad_request
  participant ← query (participant_by_email owner email a)
  invitation ← query (invitation_for_email email a)
  raise_if (not (has_email participant invitation)) participant_not_found
  i ← uuid4
  save_condition (record {
    id = i;
    agreement_id = a;
    participant_id = current.id;
    invitation_id = invitation_id_of participant invitation;
    required_from_participant_id = participant_id_of participant;
    status = ConditionStatus.pending;
    approved = false;
    rejected_reason = none;
  })
  pure i

-- The agreement's id is returned.
unfoldable pub approve_condition : ℕ → ℕ → Action ℕ
approve_condition c u = do
  found ← query (condition_by_id c)
  row ← or_raise condition_not_found found
  require_depositor row u
  modify (write_condition c approved)
  commit
  pure row.agreement_id

unfoldable pub reject_condition : ℕ → ℕ → ℕ → Action ℕ
reject_condition c u reason = do
  found ← query (condition_by_id c)
  row ← or_raise condition_not_found found
  require_depositor row u
  modify (write_condition c (rejected reason))
  commit
  pure row.agreement_id

-- `all_conditions_approved`: false where there are none.
abbrev all_approved : List Condition → Bool
all_approved [] = false
all_approved (c ∷ cs) = all (λ x. is_approved x.status) (c ∷ cs)

unfoldable pub all_conditions_approved : ℕ → Db → Bool
all_conditions_approved a db = all_approved (conditions_of a db)
