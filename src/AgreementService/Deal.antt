-- ===== src/AgreementService/Deal.antt =====
-- An agreement from its creation to its acceptance.
use adehun_api.Prelude.{ℕ, ◌+◌, ◌≡◌, refl, false, some, List, [], select_all, ◌==◌, ==_refl}
use adehun_api.Enums.{ParticipantRole, AgreementStatus}
use adehun_api.Money.{Decimal}
use adehun_api.Models.{Db, Agreement, Condition}
use adehun_api.Session.{Session, ok, ◌>>=◌, fresh}
use adehun_api.Session.Commits.{IsCommittable}
use adehun_api.AgreementService.{
  EscrowContext, agreement_by_id, add_participant, set_agreement_status, get_escrow_context,
  accept_agreement, point_conditions, set_invitation,
}
use adehun_api.AgreementService.Creation.{opposite, create_agreement}
use adehun_api.AgreementService.Steps.{agreed, settled, at, create_run, accept_run, agreed_active}

-- The two sides of a deal between its creator and the invitee.
abbrev pub depositor_of : ParticipantRole → ℕ → ℕ → ℕ
depositor_of ParticipantRole.depositor u v = u
depositor_of ParticipantRole.beneficiary u v = v

abbrev pub beneficiary_of : ParticipantRole → ℕ → ℕ → ℕ
beneficiary_of role u v = depositor_of (opposite role) u v

-- The agreement is active, and money can move from its depositor to its beneficiary.
pub record IsDeal (a : ℕ) (amount : Decimal) (depositor beneficiary : ℕ) (s : Session)
    : Type 0 where
  pub saved : s.committed ≡ s.working
  pub agreement : Agreement
  pub found : agreement_by_id a s.committed ≡ some agreement
  pub active : agreement.status ≡ AgreementStatus.active
  pub context : EscrowContext
  pub prepared : get_escrow_context a s ≡ (ok context, s)
  pub amounts : context.amount ≡ amount
  pub pays : context.depositor_user_id ≡ depositor
  pub receives : context.beneficiary_user_id ≡ beneficiary

module _ (u v invitee : ℕ) (amount : Decimal) (k : ℕ) (db : Db) (n : ℕ) (cs : List Condition)
    (m : ℕ) (good : IsCommittable db) (apart : (u == v) ≡ false)
    (unused : select_all (λ p. p.agreement_id == n) db.participants ≡ []) where
  ends :
      (role : ParticipantRole)
      → IsDeal n amount (depositor_of role u v) (beneficiary_of role u v) (
          at role u invitee amount k db n v cs m good apart unused
            (settled role u invitee amount k db n v cs m good apart unused))
  unfolding get_escrow_context set_agreement_status set_invitation add_participant point_conditions
      ◌>>=◌
  ends ParticipantRole.depositor = record {
    saved = refl;
    agreement = agreed ParticipantRole.depositor u invitee amount k db n AgreementStatus.active;
    found =
        agreed_active ParticipantRole.depositor u invitee amount k db n v cs m good apart unused;
    active = refl;
    context = record {
      agreement_id = n;
      amount = amount;
      depositor_user_id = u;
      beneficiary_user_id = v;
      depositor_participant_id = n + 1;
      beneficiary_participant_id = m;
    };
    prepared = rw (==_refl n, ==_refl n, ==_refl n) refl;
    amounts = refl;
    pays = refl;
    receives = refl;
  }
  ends ParticipantRole.beneficiary = record {
    saved = refl;
    agreement = agreed ParticipantRole.beneficiary u invitee amount k db n AgreementStatus.active;
    found =
        agreed_active ParticipantRole.beneficiary u invitee amount k db n v cs m good apart unused;
    active = refl;
    context = record {
      agreement_id = n;
      amount = amount;
      depositor_user_id = v;
      beneficiary_user_id = u;
      depositor_participant_id = m;
      beneficiary_participant_id = n + 1;
    };
    prepared = rw (==_refl n, ==_refl n, ==_refl n) refl;
    amounts = refl;
    pays = refl;
    receives = refl;
  }

-- On a database that satisfies its constraints, with ids that nobody has used and nobody
-- interfering: creating an agreement with an invitation to an address that is not the creator's
-- returns its id, the invitee's acceptance by another user returns too, and afterwards the
-- committed agreement is active and its escrow context names the agreement's amount, and as
-- depositor and beneficiary the two users by the roles that the creator chose.
pub create_agreement-IsDeal :
    (role : ParticipantRole) (u v email invitee : ℕ) (amount : Decimal) (k : ℕ) (db : Db) (n : ℕ)
    → (invitee == email) ≡ false
    → (u == v) ≡ false
    → IsCommittable db
    → select_all (λ p. p.agreement_id == n) db.participants ≡ []
    → (s s' : Session) × (create_agreement role u email invitee amount k (fresh db n) ≡ (ok n, s))
      × (accept_agreement n v invitee s ≡ (ok tt, s'))
      × IsDeal n amount (depositor_of role u v) (beneficiary_of role u v) s'
create_agreement-IsDeal role u v email invitee amount k db n other apart good unused =
    let (m, cs, made) = create_run role u invitee amount k db n email other good in
    (
      _,
      _,
      made,
      accept_run role u invitee amount k db n v cs m good apart unused,
      ends u v invitee amount k db n cs m good apart unused role,
    )
