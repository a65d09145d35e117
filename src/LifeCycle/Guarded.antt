-- ===== src/LifeCycle/Guarded.antt =====
-- What a guard on an agreement's status says, through the writes that follow it.
use adehun_api.Prelude.{ℕ, ◌≡◌, refl, Option, none, some, sym, ◌∙◌, inl, inr}
use adehun_api.Enums.{AgreementStatus, ParticipantRole, InvitationStatus}
use adehun_api.Models.{Db, Agreement, AgreementParticipant, InviteState}
use adehun_api.Session.{Session, Action, modify, commit, commit_cases, uuid4, ◌>>=◌, ◌>>◌}
use adehun_api.Session.Keeps.{Keeps, Keeps-bind, Keeps-pure}
use adehun_api.Session.Leads.{Leads, Implies, Leads-bind, Leads-then}
use adehun_api.AgreementService.{
  agreement_by_id, set_agreement_status, set_participant, add_participant, set_invitation,
  save_agreement, join,
}
use adehun_api.LifeCycle.{Reaches}
use adehun_api.LifeCycle.Orderly.{set_agreement_status-IsOrderly, same_found}
use adehun_api.LifeCycle.Sessions.{
  InOrder, InOrder-working, commit-InOrder, InOrder-stable, InOrder-rows,
}

-- The agreement, where it exists, has a status with the property.
abbrev pub Where : ℕ → (AgreementStatus → Type 0) → Session → Type 0
Where a C s = (x : Agreement) → agreement_by_id a s.working ≡ some x → C x.status

-- A status that the agreement may take.
abbrev pub May : ℕ → AgreementStatus → Session → Type 0
May a t = Where a (λ u. Reaches u t)

pub known-Where :
    (a : ℕ) (C : AgreementStatus → Type 0) (s : Session) {x : Agreement}
    → agreement_by_id a s.working ≡ some x
    → C x.status
    → Where a C s
known-Where a C s {x} found holds y there = same_found C _ x y found there holds

module _ (start : Db) where
  abbrev P : Session → Type 0
  P = InOrder start

  pub set_status-Leads :
      (a : ℕ) (t : AgreementStatus)
      → Leads (λ s. P s × May a t s) P (modify (set_agreement_status a t))
  unfolding ◌>>=◌
  set_status-Leads a t = record {
    at = λ s (p, legal).
        InOrder-working start s _ p
          (set_agreement_status-IsOrderly a t s.working start s.next_id p.working legal);
  }

  pub save_agreement-Leads :
      (a : ℕ) (t : AgreementStatus) → Leads (λ s. P s × May a t s) P (save_agreement a t)
  unfolding save_agreement
  save_agreement-Leads a t = Leads-then _ _ (set_status-Leads a t) (λ _. commit-InOrder start)

  -- Steps that keep the order and leave the agreements as they are.
  module _ (a : ℕ) (C : AgreementStatus → Type 0) where
    abbrev pub Q : Session → Type 0
    Q s = P s × Where a C s

    pub forget : Implies Q P
    forget s (p, holds) = p

    pub modify-Where :
        (f : Db → Db)
        → Keeps P (modify f)
        → ((db : Db) → agreement_by_id a (f db) ≡ agreement_by_id a db)
        → Keeps Q (modify f)
    unfolding ◌>>=◌
    modify-Where f keeps alike = record {
      at = λ s (p, holds). (keeps.at s p, λ x found. holds x (sym (alike s.working) ∙ found));
    }

    commit-Where : Keeps Q commit
    commit-Where = record {
      at = λ s (p, holds). (
        (commit-InOrder start).at s p,
        elim (commit_cases s) [
          | inr (e, failed) ↦ rw failed holds
          | inl (done, good) ↦ rw done holds
        ],
      );
    }

    pub uuid4-Where : Keeps Q uuid4
    unfolding ◌>>=◌
    uuid4-Where = record { at = λ s (p, holds). ((InOrder-stable start).at_uuid4.at s p, holds) }

    join-Where :
        (u : ℕ) (r : ParticipantRole) (t : InvitationStatus) (o : Option AgreementParticipant)
        → Keeps Q (join a u r t o)
    unfolding set_participant add_participant
    join-Where u r t (some x) =
        Keeps-bind _ _ (modify-Where _ ((InOrder-rows start).at_participant a u t) (λ db. refl))
          (λ _. Keeps-pure _)
    join-Where u r t none = Keeps-bind _ _ uuid4-Where (λ i.
        Keeps-bind _ _ (modify-Where _ ((InOrder-rows start).at_add_participant _) (λ db. refl))
          (λ _. Keeps-pure _))

    set_invitation-Where : (i : ℕ) (t : InviteState) → Keeps Q (modify (set_invitation i t))
    unfolding set_invitation
    set_invitation-Where i t = modify-Where _ ((InOrder-rows start).at_invitation i t) (λ db. refl)

    -- The rows that an answer to an invitation writes, and their commit, before the status.
    pub answered-Leads :
        (u : ℕ) (r : ParticipantRole) (t : InvitationStatus) (o : Option AgreementParticipant)
        (i : ℕ) (v : InviteState) (rest : ℕ → Action (Unit {0}))
        → ((k : ℕ) → Leads Q P (rest k))
        → Leads Q P (do k ← join a u r t o; modify (set_invitation i v); commit; rest k)
    answered-Leads u r t o i v rest leads = Leads-bind _ _ forget (join-Where u r t o) (λ k.
        Leads-bind _ _ forget (set_invitation-Where i v)
          (λ _. Leads-bind _ _ forget commit-Where (λ _. leads k)))
