-- ===== src/LifeCycle/Routes.antt =====
-- The other writes of an agreement's status follow the life cycle: acceptance, refusal and
-- cancellation of app/service/agreement_service.py, and the disputes of
-- app/service/dispute_service.py.
use adehun_api.Prelude.{
  ℕ, ◌≡◌, false, not, Option, List, ◌∙◌, arith, leb, length, inl, inr, Bool-cases, select_all,
}
use adehun_api.Enums.{AgreementStatus, InvitationStatus, same_status, is_accepted, is_rejected}
use adehun_api.Errors.{bad_request}
use adehun_api.Models.{Db, Agreement, AgreementParticipant, Invitation, InviteState}
use adehun_api.Session.{Session, Action, pure, query, raise_if, modify, commit, ◌>>=◌, ◌>>◌}
use adehun_api.Session.Keeps.{Keeps, keeps_rules, Keeps-bind, Keeps-query, Keeps-pure}
use adehun_api.Session.Leads.{
  Leads, Leads-Keeps, Keeps-Leads, Leads-from, Leads-if, Leads-bind, Leads-then, Leads-query,
  Leads-or_raise, Leads-raise_if,
}
use adehun_api.AgreementService.{
  participants_for, point_conditions, save_agreement, status_after, accept_new, accept_agreement,
  may_cancel, cancel_agreement, reject_new, reject_agreement, has_status,
}
use adehun_api.LifeCycle.{Step, Reaches, Reaches-Step, eq_of_same_status}
use adehun_api.LifeCycle.Sessions.{InOrder, commit-InOrder, InOrder-rows}
use adehun_api.LifeCycle.Guarded.{known-Where, Q, forget, save_agreement-Leads, answered-Leads}

module _ (start : Db) where
  abbrev P : Session → Type 0
  P = InOrder start

  module _ (a : ℕ) where
    activates :
        (t : AgreementStatus) (ps : List AgreementParticipant)
        → t ≡ AgreementStatus.pending
        → Reaches t (status_after ps)
    activates t ps pending =
        elim (Bool-cases (leb 2 (length (select_all (λ p. is_accepted p.status) ps)))) [
          | inl two ↦ rw (two, pending) (Reaches-Step Step.accept)
          | inr alone ↦ rw (alone, pending) Reaches.here
        ]

    abbrev IsPending : AgreementStatus → Type 0
    IsPending t = t ≡ AgreementStatus.pending

    -- What follows the commit of an acceptance.
    activate-Leads :
        (i k : ℕ)
        → Leads (Q start a IsPending) P (do
          participants ← query (participants_for a)
          save_agreement a (status_after participants)
          modify (point_conditions a i k)
          commit)
    activate-Leads i k = Leads-bind _ _ (forget start a IsPending) (Keeps-query _) (λ ps.
        Leads-then _ _
          (Leads-from _ (λ s (p, pending). (p, λ x found. activates _ ps (pending x found)))
            (save_agreement-Leads start a (status_after ps)))
          (λ _.
            Keeps-bind _ _ ((InOrder-rows start).at_conditions a i k) (λ _. commit-InOrder start)))

    accept_new-InOrder :
        (u : ℕ) (i : Invitation) (o : Option AgreementParticipant) → Keeps P (accept_new a u i o)
    accept_new-InOrder u i o = Keeps-Leads _ (
        Leads-query _ _ (λ found.
          Leads-or_raise _ found _ (λ s (p, _). p)
            (λ x there.
              Leads-raise_if _ _ _ (λ s (p, _). p)
                (λ free.
                  Leads-raise_if _ _ _ (λ s (p, _). p)
                    (λ unspent.
                      Leads-from _
                        (λ s (p, e).
                          (p, known-Where a IsPending s (e ∙ there) (pending_of x.status free)))
                        (answered-Leads start a IsPending u i.role InvitationStatus.accepted o i.id
                          InviteState.accepted _ (activate-Leads i.id)))))))
      where
        pending_of :
            (t : AgreementStatus)
            → not (same_status t AgreementStatus.pending) ≡ false
            → IsPending t
        pending_of t free = eq_of_same_status t AgreementStatus.pending (ground arith)

    pub accept_agreement-InOrder : (u email : ℕ) → Keeps P (accept_agreement a u email)
    unfolding accept_agreement
    accept_agreement-InOrder u email = search (keeps_rules, accept_new-InOrder) depth 12

    cancellable :
        (t : AgreementStatus) → not (may_cancel t) ≡ false → Reaches t AgreementStatus.cancelled
    unfolding may_cancel
    cancellable AgreementStatus.pending h = Reaches-Step Step.withdraw
    cancellable AgreementStatus.active h = Reaches-Step Step.cancel
    cancellable _ h = ground arith

    abbrev IsOpen : AgreementStatus → Type 0
    IsOpen t = Reaches t AgreementStatus.cancelled

    pub cancel_agreement-InOrder : (u : ℕ) → Keeps P (cancel_agreement a u)
    unfolding cancel_agreement
    cancel_agreement-InOrder u = Keeps-Leads _ (
        Leads-query _ _ (λ found.
          Leads-or_raise _ found _ (λ s (p, _). p)
            (λ x there.
              Leads-bind _ _ (λ s (p, _). p) (Keeps-query _)
                (λ participant.
                  Leads-or_raise _ participant _ (λ s (p, _). p)
                    (λ _ _.
                      Leads-if (same_status x.status AgreementStatus.cancelled) (pure tt) (cancel x)
                        (λ _. Leads-Keeps _ (λ s (p, _). p) (Keeps-pure _))
                        (λ _.
                          Leads-raise_if _ _ _ (λ s (p, _). p)
                            (λ free.
                              Leads-from _
                                (λ s (p, e). (
                                  p,
                                  known-Where a IsOpen s (e ∙ there) (cancellable x.status free),
                                ))
                                (save_agreement-Leads start a AgreementStatus.cancelled))))))))
      where
        cancel : Agreement → Action (Unit {0})
        cancel x = do
          raise_if (not (may_cancel x.status)) bad_request
          save_agreement a AgreementStatus.cancelled

    reject_new-Leads :
        (u : ℕ) (i : Invitation) (o : Option AgreementParticipant)
        → Leads (Q start a IsOpen) P (reject_new a u i o)
    reject_new-Leads u i o =
        answered-Leads start a IsOpen u i.role InvitationStatus.rejected o i.id InviteState.expired
          _ (λ k. save_agreement-Leads start a AgreementStatus.cancelled)

    pub reject_agreement-InOrder : (u email : ℕ) → Keeps P (reject_agreement a u email)
    unfolding reject_agreement
    reject_agreement-InOrder u email = Keeps-Leads _ (
        Leads-query _ _ (λ found.
          Leads-or_raise _ found _ (λ s (p, _). p)
            (λ x there.
              Leads-raise_if _ _ _ (λ s (p, _). p)
                (λ free.
                  Leads-from _
                    (λ s (p, e).
                      (p, known-Where a IsOpen s (e ∙ there) (cancellable x.status free)))
                    (Leads-bind _ _ (forget start a IsOpen) (Keeps-query _) (λ invited.
                      Leads-or_raise _ invited _ (forget start a IsOpen) (λ invitation _.
                        Leads-bind _ _ (forget start a IsOpen) (Keeps-query _) (λ participant.
                          Leads-if (has_status is_rejected participant) (pure tt)
                            (reject_new a u invitation participant)
                            (λ _. Leads-Keeps _ (forget start a IsOpen) (Keeps-pure _))
                            (λ _. reject_new-Leads u invitation participant)))))))))
