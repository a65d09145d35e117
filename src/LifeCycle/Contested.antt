-- ===== src/LifeCycle/Contested.antt =====
-- The writes of app/service/dispute_service.py follow the life cycle: a dispute freezes an active
-- agreement and remembers that, and its resolution lets it go on from there.
use adehun_api.Prelude.{
  ℕ, ◌≡◌, refl, true, false, not, Option, none, some, ◌∙◌, arith, ◌==◌, inl, inr, Bool-cases, find,
  List, [], ◌∷◌, all-find,
}
use adehun_api.Enums.{AgreementStatus, DisputeResolutionOutcome, same_status}
use adehun_api.Errors.{Error}
use adehun_api.Models.{Db, Agreement, Dispute}
use adehun_api.Session.{Session, modify, rollback, ◌>>=◌}
use adehun_api.Session.Keeps.{
  Keeps, keeps_rules, Keeps-pure, Keeps-query, Keeps-bind, Keeps-try_except,
}
use adehun_api.Session.Leads.{
  Leads, Leads-from, Leads-try, Leads-bind, Leads-then, Leads-query, Leads-or_raise, Leads-raise_if,
  Reads-Keeps, Keeps-Leads,
}
use adehun_api.AgreementService.{agreement_by_id}
use adehun_api.Assets.{Upload, add_asset}
use adehun_api.Disputes.Filed.{require_accepted-Reads}
use adehun_api.Disputes.{
  add_dispute, write_dispute, unfreeze, attach, open_dispute, raise_failed, raise_dispute, resolved,
  resolve_failed, resolve_dispute,
}
use adehun_api.LifeCycle.{Step, Reaches, Reaches-Step, eq_of_same_status}
use adehun_api.LifeCycle.Orderly.{
  same-IsOrderly, set_agreement_status-IsOrderly, same_found, was_active,
}
use adehun_api.LifeCycle.Sessions.{
  InOrder, InOrder-working, InOrder-stable, InOrder-rows, modify-InOrder, commit-InOrder,
  write_dispute-kept,
}
use adehun_api.LifeCycle.Guarded.{
  known-Where, Q, forget, modify-Where, uuid4-Where, set_status-Leads,
}

module _ (start : Db) where
  abbrev P : Session → Type 0
  P = InOrder start

  rolls_back : Keeps P rollback
  rolls_back = (InOrder-stable start).at_rollback

  raise_failed-InOrder : (e : Error) → Keeps P (raise_failed e)
  unfolding raise_failed
  raise_failed-InOrder Error.integrity_error = search (keeps_rules, rolls_back)
  raise_failed-InOrder _ = search (keeps_rules, rolls_back)

  resolve_failed-InOrder : (e : Error) → Keeps P (resolve_failed e)
  unfolding resolve_failed
  resolve_failed-InOrder e = search (keeps_rules, rolls_back)

  add_dispute-InOrder : (d : Dispute) → was_active d ≡ true → Keeps P (modify (add_dispute d))
  unfolding add_dispute
  add_dispute-InOrder d active =
      modify-InOrder start _
        (λ n db h. same-IsOrderly start n db _ h refl (rw (active, h.resumes) refl) (λ r. refl))

  abbrev IsActive : AgreementStatus → Type 0
  IsActive t = t ≡ AgreementStatus.active

  attach-Where : (a d p : ℕ) (files : List Upload) → Keeps (Q start a IsActive) (attach d p files)
  unfolding attach add_asset
  attach-Where a d p [] = Keeps-pure _
  attach-Where a d p (f ∷ fs) = Keeps-bind _ _ (uuid4-Where start a IsActive) (λ i.
      Keeps-bind _ _ (uuid4-Where start a IsActive) (λ j.
        Keeps-bind _ _
          (modify-Where start a IsActive _ ((InOrder-rows start).at_add_asset _) (λ db. refl))
          (λ _. Keeps-bind _ _ (attach-Where a d p fs) (λ _. Keeps-pure _))))

  open_dispute-Leads :
      (a u other : ℕ) (before : AgreementStatus) (p : ℕ) (files : List Upload)
      → IsActive before
      → Leads (Q start a IsActive) P (open_dispute a u other before p files)
  unfolding open_dispute add_dispute
  open_dispute-Leads a u other before p files active =
      Leads-bind _ _ (forget start a IsActive) (uuid4-Where start a IsActive) (λ i.
        Leads-bind _ _ (forget start a IsActive)
          (modify-Where start a IsActive _ (add_dispute-InOrder _ (rw active refl)) (λ db. refl))
          (λ _. Leads-bind _ _ (forget start a IsActive) (attach-Where a i p files) (λ _.
            Leads-then _ _
              (Leads-from _
                (λ s (h, now). (h, λ x found. rw (now x found) (Reaches-Step Step.contest)))
                (set_status-Leads start a AgreementStatus.disputed))
              (λ _. Keeps-bind _ _ (commit-InOrder start) (λ _. Keeps-pure _)))))

  active_of :
      (t : AgreementStatus) → not (same_status t AgreementStatus.active) ≡ false → IsActive t
  active_of t h = eq_of_same_status t AgreementStatus.active (ground arith)

  pub raise_dispute-InOrder : (a u : ℕ) (files : List Upload) → Keeps P (raise_dispute a u files)
  unfolding raise_dispute
  raise_dispute-InOrder a u files = Keeps-Leads _ (
      Leads-query _ _ (λ found.
        Leads-or_raise _ found _ (λ s (p, _). p)
          (λ x there.
            Leads-bind _ _ (λ s (p, _). p) (Reads-Keeps _ (require_accepted-Reads a u))
              (λ participant.
                Leads-bind _ _ (λ s (p, _). p) (Keeps-query _)
                  (λ open_one.
                    Leads-raise_if _ _ _ (λ s (p, _). p)
                      (λ none_open.
                        Leads-raise_if _ _ _ (λ s (p, _). p)
                          (λ free.
                            Leads-bind _ _ (λ s (p, _). p) (Keeps-query _)
                              (λ ps.
                                Leads-or_raise _ (find (λ p. not (p.user_id == u)) ps) _
                                  (λ s (p, _). p)
                                  (λ other _.
                                    Leads-try _ _
                                      (Leads-from _
                                        (λ s (p, e). (
                                          p,
                                          known-Where a IsActive s (e ∙ there)
                                              (active_of x.status free),
                                        ))
                                        (open_dispute-Leads a u other.user_id x.status
                                          participant.id files (active_of x.status free)))
                                      raise_failed-InOrder)))))))))

  -- The unfreezing of an agreement, as it was found.
  unfreeze-Leads :
      (a : ℕ) (before : AgreementStatus) (o : Option Agreement)
      → IsActive before
      → Leads (λ s. P s × (agreement_by_id a s.working ≡ o)) P (modify (unfreeze a before o))
  unfolding unfreeze ◌>>=◌
  unfreeze-Leads a before none active = record { at = λ s (p, e). p }
  unfreeze-Leads a before (some x) active = record {
    at = λ s (p, found). elim (Bool-cases (same_status x.status AgreementStatus.disputed)) [
      | inr other ↦ rw other p
      | inl frozen ↦ rw frozen (
          InOrder-working start s _ p (
            set_agreement_status-IsOrderly a before s.working start s.next_id p.working (λ y there.
              same_found (λ u. Reaches u before) _ x y found there
                (rw (eq_of_same_status _ _ frozen, active) (Reaches-Step Step.resume)))))
    ];
  }

  abbrev Before : Dispute → Session → Type 0
  Before x s = P s × (was_active x ≡ true)

  pub resolve_dispute-InOrder :
      (d admin : ℕ) (o : DisputeResolutionOutcome) → Keeps P (resolve_dispute d admin o)
  unfolding resolve_dispute
  resolve_dispute-InOrder d admin o = Keeps-Leads _ (
      Leads-query _ _ (λ found.
        Leads-or_raise _ found _ (λ s (p, _). p)
          (λ x there.
            Leads-raise_if _ _ _ (λ s (p, _). p)
              (λ is_open.
                Leads-from _
                  (λ s (p, e).
                    (p, all-find was_active _ s.working.disputes p.working.resumes (e ∙ there)))
                  (Leads-bind _ _ (λ s (p, _). p) (writes x)
                    (λ _. Leads-query _ _ (λ agreement. Leads-then _ _ (unfreezes x agreement) (λ _.
                      Keeps-bind _ _
                        (Keeps-try_except _ _ (commit-InOrder start) resolve_failed-InOrder)
                        (λ _. Keeps-pure _)))))))))
    where
      writes : (x : Dispute) → Keeps (Before x) (modify (write_dispute d (resolved o admin)))
      writes x = record {
        at = λ s (p, was). (
          (modify-InOrder start _
                (λ n db h. write_dispute-kept start d (resolved o admin) n db (λ y. refl) h)).at
              s p,
          was,
        );
      }

      unfreezes :
          (x : Dispute) (agreement : Option Agreement)
          → Leads
              (λ s. Before x s × (agreement_by_id x.agreement_id s.working ≡ agreement))
              P
              (modify (unfreeze x.agreement_id x.agreement_status_before agreement))
      unfreezes x agreement = record {
        at = λ s ((p, was), e).
            (unfreeze-Leads x.agreement_id x.agreement_status_before agreement
                (eq_of_same_status _ _ was)).at
              s (p, e);
      }
