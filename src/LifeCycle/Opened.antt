-- ===== src/LifeCycle/Opened.antt =====
-- The creation of an agreement (`create_agreement` of app/service/agreement_service.py) follows the life
-- cycle: the new id is that of no other agreement.
use adehun_api.Prelude.{ℕ, ◌+◌, ◌<◌, ◌≡◌, none, arith, Option-cases, inl, inr}
use adehun_api.Enums.{ParticipantRole}
use adehun_api.Money.{Decimal}
use adehun_api.Models.{Db}
use adehun_api.Session.{Session, ◌>>=◌}
use adehun_api.Session.Keeps.{Keeps}
use adehun_api.AgreementService.{agreement_by_id}
use adehun_api.AgreementService.Creation.{proposed, set_up, create_agreement}
use adehun_api.Escrow.Creation.{fill_in-keeps, create_agreement-keeps_set_up}
use adehun_api.LifeCycle.Created.{add_agreement-IsOrderly}
use adehun_api.LifeCycle.Sessions.{
  InOrder, InOrder-working, InOrder-stable, InOrder-rows, counted, counted-InOrder,
}

module _ (start : Db) where
  new_id : (s : Session) → InOrder start s → agreement_by_id s.next_id s.working ≡ none
  new_id s p = elim (Option-cases (agreement_by_id s.next_id s.working)) [
    | inl missing ↦ missing
    | inr (x, found) ↦ absurd (late (p.working.below s.next_id x found))
  ]
    where
      late : s.next_id < s.next_id → ⊥
      late l = omega arith

  module _ (role : ParticipantRole) (u invitee : ℕ) (amount : Decimal) (k : ℕ) where
    set_up-InOrder : Keeps (InOrder start) (set_up role u invitee amount k)
    unfolding set_up ◌>>=◌
    set_up-InOrder = record {
      at = λ s p.
          let q = counted-InOrder start s p in
          (fill_in-keeps (InOrder-stable start) (InOrder-rows start) role u invitee k s.next_id).at
            _
            (InOrder-working start (counted start s) _ q (
              add_agreement-IsOrderly start (s.next_id + 1) s.working q.working
                (proposed s.next_id u amount) (omega arith) (new_id s p)));
    }

    pub create_agreement-InOrder :
        (email : ℕ) → Keeps (InOrder start) (create_agreement role u email invitee amount k)
    create_agreement-InOrder email =
        create_agreement-keeps_set_up (InOrder-stable start) (InOrder-rows start) role u email
          invitee amount k set_up-InOrder
