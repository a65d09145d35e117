-- ===== src/Tests/Creation.antt =====
-- The creation of an agreement at a concrete run: user 7 invites address 80, which user 8 accepts.
use adehun_api.Prelude.{◌≡◌, refl}
use adehun_api.Enums.{ParticipantRole}
use adehun_api.Session.{
  Session, ok, fresh, constraints, no_clash, distinct_references, one_active_dispute,
}
use adehun_api.AgreementService.{accept_agreement}
use adehun_api.AgreementService.Creation.{create_agreement}
use adehun_api.AgreementService.Deal.{IsDeal, create_agreement-IsDeal}
use adehun_api.Tests.Data.{market, naira}

create_agreement-IsDeal_example :
    (s s' : Session) × (create_agreement ParticipantRole.depositor 7 70 80
        (naira 60)
        2
        (fresh market 100)
      ≡ (ok 100, s))
    × (accept_agreement 100 8 80 s ≡ (ok tt, s'))
    × IsDeal 100 (naira 60) 7 8 s'
unfolding constraints no_clash distinct_references one_active_dispute
create_agreement-IsDeal_example =
    create_agreement-IsDeal ParticipantRole.depositor 7 8 70 80 (naira 60) 2 market 100 refl refl
      (refl, refl) refl
