-- ===== src/Tests/Guards.antt =====
-- The theorems on releases, disputes and guards at runs of the market.
use adehun_api.Prelude.{◌⊎◌, ◌≡◌, refl, false, true, [], ◌∷◌, none, some, pos}
use adehun_api.Enums.{AgreementStatus}
use adehun_api.Models.{Agreement, Wallet, Condition, ConditionStatus}
use adehun_api.Errors.{Error}
use adehun_api.Session.{
  Session, ok, err, fresh, ◌>>=◌, commit, constraints, no_clash, distinct_references,
  one_active_dispute,
}
use adehun_api.WalletRepository.{TransferResult, new_entry, write_entry}
use adehun_api.WalletService.Release.{out, into}
use adehun_api.AgreementService.{may_cancel, set_agreement_status}
use adehun_api.Conditions.{approve_condition, reject_condition}
use adehun_api.Conditions.Authority.{decision_refused}
use adehun_api.Escrow.{
  fund_agreement, release_agreement_escrow, refund_agreement_escrow, cancel_route,
}
use adehun_api.Escrow.Closed.{closed_refused}
use adehun_api.Disputes.{raise_dispute, attach, require_accepted, open_dispute, add_dispute}
use adehun_api.Disputes.Freeze.{
  IsFrozen, frozen, raise_dispute_freezes, raise_dispute_blocks_release,
}
use adehun_api.Idempotency.{key_of, reservation, with_response, release}
use adehun_api.Idempotency.Release.{release_keeps_completed}
use adehun_api.Tests.Data.{key_11, answered, naira, market, start}

-- The market with its agreement in another status.
abbrev agreement_in : AgreementStatus → Agreement
agreement_in t = record { id = 1; user_id = 7; amount = naira 60; status = t }

abbrev market_in : AgreementStatus → Session
market_in t = fresh (record market { agreements = agreement_in t ∷ [] }) 100

closed_refused_example :
    ((e : Error) × (fund_agreement none 1 7 (market_in AgreementStatus.disputed)
        ≡ (err e, market_in AgreementStatus.disputed)))
    × ((e : Error) × (cancel_route 1 7 (market_in AgreementStatus.disputed)
          ≡ (err e, market_in AgreementStatus.disputed)))
    × (((e : Error) × (release_agreement_escrow 1 7 (market_in AgreementStatus.disputed)
            ≡ (err e, market_in AgreementStatus.disputed)))
        ⊎ ((e : Error) × (refund_agreement_escrow 1 true (market_in AgreementStatus.disputed)
              ≡ (err e, market_in AgreementStatus.disputed))))
unfolding may_cancel
closed_refused_example =
    closed_refused 1 7 7 7 true none (market_in AgreementStatus.disputed)
      (agreement_in AgreementStatus.disputed) refl refl refl

-- User 7 contests agreement 1.
abbrev contested : Session
contested =
    let s = frozen 1 7 8 AgreementStatus.active [] 101 start in record s { committed = s.working }

contests : raise_dispute 1 7 [] start ≡ (ok 100, contested)
unfolding raise_dispute require_accepted attach open_dispute add_dispute set_agreement_status commit
    constraints no_clash distinct_references one_active_dispute ◌>>=◌
contests = refl

raise_dispute_freezes_example : IsFrozen 1 100 contested
raise_dispute_freezes_example = raise_dispute_freezes 1 7 100 [] start contested contests

raise_dispute_blocks_release_example :
    (e : Error) × (release_agreement_escrow 1 8 contested ≡ (err e, contested))
raise_dispute_blocks_release_example =
    raise_dispute_blocks_release 1 7 8 100 [] start contested contests

abbrev payer : Wallet
payer = record { id = 50; user_id = 7; available_balance = pos 4000; escrow_balance = pos 6000 }

abbrev payee : Wallet
payee = record { id = 51; user_id = 8; available_balance = pos 0; escrow_balance = pos 0 }

-- 60 naira of user 7 in escrow.
abbrev escrowed : Session
escrowed = fresh (record market { wallets = payer ∷ payee ∷ [] }) 100

abbrev payout : TransferResult
payout = record {
  debit = new_entry payer (out 1 7 8 (naira 60));
  credit = new_entry payee (into 1 7 8 (naira 60));
  replayed = false;
}

abbrev paid : Session
paid = fresh (write_entry payout.credit (write_entry payout.debit escrowed.committed)) 100

abbrev condition : Condition
condition = record {
  id = 30;
  agreement_id = 1;
  participant_id = 20;
  invitation_id = none;
  required_from_participant_id = some 21;
  status = ConditionStatus.submitted;
  approved = false;
  rejected_reason = none;
}

-- User 8 is the payee.
decision_refused_example :
    (e : Error) × (approve_condition 30 8 start ≡ (err e, start))
    × (reject_condition 30 8 5 start ≡ (err e, start))
decision_refused_example = decision_refused 30 8 5 start condition refl refl

release_keeps_completed_example :
    key_of key_11 ((release 60 answered).1).committed
    ≡ some (with_response (some 202) (reservation 60 key_11 1000))
release_keeps_completed_example =
    release_keeps_completed 60 key_11 answered
      (with_response (some 202) (reservation 60 key_11 1000)) refl refl
