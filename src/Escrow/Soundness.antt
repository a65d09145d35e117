-- ===== src/Escrow/Soundness.antt =====
-- The ledger's invariant over the rows that the routes of app/routers/agreement.py write.
use adehun_api.Prelude.{ℕ, Option, none, some, Bool-cases, inl, inr}
use adehun_api.Enums.{AgreementStatus, same_status}
use adehun_api.Models.{Db, Agreement}
use adehun_api.Session.{Session, tell_redis}
use adehun_api.WalletRepository.Invariant.{IsLedger, IsSound}
use adehun_api.WalletRepository.Soundness.{modify-IsSound, IsSound-stable, IsSound-payouts}
use adehun_api.AgreementService.{
  set_agreement_status, set_participant, add_participant, set_invitation, point_conditions,
}
use adehun_api.AgreementService.Creation.{add_agreement, add_invitation}
use adehun_api.Conditions.{write_condition, add_row}
use adehun_api.Assets.{add_asset, write_asset}
use adehun_api.Notifications.{add_notification, set_read}
use adehun_api.Disputes.{add_dispute, write_dispute, unfreeze}
use adehun_api.Escrow.{fund_agreement}
use adehun_api.Escrow.Statuses.{StableStatuses, routes_of_rows}
use adehun_api.Escrow.Stable.{StableRows, StableRoutes, fund_agreement-keeps}

unfreeze-IsLedger :
    (a : ℕ) (t : AgreementStatus) (o : Option Agreement) (n : ℕ) (db : Db)
    → IsLedger n db
    → IsLedger n (unfreeze a t o db)
unfolding unfreeze set_agreement_status
unfreeze-IsLedger a t none n db h = h
unfreeze-IsLedger a t (some x) n db h =
    elim (Bool-cases (same_status x.status AgreementStatus.disputed)) [
      | inl frozen ↦ rw frozen h
      | inr other ↦ rw other h
    ]

-- None of the other rows takes part in the ledger.
pub rows : StableRows IsSound
unfolding add_invitation set_participant add_participant set_invitation point_conditions
    write_condition add_row write_dispute add_asset write_asset tell_redis add_notification set_read
rows = record {
  at_participant = λ a u t. modify-IsSound _ (λ n db h. h);
  at_add_participant = λ p. modify-IsSound _ (λ n db h. h);
  at_invitation = λ i t. modify-IsSound _ (λ n db h. h);
  at_conditions = λ a i p. modify-IsSound _ (λ n db h. h);
  at_condition = λ c f. modify-IsSound _ (λ n db h. h);
  at_add_condition = λ c. modify-IsSound _ (λ n db h. h);
  at_add_invitation = λ i. modify-IsSound _ (λ n db h. h);
  at_review = λ d. modify-IsSound _ (λ n db h. h);
  at_add_asset = λ x. modify-IsSound _ (λ n db h. h);
  at_asset = λ i f. modify-IsSound _ (λ n db h. h);
  at_add_notification = λ x. modify-IsSound _ (λ n db h. h);
  at_read = λ p. modify-IsSound _ (λ n db h. h);
  at_redis = λ f. record {
    at = λ s h. record {
      committed = h.committed;
      distinct = h.distinct;
      working = h.working;
      concurrent = h.concurrent;
      concurrent_distinct = h.concurrent_distinct;
    };
  };
}

statuses : StableStatuses IsSound
unfolding add_agreement set_agreement_status add_dispute write_dispute
statuses = record {
  at_status = λ a t. modify-IsSound _ (λ n db h. h);
  at_add_agreement = λ x. modify-IsSound _ (λ n db h. h);
  at_add_dispute = λ d. modify-IsSound _ (λ n db h. h);
  at_dispute = λ d f. modify-IsSound _ (λ n db h. h);
  at_unfreeze = λ a t o. modify-IsSound _ (unfreeze-IsLedger a t o);
}

pub routes : StableRoutes IsSound
routes = routes_of_rows IsSound-stable IsSound-payouts rows statuses

-- Funding an agreement, by whoever asks, keeps the ledger sound.
pub fund_agreement-IsSound :
    (copy : Option AgreementStatus) (a u : ℕ) (s : Session)
    → IsSound s
    → IsSound (fund_agreement copy a u s).1
fund_agreement-IsSound copy a u s = (fund_agreement-keeps IsSound-stable rows routes copy a u).at s
