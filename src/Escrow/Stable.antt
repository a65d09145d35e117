-- ===== src/Escrow/Stable.antt =====
-- Invariants of a session over the routes of app/routers/agreement.py, app/routers/condition.py
-- and app/routers/admin_dispute.py, and the services that they call.
use adehun_api.Prelude.{ℕ, Bool, Option, List}
use adehun_api.Enums.{AgreementStatus, ParticipantRole, InvitationStatus, DisputeResolutionOutcome}
use adehun_api.Money.{Decimal}
use adehun_api.Models.{
  Invitation, AgreementParticipant, InviteState, Condition, Asset, Notification,
}
use adehun_api.Redis.{Cache}
use adehun_api.Session.{Session, modify, commit, rollback, uuid4, tell_redis}
use adehun_api.Session.Keeps.{Keeps, keeps_rules}
use adehun_api.WalletRepository.Stable.{Stable}
use adehun_api.WalletService.{lock_escrow}
use adehun_api.WalletService.Stable.{lock_escrow-keeps}
use adehun_api.AgreementService.{
  set_participant, add_participant, set_invitation, point_conditions, get_escrow_context,
  prepare_escrow_funding, accept_agreement, cancel_agreement, reject_agreement,
}
use adehun_api.AgreementService.Creation.{add_invitation, create_agreement}
use adehun_api.Conditions.{
  require_depositor, write_condition, approve_condition, reject_condition, add_row, save_condition,
  add_condition,
}
use adehun_api.Escrow.{
  fund_agreement, perform_escrow_release, perform_escrow_refund, release_agreement_escrow,
  refund_agreement_escrow, refuse_funded, cancel_route, reject_route, release_if_ready,
  approve_route,
}
use adehun_api.Assets.{Upload, add_asset, write_asset}
use adehun_api.Notifications.{add_notification, set_read}
use adehun_api.Disputes.{
  write_dispute, raise_dispute, resolve_dispute, pay_outcome, resolve_route, mark_under_review,
  under_review,
}

-- What is to be kept by the writes of the participant, invitation, condition, asset, notification
-- and dispute rows that change no agreement's status, and of the cache.
pub record StableRows (P : Session → Type 0) : Type 0 where
  pub at_participant : (a u : ℕ) (t : InvitationStatus) → Keeps P (modify (set_participant a u t))
  pub at_add_participant : (p : AgreementParticipant) → Keeps P (modify (add_participant p))
  pub at_invitation : (i : ℕ) (t : InviteState) → Keeps P (modify (set_invitation i t))
  pub at_conditions : (a i p : ℕ) → Keeps P (modify (point_conditions a i p))
  pub at_condition : (c : ℕ) (f : Condition → Condition) → Keeps P (modify (write_condition c f))
  pub at_add_condition : (c : Condition) → Keeps P (modify (add_row c))
  pub at_add_invitation : (i : Invitation) → Keeps P (modify (add_invitation i))
  pub at_review : (d : ℕ) → Keeps P (modify (write_dispute d under_review))
  pub at_add_asset : (x : Asset) → Keeps P (modify (add_asset x))
  pub at_asset : (i : ℕ) (f : Asset → Asset) → Keeps P (modify (write_asset i f))
  pub at_add_notification : (n : Notification) → Keeps P (modify (add_notification n))
  pub at_read : (p : Notification → Bool) → Keeps P (modify (set_read p))
  pub at_redis : (f : Cache → Cache) → Keeps P (tell_redis f)

-- The operations that change an agreement's status.
pub record StableRoutes (P : Session → Type 0) : Type 0 where
  pub at_release : (a : ℕ) → Keeps P (perform_escrow_release a)
  pub at_refund : (a : ℕ) → Keeps P (perform_escrow_refund a)
  pub at_cancel : (a u : ℕ) → Keeps P (cancel_agreement a u)
  pub at_accept : (a u e : ℕ) → Keeps P (accept_agreement a u e)
  pub at_reject : (a u e : ℕ) → Keeps P (reject_agreement a u e)
  pub at_raise : (a u : ℕ) (files : List Upload) → Keeps P (raise_dispute a u files)
  pub at_create :
      (role : ParticipantRole) (u email invitee : ℕ) (amount : Decimal) (k : ℕ)
      → Keeps P (create_agreement role u email invitee amount k)
  pub at_resolve :
      (d admin : ℕ) (o : DisputeResolutionOutcome) → Keeps P (resolve_dispute d admin o)

module _ {P : Session → Type 0} (stable : Stable P) (rows : StableRows P)
    (routes : StableRoutes P) where
  open rows use {at_condition, at_add_condition, at_review}
  open routes use {at_release, at_refund, at_cancel, at_reject, at_resolve}

  commits : Keeps P commit
  commits = stable.at_commit

  rolls_back : Keeps P rollback
  rolls_back = stable.at_rollback

  uuids : Keeps P uuid4
  uuids = stable.at_uuid4

  locks : (u : ℕ) (amount : Decimal) (a : ℕ) (p c : Option ℕ) → Keeps P (lock_escrow u amount a p c)
  locks = lock_escrow-keeps stable

  get_escrow_context-keeps : (a : ℕ) → Keeps P (get_escrow_context a)
  unfolding get_escrow_context
  get_escrow_context-keeps a = search keeps_rules depth 12

  prepare_escrow_funding-keeps :
      (copy : Option AgreementStatus) (a u : ℕ) → Keeps P (prepare_escrow_funding copy a u)
  unfolding prepare_escrow_funding
  prepare_escrow_funding-keeps copy a u = search (keeps_rules, get_escrow_context-keeps) depth 12

  pub fund_agreement-keeps :
      (copy : Option AgreementStatus) (a u : ℕ) → Keeps P (fund_agreement copy a u)
  unfolding fund_agreement
  fund_agreement-keeps copy a u = search (keeps_rules, prepare_escrow_funding-keeps, locks) depth 12

  pub release_agreement_escrow-keeps : (a u : ℕ) → Keeps P (release_agreement_escrow a u)
  unfolding release_agreement_escrow
  release_agreement_escrow-keeps a u =
      search (keeps_rules, get_escrow_context-keeps, at_release) depth 14

  pub refund_agreement_escrow-keeps : (a : ℕ) (b : Bool) → Keeps P (refund_agreement_escrow a b)
  unfolding refund_agreement_escrow
  refund_agreement_escrow-keeps a b = search (keeps_rules, at_refund) depth 14

  refuse_funded-keeps : (a : ℕ) → Keeps P (refuse_funded a)
  refuse_funded-keeps a = search keeps_rules

  pub cancel_route-keeps : (a u : ℕ) → Keeps P (cancel_route a u)
  unfolding cancel_route
  cancel_route-keeps a u = search (keeps_rules, refuse_funded-keeps, at_cancel)

  pub reject_route-keeps : (a u e : ℕ) → Keeps P (reject_route a u e)
  unfolding reject_route
  reject_route-keeps a u e = search (keeps_rules, refuse_funded-keeps, at_reject)

  require_depositor-keeps : (c : Condition) (u : ℕ) → Keeps P (require_depositor c u)
  unfolding require_depositor
  require_depositor-keeps c u = search keeps_rules depth 14

  approve_condition-keeps : (c u : ℕ) → Keeps P (approve_condition c u)
  unfolding approve_condition
  approve_condition-keeps c u =
      search (keeps_rules, require_depositor-keeps, at_condition, commits) depth 14

  release_if_ready-keeps : (a : ℕ) → Keeps P (release_if_ready a)
  release_if_ready-keeps a = search (keeps_rules, at_release) depth 16

  pub approve_route-keeps : (c u : ℕ) → Keeps P (approve_route c u)
  unfolding approve_route
  approve_route-keeps c u = search (keeps_rules, approve_condition-keeps, release_if_ready-keeps)

  pay_outcome-keeps : (a : ℕ) (o : DisputeResolutionOutcome) → Keeps P (pay_outcome a o)
  pay_outcome-keeps a DisputeResolutionOutcome.favour_beneficiary = search (keeps_rules, at_release)
  pay_outcome-keeps a DisputeResolutionOutcome.favour_depositor = search (keeps_rules, at_refund)
  pay_outcome-keeps a _ = search keeps_rules

  pub resolve_route-keeps :
      (d admin : ℕ) (o : DisputeResolutionOutcome) → Keeps P (resolve_route d admin o)
  unfolding resolve_route
  resolve_route-keeps d admin o = search (keeps_rules, at_resolve, pay_outcome-keeps) depth 14

  pub mark_under_review-keeps : (d : ℕ) → Keeps P (mark_under_review d)
  unfolding mark_under_review
  mark_under_review-keeps d = search (keeps_rules, at_review, commits) depth 14

  pub reject_condition-keeps : (c u reason : ℕ) → Keeps P (reject_condition c u reason)
  unfolding reject_condition
  reject_condition-keeps c u reason =
      search (keeps_rules, require_depositor-keeps, at_condition, commits) depth 14

  save_condition-keeps : (c : Condition) → Keeps P (save_condition c)
  unfolding save_condition
  save_condition-keeps c = search (keeps_rules, at_add_condition, commits, rolls_back) depth 10

  pub add_condition-keeps :
      (owner : ℕ → Option ℕ) (a u email : ℕ) → Keeps P (add_condition owner a u email)
  unfolding add_condition
  add_condition-keeps owner a u email = search (keeps_rules, uuids, save_condition-keeps) depth 24
