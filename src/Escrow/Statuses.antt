-- ===== src/Escrow/Statuses.antt =====
-- The operations that change an agreement's status, where every write of a status or a dispute is
-- kept: app/service/agreement_service.py, app/service/dispute_service.py and the payouts of
-- app/routers/agreement.py.
use adehun_api.Prelude.{ℕ, List, Option, none, some}
use adehun_api.Enums.{AgreementStatus, InvitationStatus, ParticipantRole, DisputeResolutionOutcome}
use adehun_api.Money.{Decimal}
use adehun_api.Models.{Agreement, AgreementParticipant, Invitation, Dispute}
use adehun_api.Errors.{Error}
use adehun_api.Session.{Session, modify, commit, rollback, uuid4}
use adehun_api.Session.Keeps.{Keeps, keeps_rules}
use adehun_api.WalletRepository.Stable.{Stable, StablePayouts}
use adehun_api.WalletService.{release_escrow, refund_escrow}
use adehun_api.WalletService.Stable.{release_escrow-keeps, refund_escrow-keeps}
use adehun_api.AgreementService.{
  set_agreement_status, save_agreement, get_escrow_context, prepare_release, prepare_refund, join,
  accept_new, accept_agreement, cancel_agreement, reject_new, reject_agreement,
}
use adehun_api.Escrow.{perform_escrow_release, perform_escrow_refund}
use adehun_api.Assets.{Upload}
use adehun_api.Disputes.Stable.{attach-keeps, require_accepted-keeps}
use adehun_api.Disputes.{
  add_dispute, write_dispute, unfreeze, require_accepted, attach, open_dispute, raise_failed,
  raise_dispute, resolve_failed, resolve_dispute,
}
use adehun_api.AgreementService.Creation.{add_agreement, fill_in, set_up, create_agreement}
use adehun_api.Escrow.Creation.{fill_in-keeps, create_agreement-keeps_set_up}
use adehun_api.Escrow.Stable.{StableRows, StableRoutes}

-- The writes of statuses and disputes.
pub record StableStatuses (P : Session → Type 0) : Type 0 where
  pub at_status : (a : ℕ) (t : AgreementStatus) → Keeps P (modify (set_agreement_status a t))
  pub at_add_agreement : (x : Agreement) → Keeps P (modify (add_agreement x))
  pub at_add_dispute : (d : Dispute) → Keeps P (modify (add_dispute d))
  pub at_dispute : (d : ℕ) (f : Dispute → Dispute) → Keeps P (modify (write_dispute d f))
  pub at_unfreeze :
      (a : ℕ) (t : AgreementStatus) (o : Option Agreement) → Keeps P (modify (unfreeze a t o))

module _ {P : Session → Type 0} (stable : Stable P) (payouts : StablePayouts P)
    (rows : StableRows P) (statuses : StableStatuses P) where
  open rows use {at_participant, at_add_participant, at_invitation, at_conditions}
  open statuses use {at_status, at_add_agreement, at_add_dispute, at_dispute, at_unfreeze}

  commits : Keeps P commit
  commits = stable.at_commit

  rolls_back : Keeps P rollback
  rolls_back = stable.at_rollback

  uuids : Keeps P uuid4
  uuids = stable.at_uuid4

  releases : (a d b : ℕ) (amount : Decimal) → Keeps P (release_escrow a d b amount)
  releases = release_escrow-keeps stable payouts

  refunds : (a d : ℕ) (amount : Decimal) → Keeps P (refund_escrow a d amount)
  refunds = refund_escrow-keeps stable payouts

  get_escrow_context-keeps : (a : ℕ) → Keeps P (get_escrow_context a)
  unfolding get_escrow_context
  get_escrow_context-keeps a = search keeps_rules depth 12

  prepare_release-keeps : (a : ℕ) → Keeps P (prepare_release a)
  unfolding prepare_release
  prepare_release-keeps a = search (keeps_rules, get_escrow_context-keeps, at_status) depth 12

  prepare_refund-keeps : (a : ℕ) → Keeps P (prepare_refund a)
  unfolding prepare_refund
  prepare_refund-keeps a = search (keeps_rules, get_escrow_context-keeps, at_status) depth 12

  perform_escrow_release-keeps : (a : ℕ) → Keeps P (perform_escrow_release a)
  unfolding perform_escrow_release
  perform_escrow_release-keeps a = search (keeps_rules, prepare_release-keeps, releases)

  perform_escrow_refund-keeps : (a : ℕ) → Keeps P (perform_escrow_refund a)
  unfolding perform_escrow_refund
  perform_escrow_refund-keeps a = search (keeps_rules, prepare_refund-keeps, refunds)

  save_agreement-keeps : (a : ℕ) (t : AgreementStatus) → Keeps P (save_agreement a t)
  unfolding save_agreement
  save_agreement-keeps a t = search (keeps_rules, at_status, commits)

  cancel_agreement-keeps : (a u : ℕ) → Keeps P (cancel_agreement a u)
  unfolding cancel_agreement
  cancel_agreement-keeps a u = search (keeps_rules, save_agreement-keeps) depth 14

  join-keeps :
      (a u : ℕ) (r : ParticipantRole) (t : InvitationStatus) (o : Option AgreementParticipant)
      → Keeps P (join a u r t o)
  join-keeps a u r t (some p) = search (keeps_rules, at_participant) depth 8
  join-keeps a u r t none = search (keeps_rules, at_add_participant, uuids) depth 8

  accept_new-keeps :
      (a u : ℕ) (i : Invitation) (o : Option AgreementParticipant) → Keeps P (accept_new a u i o)
  accept_new-keeps a u i o =
      search (keeps_rules, join-keeps, at_invitation, save_agreement-keeps, at_conditions, commits)
        depth 20

  accept_agreement-keeps : (a u e : ℕ) → Keeps P (accept_agreement a u e)
  unfolding accept_agreement
  accept_agreement-keeps a u e = search (keeps_rules, accept_new-keeps) depth 12

  reject_new-keeps :
      (a u : ℕ) (i : Invitation) (o : Option AgreementParticipant) → Keeps P (reject_new a u i o)
  reject_new-keeps a u i o =
      search (keeps_rules, join-keeps, at_invitation, save_agreement-keeps, commits) depth 14

  reject_agreement-keeps : (a u e : ℕ) → Keeps P (reject_agreement a u e)
  unfolding reject_agreement
  reject_agreement-keeps a u e = search (keeps_rules, reject_new-keeps) depth 16

  accepted : (a u : ℕ) → Keeps P (require_accepted a u)
  accepted = require_accepted-keeps stable rows

  attaches : (d p : ℕ) (files : List Upload) → Keeps P (attach d p files)
  attaches = attach-keeps stable rows

  open_dispute-keeps :
      (a u o : ℕ) (t : AgreementStatus) (p : ℕ) (files : List Upload)
      → Keeps P (open_dispute a u o t p files)
  unfolding open_dispute
  open_dispute-keeps a u o t p files =
      search (keeps_rules, uuids, at_add_dispute, attaches, at_status, commits) depth 12

  pub raise_failed-keeps : (e : Error) → Keeps P (raise_failed e)
  unfolding raise_failed
  raise_failed-keeps Error.integrity_error = search (keeps_rules, rolls_back)
  raise_failed-keeps _ = search (keeps_rules, rolls_back)

  raise_dispute-keeps : (a u : ℕ) (files : List Upload) → Keeps P (raise_dispute a u files)
  unfolding raise_dispute
  raise_dispute-keeps a u files =
      search (keeps_rules, accepted, open_dispute-keeps, raise_failed-keeps) depth 20

  pub resolve_failed-keeps : (e : Error) → Keeps P (resolve_failed e)
  unfolding resolve_failed
  resolve_failed-keeps e = search (keeps_rules, rolls_back)

  resolve_dispute-keeps :
      (d admin : ℕ) (o : DisputeResolutionOutcome) → Keeps P (resolve_dispute d admin o)
  unfolding resolve_dispute
  resolve_dispute-keeps d admin o =
      search (keeps_rules, at_dispute, at_unfreeze, commits, resolve_failed-keeps) depth 20

  create_agreement-keeps :
      (role : ParticipantRole) (u email invitee : ℕ) (amount : Decimal) (k : ℕ)
      → Keeps P (create_agreement role u email invitee amount k)
  create_agreement-keeps role u email invitee amount k =
      create_agreement-keeps_set_up stable rows role u email invitee amount k opens
    where
      fills : (a : ℕ) → Keeps P (fill_in role u invitee k a)
      fills = fill_in-keeps stable rows role u invitee k

      opens : Keeps P (set_up role u invitee amount k)
      opens = unfold set_up in search (keeps_rules, uuids, at_add_agreement, fills) depth 10

  pub routes_of_rows : StableRoutes P
  routes_of_rows = record {
    at_release = perform_escrow_release-keeps;
    at_refund = perform_escrow_refund-keeps;
    at_cancel = cancel_agreement-keeps;
    at_accept = accept_agreement-keeps;
    at_reject = reject_agreement-keeps;
    at_raise = raise_dispute-keeps;
    at_create = create_agreement-keeps;
    at_resolve = resolve_dispute-keeps;
  }
