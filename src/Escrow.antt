-- ===== src/Escrow.antt =====
-- The routes that move escrowed money: fund, release, refund and cancel of
-- app/routers/agreement.py, and the automatic release of app/routers/condition.py. Left out: the
-- idempotency header, notifications, websocket frames and responses.
pub mod Stable
pub mod Creation
pub mod Statuses
pub mod Soundness
pub mod Closed
pub mod Prepared
use adehun_api.Prelude.{
  ℕ, Bool, true, false, not, ◌&&◌, ◌||◌, Option, none, some, any, if◌then◌else◌, ◌==◌,
}
use adehun_api.Enums.{AgreementStatus, is_escrow_lock, same_status}
use adehun_api.Reference.{esc_rel_out, same_reference}
use adehun_api.Models.{Db, Transaction, Agreement}
use adehun_api.Errors.{Error, bad_request, agreement_not_found, admin_access_required}
use adehun_api.Session.{Action, pure, raise, query, or_raise, ◌>>=◌, ◌>>◌, raise_if, try_except}
use adehun_api.WalletRepository.{LedgerResult, TransferResult}
use adehun_api.WalletService.{lock_escrow, release_escrow, refund_escrow}
use adehun_api.AgreementService.{
  agreement_by_id, get_escrow_context, prepare_escrow_funding, prepare_release, prepare_refund,
  cancel_agreement, reject_agreement,
}
use adehun_api.Conditions.{approve_condition, all_conditions_approved}

abbrev pub of_agreement : ℕ → Option ℕ → Bool
of_agreement a none = false
of_agreement a (some b) = b == a

abbrev pub locks : ℕ → Transaction → Bool
locks a e = is_escrow_lock e.type && of_agreement a e.agreement_id

-- TransactionService.is_agreement_funded and is_agreement_released
unfoldable pub is_agreement_funded : ℕ → Db → Bool
is_agreement_funded a db = any (locks a) db.entries

unfoldable pub is_agreement_released : ℕ → Db → Bool
is_agreement_released a db = any (λ e. same_reference e.reference (esc_rel_out a)) db.entries

-- POST /agreements/{id}/fund
unfoldable pub fund_agreement : Option AgreementStatus → ℕ → ℕ → Action LedgerResult
fund_agreement copy a u = do
  context ← prepare_escrow_funding copy a u
  funded ← query (is_agreement_funded a)
  raise_if funded bad_request
  lock_escrow u context.amount a (some context.depositor_participant_id)
      (some context.beneficiary_user_id)

unfoldable pub perform_escrow_release : ℕ → Action TransferResult
perform_escrow_release a = do
  context ← prepare_release a
  release_escrow a context.depositor_user_id context.beneficiary_user_id context.amount

unfoldable pub perform_escrow_refund : ℕ → Action LedgerResult
perform_escrow_refund a = do
  context ← prepare_refund a
  refund_escrow a context.depositor_user_id context.amount

-- POST /agreements/{id}/release
unfoldable pub release_agreement_escrow : ℕ → ℕ → Action TransferResult
release_agreement_escrow a u = do
  context ← get_escrow_context a
  raise_if (not (u == context.depositor_user_id || u == context.beneficiary_user_id)) bad_request
  funded ← query (is_agreement_funded a)
  raise_if (not funded) bad_request
  approved ← query (all_conditions_approved a)
  raise_if (not approved) bad_request
  perform_escrow_release a

-- POST /agreements/{id}/refund, for an administrator
unfoldable pub refund_agreement_escrow : ℕ → Bool → Action LedgerResult
refund_agreement_escrow a is_admin = do
  raise_if (not is_admin) admin_access_required
  funded ← query (is_agreement_funded a)
  raise_if (not funded) bad_request
  released ← query (is_agreement_released a)
  raise_if released bad_request
  perform_escrow_refund a

-- The check by which POST /cancel and POST /reject refuse while money is in escrow.
abbrev pub refuse_funded : ℕ → Action (Unit {0})
refuse_funded a = do
  funded ← query (is_agreement_funded a)
  released ← query (is_agreement_released a)
  raise_if (funded && not released) bad_request

-- POST /agreements/{id}/cancel
unfoldable pub cancel_route : ℕ → ℕ → Action (Unit {0})
cancel_route a u = do refuse_funded a; cancel_agreement a u

-- POST /agreements/{id}/reject
unfoldable pub reject_route : ℕ → ℕ → ℕ → Action (Unit {0})
reject_route a u email = do refuse_funded a; reject_agreement a u email

-- `_release_escrow_if_ready` inside its `try`
abbrev pub release_if_ready : ℕ → Action (Unit {0})
release_if_ready a = do
  funded ← query (is_agreement_funded a)
  released ← query (is_agreement_released a)
  approved ← query (all_conditions_approved a)
  if not (funded && not released && approved) then pure tt else (do
    found ← query (agreement_by_id a)
    agreement ← or_raise agreement_not_found found
    if same_status agreement.status AgreementStatus.disputed
        then pure tt
        else (do perform_escrow_release a; pure tt))

-- POST /conditions/{id}/approve; a failed release is only logged
unfoldable pub approve_route : ℕ → ℕ → Action (Unit {0})
approve_route c u = do a ← approve_condition c u; try_except (release_if_ready a) (λ e. pure tt)
