-- ===== src/Requests.antt =====
-- The requests of app/routers that change an agreement, its conditions, its disputes, money, bank
-- accounts, tokens, files or notifications, and the deliveries of Paystack's events, served one after the other. Each has a session of its own
-- (`get_session` of app/database.py): what it did not commit is gone when it ends. Other
-- transactions may commit at each wait for a row lock.
pub mod Stable
pub mod Soundness
pub mod Tidy
pub mod AtMostOnce
use adehun_api.Prelude.{ℕ, Bool, true, false, Option, List, [], ◌∷◌}
use adehun_api.Enums.{ParticipantRole, AgreementStatus, DisputeResolutionOutcome}
use adehun_api.Money.{Decimal}
use adehun_api.Session.{Session, rollback}
use adehun_api.WalletService.{
  Settings, Provider, request_withdrawal, get_withdrawal, get_balance, request_wallet_fund,
}
use adehun_api.BankAccounts.{Banks, add_bank_account, set_default_bank_account, remove_bank_account}
use adehun_api.AuthService.{Claims, verify_id_token, refresh_token, logout, deactivate_user}
use adehun_api.Webhook.{Event, handle_event}
use adehun_api.AgreementService.{accept_agreement}
use adehun_api.AgreementService.Creation.{create_agreement}
use adehun_api.Conditions.{add_condition, reject_condition}
use adehun_api.Escrow.{
  fund_agreement, release_agreement_escrow, refund_agreement_escrow, cancel_route, reject_route,
  approve_route,
}
use adehun_api.Assets.{Upload, approve_asset, reject_asset}
use adehun_api.Assets.Routes.{add_asset_route, condition_assets_route, agreement_assets_route}
use adehun_api.Notifications.{mark_as_read, mark_all_as_read}
use adehun_api.Disputes.Evidence.{add_evidence}
use adehun_api.Disputes.{raise_dispute, mark_under_review, resolve_route}

pub data Request : Type 0 where
  create : ParticipantRole → ℕ → ℕ → ℕ → Decimal → ℕ → Request
  accept : ℕ → ℕ → ℕ → Request
  reject : ℕ → ℕ → ℕ → Request
  cancel : ℕ → ℕ → Request
  fund : Option AgreementStatus → ℕ → ℕ → Request
  release : ℕ → ℕ → Request
  refund : ℕ → Bool → Request
  add_to : ℕ → ℕ → ℕ → Request
  approve : ℕ → ℕ → Request
  decline : ℕ → ℕ → ℕ → Request
  contest : ℕ → ℕ → List Upload → Request
  review : ℕ → Request
  resolve : ℕ → ℕ → DisputeResolutionOutcome → Request
  withdraw : ℕ → Decimal → Option ℕ → Request
  withdrawal : ℕ → ℕ → Request
  deliver : Event → Request
  balance : ℕ → Request
  start_funding : ℕ → Decimal → Request
  add_account : ℕ → ℕ → ℕ → Bool → Request
  default_account : ℕ → ℕ → Request
  remove_account : ℕ → ℕ → Request
  log_in : ℕ → ℕ → ℕ → Request
  refresh : ℕ → Option Claims → Request
  log_out : ℕ → Option Claims → Request
  deactivate : ℕ → Request
  hand_in_files : ℕ → ℕ → List Upload → Request
  judge_file : Bool → ℕ → ℕ → ℕ → ℕ → Request
  condition_files : ℕ → ℕ → ℕ → Option ℕ → Request
  agreement_files : ℕ → ℕ → ℕ → Option ℕ → Request
  file_evidence : ℕ → ℕ → List Upload → Request
  read_some : List ℕ → ℕ → Request
  read_every : ℕ → Request

module _ (settings : Settings) (provider : Provider) (banks : Banks) (owner : ℕ → Option ℕ) where
  -- The session after the handler of a request.
  abbrev pub after : Request → Session → Session
  after (Request.create role u email invitee amount k) s =
      (create_agreement role u email invitee amount k s).1
  after (Request.accept a u email) s = (accept_agreement a u email s).1
  after (Request.reject a u email) s = (reject_route a u email s).1
  after (Request.cancel a u) s = (cancel_route a u s).1
  after (Request.fund copy a u) s = (fund_agreement copy a u s).1
  after (Request.release a u) s = (release_agreement_escrow a u s).1
  after (Request.refund a is_admin) s = (refund_agreement_escrow a is_admin s).1
  after (Request.add_to a u email) s = (add_condition owner a u email s).1
  after (Request.approve c u) s = (approve_route c u s).1
  after (Request.decline c u reason) s = (reject_condition c u reason s).1
  after (Request.contest a u files) s = (raise_dispute a u files s).1
  after (Request.review d) s = (mark_under_review d s).1
  after (Request.resolve d admin outcome) s = (resolve_route d admin outcome s).1
  after (Request.withdraw u amount bank) s =
      (request_withdrawal settings provider u amount bank s).1
  after (Request.withdrawal u reference) s = (get_withdrawal provider u reference s).1
  after (Request.deliver ev) s = (handle_event provider ev s).1
  after (Request.balance u) s = (get_balance u s).1
  after (Request.start_funding u amount) s = (request_wallet_fund provider u amount s).1
  after (Request.add_account u bank number make_default) s =
      (add_bank_account banks u bank number make_default s).1
  after (Request.default_account i u) s = (set_default_bank_account i u s).1
  after (Request.remove_account i u) s = (remove_bank_account i u s).1
  after (Request.log_in now uid email) s = (verify_id_token now uid email s).1
  after (Request.refresh now decoded) s = (refresh_token now decoded s).1
  after (Request.log_out now decoded) s = (logout now decoded s).1
  after (Request.deactivate u) s = (deactivate_user u s).1
  after (Request.hand_in_files u c files) s = (add_asset_route u c files s).1
  after (Request.judge_file true now c i u) s = (approve_asset now c i u s).1
  after (Request.judge_file false now c i u) s = (reject_asset now c i u s).1
  after (Request.condition_files now c u email) s = (condition_assets_route now c u email s).1
  after (Request.agreement_files now a u email) s = (agreement_assets_route now a u email s).1
  after (Request.file_evidence d u files) s = (add_evidence d u files s).1
  after (Request.read_some is u) s = (mark_as_read is u s).1
  after (Request.read_every u) s = (mark_all_as_read u s).1

  unfoldable pub serve : Request → Session → Session
  serve r s = (rollback (after r s)).1

  unfoldable pub serve_all : List Request → Session → Session
  serve_all [] s = s
  serve_all (r ∷ rs) s = serve_all rs (serve r s)
