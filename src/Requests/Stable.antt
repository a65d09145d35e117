-- ===== src/Requests/Stable.antt =====
-- Invariants of a session over sequences of requests.
use adehun_api.Prelude.{ℕ, ◌≡◌, true, false, Option, List, [], ◌∷◌}
use adehun_api.Models.{WebhookEvent}
use adehun_api.Session.{Session, modify}
use adehun_api.Session.Keeps.{Keeps}
use adehun_api.WalletRepository.Stable.{Stable}
use adehun_api.WalletService.{Settings, Provider}
use adehun_api.WalletService.Stable.{
  request_withdrawal-keeps, get_withdrawal-keeps, get_balance-keeps, request_wallet_fund-keeps,
}
use adehun_api.WebhookEvents.{add_event, update_event}
use adehun_api.BankAccounts.{Banks}
use adehun_api.BankAccounts.Stable.{
  StableAccounts, add_bank_account-keeps, set_default_bank_account-keeps, remove_bank_account-keeps,
}
use adehun_api.AuthService.Stable.{
  StableUsers, verify_id_token-keeps, refresh_token-keeps, logout-keeps, deactivate_user-keeps,
}
use adehun_api.Webhook.Stable.{handle_event-keeps}
use adehun_api.Escrow.Stable.{
  StableRows, StableRoutes, fund_agreement-keeps, release_agreement_escrow-keeps,
  refund_agreement_escrow-keeps, approve_route-keeps, resolve_route-keeps, reject_route-keeps,
  cancel_route-keeps, add_condition-keeps, reject_condition-keeps, mark_under_review-keeps,
}
use adehun_api.Assets.Stable.{
  review-keeps, add_asset_route-keeps, condition_assets_route-keeps, agreement_assets_route-keeps,
}
use adehun_api.Disputes.Stable.{add_evidence-keeps}
use adehun_api.Notifications.Stable.{mark_as_read-keeps, mark_all_as_read-keeps}
use adehun_api.Requests.{Request, after, serve, serve_all}

module _ {P : Session → Type 0} (stable : Stable P) (rows : StableRows P) (routes : StableRoutes P)
    (accounts : StableAccounts P) (users : StableUsers P)
    (adds : (k : ℕ) → Keeps P (modify (add_event k)))
    (updates : (k : ℕ) (f : WebhookEvent → WebhookEvent)
      → ((e : WebhookEvent) → (f e).dedupe_key ≡ e.dedupe_key)
      → Keeps P (modify (update_event k f)))
    (settings : Settings) (provider : Provider) (banks : Banks) (owner : ℕ → Option ℕ) where
  after-keeps : (r : Request) (s : Session) → P s → P (after settings provider banks owner r s)
  after-keeps (Request.create role u email invitee amount k) =
      (routes.at_create role u email invitee amount k).at
  after-keeps (Request.accept a u email) = (routes.at_accept a u email).at
  after-keeps (Request.reject a u email) = (reject_route-keeps stable rows routes a u email).at
  after-keeps (Request.cancel a u) = (cancel_route-keeps stable rows routes a u).at
  after-keeps (Request.fund copy a u) = (fund_agreement-keeps stable rows routes copy a u).at
  after-keeps (Request.release a u) = (release_agreement_escrow-keeps stable rows routes a u).at
  after-keeps (Request.refund a b) = (refund_agreement_escrow-keeps stable rows routes a b).at
  after-keeps (Request.add_to a u email) =
      (add_condition-keeps stable rows routes owner a u email).at
  after-keeps (Request.approve c u) = (approve_route-keeps stable rows routes c u).at
  after-keeps (Request.decline c u reason) =
      (reject_condition-keeps stable rows routes c u reason).at
  after-keeps (Request.contest a u files) = (routes.at_raise a u files).at
  after-keeps (Request.review d) = (mark_under_review-keeps stable rows routes d).at
  after-keeps (Request.resolve d admin o) = (resolve_route-keeps stable rows routes d admin o).at
  after-keeps (Request.withdraw u amount bank) =
      (request_withdrawal-keeps stable settings provider u amount bank).at
  after-keeps (Request.withdrawal u ref) = (get_withdrawal-keeps stable provider u ref).at
  after-keeps (Request.deliver ev) = (handle_event-keeps stable adds updates provider ev).at
  after-keeps (Request.balance u) = (get_balance-keeps stable u).at
  after-keeps (Request.start_funding u amount) =
      (request_wallet_fund-keeps stable provider u amount).at
  after-keeps (Request.add_account u bank number make_default) =
      (add_bank_account-keeps stable accounts banks u bank number make_default).at
  after-keeps (Request.default_account i u) =
      (set_default_bank_account-keeps stable accounts i u).at
  after-keeps (Request.remove_account i u) = (remove_bank_account-keeps stable accounts i u).at
  after-keeps (Request.log_in now uid email) = (verify_id_token-keeps stable users now uid email).at
  after-keeps (Request.refresh now decoded) = (refresh_token-keeps stable users now decoded).at
  after-keeps (Request.log_out now decoded) = (logout-keeps stable users now decoded).at
  after-keeps (Request.deactivate u) = (deactivate_user-keeps stable users u).at
  after-keeps (Request.hand_in_files u c files) = (add_asset_route-keeps stable rows u c files).at
  after-keeps (Request.judge_file true now c i u) = (review-keeps stable rows true now c i u).at
  after-keeps (Request.judge_file false now c i u) = (review-keeps stable rows false now c i u).at
  after-keeps (Request.condition_files now c u email) =
      (condition_assets_route-keeps stable rows now c u email).at
  after-keeps (Request.agreement_files now a u email) =
      (agreement_assets_route-keeps stable rows now a u email).at
  after-keeps (Request.file_evidence d u files) = (add_evidence-keeps stable rows d u files).at
  after-keeps (Request.read_some is u) = (mark_as_read-keeps stable rows is u).at
  after-keeps (Request.read_every u) = (mark_all_as_read-keeps stable rows u).at

  pub serve_all-keeps :
      (rs : List Request) (s : Session) → P s → P (serve_all settings provider banks owner rs s)
  unfolding serve_all serve
  serve_all-keeps [] s h = h
  serve_all-keeps (r ∷ rs) s h = serve_all-keeps rs _ (stable.at_rollback.at _ (after-keeps r s h))
