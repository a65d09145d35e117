-- ===== src/Tests/Accounts.antt =====
-- Bank accounts, refresh tokens and retries at concrete runs.
use adehun_api.Prelude.{arith, ℕ, ◌≤◌, ◌≡◌, refl, true, false, any, [], ◌∷◌, some}
use adehun_api.Enums.{WebhookEventStatus}
use adehun_api.Models.{BankAccount, empty_db}
use adehun_api.Errors.{Error, unauthorized}
use adehun_api.Session.{
  Session, ok, err, ◌>>=◌, commit, constraints, no_clash, distinct_references, one_active_dispute,
  rollback, fresh,
}
use adehun_api.WalletService.{request_withdrawal}
use adehun_api.BankAccounts.{
  add_bank_account, set_default_bank_account, remove_bank_account, save_account, set_default,
  deactivate, write_accounts, require_bank, returned, has_pending_withdrawal,
}
use adehun_api.BankAccounts.Default.{
  IsDefault, set_default_bank_account-IsDefault, add_bank_account-IsDefault,
}
use adehun_api.BankAccounts.Removal.{removed_account_refuses}
use adehun_api.AuthService.{
  Claims, TokenType, refresh_token, verify_refresh, rotate, load_user, write_tokens, is_live,
  issued, revoke,
}
use adehun_api.AuthService.Rotation.{refresh_reuse}
use adehun_api.AuthService.Live.{live, refresh_token-live}
use adehun_api.WebhookEvents.{claim, add_event, mark, mark_failed, update_event}
use adehun_api.WebhookEvents.Retry.{HasFailed, claim-mark_failed}
use adehun_api.Tests.Data.{naira, paystack, banks, settings}

abbrev account : ℕ → BankAccount
account i = record {
  id = i;
  user_id = 7;
  bank_code = 44;
  account_number = i;
  recipient_code = i;
  is_default = false;
  is_active = true;
}

-- Two accounts of user 7, and a refresh token of the user.
abbrev office : Session
office =
    fresh
      (record empty_db {
        bank_accounts = account 60 ∷ account 61 ∷ [];
        users = record { id = 7; email = 70; active = 1; is_admin = false } ∷ [];
        refresh_tokens = issued 1000 7 80 ∷ [];
        webhook_events =
            record { dedupe_key = 3; status = WebhookEventStatus.received; attempts = 2 } ∷ [];
      })
      100

set_default_bank_account-IsDefault_example : IsDefault 7 61 (set_default_bank_account 61 7 office).1
unfolding set_default_bank_account set_default write_accounts commit constraints no_clash
    distinct_references one_active_dispute ◌>>=◌
set_default_bank_account-IsDefault_example =
    set_default_bank_account-IsDefault 61 7 office (set_default_bank_account 61 7 office).1 refl

add_bank_account-IsDefault_example : IsDefault 7 100 (add_bank_account banks 7 58 62 false office).1
unfolding add_bank_account save_account require_bank returned set_default write_accounts commit
    constraints no_clash distinct_references one_active_dispute ◌>>=◌
add_bank_account-IsDefault_example =
    add_bank_account-IsDefault banks 7 58 62 false office
      (add_bank_account banks 7 58 62 false office).1 100 refl refl

removed_account_refuses_example :
    (e : Error) × (request_withdrawal settings paystack 7
        (naira 20)
        (some 60)
        (remove_bank_account 60 7 office).1
      ≡ (err e, (remove_bank_account 60 7 office).1))
unfolding remove_bank_account has_pending_withdrawal deactivate write_accounts commit constraints
    no_clash distinct_references one_active_dispute ◌>>=◌
removed_account_refuses_example =
    removed_account_refuses settings paystack 60 7 (naira 20) office
      (remove_bank_account 60 7 office).1 refl

abbrev presented : Claims
presented = record { sub = 7; type = TokenType.refresh; jti = 80; exp = 260200 }

refresh_reuse_example :
    (t : Session) × (refresh_token 3000
        (some presented)
        (refresh_token 2000 (some presented) office).1
      ≡ (err unauthorized, t))
    × (any (is_live 7) t.committed.refresh_tokens ≡ false)
unfolding refresh_token verify_refresh rotate load_user write_tokens revoke commit constraints
    no_clash distinct_references one_active_dispute ◌>>=◌
refresh_reuse_example =
    refresh_reuse 2000 3000 100 presented office (refresh_token 2000 (some presented) office).1 refl
      refl (ground arith)

refresh_token-live_example :
    live 7 (refresh_token 2000 (some presented) office).1.working.refresh_tokens
    ≤ live 7 office.working.refresh_tokens
refresh_token-live_example = refresh_token-live 7 2000 (some presented) office

-- Two attempts to handle event 4.
abbrev tried : Session
tried = (mark_failed 4 (claim 4 office).1).1

abbrev tried_again : Session
tried_again = (mark_failed 4 (claim 4 tried).1).1

claim-mark_failed_example : (t : Session) × (claim 4 tried_again ≡ (ok true, t))
unfolding claim add_event mark_failed mark rollback update_event commit constraints no_clash
    distinct_references one_active_dispute ◌>>=◌
claim-mark_failed_example = claim-mark_failed 4 2 tried_again (
    HasFailed.once_more tried (claim 4 tried).1 (claim 4 tried).1 tried_again
      (HasFailed.once office (claim 4 office).1 (claim 4 office).1 tried refl refl refl refl) refl
      refl refl)
