-- ===== src/Errors.antt =====
-- app/exceptions.py and the errors of app/service/paystack_client.py, with their HTTP status codes.
-- A message is left out. The last four are no `AppError`: two that SQLAlchemy raises when a flush
-- breaks a constraint or overflows a NUMERIC column, that of `next` on an empty generator, and that
-- of an index out of range.
use adehun_api.Prelude.{ℕ, Bool, true, false}

pub data Error : Type 0 where
  bad_request unauthorized user_not_found forbidden withdrawal_not_allowed admin_access_required :
      Error
  agreement_not_found invitation_not_found condition_not_found participant_not_found : Error
  transaction_not_found bank_account_not_found dispute_not_found wallet_not_found asset_not_found :
      Error
  insufficient_funds insufficient_escrow_balance : Error
  dispute_already_exists dispute_not_open duplicate_bank_account : Error
  idempotency_conflict idempotency_key_reused : Error
  agreement_creation condition_save agreement_acceptance dispute_creation : Error
  asset_upload asset_approval asset_retrieval : Error
  paystack_error paystack_timeout paystack_validation paystack_duplicate_reference : Error
  integrity_error data_error stop_iteration index_error : Error

-- `isinstance(err, AppError)`
abbrev pub is_app_error : Error → Bool
is_app_error Error.integrity_error = false
is_app_error Error.data_error = false
is_app_error Error.stop_iteration = false
is_app_error Error.index_error = false
is_app_error _ = true

-- `isinstance(err, PaystackError)`
abbrev pub is_paystack_error : Error → Bool
is_paystack_error Error.paystack_error = true
is_paystack_error Error.paystack_timeout = true
is_paystack_error Error.paystack_validation = true
is_paystack_error Error.paystack_duplicate_reference = true
is_paystack_error _ = false

-- `err.status_code`; 500 for what is no `AppError`
unfoldable pub status_code : Error → ℕ
status_code Error.bad_request = 400
status_code Error.unauthorized = 401
status_code Error.forbidden = 403
status_code Error.withdrawal_not_allowed = 403
status_code Error.admin_access_required = 403
status_code Error.user_not_found = 404
status_code Error.agreement_not_found = 404
status_code Error.invitation_not_found = 404
status_code Error.condition_not_found = 404
status_code Error.participant_not_found = 404
status_code Error.transaction_not_found = 404
status_code Error.bank_account_not_found = 404
status_code Error.dispute_not_found = 404
status_code Error.wallet_not_found = 404
status_code Error.asset_not_found = 404
status_code Error.insufficient_funds = 409
status_code Error.insufficient_escrow_balance = 409
status_code Error.dispute_already_exists = 409
status_code Error.dispute_not_open = 409
status_code Error.duplicate_bank_account = 409
status_code Error.idempotency_conflict = 409
status_code Error.idempotency_key_reused = 409
status_code Error.paystack_error = 502
status_code Error.paystack_timeout = 504
status_code Error.paystack_validation = 400
status_code Error.paystack_duplicate_reference = 409
status_code _ = 500
