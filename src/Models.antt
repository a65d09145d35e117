-- ===== src/Models.antt =====
-- The rows of app/models and the database as their tables. Ids are numbers. Texts that only reach
-- a reader (titles, descriptions, reasons, metadata, timestamps of creation) are left out, and so is
-- the currency, which the code sets to "NGN" in every row, and a ledger row's `condition_id`, which
-- no caller of the ledger sets.
use adehun_api.Prelude.{ℕ, Bool, Option, List, ℤ}
use adehun_api.Enums.{
  ParticipantRole, InvitationStatus, AgreementStatus, LedgerEntryType, LedgerDirection,
  LedgerEntryStatus, WebhookEventStatus, IdempotencyStatus, DisputeStatus, DisputeResolutionOutcome,
  TransactionStatus, TransactionType,
}
use adehun_api.Money.{Decimal}
use adehun_api.Reference.{Reference}

-- app/models/wallet.py; balances in kobo
pub record Wallet : Type 0 where
  pub id : ℕ
  pub user_id : ℕ
  pub available_balance : ℤ
  pub escrow_balance : ℤ

-- app/models/transaction.py; the group `esc_rel_{id}` is kept as the agreement's id
pub record Transaction : Type 0 where
  pub user_id : ℕ
  pub wallet_id : ℕ
  pub reference : Reference
  pub group_id : Option ℕ
  pub agreement_id : Option ℕ
  pub participant_id : Option ℕ
  pub paystack_transaction_id : Option ℕ
  pub counterparty_user_id : Option ℕ
  pub amount : Decimal
  pub available_delta : ℤ
  pub escrow_delta : ℤ
  pub balance_after : ℤ
  pub escrow_after : ℤ
  pub type : LedgerEntryType
  pub direction : LedgerDirection
  pub status : LedgerEntryStatus
  pub processed : Bool

-- app/models/paystack_transaction.py
pub record PaystackTransaction : Type 0 where
  pub id : ℕ
  pub user_id : ℕ
  pub reference : ℕ
  pub amount : Decimal
  pub status : TransactionStatus
  pub transaction_type : TransactionType
  pub bank_account_id : Option ℕ

-- app/models/agreement.py
pub record Agreement : Type 0 where
  pub id : ℕ
  pub user_id : ℕ
  pub amount : Decimal
  pub status : AgreementStatus

-- app/models/agreement_participant.py
pub record AgreementParticipant : Type 0 where
  pub id : ℕ
  pub agreement_id : ℕ
  pub user_id : ℕ
  pub role : ParticipantRole
  pub status : InvitationStatus

-- The texts that `Invitation.status` takes.
pub data InviteState : Type 0 where
  pending accepted expired : InviteState

-- app/models/invitation.py; the e-mail address is a number
pub record Invitation : Type 0 where
  pub id : ℕ
  pub email : ℕ
  pub agreement_id : ℕ
  pub role : ParticipantRole
  pub status : Option InviteState

-- The texts that `Condition.status` takes.
pub data ConditionStatus : Type 0 where
  pending submitted approved rejected : ConditionStatus

-- app/models/condition.py
pub record Condition : Type 0 where
  pub id : ℕ
  pub agreement_id : ℕ
  pub participant_id : ℕ
  pub invitation_id : Option ℕ
  pub required_from_participant_id : Option ℕ
  pub status : ConditionStatus
  pub approved : Bool
  pub rejected_reason : Option ℕ

-- app/models/dispute.py
pub record Dispute : Type 0 where
  pub id : ℕ
  pub agreement_id : ℕ
  pub raised_by_user_id : ℕ
  pub against_user_id : ℕ
  pub status : DisputeStatus
  pub agreement_status_before : AgreementStatus
  pub resolution_outcome : Option DisputeResolutionOutcome
  pub resolved_by_user_id : Option ℕ

-- app/models/webhook_event.py
pub record WebhookEvent : Type 0 where
  pub dedupe_key : ℕ
  pub status : WebhookEventStatus
  pub attempts : ℕ

-- app/models/idempotency_key.py; a time is a number of seconds
pub record IdempotencyKey : Type 0 where
  pub id : ℕ
  pub user_id : ℕ
  pub endpoint : ℕ
  pub key : ℕ
  pub request_hash : ℕ
  pub status : IdempotencyStatus
  pub response : Option ℕ
  pub created_at : ℕ
  pub expires_at : ℕ
  pub resource_reference : Option Reference

-- app/models/bank_account.py; the names are left out
pub record BankAccount : Type 0 where
  pub id : ℕ
  pub user_id : ℕ
  pub bank_code : ℕ
  pub account_number : ℕ
  pub recipient_code : ℕ
  pub is_default : Bool
  pub is_active : Bool

-- app/models/user.py; the e-mail address is a number
pub record User : Type 0 where
  pub id : ℕ
  pub email : ℕ
  pub active : ℕ
  pub is_admin : Bool

-- app/models/refresh_token.py; a time is a number of seconds
pub record RefreshToken : Type 0 where
  pub jti : ℕ
  pub user_id : ℕ
  pub issued_at : ℕ
  pub expires_at : ℕ
  pub revoked_at : Option ℕ
  pub replaced_by_jti : Option ℕ

-- app/models/asset_file.py; its texts and the size are numbers
pub record AssetFile : Type 0 where
  pub id : ℕ
  pub url : ℕ
  pub type : ℕ
  pub name : ℕ
  pub size : ℕ

-- app/models/asset.py; the row of its file stands with it
pub record Asset : Type 0 where
  pub id : ℕ
  pub condition_id : Option ℕ
  pub dispute_id : Option ℕ
  pub file : AssetFile
  pub uploaded_by : ℕ
  pub is_approved : Bool

-- app/models/notification.py; the texts are left out
pub record Notification : Type 0 where
  pub id : ℕ
  pub user_id : ℕ
  pub is_read : Bool

-- All tables. The newest row of a table stands first.
pub record Db : Type 0 where
  pub wallets : List Wallet
  pub entries : List Transaction
  pub paystack : List PaystackTransaction
  pub agreements : List Agreement
  pub participants : List AgreementParticipant
  pub invitations : List Invitation
  pub conditions : List Condition
  pub disputes : List Dispute
  pub webhook_events : List WebhookEvent
  pub idempotency_keys : List IdempotencyKey
  pub bank_accounts : List BankAccount
  pub users : List User
  pub refresh_tokens : List RefreshToken
  pub assets : List Asset
  pub notifications : List Notification

abbrev pub empty_db : Db
empty_db = record {
  wallets = List.[];
  entries = List.[];
  paystack = List.[];
  agreements = List.[];
  participants = List.[];
  invitations = List.[];
  conditions = List.[];
  disputes = List.[];
  webhook_events = List.[];
  idempotency_keys = List.[];
  bank_accounts = List.[];
  users = List.[];
  refresh_tokens = List.[];
  assets = List.[];
  notifications = List.[];
}
