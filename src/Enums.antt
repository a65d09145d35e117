-- ===== src/Enums.antt =====
-- The enumerations of app/common/enums.py and app/models/paystack_transaction.py, with a constructor
-- for each member, and the tests that the code writes as `x == Member`.
use adehun_api.Prelude.{Bool, true, false}

pub data ParticipantRole : Type 0 where
  depositor beneficiary : ParticipantRole

pub data InvitationStatus : Type 0 where
  invited accepted rejected : InvitationStatus

pub data AgreementStatus : Type 0 where
  pending active disputed completed cancelled refunded : AgreementStatus

pub data LedgerEntryType : Type 0 where
  deposit escrow_lock escrow_release_out escrow_release_in escrow_refund : LedgerEntryType
  withdrawal withdrawal_reversal adjustment_credit adjustment_debit : LedgerEntryType

pub data LedgerDirection : Type 0 where
  credit debit : LedgerDirection

pub data LedgerEntryStatus : Type 0 where
  pending completed reversed : LedgerEntryStatus

pub data WebhookEventStatus : Type 0 where
  received processed ignored failed : WebhookEventStatus

pub data IdempotencyStatus : Type 0 where
  in_progress completed : IdempotencyStatus

pub data DisputeStatus : Type 0 where
  opened under_review resolved : DisputeStatus

pub data DisputeResolutionOutcome : Type 0 where
  favour_depositor favour_beneficiary split dismissed : DisputeResolutionOutcome

-- `TransactionStatus` and `TransactionType` of paystack_transaction.py
pub data TransactionStatus : Type 0 where
  pending success failed refunded : TransactionStatus

pub data TransactionType : Type 0 where
  escrow_deposit escrow_payout escrow_refund withdrawal : TransactionType

abbrev pub is_depositor : ParticipantRole → Bool
is_depositor ParticipantRole.depositor = true
is_depositor ParticipantRole.beneficiary = false

abbrev pub is_beneficiary : ParticipantRole → Bool
is_beneficiary ParticipantRole.depositor = false
is_beneficiary ParticipantRole.beneficiary = true

abbrev pub is_accepted : InvitationStatus → Bool
is_accepted InvitationStatus.accepted = true
is_accepted _ = false

abbrev pub is_rejected : InvitationStatus → Bool
is_rejected InvitationStatus.rejected = true
is_rejected _ = false

abbrev pub is_escrow_lock : LedgerEntryType → Bool
is_escrow_lock LedgerEntryType.escrow_lock = true
is_escrow_lock _ = false

-- One function for the tests `agreement.status == AgreementStatus.X`.
abbrev pub same_status : AgreementStatus → AgreementStatus → Bool
same_status AgreementStatus.pending AgreementStatus.pending = true
same_status AgreementStatus.active AgreementStatus.active = true
same_status AgreementStatus.disputed AgreementStatus.disputed = true
same_status AgreementStatus.completed AgreementStatus.completed = true
same_status AgreementStatus.cancelled AgreementStatus.cancelled = true
same_status AgreementStatus.refunded AgreementStatus.refunded = true
same_status _ _ = false

-- `status in {OPEN, UNDER_REVIEW}`
abbrev pub is_open : DisputeStatus → Bool
is_open DisputeStatus.resolved = false
is_open _ = true

abbrev pub same_dispute_status : DisputeStatus → DisputeStatus → Bool
same_dispute_status DisputeStatus.opened DisputeStatus.opened = true
same_dispute_status DisputeStatus.under_review DisputeStatus.under_review = true
same_dispute_status DisputeStatus.resolved DisputeStatus.resolved = true
same_dispute_status _ _ = false

abbrev pub is_pending : TransactionStatus → Bool
is_pending TransactionStatus.pending = true
is_pending _ = false

abbrev pub is_success : TransactionStatus → Bool
is_success TransactionStatus.success = true
is_success _ = false
