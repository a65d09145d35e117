-- ===== src/WalletService/Release.antt =====
-- `release_escrow` of app/service/wallet_service.py and its two ledger rows.
use adehun_api.Prelude.{ℕ, ◌≡◌, false, some, pos, ◌+ℤ◌}
use adehun_api.Enums.{LedgerEntryType}
use adehun_api.Money.{Decimal, quantize}
use adehun_api.Reference.{esc_rel_out, esc_rel_in}
use adehun_api.Session.{Session}
use adehun_api.Session.Ensures.{Ensures}
use adehun_api.WalletRepository.{EntryRequest, TransferResult, leg_request, entry_by_reference}
use adehun_api.WalletService.{release_leg}

-- Both rows of a release are committed: what leaves the escrow of user d, in wallet i, reaches the
-- available balance of user b, in wallet j, and nothing else moves.
pub record IsSettled (a d b i j : ℕ) (amount : Decimal) (x : TransferResult) (s : Session)
    : Type 0 where
  pub debit_user : x.debit.user_id ≡ d
  pub debit_wallet : x.debit.wallet_id ≡ i
  pub credit_user : x.credit.user_id ≡ b
  pub credit_wallet : x.credit.wallet_id ≡ j
  pub saved : s.committed ≡ s.working
  pub debit_found : entry_by_reference (esc_rel_out a) s.committed ≡ some x.debit
  pub credit_found : entry_by_reference (esc_rel_in a) s.committed ≡ some x.credit
  pub paid : x.credit.available_delta ≡ pos (quantize amount)
  pub balanced : x.debit.escrow_delta +ℤ x.credit.available_delta ≡ pos 0
  pub debit_available : x.debit.available_delta ≡ pos 0
  pub credit_escrow : x.credit.escrow_delta ≡ pos 0

module _ (a d b : ℕ) (amount : Decimal) where
  abbrev pub out : EntryRequest
  out = leg_request (esc_rel_out a) a (release_leg LedgerEntryType.escrow_release_out a d b amount)

  abbrev pub into : EntryRequest
  into = leg_request (esc_rel_in a) a (release_leg LedgerEntryType.escrow_release_in a b d amount)

module _ (a d b i j : ℕ) (amount : Decimal) where
  abbrev IfNew : TransferResult → Session → Type 0
  IfNew x s = x.replayed ≡ false → IsSettled a d b i j amount x s

  abbrev debit : EntryRequest
  debit = out a d b amount

  abbrev credit : EntryRequest
  credit = into a d b amount
