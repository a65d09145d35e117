-- ===== src/PaystackClient/Transfers.antt =====
-- What the answer to a transfer in app/service/paystack_client.py does to the withdrawal of
-- app/service/wallet_service.py that asked for it.
use adehun_api.Prelude.{
  ℕ, ◌≡◌, refl, Bool, true, false, not, ◌&&◌, none, some, [], ◌∷◌, is_some, ltb, inl, inr, ◌⊎◌,
  arith,
}
use adehun_api.Money.{to_kobo}
use adehun_api.Models.{Db, Wallet, PaystackTransaction}
use adehun_api.Errors.{
  Error, is_paystack_error, paystack_error, paystack_timeout, paystack_validation,
  paystack_duplicate_reference,
}
use adehun_api.Session.{Session, Result, ok, err, Action, fresh, ◌>>=◌}
use adehun_api.WalletRepository.{LedgerResult}
use adehun_api.WalletService.{WithdrawalResponse, withdrawal_response, after_transfer}
use adehun_api.WalletService.Reversal.{IsDebited, IsReversed, reverse_withdrawal-IsReversed}
use adehun_api.PaystackClient.{
  Reply, timed_out, request_failed, response, Call, post_transfer, Exchange, outcome_of,
  initiate_transfer, attempt_from, looks_like_duplicate_reference,
}

-- Of the answer only the transfer code and the id are read.
abbrev pub sent_or_refused : {D : Type 0} → Result D → Result (Unit {0})
sent_or_refused (ok _) = ok tt
sent_or_refused (err e) = err e

-- The replies after which `request_withdrawal` takes the outcome to be unknown: none in time, or a
-- refusal because the reference was used before.
abbrev pub is_unknown : {D : Type 0} → Reply D → Bool
is_unknown timed_out = true
is_unknown (response http_status (some body)) =
    ltb http_status 500 && not body.is_success && looks_like_duplicate_reference body.message
is_unknown _ = false

-- The replies that say that the transfer was made.
abbrev pub is_made : {D : Type 0} → Reply D → Bool
is_made (response http_status (some body)) =
    ltb http_status 500 && body.is_success && is_some body.payload
is_made _ = false

module _ {D : Type 0} where
  outcome_unknown :
      (r : Reply D)
      → is_unknown r ≡ true
      → (outcome_of r ≡ err paystack_timeout) ⊎ (outcome_of r ≡ err paystack_duplicate_reference)
  outcome_unknown timed_out h = inl refl
  outcome_unknown request_failed h = ground arith
  outcome_unknown (response c none) h = ground arith
  outcome_unknown (response c (some body)) h = ground arith

  outcome_refused :
      (r : Reply D)
      → is_unknown r ≡ false
      → is_made r ≡ false
      → (outcome_of r ≡ err paystack_error) ⊎ (outcome_of r ≡ err paystack_validation)
  outcome_refused timed_out h h' = ground arith
  outcome_refused request_failed h h' = inl refl
  outcome_refused (response c none) h h' = ground arith
  outcome_refused (response c (some body)) h h' = ground arith

module _ {D : Type 0} (answer : ℕ → Reply D) (p : PaystackTransaction) (recipient_code : ℕ) where
  abbrev pub transfer_call : Call
  transfer_call = post_transfer (to_kobo p.amount) recipient_code p.reference

  -- The transfer of a withdrawal's amount under its reference.
  abbrev pub transferred : Exchange D
  transferred = initiate_transfer answer (to_kobo p.amount) recipient_code p.reference

  module _ (debit : LedgerResult) where
    abbrev pub finished : Action WithdrawalResponse
    finished = after_transfer p debit (sent_or_refused transferred.outcome)

    -- If the one reply to a transfer leaves open whether money was sent, because it did not
    -- come in time or because it refuses a reference that was used before, then exactly one
    -- transfer was posted, and the withdrawal ends at once: it returns the pending row with
    -- the debited balance and changes nothing, so the debit is not reversed.
    pub transfer_unknown :
        (s : Session)
        → is_unknown (answer 0) ≡ true
        → (transferred.sent ≡ transfer_call ∷ [])
          × (finished s ≡ (ok (withdrawal_response p (some debit.wallet.available_balance)), s))
    unfolding attempt_from after_transfer ◌>>=◌
    transfer_unknown s h = elim (outcome_unknown (answer 0) h) [
      | inl late ↦ (refl, rw late refl)
      | inr used ↦ (refl, rw used refl)
    ]

    -- If the one reply to a transfer neither leaves its outcome open (no answer in time, or a
    -- reference used before) nor reports it as made, be it a refusal, a server error or a
    -- lost connection, then exactly one transfer was posted; and if the withdrawal and its
    -- debit are in the database and nobody interferes, the withdrawal raises an error of the
    -- provider after the debit was put back: in the committed database the user's available
    -- balance is larger by the amount, the escrow balance is as before, the ledger has the
    -- reversal, and the debit is marked as reversed.
    pub transfer_refused :
        (db : Db) (n : ℕ) (w : Wallet)
        → IsDebited p debit.entry db w
        → is_unknown (answer 0) ≡ false
        → is_made (answer 0) ≡ false
        → (transferred.sent ≡ transfer_call ∷ [])
          × ((e : Error) × (t : Session) × (is_paystack_error e ≡ true)
              × (finished (fresh db n) ≡ (err e, t))
              × IsReversed p.reference p.user_id p.amount w debit.entry t)
    unfolding attempt_from after_transfer ◌>>=◌
    transfer_refused db n w h doubtless unmade =
        let (t, reverses, done) = reverse_withdrawal-IsReversed p debit.entry db n w h in
        elim (outcome_refused (answer 0) doubtless unmade) [
          | inl failed ↦ (refl, (paystack_error, t, refl, rw (failed, reverses) refl, done))
          | inr invalid_input ↦
              (refl, (paystack_validation, t, refl, rw (invalid_input, reverses) refl, done))
        ]
