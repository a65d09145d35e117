-- ===== src/WalletRepository/Outcome.antt =====
-- What `_apply_ledger_entry` of app/repository/wallet_repository.py does, by its checks.
use adehun_api.Prelude.{
  ℕ, ◌≡◌, true, false, some, ltb_ℤ, pos, ◌⊎◌, Bool-cases, Option-cases, inl, inr,
}
use adehun_api.Models.{Wallet, Transaction}
use adehun_api.Errors.{Error}
use adehun_api.Session.{Session, ok, err, ◌>>=◌}
use adehun_api.Money.{is_positive, is_two_places}
use adehun_api.WalletRepository.{
  EntryRequest, write_entry, apply_ledger_entry, new_entry, wallet_by_id,
}

-- What `_apply_ledger_entry` does: it passes its checks and writes the new entry, or it raises and
-- changes nothing.
abbrev pub Accepts : Wallet → EntryRequest → Type 0
Accepts w r =
    (is_positive r.amount ≡ true)
    × (is_two_places r.amount ≡ true)
    × (ltb_ℤ (new_entry w r).balance_after (pos 0) ≡ false)
    × (ltb_ℤ (new_entry w r).escrow_after (pos 0) ≡ false)

abbrev pub write_in : Transaction → Session → Session
write_in e s = record s { working = write_entry e s.working }

pub apply_ledger_entry_cases :
    (i : ℕ) (r : EntryRequest) (s : Session)
    → ((w : Wallet) × (wallet_by_id i s.working ≡ some w)
        × Accepts w r
        × (apply_ledger_entry i r s ≡ (ok (new_entry w r), write_in (new_entry w r) s)))
      ⊎ ((e : Error) × (apply_ledger_entry i r s ≡ (err e, s)))
unfolding apply_ledger_entry ◌>>=◌
apply_ledger_entry_cases i r s = elim (Bool-cases (is_positive r.amount)) [
  | inr no_amount ↦ inr (Error.bad_request, rw no_amount)
  | inl positive ↦ elim (Bool-cases (is_two_places r.amount)) [
    | inr sub_kobo ↦ inr (Error.bad_request, rw (positive, sub_kobo))
    | inl places ↦ elim (Option-cases (wallet_by_id i s.working)) [
      | inl missing ↦ inr (Error.wallet_not_found, rw (positive, places, missing))
      | inr (w, found) ↦ elim (Bool-cases (ltb_ℤ (new_entry w r).balance_after (pos 0))) [
        | inl short ↦ inr (Error.insufficient_funds, rw (positive, places, found, short))
        | inr covered ↦ elim (Bool-cases (ltb_ℤ (new_entry w r).escrow_after (pos 0))) [
          | inl short ↦
              inr (Error.insufficient_escrow_balance, rw (positive, places, found, covered, short))
          | inr held ↦ inl (
            w,
            found,
            (positive, places, covered, held),
            rw (positive, places, found, covered, held),
          )
        ]
      ]
    ]
  ]
]
