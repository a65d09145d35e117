-- ===== src/WalletRepository/Limits.antt =====
-- The constraints of the ledger and wallet tables after a movement of app/repository/wallet_repository.py.
use adehun_api.Prelude.{
  ℕ, ◌^◌, ◌≡◌, refl, ◌∙◌, Bool, true, false, not, ◌&&◌, List, [], ◌∷◌, none, find, all, any, arith,
  update_where, select_all, ◌==◌, ℤ, pos, ltb_ℤ,
}
use adehun_api.Reference.{Reference, esc_lock, same_reference}
use adehun_api.Models.{Db, Wallet, Transaction}
use adehun_api.Session.{constraints, distinct_references, fits_numeric, wallet_checks}
use adehun_api.Session.Commits.{IsCommittable}
use adehun_api.WalletRepository.{entry_by_reference, write_entry}
use adehun_api.WalletRepository.Sums.{set_balances}

-- At least 0 and below 10^12 kobo.
abbrev pub is_balance : ℤ → Bool
is_balance x = not (ltb_ℤ x (pos 0)) && ltb_ℤ x (pos (10 ^ 12))

-- The wallets after an update by id: each passes a test, and the others are as before.
module _ (i : ℕ) (f : Wallet → Wallet) where
  pub all-update_id :
      (p : Wallet → Bool) (ws : List Wallet)
      → all p ws ≡ true
      → ((x : Wallet) → p (f x) ≡ true)
      → all p (update_where (λ x. x.id == i) f ws) ≡ true
  all-update_id p [] h keep = refl
  all-update_id p (x ∷ ws) h keep = ground (arith, keep x, all-update_id p ws)

  pub others-update_id :
      (ws : List Wallet)
      → ((x : Wallet) → (f x).id ≡ x.id)
      → select_all (λ x. not (x.id == i)) (update_where (λ x. x.id == i) f ws)
        ≡ select_all (λ x. not (x.id == i)) ws
  others-update_id [] keep = refl
  others-update_id (x ∷ ws) keep = ground (arith, keep x, others-update_id ws keep)

same_comm : (r q : Reference) → same_reference r q ≡ same_reference q r
same_comm (esc_lock a) (esc_lock b) = ground arith
same_comm _ _ = ground arith

-- A reference that is not found clashes with none.
unused :
    (r : Reference) (es : List Transaction)
    → find (λ e. same_reference e.reference r) es ≡ none
    → any (λ e. same_reference r e.reference) es ≡ false
unused r [] h = refl
unused r (e ∷ es) h = ground (arith, same_comm r e.reference, unused r es)

pub not_less : (x : ℤ) → is_balance x ≡ true → ltb_ℤ x (pos 0) ≡ false
not_less x h = no_less (ltb_ℤ x (pos 0)) (ltb_ℤ x (pos (10 ^ 12))) h
  where
    no_less : (a b : Bool) → not a && b ≡ true → a ≡ false
    no_less a b h = ground arith

-- A movement to balances within the bounds, under an unused reference, keeps the constraints.
pub write_entry-IsCommittable :
    (e : Transaction) (db : Db)
    → IsCommittable db
    → entry_by_reference e.reference db ≡ none
    → is_balance e.balance_after ≡ true
    → is_balance e.escrow_after ≡ true
    → IsCommittable (write_entry e db)
unfolding write_entry constraints distinct_references
write_entry-IsCommittable e db (fits, good) new covered held = (
  all-update_id e.wallet_id (set_balances e.balance_after e.escrow_after) fits_numeric db.wallets
      fits (λ x. ground arith),
  same ∙ good,
)
  where
    sound : all wallet_checks db.wallets ≡ true
    sound = ground arith

    checked :
        all wallet_checks (
          update_where
            (λ x. x.id == e.wallet_id)
            (set_balances e.balance_after e.escrow_after)
            db.wallets)
        ≡ true
    checked =
        all-update_id e.wallet_id (set_balances e.balance_after e.escrow_after) wallet_checks
          db.wallets sound (λ x. ground arith)

    same : constraints (write_entry e db) ≡ constraints db
    same = rw (unused e.reference db.entries new, checked, sound) refl
