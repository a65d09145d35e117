-- ===== src/BankAccounts/Removal.antt =====
-- The removal of a bank account, and withdrawals to it.
use mathlib.Core.Path.{subst}
use adehun_api.Prelude.{
  ℕ, ◌≡◌, refl, ◌&&◌, List, [], ◌∷◌, some, none, find, update_where, ◌==◌, arith, inl, inr,
  Bool-cases, Option-cases, find_holds,
}
use adehun_api.Money.{Decimal}
use adehun_api.Models.{BankAccount}
use adehun_api.Errors.{Error, bank_account_not_found}
use adehun_api.Session.{Session, Action, ok, err, ◌>>=◌}
use adehun_api.Session.Commits.{commit_splits}
use adehun_api.Session.Ensures.{Post}
use adehun_api.Session.Refuses.{Refuses, Refuses-first, refuses_rules}
use adehun_api.WalletService.{
  Settings, Provider, bank_account_for_user, resolve_bank_account, request_withdrawal,
}
use adehun_api.BankAccounts.{
  write_accounts, closed, has_pending_withdrawal, deactivate, remove_bank_account,
}

abbrev pub IsGone : ℕ → ℕ → Session → Type 0
IsGone i u s = bank_account_for_user i u s.working ≡ none

none_active :
    (i u : ℕ) (xs : List BankAccount)
    → find
        (λ a. a.id == i && a.user_id == u && a.is_active)
        (update_where (λ a. a.id == i) closed xs)
      ≡ none
none_active i u [] = refl
none_active i u (a ∷ xs) = ground (arith, none_active i u xs)

module _ (i u : ℕ) (s : Session) where
  deactivate-Post : Post (λ _ t. IsGone i u t) (deactivate i s)
  unfolding deactivate write_accounts ◌>>=◌
  deactivate-Post = elim (commit_splits ended) [
    | inr (e, failed) ↦ rw failed tt
    | inl (good, done) ↦ rw done (none_active i u s.working.bank_accounts)
  ]
    where
      ended : Session
      ended = record s { working = write_accounts (update_where (λ a. a.id == i) closed) s.working }

  remove_bank_account-Post : Post (λ _ t. IsGone i u t) (remove_bank_account i u s)
  unfolding remove_bank_account ◌>>=◌
  remove_bank_account-Post = elim (Option-cases (bank_account_for_user i u s.working)) [
    | inl missing ↦ rw missing tt
    | inr (x, found) ↦ elim (Bool-cases (has_pending_withdrawal x.id s.working)) [
      | inl pending ↦ rw (found, pending) tt
      | inr free ↦ rw (found, free, named x found) deactivate-Post
    ]
  ]
    where
      named : (x : BankAccount) → bank_account_for_user i u s.working ≡ some x → x.id ≡ i
      named x found = ground (
        arith,
        find_holds (λ a. a.id == i && a.user_id == u && a.is_active) s.working.bank_accounts found,
      )

resolve_bank_account-Refuses : (i u : ℕ) → Refuses (IsGone i u) (resolve_bank_account u (some i))
unfolding resolve_bank_account ◌>>=◌
resolve_bank_account-Refuses i u = record { at = λ s gone. (bank_account_not_found, rw gone refl) }

request_withdrawal-Refuses :
    (settings : Settings) (provider : Provider) (i u : ℕ) (amount : Decimal)
    → Refuses (IsGone i u) (request_withdrawal settings provider u amount (some i))
unfolding request_withdrawal
request_withdrawal-Refuses settings provider i u amount = search (refuses_rules, first) depth 12
  where
    first :
        {B : Type 0} (f : BankAccount → Action B)
        → Refuses (IsGone i u) (resolve_bank_account u (some i) >>= f)
    first f = Refuses-first _ _ (resolve_bank_account-Refuses i u)

-- After a bank account was removed, a withdrawal to it from the session that this leaves is
-- refused, whatever the amount and the settings, and changes nothing.
pub removed_account_refuses :
    (settings : Settings) (provider : Provider) (i u : ℕ) (amount : Decimal) (s s' : Session)
    → remove_bank_account i u s ≡ (ok tt, s')
    → (e : Error) × (request_withdrawal settings provider u amount (some i) s' ≡ (err e, s'))
removed_account_refuses settings provider i u amount s s' h =
    (request_withdrawal-Refuses settings provider i u amount).at s'
      (subst (Post (λ _ t. IsGone i u t)) h (remove_bank_account-Post i u s))
