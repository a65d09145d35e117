-- ===== src/BankAccounts/Default.antt =====
-- The default account of app/service/bank_account_service.py.
use mathlib.Core.Path.{subst}
use adehun_api.Prelude.{
  ℕ, ◌+◌, ◌≡◌, refl, ◌∙◌, Bool, true, false, not, ◌&&◌, ◌||◌, List, [], ◌∷◌, Option, some, none,
  find, any, is_some, ◌==◌, ==_refl, arith, inl, inr, Bool-cases, Option-cases, find_holds,
  find-update_if, any-find,
}
use adehun_api.Models.{Db, BankAccount}
use adehun_api.Session.{Session, Result, ok, err, pure, ◌>>=◌, constraints, no_clash, both_default}
use adehun_api.Session.Commits.{commit_splits}
use adehun_api.Session.Ensures.{Post, Post-bind}
use adehun_api.Session.Refuses.{Reads, refuses_rules}
use adehun_api.WalletService.{bank_account_for_user, default_bank_account}
use adehun_api.BankAccounts.{
  Banks, returned, require_bank, write_accounts, set_flag, clear_other, set_default, add_account,
  save_account, add_bank_account, find_active_duplicate, set_default_bank_account,
}

abbrev owned : ℕ → ℕ → BankAccount → Bool
owned i u a = a.id == i && a.user_id == u && a.is_active

abbrev defaulted : ℕ → BankAccount → Bool
defaulted u a = a.user_id == u && a.is_default && a.is_active

-- Where the index holds, a default account of the user is the one that is looked up.
default_found :
    (i u : ℕ) (xs : List BankAccount) {x : BankAccount}
    → no_clash both_default xs ≡ true
    → find (owned i u) xs ≡ some x
    → x.is_default ≡ true
    → find (defaulted u) xs ≡ some x
unfolding no_clash
default_found i u [] good found holds = cc
default_found i u (y ∷ ys) {x} good found holds = elim (Bool-cases (owned i u y)) [
  | inl here ↦ ground arith
  | inr there ↦ elim (Bool-cases (defaulted u y)) [
    | inr other ↦ rw other (default_found i u ys (ground arith) (ground arith) holds)
    | inl clash ↦ absurd (
        clashes (any-find (owned i u) (both_default y) ys (later there) (both clash (later there))))
  ]
]
  where
    clashes : any (both_default y) ys ≡ true → ⊥
    clashes h = ground arith

    later : owned i u y ≡ false → find (owned i u) ys ≡ some x
    later there = ground arith

    both : defaulted u y ≡ true → find (owned i u) ys ≡ some x → both_default y x ≡ true
    both own later = ground (arith, find_holds (owned i u) ys later)

-- The account `i` is the one that the user withdraws to by default.
abbrev pub IsDefault : ℕ → ℕ → Session → Type 0
IsDefault u i s = (y : BankAccount) × (default_bank_account u s.committed ≡ some y) × (y.id ≡ i)

constraints_default :
    (db : Db) → constraints db ≡ true → no_clash both_default db.bank_accounts ≡ true
unfolding constraints
constraints_default db good = ground arith

module _ (i u : ℕ) where
  cleared_found :
      (o : Option BankAccount) (xs : List BankAccount) {x : BankAccount}
      → find (owned i u) xs ≡ some x
      → (y : BankAccount) × (find (owned i u) (clear_other i o xs) ≡ some y)
  cleared_found none xs found = (_, found)
  cleared_found (some c) xs found = elim (Bool-cases (c.id == i)) [
    | inl same ↦ rw same (_, found)
    | inr other ↦ rw other (
      _,
      find-update_if (owned i u) (λ a. a.id == c.id) (λ a. record a { is_default = false }) xs
          (λ a. refl) found,
    )
  ]

  flagged_found :
      (xs : List BankAccount) {x : BankAccount}
      → find (owned i u) xs ≡ some x
      → find (owned i u) (set_flag i true xs) ≡ some (record x { is_default = true })
  flagged_found xs {x} found =
      find-update_if (owned i u) (λ a. a.id == i) (λ a. record a { is_default = true }) xs
        (λ a. refl) found
      ∙ rw own refl
    where
      own : (x.id == i) ≡ true
      own = ground (arith, find_holds (owned i u) xs found)

  set_default-Post :
      (s : Session) {x : BankAccount}
      → bank_account_for_user i u s.working ≡ some x
      → Post (λ _ t. IsDefault u i t) (set_default u i s)
  unfolding set_default write_accounts ◌>>=◌
  set_default-Post s found = elim (commit_splits ended) [
    | inr (e, failed) ↦ rw failed tt
    | inl ((fits, good), done) ↦
        let (y, there) = cleared_found current s.working.bank_accounts found in
        let marked = flagged_found (clear_other i current s.working.bank_accounts) there in
        rw done (
          record y { is_default = true },
          default_found i u _ (constraints_default ended.working good) marked refl,
          own _ marked,
        )
  ]
    where
      current : Option BankAccount
      current = default_bank_account u s.working

      ended : Session
      ended = record s {
        working =
            write_accounts (set_flag i true) (write_accounts (clear_other i current) s.working);
      }

      own : (xs : List BankAccount) {y : BankAccount} → find (owned i u) xs ≡ some y → y.id ≡ i
      own xs marked = ground (arith, find_holds (owned i u) xs marked)

set_default_bank_account-Post :
    (i u : ℕ) (s : Session) → Post (λ _ t. IsDefault u i t) (set_default_bank_account i u s)
unfolding set_default_bank_account ◌>>=◌
set_default_bank_account-Post i u s = elim (Option-cases (bank_account_for_user i u s.working)) [
  | inl missing ↦ rw missing tt
  | inr (x, found) ↦ rw (found, named x found, of x found) (set_default-Post i u s found)
]
  where
    named : (x : BankAccount) → bank_account_for_user i u s.working ≡ some x → x.id ≡ i
    named x found = ground (arith, find_holds (owned i u) s.working.bank_accounts found)

    of : (x : BankAccount) → bank_account_for_user i u s.working ≡ some x → x.user_id ≡ u
    of x found = ground (arith, find_holds (owned i u) s.working.bank_accounts found)

-- When making a bank account the default returns, the committed default account of the user is
-- that one, whichever was the default before.
pub set_default_bank_account-IsDefault :
    (i u : ℕ) (s s' : Session) → set_default_bank_account i u s ≡ (ok tt, s') → IsDefault u i s'
set_default_bank_account-IsDefault i u s s' h =
    subst (Post (λ _ t. IsDefault u i t)) h (set_default_bank_account-Post i u s)

returned-Reads : {A : Type 0} (r : Result A) → Reads (returned r)
unfolding returned
returned-Reads (ok a) = search refuses_rules
returned-Reads (err e) = search refuses_rules

require_bank-Reads : (banks : Banks) (code : ℕ) → Reads (require_bank banks code)
unfolding require_bank
require_bank-Reads banks code = search (refuses_rules, returned-Reads)

module _ (banks : Banks) (u bank number : ℕ) (make_default : Bool) (s : Session) where
  -- The user asks for a default account, or has none.
  abbrev pub IsFirst : Type 0
  IsFirst = (make_default || not (is_some (default_bank_account u s.working))) ≡ true

  added :
      IsFirst → Post (λ j t. IsDefault u j t) (add_bank_account banks u bank number make_default s)
  unfolding add_bank_account save_account ◌>>=◌
  added first = elim (Bool-cases (is_some (find_active_duplicate u bank number s.working))) [
    | inl known ↦ rw known tt
    | inr new ↦ elim ((require_bank-Reads banks bank).at s) [
      | inr (e, failed) ↦ rw (new, failed) tt
      | inl (_, listed) ↦ elim ((returned-Reads (banks.resolve_account_number number bank)).at s) [
        | inr (e, failed) ↦ rw (new, listed, failed) tt
        | inl (_, resolved) ↦
            elim ((returned-Reads (banks.create_transfer_recipient number bank)).at s) [
              | inr (e, failed) ↦ rw (new, listed, resolved, failed) tt
              | inl (recipient, made) ↦ rw (new, listed, resolved, made, first) (saves recipient)
            ]
      ]
    ]
  ]
    where
      row : ℕ → BankAccount
      row recipient = record {
        id = s.next_id;
        user_id = u;
        bank_code = bank;
        account_number = number;
        recipient_code = recipient;
        is_default = false;
        is_active = true;
      }

      entered : ℕ → Session
      entered recipient = record s {
        next_id = s.next_id + 1;
        working = write_accounts (add_account (row recipient)) s.working;
      }

      there :
          (recipient : ℕ)
          → bank_account_for_user s.next_id u (entered recipient).working ≡ some (row recipient)
      there recipient = unfold write_accounts in rw (==_refl s.next_id, ==_refl u) refl

      saves :
          (recipient : ℕ)
          → Post
              (λ j t. IsDefault u j t)
              ((set_default u s.next_id >>= λ _. pure s.next_id) (entered recipient))
      saves recipient =
          Post-bind (λ _ t. IsDefault u s.next_id t) (λ j t. IsDefault u j t)
            (set_default u s.next_id) (λ _. pure s.next_id) (entered recipient)
            (set_default-Post s.next_id u (entered recipient) (there recipient))
            (λ _ t holds. holds)

-- When adding a bank account returns for a user who asks for a default account or has none, the
-- committed default account of the user is the new one.
pub add_bank_account-IsDefault :
    (banks : Banks) (u bank number : ℕ) (make_default : Bool) (s s' : Session) (j : ℕ)
    → IsFirst banks u bank number make_default s
    → add_bank_account banks u bank number make_default s ≡ (ok j, s')
    → IsDefault u j s'
add_bank_account-IsDefault banks u bank number make_default s s' j first h =
    subst (Post (λ k t. IsDefault u k t)) h (added banks u bank number make_default s first)
