-- ===== src/Session.antt =====
-- A request's database session (app/database.py hands one `Session` to every repository of a
-- request): what is committed, what the open transaction sees, and a supply of fresh ids for
-- `uuid4`. A method that may raise is an action on the session; what a method wrote before it
-- raised stays in the open transaction until a rollback.
pub mod Keeps
pub mod Refuses
pub mod Leads
pub mod Ensures
pub mod Commits
use adehun_api.Prelude.{
  ℕ, suc, ◌+◌, ◌^◌, Bool, true, false, not, ◌&&◌, ◌||◌, List, [], ◌∷◌, Option, none, some, any, all,
  if◌then◌else◌, is_some, ◌==◌, pos, ltb_ℤ, ◌≡◌, ◌⊎◌, inl, inr, Bool-cases, arith,
}
use adehun_api.Enums.{is_open}
use adehun_api.Reference.{same_reference}
use adehun_api.Models.{Db, Wallet, Transaction, Dispute, BankAccount, User, Asset}
use adehun_api.Redis.{Cache}
use adehun_api.Errors.{Error, integrity_error, data_error}

-- `concurrent` is what other transactions commit while this one waits for a row lock; `redis` is what
-- the cache holds, if there is one.
pub record Session : Type 0 where
  pub committed : Db
  pub working : Db
  pub next_id : ℕ
  pub concurrent : Db → Db
  pub redis : Option Cache

pub data Result (A : Type 0) : Type 0 where
  ok : A → Result A
  err : Error → Result A

abbrev pub Action : Type 0 → Type 0
Action A = Session → Result A × Session

module _ {A : Type 0} where
  pub pure : A → Action A
  pure a s = (ok a, s)

  pub raise : Error → Action A
  raise e s = (err e, s)

  pub query : (Db → A) → Action A
  query f s = (ok (f s.working), s)

  pub or_raise : Error → Option A → Action A
  or_raise e none s = (err e, s)
  or_raise e (some a) s = (ok a, s)

pub raise_if : Bool → Error → Action (Unit {0})
raise_if true e s = (err e, s)
raise_if false e s = (ok tt, s)

-- A write in the open transaction: `session.add`, `session.flush`.
pub modify : (Db → Db) → Action (Unit {0})
modify f s = (ok tt, record s { working = f s.working })

-- `str(uuid4())`: an id that was not given out before.
pub uuid4 : Action ℕ
uuid4 s = (ok s.next_id, record s { next_id = s.next_id + 1 })

abbrev pub continue : {A B : Type 0} → Result A → (A → Action B) → Action B
continue (ok a) f s = f a s
continue (err e) f s = (err e, s)

abbrev pub handle : {A : Type 0} → Result A → (Error → Action A) → Action A
handle (ok a) h s = (ok a, s)
handle (err e) h s = h e s

-- `try: m except: h`
pub try_except : {A : Type 0} → Action A → (Error → Action A) → Action A
try_except m h s = let (r, s') = m s in handle r h s'

-- Opening this opens the actions above too.
infixl 5 ◌>>=◌ ◌>>◌
unfoldable pub ◌>>=◌ : {A B : Type 0} → Action A → (A → Action B) → Action B
unfolding pure raise query or_raise raise_if modify uuid4 try_except
◌>>=◌ m f s = let (r, s') = m s in continue r f s'

abbrev pub ◌>>◌ : {A B : Type 0} → Action A → Action B → Action B
m >> k = m >>= λ _. k

-- The UNIQUE index `ux_transaction_reference`.
unfoldable pub distinct_references : List Transaction → Bool
distinct_references [] = true
distinct_references (e ∷ es) =
    not (any (λ x. same_reference e.reference x.reference) es) && distinct_references es

-- The partial UNIQUE index `ux_dispute_one_active_per_agreement`.
unfoldable pub one_active_dispute : List Dispute → Bool
one_active_dispute [] = true
one_active_dispute (d ∷ ds) =
    not (is_open d.status && any (λ x. is_open x.status && x.agreement_id == d.agreement_id) ds)
    && one_active_dispute ds

-- `ck_wallet_available_non_negative`, `ck_wallet_escrow_non_negative`
abbrev pub wallet_checks : Wallet → Bool
wallet_checks w = not (ltb_ℤ w.available_balance (pos 0)) && not (ltb_ℤ w.escrow_balance (pos 0))

-- NUMERIC(12, 2): a balance below 10^10 naira.
abbrev pub fits_numeric : Wallet → Bool
fits_numeric w = ltb_ℤ w.available_balance (pos (10 ^ 12)) && ltb_ℤ w.escrow_balance (pos (10 ^ 12))

-- A UNIQUE index: no two rows clash.
unfoldable pub no_clash {ℓ} : {A : Type ℓ} → (A → A → Bool) → List A → Bool
no_clash clash [] = true
no_clash clash (x ∷ xs) = not (any (clash x) xs) && no_clash clash xs

-- `ix_bank_account_recipient_code`
abbrev pub same_recipient : BankAccount → BankAccount → Bool
same_recipient a b = a.recipient_code == b.recipient_code

-- `ux_bank_account_user_bank_acct`
abbrev pub same_account : BankAccount → BankAccount → Bool
same_account a b =
    a.is_active
    && b.is_active
    && a.user_id == b.user_id
    && a.bank_code == b.bank_code
    && a.account_number == b.account_number

-- `ux_bank_account_one_default`
abbrev pub both_default : BankAccount → BankAccount → Bool
both_default a b =
    (a.is_default && a.is_active) && (b.is_default && b.is_active) && a.user_id == b.user_id

-- The primary key and the UNIQUE index on the e-mail address.
abbrev pub same_user : User → User → Bool
same_user a b = a.id == b.id || a.email == b.email

abbrev pub same_asset : Asset → Asset → Bool
same_asset a b = a.id == b.id

-- `ck_asset_single_parent`
abbrev pub single_parent : Asset → Bool
single_parent a =
    (is_some a.condition_id && not (is_some a.dispute_id))
    || (not (is_some a.condition_id) && is_some a.dispute_id)

unfoldable pub constraints : Db → Bool
unfolding distinct_references one_active_dispute no_clash
constraints db =
    distinct_references db.entries
    && all wallet_checks db.wallets
    && one_active_dispute db.disputes
    && no_clash same_recipient db.bank_accounts
    && no_clash same_account db.bank_accounts
    && no_clash both_default db.bank_accounts
    && no_clash same_user db.users
    && no_clash same_asset db.assets
    && all single_parent db.assets

-- The rows are checked when they are flushed, at the latest here.
unfoldable pub commit : Action (Unit {0})
commit s =
    if all fits_numeric s.working.wallets
    then (if constraints s.working
        then (ok tt, record s { committed = s.working })
        else (err integrity_error, s))
    else (err data_error, s)

-- A commit takes over what the open transaction sees, or raises and changes nothing.
pub commit_cases :
    (s : Session)
    → ((commit s ≡ (ok tt, record s { committed = s.working })) × (constraints s.working ≡ true))
      ⊎ ((e : Error) × (commit s ≡ (err e, s)))
unfolding commit
commit_cases s = elim (Bool-cases (all fits_numeric s.working.wallets)) [
  | inr big ↦ inr (data_error, rw big)
  | inl fits ↦ elim (Bool-cases (constraints s.working)) [
    | inl good ↦ inl (rw (fits, good), good)
    | inr bad ↦ inr (integrity_error, rw (fits, bad))
  ]
]

-- What was committed can be committed again.
pub commit_again :
    (s : Session)
    → commit s ≡ (ok tt, record s { committed = s.working })
    → commit (record s { committed = s.working }) ≡ (ok tt, record s { committed = s.working })
unfolding commit
commit_again s h = elim (Bool-cases (all fits_numeric s.working.wallets)) [
  | inr big ↦ ground arith
  | inl fits ↦ elim (Bool-cases (constraints s.working)) [
    | inl good ↦ rw (fits, good)
    | inr bad ↦ ground arith
  ]
]

unfoldable pub rollback : Action (Unit {0})
rollback s = (ok tt, record s { working = s.committed })

-- Waiting for a row lock: what others commit meanwhile is seen from here on.
unfoldable pub wait_for_lock : Action (Unit {0})
wait_for_lock s =
    (ok tt, record s { committed = s.concurrent s.committed; working = s.concurrent s.working })

-- A read of the cache; nothing is found where there is none.
abbrev pub asked : {A : Type 0} → (Cache → Option A) → Option Cache → Option A
asked f none = none
asked f (some cache) = f cache

unfoldable pub ask_redis : {A : Type 0} → (Cache → Option A) → Action (Option A)
ask_redis f s = (ok (asked f s.redis), s)

abbrev pub told : (Cache → Cache) → Option Cache → Option Cache
told f none = none
told f (some cache) = some (f cache)

unfoldable pub tell_redis : (Cache → Cache) → Action (Unit {0})
tell_redis f s = (ok tt, record s { redis = told f s.redis })

-- A session at the start of a request.
abbrev pub fresh : Db → ℕ → Session
fresh db n = record { committed = db; working = db; next_id = n; concurrent = λ d. d; redis = none }
