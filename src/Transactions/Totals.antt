-- ===== src/Transactions/Totals.antt =====
-- The listing of app/service/transaction_service.py against its totals.
use mathlib.Core.Path.{subst}
use adehun_api.Prelude.{
  ℕ, ◌+◌, ◌*◌, ◌≤◌, ◌≡◌, refl, ap, sym, ◌∙◌, Bool, List, [], ◌∷◌, length, page, collected,
  collected-all, select_all, ◌==◌, Bool-cases, inl, inr, arith,
}
use adehun_api.Models.{Transaction}
use adehun_api.Session.{Session, ok, ◌>>=◌}
use adehun_api.Transactions.{
  Filters, no_filters, filtered, rows_for_user, count_for_user, credits, debits, summary_for_user,
  TransactionList, get_user_transactions,
}

counts_split : (es : List Transaction) → length (credits es) + length (debits es) ≡ length es
counts_split [] = refl
counts_split (e ∷ es) = ground (arith, counts_split es)

-- The rows that belong to a user.
abbrev pub own : ℕ → List Transaction → List Transaction
own u es = select_all (λ e. e.user_id == u) es

filtered-own :
    (u : ℕ) (f : Filters) (es : List Transaction)
    → select_all (filtered u f) es ≡ select_all (filtered u f) (own u es)
unfolding filtered
filtered-own u f [] = refl
filtered-own u f (e ∷ es) = elim (Bool-cases (e.user_id == u)) [
  | inl mine ↦ rw (mine, mine) (ground (arith, filtered-own u f es))
  | inr other ↦ rw other (filtered-own u f es)
]

no_filters-own : (u : ℕ) (es : List Transaction) → select_all (filtered u no_filters) es ≡ own u es
unfolding filtered
no_filters-own u [] = refl
no_filters-own u (e ∷ es) = elim (Bool-cases (e.user_id == u)) [
  | inl mine ↦ rw (mine, no_filters-own u es)
  | inr other ↦ rw (other, no_filters-own u es)
]

length-select_all : {A : Type 0} (p : A → Bool) (es : List A) → length (select_all p es) ≤ length es
length-select_all p [] = ground arith
length-select_all p (e ∷ es) = ground (arith, length-select_all p es)

at_most : {a b c : ℕ} → a ≤ b → b ≤ c → a ≤ c
at_most h k = omega arith

-- The pages of a listing are one after the other the given rows; each read changes nothing, names
-- their number, and counts each of them as a credit or as a debit.
pub record IsPaged (u limit n : ℕ) (f : Filters) (s : Session) (rows : List Transaction)
    : Type 0 where
  pub pages : ℕ → TransactionList
  pub runs : (i : ℕ) → get_user_transactions u (i * limit) limit f s ≡ (ok (pages i), s)
  pub joined : collected (λ i. (pages i).transactions) n ≡ rows
  pub numbered : (i : ℕ) → (pages i).total ≡ length rows
  pub counted :
      (i : ℕ) → (pages i).summary.credit_count + (pages i).summary.debit_count ≡ length rows

filtered-IsPaged :
    (u limit n : ℕ) (f : Filters) (s : Session) (rows : List Transaction)
    → select_all (filtered u f) s.working.entries ≡ rows
    → length rows ≤ n * limit
    → IsPaged u limit n f s rows
unfolding get_user_transactions summary_for_user ◌>>=◌
filtered-IsPaged u limit n f s rows same h = record {
  pages = λ i. record {
    transactions = page (i * limit) limit (rows_for_user u f s.working);
    total = count_for_user u f s.working;
    skip = i * limit;
    limit = limit;
    summary = summary_for_user u f s.working;
  };
  runs = λ i. refl;
  joined =
      collected-all limit n (rows_for_user u f s.working)
        (subst (λ r. length r ≤ n * limit) (sym same) h)
      ∙ same;
  numbered = λ i. ap length same;
  counted = λ i. counts_split (rows_for_user u f s.working) ∙ ap length same;
}

-- A user's ledger listing shows the user's own rows and no others: with as many pages as the own
-- rows need, without filters the pages are, one after the other, the rows of the ledger that
-- belong to the user, and with any filters those of these rows that pass them. Each read changes
-- nothing, its total is the number of the rows listed, and so is the sum of its counts of credits
-- and debits.
pub get_user_transactions_lem :
    (u limit n : ℕ) (f : Filters) (s : Session)
    → length (own u s.working.entries) ≤ n * limit
    → IsPaged u limit n no_filters s (own u s.working.entries)
      × IsPaged u limit n f s (select_all (filtered u f) (own u s.working.entries))
get_user_transactions_lem u limit n f s h = (
  filtered-IsPaged u limit n no_filters s _ (no_filters-own u s.working.entries) h,
  filtered-IsPaged u limit n f s _ (filtered-own u f s.working.entries)
      (at_most (length-select_all (filtered u f) (own u s.working.entries)) h),
)
