-- ===== src/WalletRepository/Sums.antt =====
-- The balances of the wallets beside the sums of the ledger's deltas, and what the writes of
-- app/repository/wallet_repository.py do to both.
use adehun_api.Prelude.{
  ℕ, ◌≤◌, ◌<◌, ◌≡◌, refl, Bool, false, List, [], ◌∷◌, none, some, find, arith, update_where,
  if◌then◌else◌, ◌==◌, Bool-cases, inl, inr, ℤ, pos, ◌+ℤ◌,
}
use adehun_api.Models.{Wallet, Transaction}

-- The available balance of a wallet by its id, and zero where there is no such wallet.
abbrev pub available_of : ℕ → List Wallet → ℤ
available_of i [] = pos 0
available_of i (w ∷ ws) = if w.id == i then w.available_balance else available_of i ws

abbrev pub escrow_of : ℕ → List Wallet → ℤ
escrow_of i [] = pos 0
escrow_of i (w ∷ ws) = if w.id == i then w.escrow_balance else escrow_of i ws

-- SUM(available_delta) and SUM(escrow_delta) over the rows of a wallet.
abbrev pub sum_available : ℕ → List Transaction → ℤ
sum_available i [] = pos 0
sum_available i (e ∷ es) =
    if e.wallet_id == i then e.available_delta +ℤ sum_available i es else sum_available i es

abbrev pub sum_escrow : ℕ → List Transaction → ℤ
sum_escrow i [] = pos 0
sum_escrow i (e ∷ es) =
    if e.wallet_id == i then e.escrow_delta +ℤ sum_escrow i es else sum_escrow i es

-- Every wallet id is below `n`.
abbrev pub AllBelow : ℕ → List Wallet → Type 0
AllBelow n [] = Unit
AllBelow n (w ∷ ws) = (w.id < n) × AllBelow n ws

-- No wallet id occurs twice.
abbrev pub UniqueIds : List Wallet → Type 0
UniqueIds [] = Unit
UniqueIds (w ∷ ws) = (find (λ x. x.id == w.id) ws ≡ none) × UniqueIds ws

module _ (i : ℕ) where
  pub available_of-find :
      (ws : List Wallet) {w : Wallet}
      → find (λ x. x.id == i) ws ≡ some w
      → available_of i ws ≡ w.available_balance
  available_of-find [] h = cc
  available_of-find (x ∷ ws) {w} h = ground (arith, available_of-find ws {w = w})

  pub escrow_of-find :
      (ws : List Wallet) {w : Wallet}
      → find (λ x. x.id == i) ws ≡ some w
      → escrow_of i ws ≡ w.escrow_balance
  escrow_of-find [] h = cc
  escrow_of-find (x ∷ ws) {w} h = ground (arith, escrow_of-find ws {w = w})

  pub find_id : (ws : List Wallet) {w : Wallet} → find (λ x. x.id == i) ws ≡ some w → w.id ≡ i
  find_id [] h = cc
  find_id (x ∷ ws) {w} h = ground (arith, find_id ws {w = w})

  pub find_below :
      (n : ℕ) (ws : List Wallet) → AllBelow n ws → n ≤ i → find (λ x. x.id == i) ws ≡ none
  find_below n [] h p = refl
  find_below n (x ∷ ws) h p = ground (arith, find_below n ws h.1)

-- Where ids are unique, a wallet that is found by any test is the one with its id.
pub find_by_id_of_find :
    (p : Wallet → Bool) (ws : List Wallet) {w : Wallet}
    → UniqueIds ws
    → find p ws ≡ some w
    → find (λ x. x.id == w.id) ws ≡ some w
find_by_id_of_find p [] u h = cc
find_by_id_of_find p (x ∷ ws) {w} u h = elim (Bool-cases (p x)) [
  | inl now ↦ ground arith
  | inr later ↦
      let found : find p ws ≡ some w = ground arith in
      let rest : find (λ x. x.id == w.id) ws ≡ some w = find_by_id_of_find p ws u.1 found in
      ground arith
]

abbrev pub set_balances : ℤ → ℤ → Wallet → Wallet
set_balances a b w = record w { available_balance = a; escrow_balance = b }

module _ (i : ℕ) (a b : ℤ) where
  pub available_of-update_ne :
      (j : ℕ) (ws : List Wallet)
      → (i == j) ≡ false
      → available_of j (update_where (λ x. x.id == i) (set_balances a b) ws) ≡ available_of j ws
  available_of-update_ne j [] h = refl
  available_of-update_ne j (x ∷ ws) h = ground (arith, available_of-update_ne j ws h)

  pub available_of-update_self :
      (ws : List Wallet) {w : Wallet}
      → find (λ x. x.id == i) ws ≡ some w
      → available_of i (update_where (λ x. x.id == i) (set_balances a b) ws) ≡ a
  available_of-update_self [] h = cc
  available_of-update_self (x ∷ ws) {w} h = ground (arith, available_of-update_self ws {w = w})

  pub escrow_of-update_ne :
      (j : ℕ) (ws : List Wallet)
      → (i == j) ≡ false
      → escrow_of j (update_where (λ x. x.id == i) (set_balances a b) ws) ≡ escrow_of j ws
  escrow_of-update_ne j [] h = refl
  escrow_of-update_ne j (x ∷ ws) h = ground (arith, escrow_of-update_ne j ws h)

  pub escrow_of-update_self :
      (ws : List Wallet) {w : Wallet}
      → find (λ x. x.id == i) ws ≡ some w
      → escrow_of i (update_where (λ x. x.id == i) (set_balances a b) ws) ≡ b
  escrow_of-update_self [] h = cc
  escrow_of-update_self (x ∷ ws) {w} h = ground (arith, escrow_of-update_self ws {w = w})

  pub AllBelow-update :
      (n : ℕ) (ws : List Wallet)
      → AllBelow n ws
      → AllBelow n (update_where (λ x. x.id == i) (set_balances a b) ws)
  AllBelow-update n [] h = tt
  AllBelow-update n (x ∷ ws) h = ground (arith, AllBelow-update n ws h.1)

  pub find-update_none :
      (j : ℕ) (ws : List Wallet)
      → find (λ x. x.id == j) ws ≡ none
      → find (λ x. x.id == j) (update_where (λ x. x.id == i) (set_balances a b) ws) ≡ none
  find-update_none j [] h = refl
  find-update_none j (x ∷ ws) h = ground (arith, find-update_none j ws)

  pub UniqueIds-update :
      (ws : List Wallet)
      → UniqueIds ws
      → UniqueIds (update_where (λ x. x.id == i) (set_balances a b) ws)
  UniqueIds-update [] h = tt
  UniqueIds-update (x ∷ ws) h =
      ground (arith, UniqueIds-update ws h.1, find-update_none x.id ws h.0)

pub AllBelow-mono : (n m : ℕ) (ws : List Wallet) → n ≤ m → AllBelow n ws → AllBelow m ws
AllBelow-mono n m [] p h = tt
AllBelow-mono n m (x ∷ ws) p h = (omega arith, AllBelow-mono n m ws p h.1)

-- A wallet that is not there counts as zero.
pub available_of_missing :
    (j : ℕ) (ws : List Wallet) → find (λ x. x.id == j) ws ≡ none → available_of j ws ≡ pos 0
available_of_missing j [] e = refl
available_of_missing j (w ∷ ws) e = ground (arith, available_of_missing j ws)

pub escrow_of_missing :
    (j : ℕ) (ws : List Wallet) → find (λ x. x.id == j) ws ≡ none → escrow_of j ws ≡ pos 0
escrow_of_missing j [] e = refl
escrow_of_missing j (w ∷ ws) e = ground (arith, escrow_of_missing j ws)

-- The balances after an update of a wallet that is there.
module _ (i : ℕ) (a b : ℤ) (j : ℕ) (ws : List Wallet) {w : Wallet} where
  pub available_of-update :
      find (λ x. x.id == i) ws ≡ some w
      → available_of j (update_where (λ x. x.id == i) (set_balances a b) ws)
        ≡ (if i == j then a else available_of j ws)
  available_of-update h = elim (Bool-cases (i == j)) [
    | inl same ↦ ground (arith, available_of-update_self i a b ws h)
    | inr other ↦ rw other (available_of-update_ne i a b j ws other)
  ]

  pub escrow_of-update :
      find (λ x. x.id == i) ws ≡ some w
      → escrow_of j (update_where (λ x. x.id == i) (set_balances a b) ws)
        ≡ (if i == j then b else escrow_of j ws)
  escrow_of-update h = elim (Bool-cases (i == j)) [
    | inl same ↦ ground (arith, escrow_of-update_self i a b ws h)
    | inr other ↦ rw other (escrow_of-update_ne i a b j ws other)
  ]
