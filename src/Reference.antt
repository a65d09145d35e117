-- ===== src/Reference.antt =====
-- The unique references of ledger rows (`transaction.reference`) and of transfers
-- (`transaction.group_id`). Each is an f-string of a fixed prefix and an id; the model keeps the
-- prefix as a constructor, so that two references are equal exactly where the texts are.
use adehun_api.Prelude.{ℕ, Option, some, ◌≡◌, ◌↔◌, Bool, true, false, arith, ◌==◌}
use adehun_api.Enums.{LedgerEntryType}

pub data Reference : Type 0 where
  -- esc_lock_{id}, esc_ref_{id}, esc_rel_{id}:out and esc_rel_{id}:in, by agreement id
  esc_lock esc_ref esc_rel_out esc_rel_in : ℕ → Reference
  -- wd_{ref}, wdrev_{ref} and dep_{ref}, by the reference of the Paystack transaction
  wd wdrev dep : ℕ → Reference

abbrev pub same_reference : Reference → Reference → Bool
same_reference (esc_lock a) (esc_lock b) = a == b
same_reference (esc_ref a) (esc_ref b) = a == b
same_reference (esc_rel_out a) (esc_rel_out b) = a == b
same_reference (esc_rel_in a) (esc_rel_in b) = a == b
same_reference (wd a) (wd b) = a == b
same_reference (wdrev a) (wdrev b) = a == b
same_reference (dep a) (dep b) = a == b
same_reference _ _ = false

pub eq_of_same : (r q : Reference) → same_reference r q ≡ true → r ≡ q
eq_of_same (esc_lock a) (esc_lock b) h = ground arith
eq_of_same _ _ h = ground arith

pub same_refl : (r : Reference) → same_reference r r ≡ true
same_refl (esc_lock a) = ground arith
same_refl _ = ground arith

pub same_iff : (r q : Reference) → (same_reference r q ≡ true) ↔ (r ≡ q)
same_iff r q = (eq_of_same r q, λ e. grind (arith, same_refl))

-- The references that no escrow payout uses.
abbrev pub IsPlain : Reference → Type 0
IsPlain (esc_ref a) = ⊥
IsPlain (esc_rel_out a) = ⊥
IsPlain (esc_rel_in a) = ⊥
IsPlain _ = Unit

-- An escrow row names its agreement, and its reference is that of its type and agreement.
abbrev pub IsFiled : LedgerEntryType → Option ℕ → Reference → Type 0
IsFiled LedgerEntryType.escrow_lock o r = (a : ℕ) × (o ≡ some a) × (r ≡ esc_lock a)
IsFiled LedgerEntryType.escrow_release_out o r = (a : ℕ) × (o ≡ some a) × (r ≡ esc_rel_out a)
IsFiled LedgerEntryType.escrow_release_in o r = (a : ℕ) × (o ≡ some a) × (r ≡ esc_rel_in a)
IsFiled LedgerEntryType.escrow_refund o r = (a : ℕ) × (o ≡ some a) × (r ≡ esc_ref a)
IsFiled _ o r = Unit {0}
