-- ===== src/Requests/AtMostOnce.antt =====
-- How often an agreement is funded, released and refunded, over sequences of requests.
use adehun_api.Prelude.{
  ℕ, ◌≤◌, ◌≡◌, ap, ◌∙◌, sym, Bool, true, false, ◌&&◌, Option, List, [], ◌∷◌, length, select_all,
  arith,
}
use adehun_api.Enums.{LedgerEntryType}
use adehun_api.Reference.{
  Reference, esc_lock, esc_ref, esc_rel_out, esc_rel_in, same_reference, IsFiled,
}
use adehun_api.Models.{Transaction}
use adehun_api.Session.{Session}
use adehun_api.WalletRepository.Invariant.{IsSound}
use adehun_api.WalletService.{Settings, Provider}
use adehun_api.Escrow.{of_agreement}
use adehun_api.BankAccounts.{Banks}
use adehun_api.Requests.Soundness.{occurrences, distinct-occurrences, serve_all-IsSound}
use adehun_api.Requests.Tidy.{AreFiled, IsTidy, serve_all-IsTidy}
use adehun_api.Requests.{Request, serve_all}

-- The movements of an agreement's escrow, each a type of row.
pub data Movement : Type 0 where
  funding payout receipt refund : Movement

abbrev pub is_movement : Movement → LedgerEntryType → Bool
is_movement Movement.funding LedgerEntryType.escrow_lock = true
is_movement Movement.payout LedgerEntryType.escrow_release_out = true
is_movement Movement.receipt LedgerEntryType.escrow_release_in = true
is_movement Movement.refund LedgerEntryType.escrow_refund = true
is_movement _ _ = false

-- The rows of an agreement for a movement of its escrow.
abbrev pub movements : Movement → ℕ → List Transaction → List Transaction
movements m a es = select_all (λ e. is_movement m e.type && of_agreement a e.agreement_id) es

abbrev reference_of : Movement → ℕ → Reference
reference_of Movement.funding a = esc_lock a
reference_of Movement.payout a = esc_rel_out a
reference_of Movement.receipt a = esc_rel_in a
reference_of Movement.refund a = esc_ref a

referenced :
    (m : Movement) (a : ℕ) (t : LedgerEntryType) (o : Option ℕ) (r : Reference)
    → IsFiled t o r
    → (is_movement m t && of_agreement a o) ≡ true
    → same_reference r (reference_of m a) ≡ true
referenced Movement.funding a LedgerEntryType.escrow_lock o r (b, held, named) h =
    rw named (ap (of_agreement a) (sym held) ∙ h)
referenced Movement.payout a LedgerEntryType.escrow_release_out o r (b, held, named) h =
    rw named (ap (of_agreement a) (sym held) ∙ h)
referenced Movement.receipt a LedgerEntryType.escrow_release_in o r (b, held, named) h =
    rw named (ap (of_agreement a) (sym held) ∙ h)
referenced Movement.refund a LedgerEntryType.escrow_refund o r (b, held, named) h =
    rw named (ap (of_agreement a) (sym held) ∙ h)
referenced _ _ _ _ _ f h = ground arith

-- There are no more rows for a movement than there are with its reference.
length-movements :
    (m : Movement) (a : ℕ) (es : List Transaction)
    → AreFiled es
    → length (movements m a es) ≤ occurrences (reference_of m a) es
unfolding occurrences
length-movements m a [] filed = omega arith
length-movements m a (e ∷ es) (filed, rest) =
    ground
      (arith, length-movements m a es rest, referenced m a e.type e.agreement_id e.reference filed)

module _ (settings : Settings) (provider : Provider) (banks : Banks) (owner : ℕ → Option ℕ) where
  -- After any sequence of requests, no agreement was funded, released or refunded twice: from a
  -- sound session whose escrow rows have the references of their agreements, if what other
  -- transactions commit at the waits for a lock keeps both, the committed ledger has for each
  -- agreement at most one row that funds it, one that pays it out, one that receives the payout
  -- and one that refunds it.
  pub serve_all_at_most_once :
      (rs : List Request) (s : Session) (m : Movement) (a : ℕ)
      → IsSound s
      → IsTidy s
      → length (movements m a (serve_all settings provider banks owner rs s).committed.entries) ≤ 1
  serve_all_at_most_once rs s m a sound tidy =
      let most =
        length-movements m a _
          (serve_all-IsTidy settings provider banks owner rs s tidy).committed in
      let once =
        distinct-occurrences (reference_of m a) _
          (serve_all-IsSound settings provider banks owner rs s sound).distinct in
      omega arith
