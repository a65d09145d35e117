-- ===== src/WalletRepository/Payouts.antt =====
-- `apply_entry` and `apply_transfer` of app/repository/wallet_repository.py from a state `Q` that the
-- caller has prepared: their `try` blocks keep `Q`, and their handlers, which roll the preparation
-- back, keep only `P`.
use adehun_api.Prelude.{ℕ, Option, none, some}
use adehun_api.Reference.{esc_rel_out, esc_rel_in}
use adehun_api.Models.{Transaction}
use adehun_api.Session.{Session, Action}
use adehun_api.Session.Keeps.{Keeps, Keeps-query}
use adehun_api.Session.Leads.{
  Leads, Implies, Leads-Keeps, Leads-from, Leads-bind, Leads-if, Leads-try_except,
}
use adehun_api.WalletRepository.{
  EntryRequest, LedgerLeg, leg_request, apply_ledger_entry, apply_unless, apply_entry,
  apply_transfer,
}
use adehun_api.WalletRepository.Grows.{
  Grows, resolve_wallet_id-keeps, write_and_commit-keeps, write_both_and_commit-keeps,
}
use adehun_api.WalletRepository.Stable.{
  Stable, replay-keeps, entry_failed-keeps, replay_transfer-keeps, transfer_failed-keeps,
}

module _ {Q P : Session → Type 0} (grows : Grows Q) (stable : Stable P) (weaken : Implies Q P) where
  later : {A : Type 0} (m : Action A) → Keeps P m → Leads Q P m
  later m keeps = Leads-from m weaken (Leads-Keeps m (λ s p. p) keeps)

  module _ (r : EntryRequest) (writes : (i : ℕ) → Keeps Q (apply_ledger_entry i r)) where
    apply_unless-leads : (o : Option Transaction) → Leads Q P (apply_unless r o)
    apply_unless-leads (some e) = later _ (replay-keeps stable e)
    apply_unless-leads none = Leads-bind _ _ weaken (resolve_wallet_id-keeps grows r.user_id) (λ i.
        Leads-try_except _ _ weaken (write_and_commit-keeps grows r writes i)
          (λ e. later _ (entry_failed-keeps stable r.reference e)))

    pub apply_entry-leads : Leads Q P (apply_entry r)
    unfolding apply_entry
    apply_entry-leads = Leads-bind _ _ weaken (Keeps-query _) apply_unless-leads

  module _ (g : ℕ) (debit credit : LedgerLeg)
      (pays : (i : ℕ) → Keeps Q (apply_ledger_entry i (leg_request (esc_rel_out g) g debit)))
      (receives : (i : ℕ)
        → Keeps Q (apply_ledger_entry i (leg_request (esc_rel_in g) g credit))) where
    pub apply_transfer-leads : Leads Q P (apply_transfer g debit credit)
    unfolding apply_transfer
    apply_transfer-leads = Leads-bind _ _ weaken (Keeps-query _) (λ existing.
        Leads-if _ _ _ (λ _. later _ (replay_transfer-keeps stable g existing))
          (λ _. Leads-bind _ _ weaken (resolve_wallet_id-keeps grows debit.user_id) (λ i.
            Leads-bind _ _ weaken (resolve_wallet_id-keeps grows credit.user_id) (λ j.
              Leads-try_except _ _ weaken
                (write_both_and_commit-keeps grows g debit credit pays receives i j)
                (λ e. later _ (transfer_failed-keeps stable g e))))))
