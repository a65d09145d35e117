-- ===== src/LifeCycle/Payouts.antt =====
-- The payouts of app/routers/agreement.py follow the life cycle: from the write of the final status
-- in `prepare_release` or `prepare_refund` to the commit of the ledger rows, that status stays, and
-- a failure rolls it back.
use adehun_api.Prelude.{
  ℕ, ◌≡◌, refl, true, false, some, ◌∙◌, ap, arith, ◌==◌, inl, inr, Bool-cases, any, find_holds,
}
use adehun_api.Enums.{AgreementStatus}
use adehun_api.Money.{Decimal}
use adehun_api.Reference.{esc_ref, esc_rel_out}
use adehun_api.Models.{Db, Agreement}
use adehun_api.Session.{Session, ◌>>=◌, commit, commit_cases, wait_for_lock}
use adehun_api.Session.Keeps.{Keeps}
use adehun_api.Session.Leads.{Leads}
use adehun_api.WalletRepository.{
  EntryRequest, create_wallet, insert_wallet, write_entry, apply_ledger_entry,
}
use adehun_api.WalletRepository.Outcome.{apply_ledger_entry_cases}
use adehun_api.WalletRepository.Grows.{Grows}
use adehun_api.WalletRepository.Payouts.{apply_entry-leads, apply_transfer-leads}
use adehun_api.WalletService.{release_escrow, refund_escrow}
use adehun_api.AgreementService.{agreement_by_id, blocks_release, blocks_refund}
use adehun_api.Escrow.{perform_escrow_release, perform_escrow_refund}
use adehun_api.Escrow.Prepared.{restated_in, prepare_release_cases, prepare_refund_cases}
use adehun_api.LifeCycle.{Step, Reaches, Reaches-final, Reaches-Step, is_final}
use adehun_api.LifeCycle.Orderly.{found_after, same_found, set_agreement_status-IsOrderly}
use adehun_api.LifeCycle.Sessions.{
  InOrder, InOrder-working, commit-InOrder, wait-InOrder, create_wallet-InOrder, entry-InOrder,
  InOrder-stable,
}

-- The agreement has the status in the open transaction.
abbrev pub IsNow : ℕ → AgreementStatus → Session → Type 0
IsNow a t s = (x : Agreement) × (agreement_by_id a s.working ≡ some x) × (x.status ≡ t)

module _ (start : Db) (a : ℕ) (t : AgreementStatus) where
  abbrev pub Paying : Session → Type 0
  Paying s = InOrder start s × IsNow a t s

  commit-Paying : Keeps Paying commit
  commit-Paying = record {
    at = λ s (p, now). (
      (commit-InOrder start).at s p,
      elim (commit_cases s) [ inr (e, failed) ↦ rw failed now | inl (done, good) ↦ rw done now ],
    );
  }

  -- A final status outlasts what others commit meanwhile.
  wait-Paying : is_final t ≡ true → Keeps Paying wait_for_lock
  unfolding wait_for_lock
  wait-Paying final = record {
    at = λ s (p, (x, found, now)).
        let (y, there, r) = p.onwards s.working a x found in
        ((wait-InOrder start).at s p, (y, there, Reaches-final r (ap is_final now ∙ final) ∙ now));
  }

  create_wallet-Paying : (u : ℕ) → Keeps Paying (create_wallet u)
  unfolding create_wallet ◌>>=◌
  create_wallet-Paying u = record {
    at = λ s (p, (x, found, now)).
        ((create_wallet-InOrder start u).at s p, (x, untouched s found, now));
  }
    where
      untouched :
          (s : Session) {x : Agreement}
          → agreement_by_id a s.working ≡ some x
          → agreement_by_id a (insert_wallet s.next_id u s.working) ≡ some x
      untouched s found = elim (Bool-cases (any (λ w. w.user_id == u) s.working.wallets)) [
        | inl known ↦ rw known found
        | inr new ↦ rw new found
      ]

  pub Paying-Grows : is_final t ≡ true → Grows Paying
  Paying-Grows final = record {
    at_commit = commit-Paying;
    at_wait = wait-Paying final;
    at_create_wallet = create_wallet-Paying;
  }

-- A movement whose reference is that of the payout `a`, in the payout's status.
entry-Paying :
    (start : Db) (a : ℕ) (t : AgreementStatus) (i : ℕ) (r : EntryRequest)
    → ((b : ℕ) → r.reference ≡ esc_rel_out b → (b ≡ a) × (t ≡ AgreementStatus.completed))
    → ((b : ℕ) → r.reference ≡ esc_ref b → (b ≡ a) × (t ≡ AgreementStatus.refunded))
    → Keeps (Paying start a t) (apply_ledger_entry i r)
unfolding write_entry
entry-Paying start a t i r releases refunds = record {
  at = λ s (p, now). (
    entry-InOrder start i r s p (λ b e. let (same, is) = releases b e in stays s b _ now same is)
        (λ b e. let (same, is) = refunds b e in stays s b _ now same is),
    written s now,
  );
}
  where
    stays : (s : Session) (b : ℕ) (u : AgreementStatus) → IsNow a t s → b ≡ a → t ≡ u → IsNow b u s
    stays s b u (x, found, now) same is = (x, rw same found, now ∙ is)

    written : (s : Session) → IsNow a t s → IsNow a t (apply_ledger_entry i r s).1
    written s now = elim (apply_ledger_entry_cases i r s) [
      | inr (e, failed) ↦ rw failed now
      | inl (w, _, _, done) ↦ rw done now
    ]

module _ (start : Db) (a : ℕ) where
  release_escrow-leads :
      (d b : ℕ) (amount : Decimal)
      → Leads
          (Paying start a AgreementStatus.completed)
          (InOrder start)
          (release_escrow a d b amount)
  unfolding release_escrow
  release_escrow-leads d b amount =
      apply_transfer-leads (Paying-Grows start a AgreementStatus.completed refl)
        (InOrder-stable start) (λ s (p, now). p) a _ _
        (λ i. entry-Paying start a _ i _ (λ k e. (cc, refl)) (λ k e. absurd (cc e)))
        (λ i. entry-Paying start a _ i _ (λ k e. absurd (cc e)) (λ k e. absurd (cc e)))

  refund_escrow-leads :
      (d : ℕ) (amount : Decimal)
      → Leads (Paying start a AgreementStatus.refunded) (InOrder start) (refund_escrow a d amount)
  unfolding refund_escrow
  refund_escrow-leads d amount =
      apply_entry-leads (Paying-Grows start a AgreementStatus.refunded refl) (InOrder-stable start)
        (λ s (p, now). p) _ (λ i. entry-Paying start a _ i _ (λ k e. absurd cc) (λ k e. (cc, refl)))

  releasable :
      (u : AgreementStatus) → blocks_release u ≡ false → Reaches u AgreementStatus.completed
  unfolding blocks_release
  releasable AgreementStatus.pending h = Reaches-Step Step.pay_early
  releasable AgreementStatus.active h = Reaches-Step Step.pay
  releasable AgreementStatus.completed h = Reaches.here
  releasable _ h = ground arith

  refundable : (u : AgreementStatus) → blocks_refund u ≡ false → Reaches u AgreementStatus.refunded
  unfolding blocks_refund
  refundable AgreementStatus.pending h = Reaches-Step Step.return_early
  refundable AgreementStatus.active h = Reaches-Step Step.return_active
  refundable AgreementStatus.disputed h = Reaches-Step Step.return_disputed
  refundable AgreementStatus.cancelled h = Reaches-Step Step.return_cancelled
  refundable AgreementStatus.refunded h = Reaches.here
  refundable _ h = ground arith

  -- After the preparation of a payout.
  restated-Paying :
      (t : AgreementStatus) (s : Session) (x : Agreement)
      → InOrder start s
      → agreement_by_id a s.working ≡ some x
      → Reaches x.status t
      → Paying start a t (restated_in a t s)
  restated-Paying t s x p found legal = (
    InOrder-working start s _ p (
        set_agreement_status-IsOrderly a t s.working start s.next_id p.working
          (λ y there. same_found (λ u. Reaches u t) _ x y found there legal)),
    (
      _,
      found_after a t s.working a x found,
      rw (find_holds (λ y. y.id == a) s.working.agreements found) refl,
    ),
  )

  pub perform_escrow_release-InOrder : Keeps (InOrder start) (perform_escrow_release a)
  unfolding perform_escrow_release ◌>>=◌
  perform_escrow_release-InOrder = record {
    at = λ s p. elim (prepare_release_cases a s) [
      | inl (e, failed) ↦ rw failed p
      | inr (c, x, found, free, done) ↦ rw done (
          (release_escrow-leads c.depositor_user_id c.beneficiary_user_id c.amount).at _
            (restated-Paying AgreementStatus.completed s x p found (releasable x.status free)))
    ];
  }

  pub perform_escrow_refund-InOrder : Keeps (InOrder start) (perform_escrow_refund a)
  unfolding perform_escrow_refund ◌>>=◌
  perform_escrow_refund-InOrder = record {
    at = λ s p. elim (prepare_refund_cases a s) [
      | inl (e, failed) ↦ rw failed p
      | inr (c, x, found, free, done) ↦ rw done (
          (refund_escrow-leads c.depositor_user_id c.amount).at _
            (restated-Paying AgreementStatus.refunded s x p found (refundable x.status free)))
    ];
  }
