-- ===== src/LifeCycle/Served.antt =====
-- The life cycle of the agreements over sequences of requests.
use adehun_api.Prelude.{ℕ, ◌≡◌, refl, true, false, some, Option, inl, inr, List, ◌&&◌, Bool-cases}
use adehun_api.Enums.{AgreementStatus}
use adehun_api.Reference.{esc_ref, esc_rel_out}
use adehun_api.Models.{Db, Agreement}
use adehun_api.Session.{Session}
use adehun_api.WalletService.{Settings, Provider}
use adehun_api.BankAccounts.{Banks}
use adehun_api.AgreementService.{agreement_by_id}
use adehun_api.Escrow.Stable.{StableRoutes}
use adehun_api.Requests.{Request, serve_all}
use adehun_api.Requests.Stable.{serve_all-keeps}
use adehun_api.LifeCycle.{Reaches, Reaches-final, is_final}
use adehun_api.LifeCycle.Orderly.{is_paid}
use adehun_api.LifeCycle.Sessions.{
  InOrder, InOrder-stable, InOrder-rows, InOrder-adds, InOrder-updates, InOrder-accounts,
  InOrder-users,
}
use adehun_api.LifeCycle.Payouts.{perform_escrow_release-InOrder, perform_escrow_refund-InOrder}
use adehun_api.LifeCycle.Routes.{
  accept_agreement-InOrder, cancel_agreement-InOrder, reject_agreement-InOrder,
}
use adehun_api.LifeCycle.Opened.{create_agreement-InOrder}
use adehun_api.LifeCycle.Contested.{raise_dispute-InOrder, resolve_dispute-InOrder}

routes : (start : Db) → StableRoutes (InOrder start)
routes start = record {
  at_release = perform_escrow_release-InOrder start;
  at_refund = perform_escrow_refund-InOrder start;
  at_cancel = cancel_agreement-InOrder start;
  at_accept = accept_agreement-InOrder start;
  at_reject = reject_agreement-InOrder start;
  at_raise = raise_dispute-InOrder start;
  at_create =
      λ role u email invitee amount k. create_agreement-InOrder start role u invitee amount k email;
  at_resolve = resolve_dispute-InOrder start;
}

module _ (settings : Settings) (provider : Provider) (banks : Banks) (owner : ℕ → Option ℕ)
    (start : Db) (rs : List Request) (s : Session) where
  abbrev end : Db
  end = (serve_all settings provider banks owner rs s).committed

  served : InOrder start s → InOrder start (serve_all settings provider banks owner rs s)
  served =
      serve_all-keeps (InOrder-stable start) (InOrder-rows start) (routes start)
        (InOrder-accounts start) (InOrder-users start) (InOrder-adds start)
        (λ k f same. InOrder-updates start k f) settings provider banks owner rs s

  -- Whatever requests are served in whatever order, every agreement that the database had at
  -- the start is there afterwards, in a status that it can reach by the steps of the life cycle
  -- from the one that it had; if at the start the disputes were raised on active agreements,
  -- each escrow that was paid out has an agreement in the status of the payout, and no
  -- agreement has an id that is still to be drawn, and if what other transactions commit at the
  -- waits for a lock keeps that and moves the agreements by those steps too.
  pub serve_all_follows :
      (a : ℕ) (x : Agreement)
      → InOrder start s
      → agreement_by_id a start ≡ some x
      → (y : Agreement) × (agreement_by_id a end ≡ some y) × Reaches x.status y.status
  serve_all_follows a x h found = (served h).committed.follows a x found

  -- After any sequence of requests, under the same conditions on the start and on other
  -- transactions, an agreement that was completed or refunded at the start still has that
  -- status.
  pub serve_all_final :
      (a : ℕ) (x : Agreement)
      → InOrder start s
      → agreement_by_id a start ≡ some x
      → is_final x.status ≡ true
      → (y : Agreement) × (agreement_by_id a end ≡ some y) × (y.status ≡ x.status)
  serve_all_final a x h found final =
      let (y, there, r) = serve_all_follows a x h found in (y, there, Reaches-final r final)

  -- After any sequence of requests, under the same conditions on the start and on other
  -- transactions, no agreement has both a release and a refund on the committed ledger, whether
  -- it was there at the start or was created since.
  pub serve_all_one_payout :
      (a : ℕ)
      → InOrder start s
      → is_paid (esc_rel_out a) end.entries && is_paid (esc_ref a) end.entries ≡ false
  serve_all_one_payout a h = elim (Bool-cases (is_paid (esc_rel_out a) end.entries)) [
    | inr unreleased ↦ rw unreleased refl
    | inl released ↦ elim (Bool-cases (is_paid (esc_ref a) end.entries)) [
      | inr unrefunded ↦ rw (released, unrefunded) refl
      | inl refunded ↦
          let db = (served h).committed in
          let (x, found, completed) = db.released a released in
          let (y, there, returned) = db.refunded a refunded in
          absurd (clash x y found there completed returned)
    ]
  ]
    where
      clash :
          (x y : Agreement)
          → agreement_by_id a end ≡ some x
          → agreement_by_id a end ≡ some y
          → x.status ≡ AgreementStatus.completed
          → y.status ≡ AgreementStatus.refunded
          → ⊥
      clash x y found there c r = cc
