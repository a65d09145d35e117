-- ===== src/Tests/LifeCycle.antt =====
-- The life cycle at runs of the market.
use adehun_api.Prelude.{ℕ, ◌≡◌, refl, arith, true, false, ◌&&◌, none, some, List, [], ◌∷◌}
use adehun_api.Enums.{AgreementStatus, ParticipantRole, DisputeResolutionOutcome}
use adehun_api.Reference.{Reference, esc_ref, esc_rel_out}
use adehun_api.Models.{Db, Agreement}
use adehun_api.Session.{fresh}
use adehun_api.AgreementService.{agreement_by_id}
use adehun_api.Requests.{Request, serve_all}
use adehun_api.LifeCycle.{Reaches}
use adehun_api.LifeCycle.Orderly.{AgreementsBelow, IsOrderly, Follows-refl, is_paid}
use adehun_api.LifeCycle.Sessions.{InOrder}
use adehun_api.LifeCycle.Served.{serve_all_follows, serve_all_final, serve_all_one_payout}
use adehun_api.Tests.Data.{charge, market, start, naira, paystack, banks, settings}

-- A deposit, its lock in escrow, a dispute that is settled for the beneficiary, and further attempts
-- to get the money.
abbrev quarrel : List Request
quarrel =
    Request.deliver charge
    ∷ Request.fund none 1 7
    ∷ Request.contest 1 8 []
    ∷ Request.release 1 7
    ∷ Request.resolve 100 9 DisputeResolutionOutcome.favour_beneficiary
    ∷ Request.refund 1 true
    ∷ Request.create ParticipantRole.beneficiary 8 80 70 (naira 10) 1
    ∷ []

nothing : (db : Db) (r : Reference) → db.entries ≡ [] → is_paid r db.entries ≡ true → ⊥
nothing db r empty paid = ground (arith, empty)

-- No payout is on an empty ledger.
unpaid :
    (db : Db) (n : ℕ)
    → AgreementsBelow n db
    → db.entries ≡ []
    → db.disputes ≡ []
    → IsOrderly db n db
unpaid db n below entries disputes = record {
  follows = Follows-refl db;
  resumes = rw disputes refl;
  released = λ a paid. absurd (nothing db (esc_rel_out a) entries paid);
  refunded = λ a paid. absurd (nothing db (esc_ref a) entries paid);
  below = below;
}

in_order : (db : Db) (n : ℕ) → IsOrderly db n db → InOrder db (fresh db n)
in_order db n h = record {
  committed = h;
  working = h;
  concurrent = λ m d k. k;
  onwards = λ d. Follows-refl d;
}

market_below : AgreementsBelow 100 market
market_below a x found = ground arith

abbrev deal : Agreement
deal = record { id = 1; user_id = 7; amount = naira 60; status = AgreementStatus.active }

serve_all_follows_example :
    (y : Agreement) × (agreement_by_id 1
        (serve_all settings paystack banks (λ c. none) quarrel start).committed
      ≡ some y)
    × Reaches AgreementStatus.active y.status
serve_all_follows_example =
    serve_all_follows settings paystack banks (λ c. none) market quarrel start 1 deal
      (in_order market 100 (unpaid market 100 market_below refl refl)) refl

-- The market after a release.
abbrev finished : Db
finished = record market { agreements = record deal { status = AgreementStatus.completed } ∷ [] }

finished_below : AgreementsBelow 100 finished
finished_below a x found = ground arith

serve_all_final_example :
    (y : Agreement) × (agreement_by_id 1
        (serve_all settings paystack banks (λ c. none) quarrel (fresh finished 100)).committed
      ≡ some y)
    × (y.status ≡ AgreementStatus.completed)
serve_all_final_example =
    serve_all_final settings paystack banks (λ c. none) finished quarrel (fresh finished 100) 1
      (record deal { status = AgreementStatus.completed })
      (in_order finished 100 (unpaid finished 100 finished_below refl refl)) refl refl

serve_all_one_payout_example :
    (is_paid
        (esc_rel_out 1)
        (serve_all settings paystack banks (λ c. none) quarrel start).committed.entries
      && is_paid
          (esc_ref 1)
          (serve_all settings paystack banks (λ c. none) quarrel start).committed.entries)
    ≡ false
serve_all_one_payout_example =
    serve_all_one_payout settings paystack banks (λ c. none) market quarrel start 1
      (in_order market 100 (unpaid market 100 market_below refl refl))
