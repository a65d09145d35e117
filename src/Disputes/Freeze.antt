-- ===== src/Disputes/Freeze.antt =====
-- `raise_dispute` of app/service/dispute_service.py and the agreement under dispute.
use mathlib.Core.Path.{subst}
use adehun_api.Prelude.{
  ℕ, ◌+◌, ◌≡◌, refl, sym, List, inl, inr, none, some, arith, ◌==◌, ==_refl, find-update,
  find-update_none, Option-cases,
}
use adehun_api.Enums.{AgreementStatus, DisputeStatus}
use adehun_api.Models.{Db, Agreement, Dispute, Asset}
use adehun_api.Errors.{Error, agreement_not_found, dispute_already_exists}
use adehun_api.Session.{Session, ok, err, ◌>>=◌, commit_cases}
use adehun_api.Session.Ensures.{Post, Ensures, Ensures-bind, Ensures-try_except, Ensures-raise}
use adehun_api.AgreementService.{
  agreement_by_id, set_agreement_status, get_escrow_context, blocks_release,
}
use adehun_api.Escrow.{release_agreement_escrow}
use adehun_api.Escrow.Closed.{release_refused}
use adehun_api.Assets.{Upload}
use adehun_api.Disputes.Attached.{attach-IsAttached}
use adehun_api.Disputes.{active_dispute, add_dispute, open_dispute, raise_failed, raise_dispute}

-- The committed database has the dispute `i` open on agreement `a`, which is disputed if it exists.
pub record IsFrozen (a i : ℕ) (s : Session) : Type 0 where
  pub saved : s.committed ≡ s.working
  pub dispute : (d : Dispute) × (active_dispute a s.committed ≡ some d) × (d.id ≡ i)
  pub disputed :
      (x : Agreement) → agreement_by_id a s.committed ≡ some x → x.status ≡ AgreementStatus.disputed

set_status_lem :
    (a : ℕ) (t : AgreementStatus) (db : Db) (x : Agreement)
    → agreement_by_id a (set_agreement_status a t db) ≡ some x
    → x.status ≡ t
unfolding set_agreement_status
set_status_lem a t db x h = elim (Option-cases (agreement_by_id a db)) [
  | inl missing ↦ ground (arith, find-update_none (λ y. y.id == a) change db.agreements missing)
  | inr (y, found) ↦
      ground (arith, find-update (λ z. z.id == a) change db.agreements (λ z k. k) found)
]
  where
    change : Agreement → Agreement
    change y = record y { status = t }

-- The row that `raise_dispute` adds.
abbrev raised : ℕ → ℕ → ℕ → ℕ → AgreementStatus → Dispute
raised i a u other before = record {
  id = i;
  agreement_id = a;
  raised_by_user_id = u;
  against_user_id = other;
  status = DisputeStatus.opened;
  agreement_status_before = before;
  resolution_outcome = none;
  resolved_by_user_id = none;
}

module _ (a u other : ℕ) (before : AgreementStatus) (assets : List Asset) (next : ℕ)
    (s : Session) where
  -- What is committed, where the evidence left these assets.
  abbrev pub frozen : Session
  frozen = record s {
    next_id = next;
    working =
        set_agreement_status a AgreementStatus.disputed
          (record (add_dispute (raised s.next_id a u other before) s.working) { assets = assets });
  }

  active-raised : active_dispute a frozen.working ≡ some (raised s.next_id a u other before)
  unfolding set_agreement_status add_dispute
  active-raised = rw (==_refl a)

module _ (a u other : ℕ) (before : AgreementStatus) (p : ℕ) (files : List Upload)
    (s : Session) where
  -- The session in which the evidence is attached.
  noted : Session
  noted = record s {
    next_id = s.next_id + 1;
    working = add_dispute (raised s.next_id a u other before) s.working;
  }

  open_dispute_freezes : Post (IsFrozen a) (open_dispute a u other before p files s)
  unfolding open_dispute noted ◌>>=◌
  open_dispute_freezes =
      let h = attach-IsAttached s.next_id p files noted in
      elim (commit_cases (frozen a u other before h.assets h.next s)) [
        | inr (e, failed) ↦ rw (h.done, failed) tt
        | inl (done, good) ↦
            rw (h.done, done)
              (record {
                saved = refl;
                dispute = (
                  raised s.next_id a u other before,
                  active-raised a u other before h.assets h.next s,
                  refl,
                );
                disputed =
                    set_status_lem a AgreementStatus.disputed
                      (record (add_dispute (raised s.next_id a u other before) s.working) {
                        assets = h.assets;
                      });
              })
      ]

open_dispute-Ensures :
    (a u other : ℕ) (before : AgreementStatus) (p : ℕ) (files : List Upload)
    → Ensures (IsFrozen a) (open_dispute a u other before p files)
open_dispute-Ensures a u other before p files = record {
  at = open_dispute_freezes a u other before p files;
}

raise_failed-Ensures : (a : ℕ) (e : Error) → Ensures (IsFrozen a) (raise_failed e)
unfolding raise_failed
raise_failed-Ensures a Error.integrity_error =
    Ensures-bind _ _ (λ _. Ensures-raise dispute_already_exists)
raise_failed-Ensures a _ = Ensures-bind _ _ (λ _. Ensures-raise _)

raise_dispute-Ensures :
    (a u : ℕ) (files : List Upload) → Ensures (IsFrozen a) (raise_dispute a u files)
unfolding raise_dispute
raise_dispute-Ensures a u files =
    search (Ensures-bind, Ensures-try_except, open_dispute-Ensures, raise_failed-Ensures) depth 24

-- When raising a dispute returns, the committed database has the returned dispute open on the
-- agreement, and if the agreement exists its status is disputed.
pub raise_dispute_freezes :
    (a u i : ℕ) (files : List Upload) (s s' : Session)
    → raise_dispute a u files s ≡ (ok i, s')
    → IsFrozen a i s'
raise_dispute_freezes a u i files s s' h =
    subst (Post (IsFrozen a)) h ((raise_dispute-Ensures a u files).at s)

-- After a dispute was raised on an agreement, releasing the agreement's escrow from the session
-- it leaves is refused, whoever asks, and changes nothing.
pub raise_dispute_blocks_release :
    (a u v i : ℕ) (files : List Upload) (s s' : Session)
    → raise_dispute a u files s ≡ (ok i, s')
    → (e : Error) × (release_agreement_escrow a v s' ≡ (err e, s'))
unfolding blocks_release release_agreement_escrow get_escrow_context ◌>>=◌
raise_dispute_blocks_release a u v i files s s' h =
    elim (Option-cases (agreement_by_id a s'.working)) [
      | inl missing ↦ (agreement_not_found, rw missing)
      | inr (x, found) ↦ release_refused a v s' x found (rw (status x found) refl)
    ]
  where
    frozen_now : IsFrozen a i s'
    frozen_now = raise_dispute_freezes a u i files s s' h

    status :
        (x : Agreement)
        → agreement_by_id a s'.working ≡ some x
        → x.status ≡ AgreementStatus.disputed
    status x found =
        frozen_now.disputed x
          (subst (λ db. agreement_by_id a db ≡ some x) (sym frozen_now.saved) found)
