-- ===== src/Escrow/Closed.antt =====
-- The routes of app/routers/agreement.py on agreements whose status closes them.
use adehun_api.Prelude.{
  ℕ, ◌≡◌, refl, Bool, true, false, not, ◌⊎◌, Option, some, ◌==◌, Option-cases, inl, inr, arith,
}
use adehun_api.Enums.{AgreementStatus, same_status}
use adehun_api.Models.{Agreement}
use adehun_api.Errors.{Error, bad_request, forbidden}
use adehun_api.Session.{Session, Action, err, ◌>>=◌}
use adehun_api.Session.Refuses.{
  Reads, Refuses, refuses_rules, Refuses-bind, Reads-raise_if, Refuses-first,
}
use adehun_api.AgreementService.{
  EscrowContext, agreement_by_id, participant_for_user, get_escrow_context, blocks_funding,
  shown_status, blocks_release, blocks_refund, may_cancel, prepare_escrow_funding, prepare_release,
  prepare_refund, cancel_agreement,
}
use adehun_api.Escrow.{
  fund_agreement, perform_escrow_release, perform_escrow_refund, release_agreement_escrow,
  refund_agreement_escrow, cancel_route,
}

-- The agreement has a status that passes a test.
abbrev pub HasStatus : (AgreementStatus → Bool) → ℕ → Session → Type 0
HasStatus test a s =
    (x : Agreement) × (agreement_by_id a s.working ≡ some x) × (test x.status ≡ true)

abbrev pub is_closed : AgreementStatus → Bool
is_closed AgreementStatus.disputed = true
is_closed AgreementStatus.completed = true
is_closed AgreementStatus.refunded = true
is_closed _ = false

pub get_escrow_context-Reads : (a : ℕ) → Reads (get_escrow_context a)
unfolding get_escrow_context
get_escrow_context-Reads a = search refuses_rules depth 14

prepare_release-Refuses : (a : ℕ) → Refuses (HasStatus blocks_release a) (prepare_release a)
unfolding prepare_release ◌>>=◌
prepare_release-Refuses a =
    Refuses-bind _ _ (get_escrow_context-Reads a)
      (λ c. record { at = λ s (x, found, blocked). (bad_request, rw (found, blocked)) })

release_agreement_escrow-Refuses :
    (a u : ℕ) → Refuses (HasStatus blocks_release a) (release_agreement_escrow a u)
unfolding release_agreement_escrow perform_escrow_release
release_agreement_escrow-Refuses a u =
    search (refuses_rules, get_escrow_context-Reads, first, prepare_release-Refuses) depth 16
  where
    first :
        {B : Type 0} (f : EscrowContext → Action B)
        → Refuses (HasStatus blocks_release a) (prepare_release a >>= f)
    first f = Refuses-first _ _ (prepare_release-Refuses a)

prepare_refund-Refuses : (a : ℕ) → Refuses (HasStatus blocks_refund a) (prepare_refund a)
unfolding prepare_refund ◌>>=◌
prepare_refund-Refuses a =
    Refuses-bind _ _ (get_escrow_context-Reads a)
      (λ c. record { at = λ s (x, found, blocked). (bad_request, rw (found, blocked)) })

refund_agreement_escrow-Refuses :
    (a : ℕ) (is_admin : Bool)
    → Refuses (HasStatus blocks_refund a) (refund_agreement_escrow a is_admin)
unfolding refund_agreement_escrow perform_escrow_refund
refund_agreement_escrow-Refuses a is_admin = search (refuses_rules, first) depth 16
  where
    first :
        {B : Type 0} (f : EscrowContext → Action B)
        → Refuses (HasStatus blocks_refund a) (prepare_refund a >>= f)
    first f = Refuses-first _ _ (prepare_refund-Refuses a)

-- A status that the funding guard refuses, through the copy that Redis may hold.
abbrev shows_blocked : Option AgreementStatus → AgreementStatus → Bool
shows_blocked copy t = blocks_funding (shown_status copy t)

prepare_escrow_funding-Refuses :
    (copy : Option AgreementStatus) (a u : ℕ)
    → Refuses (HasStatus (shows_blocked copy) a) (prepare_escrow_funding copy a u)
unfolding prepare_escrow_funding ◌>>=◌
prepare_escrow_funding-Refuses copy a u = Refuses-bind _ _ (get_escrow_context-Reads a) (λ c.
    Refuses-bind _ _ (Reads-raise_if (not (c.depositor_user_id == u)) forbidden)
      (λ _. record { at = λ s (x, found, blocked). (bad_request, rw (found, blocked)) }))

fund_agreement-Refuses :
    (copy : Option AgreementStatus) (a u : ℕ)
    → Refuses (HasStatus (shows_blocked copy) a) (fund_agreement copy a u)
unfolding fund_agreement
fund_agreement-Refuses copy a u = Refuses-first _ _ (prepare_escrow_funding-Refuses copy a u)

closed_status :
    (t : AgreementStatus)
    → is_closed t ≡ true
    → (may_cancel t ≡ false) × (same_status t AgreementStatus.cancelled ≡ false)
unfolding may_cancel
closed_status AgreementStatus.disputed h = (refl, refl)
closed_status AgreementStatus.completed h = (refl, refl)
closed_status AgreementStatus.refunded h = (refl, refl)
closed_status _ h = ground arith

cancel_agreement-Refuses : (a u : ℕ) → Refuses (HasStatus is_closed a) (cancel_agreement a u)
unfolding cancel_agreement ◌>>=◌
cancel_agreement-Refuses a u = record {
  at = λ s (x, found, closed).
      let (stuck, going) = closed_status x.status closed in
      elim (Option-cases (participant_for_user a u s.working)) [
        | inl stranger ↦ (forbidden, rw (found, stranger))
        | inr (p, there) ↦ (bad_request, rw (found, there, going, stuck))
      ];
}

cancel_route-Refuses : (a u : ℕ) → Refuses (HasStatus is_closed a) (cancel_route a u)
unfolding cancel_route
cancel_route-Refuses a u = search (refuses_rules, cancel_agreement-Refuses) depth 12

-- An agreement that is disputed, cancelled or refunded cannot be released: whoever asks, the
-- route raises an error and changes nothing.
pub release_refused :
    (a u : ℕ) (s : Session) (x : Agreement)
    → agreement_by_id a s.working ≡ some x
    → blocks_release x.status ≡ true
    → (e : Error) × (release_agreement_escrow a u s ≡ (err e, s))
release_refused a u s x found blocked =
    (release_agreement_escrow-Refuses a u).at s (x, found, blocked)

closed_blocks :
    (t : AgreementStatus)
    → is_closed t ≡ true
    → (blocks_release t ≡ true) ⊎ (blocks_refund t ≡ true)
unfolding blocks_release blocks_refund
closed_blocks AgreementStatus.disputed h = inl refl
closed_blocks AgreementStatus.completed h = inr refl
closed_blocks AgreementStatus.refunded h = inl refl
closed_blocks _ h = ground arith

closed_blocks_funding : (t : AgreementStatus) → is_closed t ≡ true → blocks_funding t ≡ true
unfolding blocks_funding
closed_blocks_funding AgreementStatus.disputed h = refl
closed_blocks_funding AgreementStatus.completed h = refl
closed_blocks_funding AgreementStatus.refunded h = refl
closed_blocks_funding _ h = ground arith

-- An agreement that is disputed, completed or refunded, and that Redis does not show in another
-- status than one of these, cannot be funded or cancelled, and it cannot be released or cannot be
-- refunded, whoever asks: the refused routes raise an error and change nothing.
pub closed_refused :
    (a u v w : ℕ) (is_admin : Bool) (copy : Option AgreementStatus) (s : Session) (x : Agreement)
    → agreement_by_id a s.working ≡ some x
    → is_closed x.status ≡ true
    → is_closed (shown_status copy x.status) ≡ true
    → ((e : Error) × (fund_agreement copy a u s ≡ (err e, s)))
      × ((e : Error) × (cancel_route a v s ≡ (err e, s)))
      × (((e : Error) × (release_agreement_escrow a w s ≡ (err e, s)))
          ⊎ ((e : Error) × (refund_agreement_escrow a is_admin s ≡ (err e, s))))
closed_refused a u v w is_admin copy s x found closed shown = (
  (fund_agreement-Refuses copy a u).at s (x, found, closed_blocks_funding _ shown),
  (cancel_route-Refuses a v).at s (x, found, closed),
  elim (closed_blocks x.status closed) [
    | inl kept ↦ inl (release_refused a w s x found kept)
    | inr paid ↦ inr ((refund_agreement_escrow-Refuses a is_admin).at s (x, found, paid))
  ],
)
