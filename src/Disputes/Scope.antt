-- ===== src/Disputes/Scope.antt =====
-- Who learns of a dispute in app/service/dispute_service.py.
use adehun_api.Prelude.{
  ℕ, ◌≡◌, refl, Bool, false, ◌&&◌, List, [], ◌∷◌, none, find, any, select_all, take, drop, ◌==◌,
  zero, suc, arith,
}
use adehun_api.Models.{Dispute}
use adehun_api.Errors.{dispute_not_found}
use adehun_api.Session.{Session, ok, err, ◌>>=◌}
use adehun_api.Assets.{Upload}
use adehun_api.Disputes.Evidence.{is_party, dispute_for_user, get_dispute, add_evidence}
use adehun_api.Disputes.Listings.{DisputeList, get_user_disputes}

-- A dispute with this id has the user as a party.
abbrev pub concerns : ℕ → ℕ → List Dispute → Bool
concerns d u ds = any (λ x. x.id == d && is_party u x) ds

not_found :
    (d u : ℕ) (ds : List Dispute)
    → concerns d u ds ≡ false
    → find (λ x. x.id == d && is_party u x) ds ≡ none
not_found d u [] h = refl
not_found d u (x ∷ xs) h = ground (arith, not_found d u xs)

not_listed :
    (d u : ℕ) (ds : List Dispute)
    → concerns d u ds ≡ false
    → any (λ x. x.id == d) (select_all (is_party u) ds) ≡ false
not_listed d u [] h = refl
not_listed d u (x ∷ xs) h = ground (arith, not_listed d u xs)

take_without :
    (p : Dispute → Bool) (n : ℕ) (xs : List Dispute) → any p xs ≡ false → any p (take n xs) ≡ false
take_without p zero xs h = refl
take_without p (suc n) [] h = refl
take_without p (suc n) (x ∷ xs) h = ground (arith, take_without p n xs)

drop_without :
    (p : Dispute → Bool) (n : ℕ) (xs : List Dispute) → any p xs ≡ false → any p (drop n xs) ≡ false
drop_without p zero xs h = h
drop_without p (suc n) [] h = refl
drop_without p (suc n) (x ∷ xs) h = ground (arith, drop_without p n xs)

-- For a user who is no party to a dispute, reading it and adding evidence to it raise the error
-- that a dispute which does not exist raises, and change nothing, and no page of the user's
-- disputes shows it.
pub dispute_hidden :
    (d u skip limit : ℕ) (files : List Upload) (s : Session)
    → concerns d u s.working.disputes ≡ false
    → (get_dispute d u s ≡ (err dispute_not_found, s))
      × (add_evidence d u files s ≡ (err dispute_not_found, s))
      × ((l : DisputeList) × (get_user_disputes u skip limit s ≡ (ok l, s))
          × (any (λ x. x.id == d) l.disputes ≡ false))
unfolding get_dispute add_evidence get_user_disputes ◌>>=◌
dispute_hidden d u skip limit files s h = (
  rw unknown refl,
  rw unknown refl,
  (
    _,
    refl,
    take_without (λ x. x.id == d) limit _
        (drop_without (λ x. x.id == d) skip _ (not_listed d u s.working.disputes h)),
  ),
)
  where
    unknown : dispute_for_user d u s.working ≡ none
    unknown = not_found d u s.working.disputes h
