-- ===== src/Tests/Disputes.antt =====
-- Evidence and secrecy at a dispute of the market.
use adehun_api.Prelude.{◌≡◌, refl, false, [], ◌∷◌, any, ◌==◌}
use adehun_api.Errors.{dispute_not_found}
use adehun_api.Session.{
  Session, ok, err, ◌>>=◌, commit, constraints, no_clash, distinct_references, one_active_dispute,
}
use adehun_api.AgreementService.{set_agreement_status}
use adehun_api.Assets.{Upload, add_asset}
use adehun_api.Disputes.{raise_dispute, open_dispute, require_accepted, attach, add_dispute}
use adehun_api.Disputes.Evidence.{get_dispute, add_evidence, attach_and_commit}
use adehun_api.Disputes.Listings.{DisputeList, get_user_disputes}
use adehun_api.Disputes.Filed.{IsFiled, add_evidence-IsFiled}
use adehun_api.Disputes.Scope.{dispute_hidden}
use adehun_api.Tests.Data.{start}

abbrev letter : Upload
letter = record { url = 5; type = 6; name = 7; size = 8 }

-- User 8 raises a dispute with a letter; user 7 answers with another.
abbrev raised_by_8 : Session
raised_by_8 = (raise_dispute 1 8 (letter ∷ []) start).1

abbrev answered_by_7 : Session
answered_by_7 = (add_evidence 100 7 (letter ∷ []) raised_by_8).1

add_evidence-IsFiled_example : IsFiled 100 (letter ∷ []) raised_by_8 (104 ∷ []) answered_by_7
unfolding raise_dispute require_accepted attach add_asset open_dispute add_dispute
    set_agreement_status add_evidence attach_and_commit commit constraints no_clash
    distinct_references one_active_dispute ◌>>=◌
add_evidence-IsFiled_example =
    add_evidence-IsFiled 100 7 (letter ∷ []) (104 ∷ []) raised_by_8 answered_by_7 refl

dispute_hidden_example :
    (get_dispute 100 9 raised_by_8 ≡ (err dispute_not_found, raised_by_8))
    × (add_evidence 100 9 (letter ∷ []) raised_by_8 ≡ (err dispute_not_found, raised_by_8))
    × ((l : DisputeList) × (get_user_disputes 9 0 20 raised_by_8 ≡ (ok l, raised_by_8))
        × (any (λ x. x.id == 100) l.disputes ≡ false))
unfolding raise_dispute require_accepted attach add_asset open_dispute add_dispute
    set_agreement_status commit constraints no_clash distinct_references one_active_dispute ◌>>=◌
dispute_hidden_example = dispute_hidden 100 9 0 20 (letter ∷ []) raised_by_8 refl
