-- ===== src/Disputes/Listings.antt =====
-- The listings of app/service/dispute_service.py over app/repository/dispute_repository.py. The newest row
-- of a table stands first, so `ORDER BY created_at DESC` is the table's order. The categories of the
-- admin's queue are a parameter.
use adehun_api.Prelude.{
  ℕ, Bool, true, ◌&&◌, List, Option, none, some, select_all, length, page, inner_join, ◌==◌,
}
use adehun_api.Enums.{DisputeStatus, same_dispute_status}
use adehun_api.Models.{Db, Dispute}
use adehun_api.Session.{Action, pure, query, ◌>>=◌, ◌>>◌}
use adehun_api.Disputes.{require_accepted}
use adehun_api.Disputes.Evidence.{is_party}

-- `get_agreement_disputes_for_user`, a join with the participants
abbrev pub agreement_disputes_for_user : ℕ → ℕ → Db → List Dispute
agreement_disputes_for_user a u db =
    inner_join (λ d p. p.agreement_id == d.agreement_id && p.user_id == u) db.participants
      (select_all (λ d. d.agreement_id == a) db.disputes)

unfoldable pub get_agreement_disputes : ℕ → ℕ → Action (List Dispute)
get_agreement_disputes a u = do require_accepted a u; query (agreement_disputes_for_user a u)

abbrev pub disputes_of : ℕ → Db → List Dispute
disputes_of u db = select_all (is_party u) db.disputes

pub record DisputeList : Type 0 where
  pub disputes : List Dispute
  pub total : ℕ

-- `list_for_user` and `count_for_user`
unfoldable pub get_user_disputes : ℕ → ℕ → ℕ → Action DisputeList
get_user_disputes u skip limit = do
  ds ← query (λ db. page skip limit (disputes_of u db))
  total ← query (λ db. length (disputes_of u db))
  pure (record { disputes = ds; total = total })

abbrev status_matches : Option DisputeStatus → Dispute → Bool
status_matches none d = true
status_matches (some t) d = same_dispute_status d.status t

module _ (in_category : Dispute → Bool) where
  abbrev pub queue : Option DisputeStatus → Db → List Dispute
  queue status db = select_all (λ d. status_matches status d && in_category d) db.disputes

  -- `list_all` and `count_all`
  unfoldable pub admin_list_disputes : Option DisputeStatus → ℕ → ℕ → Action DisputeList
  admin_list_disputes status skip limit = do
    ds ← query (λ db. page skip limit (queue status db))
    total ← query (λ db. length (queue status db))
    pure (record { disputes = ds; total = total })
