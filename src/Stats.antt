-- ===== src/Stats.antt =====
-- app/service/stats_service.py over app/repository/stats_repository.py: how many agreements a user has, by
-- their status.
use adehun_api.Prelude.{ℕ, ◌==◌, Bool, ◌&&◌, ◌||◌, List, select_all, length, inner_join}
use adehun_api.Enums.{AgreementStatus, same_status}
use adehun_api.Models.{Db, Agreement}
use adehun_api.Session.{Action, query}

pub record AgreementStatistics : Type 0 where
  pub active_agreements : ℕ
  pub completed_agreements : ℕ
  pub total_agreements : ℕ

-- The join with the user's participations; an agreement under dispute counts as active.
abbrev pub agreements_of : ℕ → Db → List Agreement
agreements_of u db =
    inner_join (λ a p. p.agreement_id == a.id && p.user_id == u) db.participants db.agreements

abbrev counts_as_active : Agreement → Bool
counts_as_active a =
    same_status a.status AgreementStatus.active || same_status a.status AgreementStatus.disputed

unfoldable pub user_stats : ℕ → Db → AgreementStatistics
user_stats u db = record {
  active_agreements = length (select_all counts_as_active (agreements_of u db));
  completed_agreements =
      length
        (select_all (λ a. same_status a.status AgreementStatus.completed) (agreements_of u db));
  total_agreements = length (agreements_of u db);
}

unfoldable pub get_user_stats : ℕ → Action AgreementStatistics
get_user_stats u = query (user_stats u)
