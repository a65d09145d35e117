-- ===== src/Disputes/Stable.antt =====
-- Invariants of a session over the evidence of app/service/dispute_service.py.
use adehun_api.Prelude.{ℕ, List, [], ◌∷◌}
use adehun_api.Errors.{Error}
use adehun_api.Session.{Session, commit, rollback, uuid4}
use adehun_api.Session.Keeps.{Keeps, keeps_rules, Keeps-bind, Keeps-pure}
use adehun_api.WalletRepository.Stable.{Stable}
use adehun_api.Escrow.Stable.{StableRows}
use adehun_api.Assets.{Upload}
use adehun_api.Disputes.{require_accepted, attach}
use adehun_api.Disputes.Evidence.{attach_and_commit, evidence_failed, add_evidence}

module _ {P : Session → Type 0} (stable : Stable P) (rows : StableRows P) where
  commits : Keeps P commit
  commits = stable.at_commit

  rolls_back : Keeps P rollback
  rolls_back = stable.at_rollback

  uuids : Keeps P uuid4
  uuids = stable.at_uuid4

  pub attach-keeps : (d p : ℕ) (files : List Upload) → Keeps P (attach d p files)
  unfolding attach
  attach-keeps d p [] = Keeps-pure _
  attach-keeps d p (f ∷ fs) = Keeps-bind _ _ uuids (λ i. Keeps-bind _ _ uuids (λ j.
      Keeps-bind _ _ (rows.at_add_asset _)
        (λ _. Keeps-bind _ _ (attach-keeps d p fs) (λ _. Keeps-pure _))))

  attach_and_commit-keeps : (d p : ℕ) (files : List Upload) → Keeps P (attach_and_commit d p files)
  unfolding attach_and_commit
  attach_and_commit-keeps d p files = search (keeps_rules, attach-keeps, commits) depth 10

  evidence_failed-keeps : (e : Error) → Keeps P (evidence_failed e)
  unfolding evidence_failed
  evidence_failed-keeps e = search (keeps_rules, rolls_back)

  pub require_accepted-keeps : (a u : ℕ) → Keeps P (require_accepted a u)
  unfolding require_accepted
  require_accepted-keeps a u = search keeps_rules depth 10

  pub add_evidence-keeps : (d u : ℕ) (files : List Upload) → Keeps P (add_evidence d u files)
  unfolding add_evidence
  add_evidence-keeps d u files =
      search (keeps_rules, require_accepted-keeps, attach_and_commit-keeps, evidence_failed-keeps)
        depth 16
