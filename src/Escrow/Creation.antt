-- ===== src/Escrow/Creation.antt =====
-- Invariants of a session over the creation of an agreement.
use adehun_api.Prelude.{ℕ, zero, suc, Option, some, none}
use adehun_api.Enums.{ParticipantRole}
use adehun_api.Money.{Decimal}
use adehun_api.Models.{AgreementParticipant}
use adehun_api.Errors.{Error}
use adehun_api.Session.{Session, commit, rollback, uuid4}
use adehun_api.Session.Keeps.{Keeps, keeps_rules, Keeps-bind, Keeps-raise_if, Keeps-try_except}
use adehun_api.WalletRepository.Stable.{Stable}
use adehun_api.AgreementService.Creation.{
  add_conditions, ensure_creator, fill_in, set_up, creation_failed, create_agreement,
}
use adehun_api.Escrow.Stable.{StableRows}

module _ {P : Session → Type 0} (stable : Stable P) (rows : StableRows P) where
  open rows use {at_add_participant, at_add_invitation, at_add_condition}

  commits : Keeps P commit
  commits = stable.at_commit

  rolls_back : Keeps P rollback
  rolls_back = stable.at_rollback

  uuids : Keeps P uuid4
  uuids = stable.at_uuid4

  add_conditions-keeps : (k a p i : ℕ) → Keeps P (add_conditions k a p i)
  unfolding add_conditions
  add_conditions-keeps zero a p i = search keeps_rules
  add_conditions-keeps (suc k) a p i =
      search (keeps_rules, uuids, at_add_condition, add_conditions-keeps k) depth 10

  ensure_creator-keeps :
      (a u : ℕ) (role : ParticipantRole) (o : Option AgreementParticipant)
      → Keeps P (ensure_creator a u role o)
  ensure_creator-keeps a u role (some p) = search keeps_rules
  ensure_creator-keeps a u role none =
      search (keeps_rules, uuids, at_add_participant, commits) depth 10

  pub fill_in-keeps :
      (role : ParticipantRole) (u invitee k a : ℕ) → Keeps P (fill_in role u invitee k a)
  unfolding fill_in
  fill_in-keeps role u invitee k a =
      search
        (
          keeps_rules, uuids, at_add_participant, at_add_invitation, add_conditions-keeps, commits,
          ensure_creator-keeps,
        )
        depth 30

  creation_failed-keeps : (e : Error) → Keeps P (creation_failed e)
  unfolding creation_failed
  creation_failed-keeps e = search (keeps_rules, rolls_back)

  -- From what the first writes keep.
  pub create_agreement-keeps_set_up :
      (role : ParticipantRole) (u email invitee : ℕ) (amount : Decimal) (k : ℕ)
      → Keeps P (set_up role u invitee amount k)
      → Keeps P (create_agreement role u email invitee amount k)
  unfolding create_agreement
  create_agreement-keeps_set_up role u email invitee amount k opens =
      Keeps-bind _ _ (Keeps-raise_if _ _) (λ _. Keeps-try_except _ _ opens creation_failed-keeps)
