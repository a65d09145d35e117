-- ===== src/AgreementService/Steps.antt =====
-- The steps of an agreement from its creation to its acceptance, with the tables after each commit.
use adehun_api.Prelude.{
  ℕ, zero, suc, ◌+◌, ◌≡◌, ◌∙◌, ap, refl, false, ◌&&◌, none, some, List, [], ◌∷◌, find, select_all,
  ◌==◌, ==_refl, arith,
}
use adehun_api.Enums.{ParticipantRole, InvitationStatus, AgreementStatus}
use adehun_api.Money.{Decimal}
use adehun_api.Models.{Db, Agreement, AgreementParticipant, Invitation, InviteState, Condition}
use adehun_api.Session.{Session, ok, ◌>>=◌, commit, constraints, fresh}
use adehun_api.Session.Commits.{IsCommittable, commit_ok}
use adehun_api.AgreementService.{
  agreement_by_id, participants_for, add_participant, set_agreement_status, save_agreement,
  accept_agreement, accept_new, join, status_after, point_conditions, set_invitation,
}
use adehun_api.Conditions.{add_row}
use adehun_api.AgreementService.Creation.{
  opposite, add_agreement, add_invitation, add_conditions, creator, set_up, fill_in,
  create_agreement,
}

-- The loop over the conditions changes their table only, and draws ids.
add_conditions_run :
    (k a p i : ℕ) (s : Session)
    → (m : ℕ) × (cs : List Condition) × (add_conditions k a p i s
        ≡ (ok tt, record s { next_id = m; working = record s.working { conditions = cs } }))
unfolding add_conditions add_row ◌>>=◌
add_conditions_run zero a p i s = (s.next_id, s.working.conditions, refl)
add_conditions_run (suc k) a p i s = add_conditions_run k a p i _

none_for :
    (a v : ℕ) (ps : List AgreementParticipant)
    → select_all (λ p. p.agreement_id == a) ps ≡ []
    → find (λ p. p.agreement_id == a && p.user_id == v) ps ≡ none
none_for a v [] h = refl
none_for a v (p ∷ ps) h = ground (arith, none_for a v ps)

module _ (role : ParticipantRole) (u invitee : ℕ) (amount : Decimal) (k : ℕ) (db : Db) (n : ℕ) where
  abbrev pub agreed : AgreementStatus → Agreement
  agreed status = record { id = n; user_id = u; amount = amount; status = status }

  abbrev pub invitation : InviteState → Invitation
  invitation state = record {
    id = n + 1 + 1;
    email = invitee;
    agreement_id = n;
    role = opposite role;
    status = some state;
  }

  -- The tables that a creation writes, up to the conditions.
  abbrev pub opened : List Condition → Db
  opened cs = record db {
    agreements = agreed AgreementStatus.pending ∷ db.agreements;
    participants = creator (n + 1) n u role ∷ db.participants;
    invitations = invitation InviteState.pending ∷ db.invitations;
    conditions = cs;
  }

  abbrev pub opening : List Condition → ℕ → Session
  opening cs m = record {
    committed = opened cs;
    working = opened cs;
    next_id = m;
    concurrent = λ d. d;
    redis = none;
  }

  set_up_run :
      IsCommittable db
      → (m : ℕ) × (cs : List Condition) × (set_up role u invitee amount k (fresh db n)
          ≡ (ok n, opening cs m))
  unfolding set_up fill_in add_agreement add_participant add_invitation constraints ◌>>=◌
  set_up_run good =
      let (m, cs, run) = add_conditions_run k n (n + 1) (n + 1 + 1) before in
      (
        m,
        cs,
        rw
            (
              run,
              commit_ok (record before { working = opened cs; next_id = m }) good,
              ==_refl n,
              ==_refl u,
              ==_refl n,
            )
            refl,
      )
    where
      before : Session
      before = record (fresh db n) { working = opened db.conditions; next_id = n + 1 + 1 + 1 }

  pub create_run :
      (email : ℕ)
      → (invitee == email) ≡ false
      → IsCommittable db
      → (m : ℕ) × (cs : List Condition) × (create_agreement role u email invitee amount k
            (fresh db n)
          ≡ (ok n, opening cs m))
  unfolding create_agreement ◌>>=◌
  create_run email other good = let (m, cs, run) = set_up_run good in (m, cs, rw (other, run) refl)

  module _ (v : ℕ) (cs : List Condition) (m : ℕ) (good : IsCommittable db)
      (apart : (u == v) ≡ false)
      (unused : select_all (λ p. p.agreement_id == n) db.participants ≡ []) where
    -- The tables after each commit of an acceptance.
    abbrev joined : Db
    joined =
        set_invitation (n + 1 + 1) InviteState.accepted
          (add_participant (creator m n v (opposite role)) (opened cs))

    abbrev activated : Db
    activated = set_agreement_status n AgreementStatus.active joined

    abbrev pub settled : Db
    settled = point_conditions n (n + 1 + 1) m activated

    abbrev pub at : Db → Session
    at w = record { committed = w; working = w; next_id = m + 1; concurrent = λ d. d; redis = none }

    joins : join n v (opposite role) InvitationStatus.accepted none (opening cs m) ≡ (
      ok m,
      record (opening cs m) {
        working = add_participant (creator m n v (opposite role)) (opened cs);
        next_id = m + 1;
      },
    )
    unfolding ◌>>=◌
    joins = refl

    both_accept : status_after (participants_for n joined) ≡ AgreementStatus.active
    unfolding set_invitation add_participant
    both_accept = rw (==_refl n, unused) refl

    -- The open transaction sees `w` over the committed tables `c`.
    abbrev over : Db → Db → Session
    over c w = record {
      committed = c;
      working = w;
      next_id = m + 1;
      concurrent = λ d. d;
      redis = none;
    }

    commits : commit (over (opened cs) joined) ≡ (ok tt, at joined)
    unfolding constraints set_invitation add_participant
    commits = commit_ok (over (opened cs) joined) good

    saves : save_agreement n AgreementStatus.active (at joined) ≡ (ok tt, at activated)
    unfolding constraints set_invitation add_participant set_agreement_status save_agreement ◌>>=◌
    saves = commit_ok (over joined activated) good

    activates :
        save_agreement n (status_after (participants_for n joined)) (at joined)
        ≡ (ok tt, at activated)
    activates = ap (λ t. save_agreement n t (at joined)) both_accept ∙ saves

    settles : commit (over activated settled) ≡ (ok tt, at settled)
    unfolding constraints set_invitation add_participant set_agreement_status point_conditions
    settles = commit_ok (over activated settled) good

    accept_new_run :
        accept_new n v (invitation InviteState.pending) none (opening cs m) ≡ (ok tt, at settled)
    unfolding ◌>>=◌
    accept_new_run = rw (==_refl n, commits, activates, settles) refl

    pub accept_run : accept_agreement n v invitee (opening cs m) ≡ (ok tt, at settled)
    unfolding accept_agreement ◌>>=◌
    accept_run =
        rw (==_refl n, ==_refl invitee, ==_refl n, apart, none_for n v db.participants unused)
          accept_new_run

    pub agreed_active : agreement_by_id n settled ≡ some (agreed AgreementStatus.active)
    unfolding set_agreement_status set_invitation add_participant point_conditions
    agreed_active = rw (==_refl n, ==_refl n) refl
