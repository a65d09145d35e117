-- ===== src/LifeCycle/Orderly.antt =====
-- The life cycle over a database: every agreement of an earlier database is there and has moved along
-- it, and an escrow that was paid out left its agreement in the status of that payout.
use mathlib.Core.Path.{subst}
use adehun_api.Prelude.{
  ℕ, ◌+◌, ◌<◌, ◌≡◌, refl, ◌∙◌, Bool, true, Option, none, some, List, arith, if◌then◌else◌, ◌==◌,
  any, all, find_holds, find-update_if, find-update_other_none, any-update, Bool-cases,
  Option-cases, inl, inr,
}
use adehun_api.Enums.{AgreementStatus, LedgerEntryStatus, same_status}
use adehun_api.Reference.{Reference, IsPlain, esc_ref, esc_rel_out, same_reference, eq_of_same}
use adehun_api.Models.{Db, Agreement, Dispute, Transaction}
use adehun_api.AgreementService.{agreement_by_id, set_agreement_status}
use adehun_api.WalletRepository.{set_status, with_status, write_entry}
use adehun_api.LifeCycle.{Reaches, Reaches-trans, Reaches-final, is_final}

-- Every agreement of `db` is in `db'`, in a status that it can reach.
abbrev pub Follows : Db → Db → Type 0
Follows db db' =
    (a : ℕ) (x : Agreement)
    → agreement_by_id a db ≡ some x
    → (y : Agreement) × (agreement_by_id a db' ≡ some y) × Reaches x.status y.status

-- The ledger has the entry.
abbrev pub is_paid : Reference → List Transaction → Bool
is_paid r es = any (λ e. same_reference e.reference r) es

-- If there is an entry under a reference, then the agreement exists and has the status.
abbrev pub Settles : (ℕ → Reference) → AgreementStatus → Db → Type 0
Settles ref t db =
    (a : ℕ)
    → is_paid (ref a) db.entries ≡ true
    → (x : Agreement) × (agreement_by_id a db ≡ some x) × (x.status ≡ t)

-- The ids of the agreements were given out before `n`.
abbrev pub AgreementsBelow : ℕ → Db → Type 0
AgreementsBelow n db = (a : ℕ) (x : Agreement) → agreement_by_id a db ≡ some x → a < n

abbrev pub was_active : Dispute → Bool
was_active d = same_status d.agreement_status_before AgreementStatus.active

pub record IsOrderly (start : Db) (n : ℕ) (db : Db) : Type 0 where
  pub follows : Follows start db
  pub resumes : all was_active db.disputes ≡ true
  pub released : Settles esc_rel_out AgreementStatus.completed db
  pub refunded : Settles esc_ref AgreementStatus.refunded db
  pub below : AgreementsBelow n db

pub Follows-refl : (db : Db) → Follows db db
Follows-refl db a x found = (x, found, Reaches.here)

-- The agreement `b` after the status of `a` was set.
abbrev pub restated : ℕ → AgreementStatus → Agreement → Agreement
restated a t x = if x.id == a then record x { status = t } else x

module _ (a : ℕ) (t : AgreementStatus) (db : Db) where
  pub found_after :
      (b : ℕ) (x : Agreement)
      → agreement_by_id b db ≡ some x
      → agreement_by_id b (set_agreement_status a t db) ≡ some (restated a t x)
  unfolding set_agreement_status
  found_after b x found =
      find-update_if (λ y. y.id == b) (λ y. y.id == a) (λ y. record y { status = t }) db.agreements
        (λ y. refl) found

  found_before :
      (b : ℕ) (y : Agreement)
      → agreement_by_id b (set_agreement_status a t db) ≡ some y
      → (x : Agreement) × (agreement_by_id b db ≡ some x) × (y ≡ restated a t x)
  found_before b y found = elim (Option-cases (agreement_by_id b db)) [
    | inl missing ↦ ground (arith, gone missing)
    | inr (x, there) ↦ (x, there, ground (arith, found_after b x there))
  ]
    where
      gone : agreement_by_id b db ≡ none → agreement_by_id b (set_agreement_status a t db) ≡ none
      gone missing =
          unfold set_agreement_status in
          find-update_other_none (λ y. y.id == b) (λ y. y.id == a) (λ y. record y { status = t })
            db.agreements (λ y. refl) missing

  module _ (start : Db) (n : ℕ) (h : IsOrderly start n db)
      (legal : (x : Agreement) → agreement_by_id a db ≡ some x → Reaches x.status t) where
    restated-Reaches :
        (b : ℕ) (x : Agreement)
        → agreement_by_id b db ≡ some x
        → Reaches x.status (restated a t x).status
    restated-Reaches b x found = elim (Bool-cases (x.id == a)) [
      | inr other ↦ rw other Reaches.here
      | inl same ↦ rw same (legal x (subst (λ k. agreement_by_id k db ≡ some x) (here same) found))
    ]
      where
        here : (x.id == a) ≡ true → b ≡ a
        here same = ground (arith, find_holds (λ y. y.id == b) db.agreements found)

    keeps_settled :
        (ref : ℕ → Reference) (u : AgreementStatus)
        → is_final u ≡ true
        → Settles ref u db
        → Settles ref u (set_agreement_status a t db)
    keeps_settled ref u final settled b paid =
        let (x, there, was) = settled b (unfold set_agreement_status in paid) in
        (
          restated a t x,
          found_after b x there,
          Reaches-final (restated-Reaches b x there) (rw was final) ∙ was,
        )

    -- A status that the agreement can reach from the one that it has.
    pub set_agreement_status-IsOrderly : IsOrderly start n (set_agreement_status a t db)
    set_agreement_status-IsOrderly = record {
      follows = λ b x found.
          let (y, there, r) = h.follows b x found in
          (restated a t y, found_after b y there, Reaches-trans r (restated-Reaches b y there));
      resumes = unfold set_agreement_status in h.resumes;
      released = keeps_settled esc_rel_out AgreementStatus.completed refl h.released;
      refunded = keeps_settled esc_ref AgreementStatus.refunded refl h.refunded;
      below = λ b y found. let (x, there, e) = found_before b y found in h.below b x there;
    }

-- A write that leaves the agreements, the entries and the disputes alone, or changes them out of
-- sight of `IsOrderly`.
pub same-IsOrderly :
    (start : Db) (n : ℕ) (db db' : Db)
    → IsOrderly start n db
    → db'.agreements ≡ db.agreements
    → all was_active db'.disputes ≡ true
    → ((r : Reference) → is_paid r db'.entries ≡ is_paid r db.entries)
    → IsOrderly start n db'
same-IsOrderly start n db db' h same resumes paid = record {
  follows = λ a x found. let (y, there, r) = h.follows a x found in (y, rw same there, r);
  resumes = resumes;
  released = λ a done.
      let (x, found, was) = h.released a (rw (← (paid (esc_rel_out a))) done) in
      (x, rw same found, was);
  refunded = λ a done.
      let (x, found, was) = h.refunded a (rw (← (paid (esc_ref a))) done) in
      (x, rw same found, was);
  below = λ a x found. h.below a x (rw (← same) found);
}

-- An id more may be given out.
pub IsOrderly-later : {start db : Db} {n : ℕ} → IsOrderly start n db → IsOrderly start (n + 1) db
IsOrderly-later {n = n} h = record {
  follows = h.follows;
  resumes = h.resumes;
  released = h.released;
  refunded = h.refunded;
  below = λ a x found. more a (h.below a x found);
}
  where
    more : (a : ℕ) → a < n → a < n + 1
    more a l = omega arith

-- The status of an entry is no part of its reference.
pub set_status-is_paid :
    (q : Reference) (status : LedgerEntryStatus) (stamped : Bool) (r : Reference) (db : Db)
    → is_paid r (set_status q status stamped db).entries ≡ is_paid r db.entries
unfolding with_status
set_status-is_paid q status stamped r db =
    any-update (λ e. same_reference e.reference r) _ (with_status status stamped) db.entries
      (λ e. refl)

-- A new entry counts for its own reference only.
module _ (start : Db) (n : ℕ) (e : Transaction) (db : Db) (h : IsOrderly start n db) where
  -- An entry under a payout's reference needs the agreement in the payout's status.
  abbrev pub Justifies : (ℕ → Reference) → AgreementStatus → Type 0
  Justifies ref u =
      (a : ℕ)
      → e.reference ≡ ref a
      → (x : Agreement) × (agreement_by_id a db ≡ some x) × (x.status ≡ u)

  write_entry-Settles :
      (ref : ℕ → Reference) (u : AgreementStatus)
      → Settles ref u db
      → Justifies ref u
      → Settles ref u (write_entry e db)
  unfolding write_entry
  write_entry-Settles ref u settled legal a paid =
      elim (Bool-cases (same_reference e.reference (ref a))) [
        | inl same ↦ legal a (eq_of_same e.reference (ref a) same)
        | inr other ↦ settled a (ground arith)
      ]

  pub write_entry-IsOrderly :
      Justifies esc_rel_out AgreementStatus.completed
      → Justifies esc_ref AgreementStatus.refunded
      → IsOrderly start n (write_entry e db)
  write_entry-IsOrderly releases refunds = record {
    follows = unfold write_entry in h.follows;
    resumes = unfold write_entry in h.resumes;
    released = write_entry-Settles esc_rel_out AgreementStatus.completed h.released releases;
    refunded = write_entry-Settles esc_ref AgreementStatus.refunded h.refunded refunds;
    below = unfold write_entry in h.below;
  }

-- A plain reference is none of an escrow payout.
pub IsPlain-not_release : (r : Reference) (a : ℕ) → IsPlain r → r ≡ esc_rel_out a → ⊥
IsPlain-not_release r a plain e = subst IsPlain e plain

pub IsPlain-not_refund : (r : Reference) (a : ℕ) → IsPlain r → r ≡ esc_ref a → ⊥
IsPlain-not_refund r a plain e = subst IsPlain e plain

-- Two lookups find one agreement.
pub same_found :
    (C : AgreementStatus → Type 0) (o : Option Agreement) (x y : Agreement)
    → o ≡ some x
    → o ≡ some y
    → C x.status
    → C y.status
same_found C o x y found there holds = subst C same holds
  where
    same : x.status ≡ y.status
    same = cc
