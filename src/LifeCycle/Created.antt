-- ===== src/LifeCycle/Created.antt =====
-- A new agreement (`flush` of app/repository/agreement_repository.py) and the life cycle.
use adehun_api.Prelude.{
  ℕ, ◌<◌, ◌≡◌, sym, ◌∙◌, none, some, arith, if◌then◌else◌, ◌==◌, Bool-cases, inl, inr,
}
use adehun_api.Enums.{AgreementStatus}
use adehun_api.Reference.{Reference, esc_ref, esc_rel_out}
use adehun_api.Models.{Db, Agreement}
use adehun_api.AgreementService.{agreement_by_id}
use adehun_api.AgreementService.Creation.{add_agreement}
use adehun_api.LifeCycle.Orderly.{Settles, IsOrderly}

-- A new agreement under an id that no other has.
module _ (start : Db) (n : ℕ) (db : Db) (h : IsOrderly start n db) (x : Agreement)
    (early : x.id < n) (unknown : agreement_by_id x.id db ≡ none) where
  still :
      (b : ℕ) (y : Agreement)
      → agreement_by_id b db ≡ some y
      → agreement_by_id b (add_agreement x db) ≡ some y
  unfolding add_agreement
  still b y found = elim (Bool-cases (x.id == b)) [
    | inr other ↦ rw other found
    | inl same ↦ absurd (clash (ground arith))
  ]
    where
      clash : x.id ≡ b → ⊥
      clash e = nothing (sym unknown ∙ (rw e found))
        where
          nothing : none ≡ some y → ⊥
          nothing k = cc

  add_agreement-Settles :
      (ref : ℕ → Reference) (t : AgreementStatus)
      → Settles ref t db
      → Settles ref t (add_agreement x db)
  add_agreement-Settles ref t settled b paid =
      let (y, found, was) = settled b (unfold add_agreement in paid) in (y, still b y found, was)

  pub add_agreement-IsOrderly : IsOrderly start n (add_agreement x db)
  add_agreement-IsOrderly = record {
    follows = λ b y found. let (z, there, r) = h.follows b y found in (z, still b z there, r);
    resumes = unfold add_agreement in h.resumes;
    released = add_agreement-Settles esc_rel_out AgreementStatus.completed h.released;
    refunded = add_agreement-Settles esc_ref AgreementStatus.refunded h.refunded;
    below = λ b y found. earlier b y (unfold add_agreement in found);
  }
    where
      earlier :
          (b : ℕ) (y : Agreement)
          → (if x.id == b then some x else agreement_by_id b db) ≡ some y
          → b < n
      earlier b y found = elim (Bool-cases (x.id == b)) [
        | inl same ↦ ground arith
        | inr other ↦ h.below b y (ground arith)
      ]
